-- ===== src/SpotifyId/Chars.antt =====
-- librespot_src/core/src/spotify_id.rs: the digit table of base 62 and the `match` of `from_base62`.
use mathlib.Core.List.{reverse, reverse-cons, map-append}
use mathlib.Core.Option.{some-injective}
use neotune.Common.{
  ℕ, zero, suc, ◌%◌, ◌/◌, ◌<◌, ◌≡◌, refl, ap, List, [], ◌∷◌, ◌++◌, map, arith, ◌==◌, Bool, true,
  false, Option, none, some, ==_iff, holds_below, holds_below-at, Option-cases, inl, inr,
}
use neotune.SpotifyId.{digit_char, base62_digit, digit_chars}
use neotune.SpotifyId.Digits.{digits}

-- The byte for a digit.
pub char_of : ℕ → ℕ
char_of d = elim (digit_char d) [ none ↦ 0 | some c ↦ c ]

char_check : ℕ → Bool
char_check d = elim (digit_char d) [
  | none ↦ false
  | some c ↦ elim (base62_digit c) [ none ↦ false | some e ↦ e == d ]
]

checked : (o : Option ℕ) (d : ℕ) → elim o [ none ↦ false | some e ↦ e == d ] ≡ true → o ≡ some d
checked none d h = cc
checked (some e) d h = ground arith

char_check_table : holds_below char_check 62 ≡ true
unfolding holds_below char_check base62_digit digit_char
char_check_table = refl

pub char_of_lem :
    (d : ℕ) → d < 62 → (digit_char d ≡ some (char_of d)) × (base62_digit (char_of d) ≡ some d)
unfolding char_of char_check
char_of_lem d h =
    let t = holds_below-at char_check 62 d char_check_table h in
    elim (Option-cases (digit_char d)) [
      | inl e ↦ cc (rw (e, char_check) at t)
      | inr (c, e) ↦ rw (e, char_of) (refl, checked (base62_digit c) d (rw (e, char_check) at t))
    ]

digit_check : ℕ → Bool
digit_check c = elim (base62_digit c) [ none ↦ true | some p ↦ char_of p == c ]

digit_check_table : holds_below digit_check 123 ≡ true
unfolding holds_below digit_check base62_digit char_of digit_char
digit_check_table = refl

pub base62_digit_bounds : (c p : ℕ) → base62_digit c ≡ some p → (p < 62) × (c < 123)
unfolding base62_digit
base62_digit_bounds c p h = ground arith

pub char_of-base62_digit : (c p : ℕ) → base62_digit c ≡ some p → char_of p ≡ c
unfolding digit_check
char_of-base62_digit c p h =
    let t = holds_below-at digit_check 123 c digit_check_table (base62_digit_bounds c p h).1 in
    (==_iff _ _).0 (rw (h, digit_check) at t)

digit_chars-append :
    (xs cs : List ℕ) (d : ℕ)
    → digit_chars xs ≡ some cs
    → d < 62
    → digit_chars (xs ++ (d ∷ [])) ≡ some (cs ++ (char_of d ∷ []))
unfolding digit_chars
digit_chars-append [] cs d e h =
    rw ((char_of_lem d h).0, digit_chars)
      (ap (λ (ys : List ℕ). some (ys ++ (char_of d ∷ []))) (some-injective [] cs e))
digit_chars-append (x ∷ xs) cs d e h = elim (Option-cases (digit_char x)) [
  | inl f ↦ cc (rw (f, digit_chars) at e)
  | inr (c, f) ↦ elim (Option-cases (digit_chars xs)) [
    | inl g ↦ cc (rw (f, g, digit_chars) at e)
    | inr (ds, g) ↦
        let whole : c ∷ ds ≡ cs = some-injective (c ∷ ds) cs (rw (f, g, digit_chars) at e) in
        rw (f, digit_chars-append xs ds d g h, digit_chars)
          (ap (λ (ys : List ℕ). some (ys ++ (char_of d ∷ []))) whole)
  ]
]

-- The bytes of the digits, highest first.
pub digit_chars-digits :
    (k n : ℕ) → digit_chars (reverse (digits k n)) ≡ some (map char_of (reverse (digits k n)))
digit_chars-digits zero n = unfold digit_chars in refl
digit_chars-digits (suc k) n =
    rw (reverse-cons (n % 62) (digits k (n / 62)), map-append)
      (digit_chars-append _ _ (n % 62) (digit_chars-digits k (n / 62)) (omega arith))
