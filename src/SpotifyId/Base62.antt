-- ===== src/SpotifyId/Base62.antt =====
-- `to_base62` and `from_base62`: exactness, and the round trips both ways.
use mathlib.Core.List.{reverse, reverse-cons, map-append, append_assoc, append-nil}
use native.Mathlib.Nat.{add-zero}
use neotune.Common.{
  ℕ, zero, suc, ◌+◌, ◌*◌, ◌/◌, ◌%◌, ◌<◌, ◌≤◌, ◌≡◌, refl, ap, ap₂, sym, ◌∙◌, List, [], ◌∷◌, ◌++◌,
  map, arith, ◌==◌, true, none, some, length, ok, ◌>>=◌, u128_mod, Option-cases, Bool-cases, inl,
  inr, Result-cases, replicate, length-append,
}
use neotune.SpotifyId.{
  SpotifyId, to_base62, from_base62, decode_step, decode_loop, digit_chars, base62_digit,
  word_passes, size_base62, checked_mul, checked_add,
}
use neotune.SpotifyId.Digits.{digits, pow62}
use neotune.SpotifyId.Encode.{word_passes-Holds}
use neotune.SpotifyId.Chars.{
  char_of, char_of_lem, base62_digit_bounds, char_of-base62_digit, digit_chars-digits,
}

-- The text of `n`: `k` base-62 digits, highest first.
pub plain_base62 : ℕ → ℕ → List ℕ
plain_base62 k n = map char_of (reverse (digits k n))

plain_base62-suc :
    (k n : ℕ) → plain_base62 (suc k) n ≡ plain_base62 k (n / 62) ++ (char_of (n % 62) ∷ [])
unfolding plain_base62
plain_base62-suc k n = rw (reverse-cons (n % 62) (digits k (n / 62)), map-append)

decode_loop-append :
    (d : ℕ) (xs ys : List ℕ)
    → decode_loop d (xs ++ ys) ≡ (decode_loop d xs >>= λ e. decode_loop e ys)
unfolding decode_loop
decode_loop-append d [] ys = refl
decode_loop-append d (x ∷ xs) ys = elim (Result-cases (decode_step d x)) [
  | inl (e, f) ↦ rw (f, decode_loop)
  | inr (d', f) ↦ rw (f, decode_loop) (decode_loop-append d' xs ys)
]

-- Reading one more digit.
decode_step-char :
    (d p : ℕ) → p < 62 → d * 62 + p < u128_mod → decode_step d (char_of p) ≡ ok (d * 62 + p)
unfolding decode_step checked_mul checked_add
decode_step-char d p h k = let (_, e) = char_of_lem p h in rw (e, decode_step) (ground arith)

decode_loop-plain_base62 :
    (k n : ℕ) → n < pow62 k → n < u128_mod → decode_loop 0 (plain_base62 k n) ≡ ok n
decode_loop-plain_base62 zero n h b =
    unfold decode_loop plain_base62 in ap ok (let e : 0 ≡ n = omega arith in e)
decode_loop-plain_base62 (suc k) n h b =
    let ih = decode_loop-plain_base62 k (n / 62) (omega arith) (omega arith) in
    let step = decode_step-char (n / 62) (n % 62) (omega arith) (omega arith) in
    let whole : n / 62 * 62 + n % 62 ≡ n = omega arith in
    rw
      (
        plain_base62-suc k n,
        decode_loop-append 0 (plain_base62 k (n / 62)) (char_of (n % 62) ∷ []),
        ih,
      )
      (unfold decode_loop in rw (step, whole))

-- `to_base62` never panics, and gives the 22 digits of the identifier that division gives.
pub to_base62-eq_plain :
    (s : SpotifyId) → s.id < u128_mod → to_base62 s ≡ some (plain_base62 22 s.id)
unfolding to_base62 plain_base62
to_base62-eq_plain s h = encode 22 refl
  where
    encode :
        (len : ℕ)
        → len ≡ 22
        → elim (word_passes s.id (96 ∷ 64 ∷ 32 ∷ 0 ∷ []) (replicate len 0, 0)) [
          | none ↦ none
          | some (dst, i) ↦ digit_chars (reverse dst)
        ]
          ≡ some (plain_base62 len s.id)
    encode len e =
        let big : u128_mod ≤ pow62 len = rw e (omega arith) in
        let (i, q, _, _) = word_passes-Holds len s.id (omega arith) h big in
        rw q (digit_chars-digits len s.id)

length-plain_base62 : (k n : ℕ) → length (plain_base62 k n) ≡ k
length-plain_base62 zero n = unfold plain_base62 in refl
length-plain_base62 (suc k) n = rw (plain_base62-suc k n) (
    omega (
      arith,
      length-append (plain_base62 k (n / 62)) (char_of (n % 62) ∷ []),
      length-plain_base62 k (n / 62),
    ))

from_base62-plain :
    (len n : ℕ)
    → len ≡ 22
    → n < u128_mod
    → from_base62 (plain_base62 len n) ≡ ok (record { id = n })
unfolding from_base62
from_base62-plain len n e h =
    let big : u128_mod ≤ pow62 len = rw e (omega arith) in
    let d = decode_loop-plain_base62 len n (omega arith) h in
    let l : (length (plain_base62 len n) == size_base62) ≡ true =
      rw (length-plain_base62 len n, e) refl in
    rw (l, d, from_base62)

-- Every identifier is read back from what `to_base62` prints.
pub from_base62-to_base62 :
    (s : SpotifyId)
    → s.id < u128_mod
    → (text : List ℕ) × (to_base62 s ≡ some text) × (from_base62 text ≡ ok s)
from_base62-to_base62 s h =
    (plain_base62 22 s.id, to_base62-eq_plain s h, from_base62-plain 22 s.id refl h)

-- A round of `from_base62` that succeeds has read one digit, without overflow.
decode_step-ok :
    (d c e : ℕ) → decode_step d c ≡ ok e → (e < u128_mod) × (e / 62 ≡ d) × (char_of (e % 62) ≡ c)
unfolding decode_step checked_mul checked_add
decode_step-ok d c e h = elim (Option-cases (base62_digit c)) [
  | inl f ↦ absurd (ground arith)
  | inr (p, f) ↦
      let small = (base62_digit_bounds c p f).0 in
      let whole : (e < u128_mod) × (e ≡ d * 62 + p) = ground arith in
      let digit : e % 62 ≡ p = omega arith in
      (whole.0, omega arith, rw digit (char_of-base62_digit c p f))
]

decode_loop-ok :
    (k d : ℕ) (cs : List ℕ) (e : ℕ)
    → decode_loop d cs ≡ ok e
    → plain_base62 (k + length cs) e ≡ plain_base62 k d ++ cs
unfolding decode_loop
decode_loop-ok k d [] e h =
    let same : d ≡ e = ground arith in rw append-nil (ap₂ plain_base62 (add-zero k) (sym same))
decode_loop-ok k d (c ∷ cs) e h = elim (Result-cases (decode_step d c)) [
  | inl (x, f) ↦ cc (rw (f, decode_loop) at h)
  | inr (d', f) ↦
      let (_, high, low) = decode_step-ok d c d' f in
      let e1 : k + suc (length cs) ≡ suc k + length cs = omega arith in
      let ih = decode_loop-ok (suc k) d' cs e (rw (f, decode_loop) at h) in
      rw (e1, ih, plain_base62-suc k d', high, low) (append_assoc (plain_base62 k d) (c ∷ []) cs)
]

decode_loop-bounds :
    (d : ℕ) (cs : List ℕ) (e : ℕ) → d < u128_mod → decode_loop d cs ≡ ok e → e < u128_mod
unfolding decode_loop
decode_loop-bounds d [] e b h = ground arith
decode_loop-bounds d (c ∷ cs) e b h = elim (Result-cases (decode_step d c)) [
  | inl (x, f) ↦ cc (rw (f, decode_loop) at h)
  | inr (d', f) ↦ decode_loop-bounds d' cs e (decode_step-ok d c d' f).0 (rw (f, decode_loop) at h)
]

-- What `from_base62` accepts has 22 bytes, stands for an identifier of 128 bits, and is what
-- `to_base62` prints for that identifier.
pub to_base62-from_base62 :
    (text : List ℕ) (s : SpotifyId)
    → from_base62 text ≡ ok s
    → (length text ≡ 22) × (s.id < u128_mod) × (to_base62 s ≡ some text)
unfolding from_base62
to_base62-from_base62 text s h = elim (Bool-cases (length text == size_base62)) [
  | inl l ↦ elim (Result-cases (decode_loop 0 text)) [
    | inl (x, f) ↦ cc (rw (l, f, from_base62) at h)
    | inr (n, f) ↦
        let same : n ≡ s.id = ground arith in
        let len : length text ≡ 22 = ground arith in
        let bound = decode_loop-bounds 0 text n (omega arith) f in
        let e1 : 0 + length text ≡ 22 = omega arith in
        let empty : plain_base62 0 0 ≡ [] = unfold plain_base62 in refl in
        let spelled : plain_base62 22 n ≡ text =
          ap (λ k. plain_base62 k n) (sym e1)
          ∙ decode_loop-ok 0 0 text n f
          ∙ ap (λ (xs : List ℕ). xs ++ text) empty in
        (len, rw (← same) bound, rw (to_base62-eq_plain s (rw (← same) bound), ← same, spelled))
  ]
  | inr l ↦ cc (rw (l, from_base62) at h)
]
