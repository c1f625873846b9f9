-- ===== src/SpotifyId/Raw/RoundTrip.antt =====
-- The bytes and the base-16 text of an identifier are read back.
use neotune.Common.{
  ℕ, zero, suc, ◌+◌, ◌*◌, ◌/◌, ◌%◌, ◌<◌, ◌≡◌, refl, ap, ◌∙◌, inl, inr, Bool, true, false, none,
  some, Option, List, [], ◌∷◌, ◌++◌, length, length-append, arith, u128_mod, ok, holds_below,
  holds_below-at, ◌==◌, Bool-cases, Option-cases, ltb,
}
use neotune.SpotifyId.{SpotifyId, checked_mul, checked_add}
use neotune.SpotifyId.Raw.{
  be_bytes, be_value, from_raw, to_raw, hex_digit, hex_char, parse_step, parse_hex, from_str_radix,
  hex_text, from_base16, to_base16,
}

-- The numbers of `k` digits in a base.
pow : ℕ → ℕ → ℕ
pow base zero = 1
pow base (suc k) = base * pow base k

be_value-append :
    (n : ℕ) (bs : List ℕ) (b : ℕ) → be_value n (bs ++ (b ∷ [])) ≡ be_value n bs * 256 + b
unfolding be_value
be_value-append n [] b = refl
be_value-append n (x ∷ bs) b = be_value-append (n * 256 + x) bs b

be_value-be_bytes : (k n : ℕ) → n < pow 256 k → be_value 0 (be_bytes k n) ≡ n
unfolding be_value be_bytes pow
be_value-be_bytes zero n h = omega arith
be_value-be_bytes (suc k) n h =
    let e = be_value-append 0 (be_bytes k (n / 256)) (n % 256) in
    let ih = be_value-be_bytes k (n / 256) (omega arith) in rw (e, ih) (omega arith)

length-be_bytes : (k n : ℕ) → length (be_bytes k n) ≡ k
unfolding be_bytes
length-be_bytes zero n = refl
length-be_bytes (suc k) n =
    let a = length-append (be_bytes k (n / 256)) (n % 256 ∷ []) in
    let l = length-be_bytes k (n / 256) in omega arith

-- The 16 bytes of an identifier are read back as it.
pub from_raw-to_raw : (s : SpotifyId) → s.id < u128_mod → from_raw (to_raw s) ≡ ok s
unfolding from_raw to_raw pow
from_raw-to_raw s h =
    rw (from_raw, to_raw, length-be_bytes 16 s.id, be_value-be_bytes 16 s.id h) refl

hex_check : ℕ → Bool
unfolding hex_digit hex_char
hex_check d = elim (hex_digit (hex_char d)) [ none ↦ false | some e ↦ e == d ]

hex_check_table : holds_below hex_check 16 ≡ true
unfolding holds_below hex_check hex_digit hex_char
hex_check_table = refl

checked : (o : Option ℕ) (d : ℕ) → elim o [ none ↦ false | some e ↦ e == d ] ≡ true → o ≡ some d
checked none d h = cc
checked (some e) d h = ground arith

hex_digit-hex_char : (d : ℕ) → d < 16 → hex_digit (hex_char d) ≡ some d
unfolding hex_check
hex_digit-hex_char d h =
    checked (hex_digit (hex_char d)) d (holds_below-at hex_check 16 d hex_check_table h)

parse_step-hex_char :
    (n d : ℕ) → d < 16 → n * 16 + d < u128_mod → parse_step n (hex_char d) ≡ some (n * 16 + d)
unfolding parse_step checked_mul checked_add
parse_step-hex_char n d h small =
    let a : ltb (n * 16) u128_mod ≡ true = ground arith in
    let b : ltb (n * 16 + d) u128_mod ≡ true = ground arith in
    rw (parse_step, hex_digit-hex_char d h, checked_mul, a, checked_add, b) refl

parse_hex_one : (n c : ℕ) → parse_hex n (c ∷ []) ≡ parse_step n c
unfolding parse_hex
parse_hex_one n c = elim (Option-cases (parse_step n c)) [
  | inl f ↦ rw (parse_hex, f) refl
  | inr (m, f) ↦ rw (parse_hex, f) refl
]

parse_hex-append :
    (n : ℕ) (cs : List ℕ) (c m : ℕ)
    → parse_hex n cs ≡ some m
    → parse_hex n (cs ++ (c ∷ [])) ≡ parse_step m c
unfolding parse_hex
parse_hex-append n [] c m h = let same : n ≡ m = cc in rw same (parse_hex_one m c)
parse_hex-append n (x ∷ cs) c m h = elim (Option-cases (parse_step n x)) [
  | inl f ↦ cc (rw (f, parse_hex) at h)
  | inr (k, f) ↦ rw (parse_hex, f) (parse_hex-append k cs c m (rw (f, parse_hex) at h))
]

parse_hex-hex_text : (k n : ℕ) → n < pow 16 k → n < u128_mod → parse_hex 0 (hex_text k n) ≡ some n
unfolding parse_hex hex_text pow
parse_hex-hex_text zero n h small = let z : n ≡ 0 = omega arith in rw z refl
parse_hex-hex_text (suc k) n h small =
    let whole : n / 16 * 16 + n % 16 ≡ n = omega arith in
    parse_hex-append 0 (hex_text k (n / 16)) (hex_char (n % 16)) (n / 16)
      (parse_hex-hex_text k (n / 16) (omega arith) (omega arith))
    ∙ parse_step-hex_char (n / 16) (n % 16) (omega arith) (omega arith)
    ∙ ap some whole

length-hex_text : (k n : ℕ) → length (hex_text k n) ≡ k
unfolding hex_text
length-hex_text zero n = refl
length-hex_text (suc k) n =
    let a = length-append (hex_text k (n / 16)) (hex_char (n % 16) ∷ []) in
    let l = length-hex_text k (n / 16) in omega arith

plus_refused : parse_step 0 b'+' ≡ none
unfolding parse_step hex_digit
plus_refused = refl

-- A text that reads as digits has no sign in front.
from_str_radix-parse_hex :
    (cs : List ℕ) (n : ℕ) → 0 < length cs → parse_hex 0 cs ≡ some n → from_str_radix cs ≡ some n
unfolding from_str_radix parse_hex
from_str_radix-parse_hex [] n long h = absurd (omega arith)
from_str_radix-parse_hex (c ∷ []) n long h = h
from_str_radix-parse_hex (c ∷ d ∷ cs) n long h = elim (Bool-cases (c == b'+')) [
  | inl e ↦
      let same : c ≡ b'+' = ground arith in
      let refused : parse_step 0 c ≡ none = rw same plus_refused in
      cc (rw (refused, parse_hex) at h)
  | inr e ↦ rw (from_str_radix, e) h
]

-- The base-16 text of an identifier has 32 digits and is read back as it.
pub from_base16-to_base16 :
    (s : SpotifyId)
    → s.id < u128_mod
    → (length (to_base16 s) ≡ 32) × (from_base16 (to_base16 s) ≡ ok s)
unfolding from_base16 to_base16 pow
from_base16-to_base16 s h =
    let l = length-hex_text 32 s.id in
    let long : 0 < length (hex_text 32 s.id) = omega arith in
    let e =
      from_str_radix-parse_hex (hex_text 32 s.id) s.id long (parse_hex-hex_text 32 s.id h h) in
    (l, rw (from_base16, to_base16, l, e) refl)
