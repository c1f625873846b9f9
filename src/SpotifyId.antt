-- ===== src/SpotifyId.antt =====
-- librespot_src/core/src/spotify_id.rs: 128-bit identifiers and their three encodings.
-- A string is the list of its bytes.
mod Tests
pub mod Digits
pub mod Encode
pub mod Chars
pub mod Base62
pub mod Raw
use neotune.Common.{
  ℕ, zero, suc, ◌+◌, ◌-◌, ◌*◌, ◌/◌, ◌%◌, ◌^◌, ◌<◌, ◌≡◌, Bool, true, false, ◌&&◌, Option, none, some,
  List, [], ◌∷◌, ◌++◌, leb, ltb, ◌==◌, if◌then◌else◌, length, get_elem?, set, take, drop, replicate,
  codes, Result, ok, err, ◌>>=◌, ok_or, add_u64, u128_mod, refl,
}
use mathlib.Core.List.{reverse}

pub data SpotifyIdError : Type 0 where
  invalid_id invalid_format : SpotifyIdError

pub record SpotifyId : Type 0 where
  pub id : ℕ

abbrev pub SpotifyIdResult : Type 0
SpotifyIdResult = Result SpotifyIdError SpotifyId

abbrev pub base62_digits : List ℕ
base62_digits = codes "0123456789abcdefghijklmnopqrstuvwxyzABCDEFGHIJKLMNOPQRSTUVWXYZ"

abbrev pub size : ℕ
size = 16

abbrev pub size_base62 : ℕ
size_base62 = 22

-- The `match c` of `from_base62`.
unfoldable pub base62_digit : ℕ → Option ℕ
base62_digit c =
    if leb b'0' c && leb c b'9'
    then some (c - b'0')
    else if leb b'a' c && leb c b'z'
    then some (c - b'a' + 10)
    else if leb b'A' c && leb c b'Z'
    then some (c - b'A' + 36)
    else none

-- `checked_mul` and `checked_add` of `u128`
unfoldable pub checked_mul : ℕ → ℕ → Option ℕ
checked_mul a b = if ltb (a * b) u128_mod then some (a * b) else none

unfoldable pub checked_add : ℕ → ℕ → Option ℕ
checked_add a b = if ltb (a + b) u128_mod then some (a + b) else none

-- One round of the loop of `from_base62`.
unfoldable pub decode_step : ℕ → ℕ → Result SpotifyIdError ℕ
decode_step dst c = do
  p ← ok_or (base62_digit c) invalid_id
  shifted ← ok_or (checked_mul dst 62) invalid_id
  ok_or (checked_add shifted p) invalid_id

unfoldable pub decode_loop : ℕ → List ℕ → Result SpotifyIdError ℕ
decode_loop dst [] = ok dst
decode_loop dst (c ∷ cs) = do dst' ← decode_step dst c; decode_loop dst' cs

unfoldable pub from_base62 : List ℕ → SpotifyIdResult
from_base62 src =
    if length src == size_base62
    then (do dst ← decode_loop 0 src; ok (record { id = dst }))
    else err invalid_id

-- The `for b in &mut dst[..i]` of `to_base62`: the carry out, and the new bytes.
pub carry_pass : ℕ → List ℕ → ℕ × List ℕ
carry_pass carry [] = (carry, [])
carry_pass carry (b ∷ bs) =
    let c = add_u64 carry ((b * 2 ^ 32) % 2 ^ 64) in
    let (out, rest) = carry_pass (c / 62) bs in (out, (c % 62) % 256 ∷ rest)

-- The `while carry > 0`: `none` is the panic of a write behind the array. A round moves `i` on, so
-- that fuel beyond the array's size runs out only after such a write.
pub carry_out : ℕ → ℕ → List ℕ → ℕ → Option (List ℕ × ℕ)
carry_out zero carry dst i = none
carry_out (suc fuel) carry dst i = elim (carry == 0) [
  | true ↦ some (dst, i)
  | false ↦ elim (ltb i (length dst)) [
    | true ↦ carry_out fuel (carry / 62) (set dst i ((carry % 62) % 256)) (i + 1)
    | false ↦ none
  ]
]

-- One round of the `for shift`.
pub word_pass : ℕ → ℕ → List ℕ × ℕ → Option (List ℕ × ℕ)
word_pass n shift (dst, i) =
    let (carry, low) = carry_pass ((n / 2 ^ shift) % 2 ^ 32) (take i dst) in
    carry_out 23 carry (low ++ drop i dst) i

pub word_passes : ℕ → List ℕ → List ℕ × ℕ → Option (List ℕ × ℕ)
word_passes n [] s = some s
word_passes n (shift ∷ shifts) s = elim (word_pass n shift s) [
  | none ↦ none
  | some s' ↦ word_passes n shifts s'
]

-- `BASE62_DIGITS[b as usize]`; `none` is the panic of an index out of range.
pub digit_char : ℕ → Option ℕ
digit_char b = get_elem? base62_digits b

pub digit_chars : List ℕ → Option (List ℕ)
digit_chars [] = some []
digit_chars (b ∷ bs) = elim (digit_char b) [
  | none ↦ none
  | some c ↦ elim (digit_chars bs) [ none ↦ none | some cs ↦ some (c ∷ cs) ]
]

pub to_base62 : SpotifyId → Option (List ℕ)
to_base62 s = elim (word_passes s.id (96 ∷ 64 ∷ 32 ∷ 0 ∷ []) (replicate size_base62 0, 0)) [
  | none ↦ none
  | some (dst, i) ↦ digit_chars (reverse dst)
]
