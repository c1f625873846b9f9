-- ===== src/SpotifyId/Raw.antt =====
-- librespot_src/core/src/spotify_id.rs: the 16 raw bytes and the base-16 text of an identifier. Of the
-- standard library, `u128::{from_be_bytes, to_be_bytes, from_str_radix}` and the format `{:032x}`.
mod Tests
pub mod RoundTrip
use neotune.Common.{
  ℕ, zero, suc, ◌+◌, ◌-◌, ◌*◌, ◌/◌, ◌%◌, Bool, true, false, ◌&&◌, Option, none, some, List, [], ◌∷◌,
  ◌++◌, leb, ltb, ◌==◌, if◌then◌else◌, length, Result, ok, err,
}
use neotune.SpotifyId.{
  SpotifyId, SpotifyIdResult, invalid_id, size, checked_mul, checked_add, from_base62,
}

-- `to_be_bytes` of a number of `k` bytes
be_bytes : ℕ → ℕ → List ℕ
be_bytes zero n = []
be_bytes (suc k) n = be_bytes k (n / 256) ++ (n % 256 ∷ [])

-- `from_be_bytes`, behind the bytes read so far
be_value : ℕ → List ℕ → ℕ
be_value n [] = n
be_value n (b ∷ bs) = be_value (n * 256 + b) bs

pub from_raw : List ℕ → SpotifyIdResult
from_raw src = if length src == size then ok (record { id = be_value 0 src }) else err invalid_id

pub to_raw : SpotifyId → List ℕ
to_raw s = be_bytes size s.id

-- `char::to_digit(16)`
hex_digit : ℕ → Option ℕ
hex_digit c =
    if leb b'0' c && leb c b'9'
    then some (c - b'0')
    else if leb b'a' c && leb c b'f'
    then some (c - b'a' + 10)
    else if leb b'A' c && leb c b'F'
    then some (c - b'A' + 10)
    else none

hex_char : ℕ → ℕ
hex_char d = if ltb d 10 then b'0' + d else b'a' + (d - 10)

parse_step : ℕ → ℕ → Option ℕ
parse_step n c = elim (hex_digit c) [
  | none ↦ none
  | some d ↦ elim (checked_mul n 16) [ none ↦ none | some m ↦ checked_add m d ]
]

parse_hex : ℕ → List ℕ → Option ℕ
parse_hex n [] = some n
parse_hex n (c ∷ cs) = elim (parse_step n c) [ none ↦ none | some m ↦ parse_hex m cs ]

-- `u128::from_str_radix(_, 16)`, which takes a sign in front of at least one digit.
from_str_radix : List ℕ → Option ℕ
from_str_radix [] = none
from_str_radix (c ∷ []) = parse_hex 0 (c ∷ [])
from_str_radix (c ∷ d ∷ cs) = if c == b'+' then parse_hex 0 (d ∷ cs) else parse_hex 0 (c ∷ d ∷ cs)

pub from_base16 : List ℕ → SpotifyIdResult
from_base16 src =
    if length src == 32
    then elim (from_str_radix src) [ none ↦ err invalid_id | some n ↦ ok (record { id = n }) ]
    else err invalid_id

hex_text : ℕ → ℕ → List ℕ
hex_text zero n = []
hex_text (suc k) n = hex_text k (n / 16) ++ (hex_char (n % 16) ∷ [])

pub to_base16 : SpotifyId → List ℕ
to_base16 s = hex_text 32 s.id

-- `TryFrom<&[u8]>` and `TryFrom<&str>`, to which the other conversions lead.
pub try_from_bytes : List ℕ → SpotifyIdResult
try_from_bytes = from_raw

pub try_from_str : List ℕ → SpotifyIdResult
try_from_str = from_base62
