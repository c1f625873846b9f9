-- ===== src/SpotifyId/Raw/Tests.antt =====
-- One of the source's conversions, a text with a sign, and the theorems at an identifier.
use neotune.Common.{◌≡◌, refl, codes, ok, length, arith}
use neotune.SpotifyId.{SpotifyId, checked_mul, checked_add}
use neotune.SpotifyId.Raw.{
  from_raw, to_raw, from_base16, to_base16, from_str_radix, parse_hex, parse_step, hex_digit,
  hex_text, hex_char,
}
use neotune.SpotifyId.Raw.RoundTrip.{from_raw-to_raw, from_base16-to_base16}

abbrev first_id : SpotifyId
first_id = record { id = 238762092608182713602505436543891614649 }

to_base16_runs : to_base16 first_id ≡ codes "b39fe8081e1f4c54be38e8d6f9f12bb9"
unfolding to_base16 hex_text hex_char
to_base16_runs = refl

-- A sign makes a text of 32 bytes with 31 digits an identifier.
signed_text : from_base16 (codes "+0000000000000000000000000000001") ≡ ok (record { id = 1 })
unfolding from_base16 from_str_radix parse_hex parse_step hex_digit checked_mul checked_add
signed_text = refl

from_raw-to_raw_example : from_raw (to_raw first_id) ≡ ok first_id
from_raw-to_raw_example = from_raw-to_raw first_id (omega arith)

from_base16-to_base16_example :
    (length (to_base16 first_id) ≡ 32) × (from_base16 (to_base16 first_id) ≡ ok first_id)
from_base16-to_base16_example = from_base16-to_base16 first_id (omega arith)
