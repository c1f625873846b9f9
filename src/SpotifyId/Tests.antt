-- ===== src/SpotifyId/Tests.antt =====
-- The source's table of conversions, and the theorems at one of its rows.
use neotune.Common.{ℕ, ◌≡◌, refl, List, some, codes, ok, err, arith, length, add_u64, u128_mod, ◌<◌}
use neotune.SpotifyId.{
  SpotifyId, invalid_id, to_base62, from_base62, word_passes, word_pass, carry_pass, carry_out,
  digit_chars, digit_char, decode_loop, decode_step, base62_digit, checked_mul, checked_add,
}
use neotune.SpotifyId.Base62.{
  plain_base62, to_base62-eq_plain, from_base62-to_base62, to_base62-from_base62,
}

abbrev first_id : SpotifyId
first_id = record { id = 238762092608182713602505436543891614649 }

abbrev first_text : List ℕ
first_text = codes "5sWHDYs0csV6RS48xBl0tH"

to_base62_runs : to_base62 first_id ≡ some first_text
unfolding to_base62 word_passes word_pass carry_pass carry_out digit_chars digit_char add_u64
to_base62_runs = refl

from_base62_runs : from_base62 first_text ≡ ok first_id
unfolding from_base62 decode_loop decode_step base62_digit checked_mul checked_add
from_base62_runs = refl

-- One byte more, a byte outside the alphabet, and a value of more than 128 bits.
from_base62_refuses :
    (from_base62 (codes "05sWHDYs0csV6RS48xBl0tH") ≡ err invalid_id)
    × (from_base62 (codes "!!!!!Ys0csV6RS48xBl0tH") ≡ err invalid_id)
    × (from_base62 (codes "ZZZZZZZZZZZZZZZZZZZZZZ") ≡ err invalid_id)
unfolding from_base62 decode_loop decode_step base62_digit checked_mul checked_add
from_base62_refuses = (refl, refl, refl)

to_base62-eq_plain_example : to_base62 first_id ≡ some (plain_base62 22 first_id.id)
to_base62-eq_plain_example = to_base62-eq_plain first_id (omega arith)

from_base62-to_base62_example :
    (text : List ℕ) × (to_base62 first_id ≡ some text) × (from_base62 text ≡ ok first_id)
from_base62-to_base62_example = from_base62-to_base62 first_id (omega arith)

to_base62-from_base62_example :
    (length first_text ≡ 22) × (first_id.id < u128_mod) × (to_base62 first_id ≡ some first_text)
to_base62-from_base62_example = to_base62-from_base62 first_text first_id from_base62_runs
