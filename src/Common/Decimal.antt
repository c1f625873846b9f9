-- ===== src/Common/Decimal.antt =====
-- Decimal text of unsigned numbers: `to_string` and `FromStr` of `u64` and `usize`.
use Prim.Native.Nat.{ℕ, zero, suc, ◌+◌, ◌-◌, ◌*◌, ◌/◌, ◌%◌, ◌^◌}
use mathlib.Core.Bool.{◌&&◌}
use mathlib.Core.Option.{Option, none, some}
use mathlib.Core.List.{List, [], ◌∷◌}
use neotune.Common.Tests.{ltb, leb, ◌==◌, if◌then◌else◌}

decimal_loop : ℕ → ℕ → List ℕ → List ℕ
decimal_loop zero n text = text
decimal_loop (suc fuel) n text =
    let rest = decimal_loop fuel (n / 10) ((b'0' + n % 10) ∷ text) in
    if ltb n 10 then (b'0' + n) ∷ text else rest

-- A 64-bit number has at most 20 digits.
unfoldable pub show_u64 : ℕ → List ℕ
unfolding decimal_loop
show_u64 n = decimal_loop 20 n []

parse_digits : ℕ → List ℕ → Option ℕ
parse_digits n [] = some n
parse_digits n (c ∷ cs) =
    let m = n * 10 + (c - b'0') in
    let rest = parse_digits m cs in
    if (leb b'0' c && leb c b'9') && ltb m (2 ^ 64) then rest else none

-- The text after an optional sign, which must not be empty.
parse_unsigned : List ℕ → Option ℕ
parse_unsigned [] = none
parse_unsigned (c ∷ cs) = parse_digits 0 (c ∷ cs)

unfoldable pub parse_u64 : List ℕ → Option ℕ
unfolding parse_unsigned parse_digits
parse_u64 [] = none
parse_u64 (c ∷ cs) = if c == b'+' then parse_unsigned cs else parse_unsigned (c ∷ cs)
