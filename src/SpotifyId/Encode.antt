-- ===== src/SpotifyId/Encode.antt =====
-- librespot_src/core/src/spotify_id.rs: the word-wise algorithm of `to_base62`, round by round.
use mathlib.Core.List.{append_assoc}
use neotune.Common.{
  ℕ, zero, suc, ◌+◌, ◌-◌, ◌*◌, ◌/◌, ◌%◌, ◌^◌, ◌<◌, ◌≤◌, ◌≡◌, refl, ap, List, [], ◌∷◌, ◌++◌, length,
  set, replicate, arith, ◌∙◌, sym, add_u64, Option, some, true, Bool-cases, ◌==◌, ltb, inl, inr,
  u128_mod, length-append, lt→ltb,
}
use neotune.SpotifyId.{carry_pass, carry_out, word_pass, word_passes}
use neotune.SpotifyId.Digits.{
  digits, shift_down, pow62, length-digits, shift_down-suc, lt_of_shift_down, shift_down_of_lt,
  digits-zero, digits-add, take-append, drop-append,
}

-- Multiplying the `i` digits of `m` by `2 ^ 32` and adding `c`.
carry_pass-digits :
    (i m c : ℕ)
    → m < pow62 i
    → c < 2 ^ 32
    → carry_pass c (digits i m) ≡ (shift_down i (m * 2 ^ 32 + c), digits i (m * 2 ^ 32 + c))
unfolding carry_pass add_u64
carry_pass-digits zero m c h k =
    let e : c ≡ m * 2 ^ 32 + c = omega arith in ap (λ (n : ℕ). (n, [])) e
carry_pass-digits (suc i) m c h k =
    let low = add_u64 c ((m % 62 * 2 ^ 32) % 2 ^ 64) in
    let exact : low ≡ c + m % 62 * 2 ^ 32 = omega arith in
    let ih = carry_pass-digits i (m / 62) (low / 62) (omega arith) (omega arith) in
    let e1 : m / 62 * 2 ^ 32 + low / 62 ≡ (m * 2 ^ 32 + c) / 62 = omega arith in
    let e2 : low % 62 % 256 ≡ (m * 2 ^ 32 + c) % 62 = omega arith in rw (ih, e1, e2)

-- Where the rest is 0, more digits are zeros.
digits-pad : (i r n : ℕ) → n < pow62 i → digits i n ++ digits r 0 ≡ digits (i + r) n
digits-pad i r n h =
    ap (λ k. digits i n ++ digits r k) (sym (shift_down_of_lt i n h)) ∙ sym (digits-add i r n)

set-append :
    (xs : List ℕ) (y v : ℕ) (ys : List ℕ) (i : ℕ)
    → length xs ≡ i
    → set (xs ++ (y ∷ ys)) i v ≡ xs ++ (v ∷ ys)
set-append [] y v ys zero e = refl
set-append [] y v ys (suc i) e = absurd (omega arith)
set-append (x ∷ xs) y v ys zero e = absurd (omega arith)
set-append (x ∷ xs) y v ys (suc i) e = ap (λ zs. x ∷ zs) (set-append xs y v ys i (omega arith))

-- A round of the `while` loop turns one zero into the next digit.
put_digit :
    (r i n : ℕ)
    → set (digits i n ++ digits (suc r) 0) i (shift_down i n % 62 % 256)
      ≡ digits (i + 1) n ++ digits r 0
put_digit r i n =
    let v = shift_down i n % 62 in
    let e : v % 256 ≡ v = omega arith in
    rw (e, set-append (digits i n) 0 v (digits r 0) i (length-digits i n), digits-add i 1 n)
      (sym (append_assoc (digits i n) (v ∷ []) (digits r 0)))

room : (r i n : ℕ) → ltb i (length (digits i n ++ digits (suc r) 0)) ≡ true
room r i n =
    let l = length-append (digits i n) (digits (suc r) 0) in
    lt→ltb _ _ (omega (arith, l, length-digits i n))

-- The `while` loop, from `i` digits of `n` and zeros behind them: it writes the other digits, and
-- never behind the `i + r` places of the array.
carry_out-digits :
    (r i fuel n : ℕ)
    → r < fuel
    → n < pow62 (i + r)
    → (j : ℕ) × (carry_out fuel (shift_down i n) (digits i n ++ digits r 0) i
        ≡ some (digits (i + r) n, j))
      × (j ≤ i + r)
      × (n < pow62 j)
unfolding carry_out
carry_out-digits r i zero n h k = absurd (omega arith)
carry_out-digits zero i (suc fuel) n h k =
    let e : i + 0 ≡ i = omega arith in
    let small : n < pow62 i = rw e at k in
    let z = shift_down_of_lt i n small in
    (
      i,
      rw (z, carry_out) (ap (λ (ds : List ℕ). some (ds, i)) (digits-pad i 0 n small)),
      omega arith,
      small,
    )
carry_out-digits (suc r) i (suc fuel) n h k = elim (Bool-cases (shift_down i n == 0)) [
  | inl done ↦
      let small = lt_of_shift_down i n (ground arith) in
      (
        i,
        rw (done, carry_out) (ap (λ (ds : List ℕ). some (ds, i)) (digits-pad i (suc r) n small)),
        omega arith,
        small,
      )
  | inr more ↦
      let e : i + suc r ≡ i + 1 + r = omega arith in
      let (j, q, b, c) = carry_out-digits r (i + 1) fuel n (omega arith) (rw e at k) in
      let next : shift_down i n / 62 ≡ shift_down (i + 1) n =
        sym (shift_down-suc i n)
        ∙ ap (λ t. shift_down t n) (let f : suc i ≡ i + 1 = omega arith in f) in
      (j, rw (more, room r i n, carry_out) (rw (put_digit r i n, next, e) q), omega arith, c)
]

-- The state between two rounds of `for shift`, with an array of `len` bytes: it holds the digits of
-- `m`, and `i` of them are in use.
abbrev pub Holds : ℕ → ℕ → Option (List ℕ × ℕ) → Type 0
Holds len m s = (i : ℕ) × (s ≡ some (digits len m, i)) × (i ≤ len) × (m < pow62 i)

abbrev word : ℕ → ℕ → ℕ
word n shift = (n / 2 ^ shift) % 2 ^ 32

word_pass-Holds :
    (len n shift m i : ℕ)
    → len ≤ 22
    → i ≤ len
    → m < pow62 i
    → m * 2 ^ 32 + word n shift < pow62 len
    → Holds len (m * 2 ^ 32 + word n shift) (word_pass n shift (digits len m, i))
unfolding word_pass
word_pass-Holds len n shift m i g h k small =
    let c = word n shift in
    let r : ℕ = len - i in
    let total : i + r ≡ len = omega arith in
    let split : digits len m ≡ digits i m ++ digits r 0 =
      ap (λ t. digits t m) (sym total) ∙ sym (digits-pad i r m k) in
    let front = take-append (digits i m) (digits r 0) i (length-digits i m) in
    let back = drop-append (digits i m) (digits r 0) i (length-digits i m) in
    let pass = carry_pass-digits i m c k (omega arith) in
    let (j, q, b, d) = carry_out-digits r i 23 (m * 2 ^ 32 + c) (omega arith) (rw total small) in
    (
      j,
      rw (split, front, back, pass) (q ∙ ap (λ t. some (digits t (m * 2 ^ 32 + c), j)) total),
      omega arith,
      d,
    )

word_passes-suc :
    (len n shift m m' : ℕ) (shifts : List ℕ) (s : List ℕ × ℕ)
    → Holds len m' (word_pass n shift s)
    → ((i : ℕ) → i ≤ len → m' < pow62 i → Holds len m (word_passes n shifts (digits len m', i)))
    → Holds len m (word_passes n (shift ∷ shifts) s)
unfolding word_passes
word_passes-suc len n shift m m' shifts s (j, q, b, d) rest = rw (q, word_passes) (rest j b d)

-- The four rounds leave the digits of `n`.
pub word_passes-Holds :
    (len n : ℕ)
    → len ≤ 22
    → n < u128_mod
    → u128_mod ≤ pow62 len
    → Holds len n (word_passes n (96 ∷ 64 ∷ 32 ∷ 0 ∷ []) (replicate len 0, 0))
word_passes-Holds len n h k big =
    let m1 : ℕ = 0 * 2 ^ 32 + word n 96 in
    let m2 : ℕ = m1 * 2 ^ 32 + word n 64 in
    let m3 : ℕ = m2 * 2 ^ 32 + word n 32 in
    let m4 : ℕ = m3 * 2 ^ 32 + word n 0 in
    let all : m4 ≡ n = omega arith in
    rw (← digits-zero len) (
      word_passes-suc len n 96 n m1 (64 ∷ 32 ∷ 0 ∷ []) (digits len 0, 0)
        (word_pass-Holds len n 96 0 0 h (omega arith) (omega arith) (omega arith))
        λ i b d.
          word_passes-suc len n 64 n m2 (32 ∷ 0 ∷ []) (digits len m1, i)
            (word_pass-Holds len n 64 m1 i h b d (omega arith))
            λ i b d.
              word_passes-suc len n 32 n m3 (0 ∷ []) (digits len m2, i)
                (word_pass-Holds len n 32 m2 i h b d (omega arith))
                λ i b d.
                  word_passes-suc len n 0 n m4 [] (digits len m3, i)
                    (word_pass-Holds len n 0 m3 i h b d (omega arith))
                    λ i b d. unfold word_passes in rw all (i, refl, b, rw all at d))
