-- ===== src/SpotifyId/Digits.antt =====
-- The digits of a number in base 62, lowest first, by plain division: what `to_base62` is held to.
use neotune.Common.{
  ℕ, zero, suc, ◌+◌, ◌*◌, ◌/◌, ◌%◌, ◌<◌, ◌≡◌, refl, ap, List, [], ◌∷◌, ◌++◌, length, take, drop,
  replicate, arith, ◌∙◌,
}

abbrev pub digits : ℕ → ℕ → List ℕ
digits zero n = []
digits (suc k) n = n % 62 ∷ digits k (n / 62)

-- `n / 62 ^ k` and `62 ^ k`
abbrev pub shift_down : ℕ → ℕ → ℕ
shift_down zero n = n
shift_down (suc k) n = shift_down k (n / 62)

abbrev pub pow62 : ℕ → ℕ
pow62 zero = 1
pow62 (suc k) = 62 * pow62 k

pub length-digits : (k n : ℕ) → length (digits k n) ≡ k
length-digits zero n = refl
length-digits (suc k) n = ap suc (length-digits k (n / 62))

pub shift_down-suc : (k n : ℕ) → shift_down k (n / 62) ≡ shift_down k n / 62
shift_down-suc zero n = refl
shift_down-suc (suc k) n = shift_down-suc k (n / 62)

pub lt_of_shift_down : (k n : ℕ) → shift_down k n ≡ 0 → n < pow62 k
lt_of_shift_down zero n h = omega arith
lt_of_shift_down (suc k) n h = omega (arith, lt_of_shift_down k (n / 62) h)

pub shift_down_of_lt : (k n : ℕ) → n < pow62 k → shift_down k n ≡ 0
shift_down_of_lt zero n h = omega arith
shift_down_of_lt (suc k) n h = shift_down_of_lt k (n / 62) (omega arith)

pub digits-zero : (k : ℕ) → digits k 0 ≡ replicate k 0
digits-zero zero = refl
digits-zero (suc k) = ap (λ ds. 0 ∷ ds) (digits-zero k)

pub digits-add : (i r n : ℕ) → digits (i + r) n ≡ digits i n ++ digits r (shift_down i n)
digits-add zero r n = ap (λ k. digits k n) (omega arith)
digits-add (suc i) r n =
    ap (λ k. digits k n) (let e : suc i + r ≡ suc (i + r) = omega arith in e)
    ∙ ap (λ ds. n % 62 ∷ ds) (digits-add i r (n / 62))

pub take-append : (xs ys : List ℕ) (i : ℕ) → length xs ≡ i → take i (xs ++ ys) ≡ xs
take-append [] ys zero e = refl
take-append [] ys (suc i) e = absurd (omega arith)
take-append (x ∷ xs) ys zero e = absurd (omega arith)
take-append (x ∷ xs) ys (suc i) e = ap (λ zs. x ∷ zs) (take-append xs ys i (omega arith))

pub drop-append : (xs ys : List ℕ) (i : ℕ) → length xs ≡ i → drop i (xs ++ ys) ≡ ys
drop-append [] ys zero e = refl
drop-append [] ys (suc i) e = absurd (omega arith)
drop-append (x ∷ xs) ys zero e = absurd (omega arith)
drop-append (x ∷ xs) ys (suc i) e = drop-append xs ys i (omega arith)
