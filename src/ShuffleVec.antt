-- ===== src/ShuffleVec.antt =====
-- librespot_src/connect/src/shuffle_vec.rs: a vector that can be shuffled and put back in order.
-- The generator is the crate `rand`'s: a record of what the code calls, with its documented range.
mod Tests
pub mod Swap
pub mod Unshuffle
pub mod Outcome
use neotune.Common.{
  ℕ, zero, suc, ◌+◌, ◌-◌, ◌<◌, ◌≡◌, Bool, true, false, Option, none, some, List, [], ◌∷◌, ◌++◌, leb,
  length, get_elem?, if◌then◌else◌,
}
use Swap.{swap}

-- `rand::Rng` and `SmallRng::seed_from_u64`. `random_range s n` is `random_range(0..n)`.
pub record Rng : Type 1 where
  pub State : Type 0
  pub seed_from_u64 : ℕ → State
  pub random_range : State → ℕ → ℕ × State
  pub random_range_lt : (s : State) (n : ℕ) → 0 < n → (random_range s n).0 < n

pub record ShuffleVec {ℓ} (A : Type ℓ) : Type ℓ where
  pub vec : List A
  pub indices : Option (List ℕ)
  pub original_first_position : Option ℕ

module _ {ℓ} {A : Type ℓ} where
  -- `From<Vec<T>>`
  abbrev pub from_vec : List A → ShuffleVec A
  from_vec xs = record { vec = xs; indices = none; original_first_position = none }

  unfoldable pub position : (A → Bool) → List A → Option ℕ
  position p [] = none
  position p (x ∷ xs) =
      if p x then some 0 else elim (position p xs) [ none ↦ none | some i ↦ some (suc i) ]

  -- `for (i, &rnd_ind) in (1..len).rev().zip(&indices)`, from `i` down.
  pub shuffle_swaps : ℕ → List ℕ → List A → List A
  shuffle_swaps zero rs xs = xs
  shuffle_swaps (suc i) [] xs = xs
  shuffle_swaps (suc i) (r ∷ rs) xs = shuffle_swaps i rs (swap xs (suc i) r)

  pub swap_first : Option ℕ → List A → List A
  swap_first none xs = xs
  swap_first (some first_pos) xs = swap xs 0 first_pos

  -- `for i in 1..len`, with the rounds that are left; `None => return`.
  pub unshuffle_swaps : ℕ → ℕ → List ℕ → ℕ → List A → List A
  unshuffle_swaps zero i indices len xs = xs
  unshuffle_swaps (suc rounds) i indices len xs = elim (get_elem? indices (len - i - 1)) [
    | none ↦ xs
    | some n ↦ unshuffle_swaps rounds (i + 1) indices len (swap xs n i)
  ]

  unfoldable pub unshuffle : ShuffleVec A → ShuffleVec A
  unfolding swap_first
  unshuffle s = elim s.indices [
    | none ↦ s
    | some indices ↦ record {
      vec =
          unshuffle_swaps (length s.vec - 1) 1 indices (length s.vec)
            (swap_first s.original_first_position s.vec);
      indices = none;
      original_first_position = none;
    }
  ]

  -- `self.vec.push`, through `DerefMut`.
  unfoldable pub push : ShuffleVec A → A → ShuffleVec A
  push s a = record s { vec = s.vec ++ (a ∷ []) }

module _ (g : Rng) where
  open g use {State, seed_from_u64, random_range}

  -- `(1..len).rev().map(|i| rng.random_range(0..i + 1))`, from `i` down.
  pub draw : ℕ → State → List ℕ
  draw zero s = []
  draw (suc i) s = let (r, s') = random_range s (suc i + 1) in r ∷ draw i s'

  module _ {ℓ} {A : Type ℓ} where
    -- The part behind the two tests, on a vector that is in order.
    pub shuffle_ordered : ShuffleVec A → State → (A → Bool) → ShuffleVec A
    unfolding swap_first
    shuffle_ordered s rng is_first =
        let indices = draw (length s.vec - 1) rng in
        let xs = shuffle_swaps (length s.vec - 1) indices s.vec in
        let first = position is_first xs in
        record {
          vec = swap_first first xs;
          indices = some indices;
          original_first_position = first;
        }

    pub shuffle_with_rng : ShuffleVec A → State → (A → Bool) → ShuffleVec A
    shuffle_with_rng s rng is_first = if leb (length s.vec) 1 then s else elim s.indices [
      | none ↦ shuffle_ordered s rng is_first
      | some _ ↦ shuffle_ordered (unshuffle s) rng is_first
    ]

    unfoldable pub shuffle_with_seed : ShuffleVec A → ℕ → (A → Bool) → ShuffleVec A
    shuffle_with_seed s seed is_first = shuffle_with_rng s (seed_from_u64 seed) is_first
