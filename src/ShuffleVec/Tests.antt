-- ===== src/ShuffleVec/Tests.antt =====
-- A shuffle with a generator that counts, and the theorems at it.
use mathlib.Core.List.{Mem, mem-cons, mem-cons_self}
use mathlib.Core.Logic.Or
use neotune.Common.{ℕ, ◌+◌, ◌%◌, ◌<◌, ◌≡◌, refl, Bool, none, some, List, [], ◌∷◌, arith, ◌==◌}
use neotune.ShuffleVec.{
  Rng, ShuffleVec, from_vec, position, shuffle_swaps, swap_first, unshuffle_swaps, unshuffle, draw,
  push, shuffle_ordered, shuffle_with_rng,
}
use neotune.ShuffleVec.Swap.{swap}
use neotune.ShuffleVec.Unshuffle.{Restores, shuffle_with_rng-Restores}
use neotune.ShuffleVec.Outcome.{unshuffle-push}

counting_lt : (s n : ℕ) → 0 < n → s % n < n
counting_lt s n h = grind arith

abbrev counting : Rng
counting = record {
  State = ℕ;
  seed_from_u64 = λ seed. seed;
  random_range = λ s n. (s % n, s + 7);
  random_range_lt = counting_lt;
}

abbrev tracks : List ℕ
tracks = 10 ∷ 11 ∷ 12 ∷ 13 ∷ 14 ∷ []

abbrev is_twelve : ℕ → Bool
is_twelve t = t == 12

abbrev shuffled : ShuffleVec ℕ
shuffled = shuffle_with_rng counting (from_vec tracks) 3 is_twelve

shuffled_runs : shuffled ≡ record {
  vec = 12 ∷ 10 ∷ 14 ∷ 11 ∷ 13 ∷ [];
  indices = some (3 ∷ 2 ∷ 2 ∷ 0 ∷ []);
  original_first_position = some 3;
}
unfolding shuffle_with_rng shuffle_ordered shuffle_swaps draw position swap_first swap
shuffled_runs = refl

unshuffled_runs : unshuffle shuffled ≡ from_vec tracks
unfolding unshuffle unshuffle_swaps shuffle_with_rng shuffle_ordered shuffle_swaps draw position
    swap_first swap
unshuffled_runs = refl

shuffle_with_rng-Restores_example : Restores tracks (shuffle_with_rng counting shuffled 9 is_twelve)
shuffle_with_rng-Restores_example =
    shuffle_with_rng-Restores counting 9 is_twelve tracks shuffled unshuffled_runs

twelve_in : Mem 12 tracks
twelve_in = mem-cons.1 (Or.inr (mem-cons.1 (Or.inr mem-cons_self)))

abbrev three_shuffled : ShuffleVec ℕ
three_shuffled = record {
  vec = 3 ∷ 1 ∷ 2 ∷ [];
  indices = some (0 ∷ 0 ∷ []);
  original_first_position = none;
}

-- The vector comes from `1 ∷ 2 ∷ 3`, and that order is lost once a fourth track is pushed.
unshuffle-push_example : unshuffle (push three_shuffled 4) ≡ from_vec (3 ∷ 1 ∷ 2 ∷ 4 ∷ [])
unfolding swap_first
unshuffle-push_example = unshuffle-push three_shuffled (0 ∷ 0 ∷ []) 4 refl refl
