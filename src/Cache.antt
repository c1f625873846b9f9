-- ===== src/Cache.antt =====
-- librespot_src/core/src/cache.rs: `SizeLimiter`, which says what files to delete when the cache is full.
-- The priority queue is the crate `priority-queue`'s. A path is its bytes, a time a number.
mod Tests
pub mod Accounts
use neotune.Common.{
  ℕ, ◌+◌, Bool, true, false, Option, none, some, List, [], ◌∷◌, ltb, bytes_eq, add_u64, sub_u64,
  if◌then◌else◌,
}

-- What the limiter uses of the queue; `pop` takes the path with the oldest time.
pub record PriorityQueue : Type 1 where
  pub State : Type 0
  pub empty : State
  pub push : State → List ℕ → ℕ → State
  pub pop : State → Option (List ℕ × State)
  pub change_priority : State → List ℕ → ℕ → Option State
  pub remove : State → List ℕ → Option State

-- A map from paths to sizes, and its `get`, `remove` and `insert`.
abbrev pub Sizes : Type 0
Sizes = List (List ℕ × ℕ)

unfoldable pub get_size : List ℕ → Sizes → Option ℕ
get_size file [] = none
get_size file ((f, size) ∷ m) = if bytes_eq f file then some size else get_size file m

unfoldable pub remove_size : List ℕ → Sizes → Sizes
remove_size file [] = []
remove_size file ((f, size) ∷ m) =
    let rest = remove_size file m in if bytes_eq f file then m else (f, size) ∷ rest

abbrev pub insert_size : List ℕ → ℕ → Sizes → Sizes
insert_size file size m = (file, size) ∷ remove_size file m

abbrev pub minus_size : ℕ → Option ℕ → ℕ
minus_size in_use none = in_use
minus_size in_use (some size) = sub_u64 in_use size

module _ (Q : PriorityQueue) where
  pub record SizeLimiter : Type 0 where
    pub queue : Q.State
    pub sizes : Sizes
    pub size_limit : ℕ
    pub in_use : ℕ

  unfoldable pub new_limiter : ℕ → SizeLimiter
  new_limiter limit = record { queue = Q.empty; sizes = []; size_limit = limit; in_use = 0 }

  unfoldable pub add_file : List ℕ → ℕ → ℕ → SizeLimiter → SizeLimiter
  add_file file size accessed c = record c {
    queue = Q.push c.queue file accessed;
    sizes = insert_size file size c.sizes;
    in_use = minus_size (add_u64 c.in_use size) (get_size file c.sizes);
  }

  unfoldable pub exceeds_limit : SizeLimiter → Bool
  exceeds_limit c = ltb c.size_limit c.in_use

  -- The entry is taken out of the sizes as well.
  unfoldable pub forget : List ℕ → Q.State → SizeLimiter → SizeLimiter
  forget file queue c = record c {
    queue = queue;
    sizes = remove_size file c.sizes;
    in_use = minus_size c.in_use (get_size file c.sizes);
  }

  unfoldable pub pop_file : SizeLimiter → Option (List ℕ) × SizeLimiter
  unfolding forget exceeds_limit
  pop_file c = elim (exceeds_limit c) [
    | false ↦ (none, c)
    | true ↦ elim (Q.pop c.queue) [
      | none ↦ (none, c)
      | some next ↦ (some next.0, forget next.0 next.1 c)
    ]
  ]

  unfoldable pub update_file : List ℕ → ℕ → SizeLimiter → Bool × SizeLimiter
  update_file file access_time c = elim (Q.change_priority c.queue file access_time) [
    | none ↦ (false, c)
    | some queue ↦ (true, record c { queue = queue })
  ]

  unfoldable pub remove_file : List ℕ → SizeLimiter → Bool × SizeLimiter
  unfolding forget
  remove_file file c = elim (Q.remove c.queue file) [
    | none ↦ (false, c)
    | some queue ↦ (true, forget file queue c)
  ]
