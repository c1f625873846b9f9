-- ===== src/Cache/Tests.antt =====
-- A queue as a list, a limiter of ten bytes, and the theorem at them.
use neotune.Common.{
  ℕ, refl, Bool, true, false, Option, none, some, List, [], ◌∷◌, ltb, bytes_eq, codes, arith,
  if◌then◌else◌,
}
use neotune.Cache.{PriorityQueue, SizeLimiter, new_limiter, add_file, pop_file}
use neotune.Cache.Accounts.{Counts, adds, pops, Reaches, here, there, Reaches-Counts}

abbrev Entries : Type 0
Entries = List (List ℕ × ℕ)

abbrev without : List ℕ → Entries → Entries
without file [] = []
without file ((f, t) ∷ es) =
    let rest = without file es in if bytes_eq f file then rest else (f, t) ∷ rest

-- The path with the oldest time.
abbrev oldest : (List ℕ × ℕ) → Entries → List ℕ
oldest (f, t) [] = f
oldest (f, t) ((g, u) ∷ es) = oldest (if ltb u t then (g, u) else (f, t)) es

abbrev pop_oldest : Entries → Option (List ℕ × Entries)
pop_oldest [] = none
pop_oldest (e ∷ es) = some (oldest e es, without (oldest e es) (e ∷ es))

abbrev has : List ℕ → Entries → Bool
has file [] = false
has file ((f, t) ∷ es) = if bytes_eq f file then true else has file es

abbrev list_queue : PriorityQueue
list_queue = record {
  State = Entries;
  empty = [];
  push = λ es file t. (file, t) ∷ without file es;
  pop = pop_oldest;
  change_priority = λ es file t. if has file es then some ((file, t) ∷ without file es) else none;
  remove = λ es file. if has file es then some (without file es) else none;
}

abbrev one_file : SizeLimiter list_queue
one_file = add_file list_queue (codes "a") 7 1 (new_limiter list_queue 10)

abbrev two_files : SizeLimiter list_queue
two_files = add_file list_queue (codes "b") 8 2 one_file

run : Reaches list_queue (new_limiter list_queue 10) (pop_file list_queue two_files).1
unfolding new_limiter add_file neotune.Cache.remove_size
run =
    there (new_limiter list_queue 10) one_file _
      (adds (codes "a") 7 1 (new_limiter list_queue 10) (omega arith))
      (there one_file two_files _ (adds (codes "b") 8 2 one_file (omega arith)) (
        there two_files (pop_file list_queue two_files).1 _ (pops two_files)
          (here (pop_file list_queue two_files).1)))

Reaches-Counts_example : Counts list_queue (pop_file list_queue two_files).1
unfolding new_limiter
Reaches-Counts_example =
    Reaches-Counts list_queue (new_limiter list_queue 10) (pop_file list_queue two_files).1 run
      (refl, omega arith)
