-- ===== src/Cache/Accounts.antt =====
-- librespot_src/core/src/cache.rs: the bytes that the limiter counts.
use neotune.Common.{
  ℕ, ◌+◌, ◌^◌, ◌<◌, ◌≤◌, ◌≡◌, refl, Option, none, some, List, [], ◌∷◌, bytes_eq, add_u64, sub_u64,
  arith, Bool-cases, Option-cases, inl, inr,
}
use neotune.Cache.{
  PriorityQueue, Sizes, get_size, remove_size, minus_size, SizeLimiter, add_file, exceeds_limit,
  forget, pop_file, update_file, remove_file,
}

abbrev pub total : Sizes → ℕ
total [] = 0
total ((f, size) ∷ m) = size + total m

abbrev size_or_zero : Option ℕ → ℕ
size_or_zero none = 0
size_or_zero (some size) = size

total-remove_size :
    (file : List ℕ) (m : Sizes)
    → size_or_zero (get_size file m) + total (remove_size file m) ≡ total m
unfolding get_size remove_size
total-remove_size file [] = omega arith
total-remove_size file ((f, size) ∷ m) = elim (Bool-cases (bytes_eq f file)) [
  | inl e ↦ rw (get_size, remove_size, e) refl
  | inr e ↦ (let h = total-remove_size file m in rw (get_size, remove_size, e) (omega arith))
]

minus_size_lem :
    (in_use : ℕ) (o : Option ℕ)
    → in_use < 2 ^ 64
    → size_or_zero o ≤ in_use
    → minus_size in_use o + size_or_zero o ≡ in_use
unfolding sub_u64
minus_size_lem in_use none small h = omega arith
minus_size_lem in_use (some size) small h = omega arith

module _ (Q : PriorityQueue) where
  -- The bytes in use are those of the files that are known, and their sum does not overflow.
  abbrev pub Counts : SizeLimiter Q → Type 0
  Counts c = (c.in_use ≡ total c.sizes) × (total c.sizes < 2 ^ 64)

  forget-Counts :
      (file : List ℕ) (queue : Q.State) (c : SizeLimiter Q)
      → Counts c
      → Counts (forget Q file queue c)
  unfolding forget
  forget-Counts file queue c (n, small) =
      let t = total-remove_size file c.sizes in
      let l = minus_size_lem c.in_use (get_size file c.sizes) (omega arith) (omega arith) in
      (omega arith, omega arith)

  add_file-Counts :
      (file : List ℕ) (size accessed : ℕ) (c : SizeLimiter Q)
      → total c.sizes + size < 2 ^ 64
      → Counts c
      → Counts (add_file Q file size accessed c)
  unfolding add_file add_u64
  add_file-Counts file size accessed c fits (n, small) =
      let t = total-remove_size file c.sizes in
      let a : add_u64 c.in_use size ≡ c.in_use + size = omega arith in
      let l =
        minus_size_lem (add_u64 c.in_use size) (get_size file c.sizes) (omega arith)
          (omega arith) in
      (omega arith, omega arith)

  pop_file-Counts : (c : SizeLimiter Q) → Counts c → Counts (pop_file Q c).1
  unfolding pop_file
  pop_file-Counts c h = elim (Bool-cases (exceeds_limit Q c)) [
    | inr e ↦ rw (pop_file, e) h
    | inl e ↦ elim (Option-cases (Q.pop c.queue)) [
      | inl p ↦ rw (pop_file, e, p) h
      | inr (next, p) ↦ simp (pop_file, e, p) (forget-Counts next.0 next.1 c h)
    ]
  ]

  remove_file-Counts :
      (file : List ℕ) (c : SizeLimiter Q) → Counts c → Counts (remove_file Q file c).1
  unfolding remove_file
  remove_file-Counts file c h = elim (Option-cases (Q.remove c.queue file)) [
    | inl e ↦ rw (remove_file, e) h
    | inr (queue, e) ↦ simp (remove_file, e) (forget-Counts file queue c h)
  ]

  update_file-Counts :
      (file : List ℕ) (t : ℕ) (c : SizeLimiter Q) → Counts c → Counts (update_file Q file t c).1
  unfolding update_file
  update_file-Counts file t c h = elim (Option-cases (Q.change_priority c.queue file t)) [
    | inl e ↦ rw (update_file, e) h
    | inr (queue, e) ↦ simp (update_file, e) h
  ]

-- What the cache does with the limiter. The sizes of the files that are there do not overflow.
pub data Step (Q : PriorityQueue) : SizeLimiter Q → SizeLimiter Q → Type 1 where
  adds :
      (file : List ℕ) (size accessed : ℕ) (c : SizeLimiter Q)
      → total c.sizes + size < 2 ^ 64
      → Step Q c (add_file Q file size accessed c)
  pops : (c : SizeLimiter Q) → Step Q c (pop_file Q c).1
  updates : (file : List ℕ) (t : ℕ) (c : SizeLimiter Q) → Step Q c (update_file Q file t c).1
  removes : (file : List ℕ) (c : SizeLimiter Q) → Step Q c (remove_file Q file c).1

pub data Reaches (Q : PriorityQueue) : SizeLimiter Q → SizeLimiter Q → Type 1 where
  here : (c : SizeLimiter Q) → Reaches Q c c
  there : (c c' c'' : SizeLimiter Q) → Step Q c c' → Reaches Q c' c'' → Reaches Q c c''

Step-Counts : (Q : PriorityQueue) (c c' : SizeLimiter Q) → Step Q c c' → Counts Q c → Counts Q c'
Step-Counts Q _ _ (adds file size accessed c fits) h = add_file-Counts Q file size accessed c fits h
Step-Counts Q _ _ (pops c) h = pop_file-Counts Q c h
Step-Counts Q _ _ (updates file t c) h = update_file-Counts Q file t c h
Step-Counts Q _ _ (removes file c) h = remove_file-Counts Q file c h

-- However files are added, also again and with another size, touched, removed and popped: the bytes in
-- use are the sum of the sizes of the files that are known, and no sum under- or overflows, as long as
-- the files that are there together with the one that is added have less than 2 ^ 64 bytes.
pub Reaches-Counts :
    (Q : PriorityQueue) (c c' : SizeLimiter Q) → Reaches Q c c' → Counts Q c → Counts Q c'
Reaches-Counts Q _ _ (here c) h = h
Reaches-Counts Q _ _ (there c c' c'' step rest) h =
    Reaches-Counts Q c' c'' rest (Step-Counts Q c c' step h)
