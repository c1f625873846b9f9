-- ===== src/Resolver/Queue.antt =====
-- librespot_src/connect/src/context_resolver.rs: what the queue of the resolver holds.
use neotune.Common.{
  ℕ, zero, suc, ◌+◌, ◌-◌, ◌≡◌, refl, sym, ap, ◌∙◌, inl, inr, false, none, some, List, [], ◌∷◌, ◌++◌,
  ltb, drop, length, arith, Bool-cases, Option-cases,
}
use neotune.Resolver.{
  ResolveContext, ContextResolver, Same, retry_unavailable, is_queued, tried_at, remove_tried,
  push_new, add, find_from, find_next, remove_used_and_invalid, clear, mark_next_unavailable,
  resolve_uri,
}

-- No later entry is the same as an earlier one.
abbrev pub NoneSame : Same → ResolveContext → List ResolveContext → Type 0
NoneSame same r [] = Unit
NoneSame same r (x ∷ xs) = (same r x ≡ false) × NoneSame same r xs

abbrev pub AllDiffer : Same → List ResolveContext → Type 0
AllDiffer same [] = Unit
AllDiffer same (x ∷ xs) = NoneSame same x xs × AllDiffer same xs

NoneSame-snoc :
    (same : Same) (x r : ResolveContext) (xs : List ResolveContext)
    → NoneSame same x xs
    → same x r ≡ false
    → NoneSame same x (xs ++ (r ∷ []))
NoneSame-snoc same x r [] h e = (e, tt)
NoneSame-snoc same x r (y ∷ ys) (h, hs) e = (h, NoneSame-snoc same x r ys hs e)

AllDiffer-snoc :
    (same : Same) (r : ResolveContext) (xs : List ResolveContext)
    → AllDiffer same xs
    → is_queued same r xs ≡ false
    → AllDiffer same (xs ++ (r ∷ []))
unfolding is_queued
AllDiffer-snoc same r [] h e = (tt, tt)
AllDiffer-snoc same r (x ∷ xs) (n, h) e =
    (NoneSame-snoc same x r xs n (ground arith), AllDiffer-snoc same r xs h (ground arith))

AllDiffer-drop :
    (same : Same) (n : ℕ) (xs : List ResolveContext)
    → AllDiffer same xs
    → AllDiffer same (drop n xs)
AllDiffer-drop same zero xs h = h
AllDiffer-drop same (suc n) [] h = h
AllDiffer-drop same (suc n) (x ∷ xs) (m, h) = AllDiffer-drop same n xs h

push_new-AllDiffer :
    (same : Same) (r : ResolveContext) (c : ContextResolver)
    → AllDiffer same c.queue
    → AllDiffer same (push_new same r c).queue
unfolding push_new
push_new-AllDiffer same r c h = elim (Bool-cases (is_queued same r c.queue)) [
  | inl e ↦ rw (push_new, e) h
  | inr e ↦ rw (push_new, e) (AllDiffer-snoc same r c.queue h e)
]

add-AllDiffer :
    (same : Same) (now : ℕ) (r : ResolveContext) (c : ContextResolver)
    → AllDiffer same c.queue
    → AllDiffer same (add same now r c).queue
unfolding add
add-AllDiffer same now r c h = elim (Option-cases (tried_at same r c.unavailable_contexts)) [
  | inl e ↦ rw (add, e) (push_new-AllDiffer same r c h)
  | inr (t, e) ↦ elim (Bool-cases (ltb retry_unavailable (now - t))) [
    | inl late ↦
        simp (add, e, late)
          (push_new-AllDiffer same r
            (record c { unavailable_contexts = remove_tried same r c.unavailable_contexts }) h)
    | inr early ↦ simp (add, e, early) h
  ]
]

remove-AllDiffer :
    (same : Same) (c : ContextResolver)
    → AllDiffer same c.queue
    → AllDiffer same (remove_used_and_invalid c).queue
unfolding remove_used_and_invalid
remove-AllDiffer same c h = elim (Option-cases (find_next c)) [
  | inl e ↦ rw (remove_used_and_invalid, e) (AllDiffer-drop same 1 c.queue h)
  | inr (next, e) ↦
      rw (remove_used_and_invalid, e)
        (AllDiffer-drop same 1 (drop next.2 c.queue) (AllDiffer-drop same next.2 c.queue h))
]

mark-queue :
    (same : Same) (now : ℕ) (c : ContextResolver)
    → (mark_next_unavailable same now c).queue ≡ c.queue
unfolding mark_next_unavailable
mark-queue same now c = elim (Option-cases (find_next c)) [
  | inl e ↦ rw (mark_next_unavailable, e) refl
  | inr (next, e) ↦ rw (mark_next_unavailable, e) refl
]

-- What the task does with the resolver.
pub data Step (same : Same) : ContextResolver → ContextResolver → Type 1 where
  adds : (now : ℕ) (r : ResolveContext) (c : ContextResolver) → Step same c (add same now r c)
  removes : (c : ContextResolver) → Step same c (remove_used_and_invalid c)
  clears : (c : ContextResolver) → Step same c (clear c)
  marks : (now : ℕ) (c : ContextResolver) → Step same c (mark_next_unavailable same now c)

pub data Reaches (same : Same) : ContextResolver → ContextResolver → Type 1 where
  here : (c : ContextResolver) → Reaches same c c
  there : (c c' c'' : ContextResolver) → Step same c c' → Reaches same c' c'' → Reaches same c c''

Step-AllDiffer :
    (same : Same) (c c' : ContextResolver)
    → Step same c c'
    → AllDiffer same c.queue
    → AllDiffer same c'.queue
unfolding clear
Step-AllDiffer same _ _ (adds now r c) h = add-AllDiffer same now r c h
Step-AllDiffer same _ _ (removes c) h = remove-AllDiffer same c h
Step-AllDiffer same _ _ (clears c) h = tt
Step-AllDiffer same _ _ (marks now c) h = rw (mark-queue same now c) h

-- However contexts are added, used, marked as unavailable and cleared: no context is is_queued twice, where
-- that holds at first.
pub Reaches-AllDiffer :
    (same : Same) (c c' : ContextResolver)
    → Reaches same c c'
    → AllDiffer same c.queue
    → AllDiffer same c'.queue
Reaches-AllDiffer same _ _ (here c) h = h
Reaches-AllDiffer same _ _ (there c c' c'' step rest) h =
    Reaches-AllDiffer same c' c'' rest (Step-AllDiffer same c c' step h)

-- No entry has a uri to resolve.
abbrev pub AllInvalid : List ResolveContext → Type 0
AllInvalid [] = Unit
AllInvalid (r ∷ rs) = (resolve_uri r ≡ none) × AllInvalid rs

find_from_lem :
    (idx : ℕ) (rs : List ResolveContext) (r : ResolveContext) (uri : List ℕ) (i : ℕ)
    → find_from idx rs ≡ some (r, uri, i)
    → (skipped : List ResolveContext) × ((rest : List ResolveContext) × (AllInvalid skipped
          × (rs ≡ skipped ++ (r ∷ rest))
          × (resolve_uri r ≡ some uri)
          × (i ≡ idx + length skipped)))
unfolding find_from
find_from_lem idx [] r uri i h = absurd (cc h)
find_from_lem idx (x ∷ xs) r uri i h = elim (Option-cases (resolve_uri x)) [
  | inl invalid ↦
      let (skipped, (rest, (all, split, valid, at_i))) =
        find_from_lem (suc idx) xs r uri i (rw (find_from, invalid) at h) in
      (x ∷ skipped, (rest, ((invalid, all), ap (λ ys. x ∷ ys) split, valid, omega arith)))
  | inr (u, found) ↦
      let same : ◌≡◌ {A = ResolveContext × List ℕ × ℕ} (x, u, idx) (r, uri, i) =
        cc (rw (find_from, found) at h) in
      let at_r : x ≡ r = ap (λ p. p.0) same in
      let at_u : u ≡ uri = ap (λ p. p.1) same in
      let at_i : idx ≡ i = ap (λ p. p.2) same in
      (
        [],
        (
          xs,
          (
            tt,
            ap (λ y. y ∷ xs) at_r,
            sym (ap resolve_uri at_r) ∙ found ∙ ap some at_u,
            omega (arith, at_i),
          ),
        ),
      )
]

drop-skipped :
    (skipped rest : List ResolveContext) (r : ResolveContext)
    → drop 1 (drop (length skipped) (skipped ++ (r ∷ rest))) ≡ rest
drop-skipped [] rest r = refl
drop-skipped (x ∷ xs) rest r = drop-skipped xs rest r

remove-found :
    (c : ContextResolver) (r : ResolveContext) (uri : List ℕ) (i : ℕ)
    → find_next c ≡ some (r, uri, i)
    → (remove_used_and_invalid c).queue ≡ drop 1 (drop i c.queue)
unfolding remove_used_and_invalid
remove-found c r uri i h = rw (remove_used_and_invalid, h) refl

-- What is resolved next is the first entry with a uri, and `remove_used_and_invalid` takes it off the
-- queue with all the entries in front of it, which have none, and nothing else.
pub remove_used_and_invalid_lem :
    (c : ContextResolver) (r : ResolveContext) (uri : List ℕ) (i : ℕ)
    → find_next c ≡ some (r, uri, i)
    → (skipped : List ResolveContext) × (AllInvalid skipped
        × (resolve_uri r ≡ some uri)
        × (c.queue ≡ skipped ++ (r ∷ (remove_used_and_invalid c).queue)))
unfolding find_next
remove_used_and_invalid_lem c r uri i h =
    let (skipped, (rest, (all, split, valid, at_i))) = find_from_lem 0 c.queue r uri i h in
    let n : i ≡ length skipped = omega arith in
    let left : (remove_used_and_invalid c).queue ≡ rest =
      remove-found c r uri i h
      ∙ (ap (λ k. drop 1 (drop k c.queue)) n
          ∙ (ap (λ q. drop 1 (drop (length skipped) q)) split ∙ drop-skipped skipped rest r)) in
    (skipped, (all, valid, rw left split))
