-- ===== src/ShuffleVec/Outcome.antt =====
-- What a shuffle leaves in the vector, and what happens to a vector that grows while shuffled.
use mathlib.Core.List.{Perm, Mem, mem-cons, not-mem-nil}
use mathlib.Core.Logic.Or
use mathlib.Core.HLevel.{⊥_prop}
use mathlib.Core.List.Perm
use neotune.Common.{
  ℕ, zero, suc, ◌+◌, ◌-◌, ◌<◌, ◌≤◌, ◌≡◌, refl, ap, ◌∙◌, ◌≢◌, Option, none, some, List, [], ◌∷◌,
  ◌++◌, length, get_elem?, ◌==◌, leb, if◌then◌else◌, arith, Bool, true, false, Option-cases,
  Bool-cases, inl, inr, length-append,
}
use neotune.ShuffleVec.{
  Rng, ShuffleVec, from_vec, position, shuffle_swaps, swap_first, unshuffle_swaps, unshuffle, draw,
  shuffle_ordered, shuffle_with_rng, push,
}
use neotune.ShuffleVec.Swap.{swap, swap-perm, get_elem?-swap}
use neotune.ShuffleVec.Unshuffle.{position-lt}

module _ {A : Type 0} where
  shuffle_swaps-perm : (i : ℕ) (rs : List ℕ) (xs : List A) → Perm (shuffle_swaps i rs xs) xs
  unfolding shuffle_swaps
  shuffle_swaps-perm zero rs xs = Perm.refl xs
  shuffle_swaps-perm (suc i) [] xs = Perm.refl xs
  shuffle_swaps-perm (suc i) (r ∷ rs) xs =
      Perm.trans (shuffle_swaps-perm i rs (swap xs (suc i) r)) (swap-perm xs (suc i) r)

  swap_first-perm : (o : Option ℕ) (xs : List A) → Perm (swap_first o xs) xs
  unfolding swap_first
  swap_first-perm none xs = Perm.refl xs
  swap_first-perm (some i) xs = swap-perm xs 0 i

  unshuffle_swaps-perm :
      (k i len : ℕ) (idx : List ℕ) (xs : List A) → Perm (unshuffle_swaps k i idx len xs) xs
  unfolding unshuffle_swaps
  unshuffle_swaps-perm zero i len idx xs = Perm.refl xs
  unshuffle_swaps-perm (suc k) i len idx xs = elim (Option-cases (get_elem? idx (len - i - 1))) [
    | inl e ↦ rw (e, unshuffle_swaps) (Perm.refl xs)
    | inr (n, e) ↦
        rw (e, unshuffle_swaps)
          (Perm.trans (unshuffle_swaps-perm k (i + 1) len idx (swap xs n i)) (swap-perm xs n i))
  ]

  -- `unshuffle` loses no track and makes none up, also after the vector was changed.
  pub unshuffle-perm : (s : ShuffleVec A) → Perm (unshuffle s).vec s.vec
  unfolding unshuffle
  unshuffle-perm s = elim (Option-cases s.indices) [
    | inl e ↦ rw (e, unshuffle) (Perm.refl s.vec)
    | inr (idx, e) ↦
        rw (e, unshuffle)
          (Perm.trans (unshuffle_swaps-perm _ 1 (length s.vec) idx _)
            (swap_first-perm s.original_first_position s.vec))
  ]

  -- The place that `position` finds, after the swap.
  position-first :
      (p : A → Bool) (xs : List A) (i : ℕ)
      → position p xs ≡ some i
      → (a : A) × (get_elem? xs i ≡ some a) × (p a ≡ true)
  unfolding position
  position-first p [] i e = cc
  position-first p (x ∷ xs) i e = elim (Bool-cases (p x)) [
    | inl t ↦ let z : i ≡ 0 = ground arith in rw z (x, refl, t)
    | inr f ↦ elim (Option-cases (position p xs)) [
      | inl g ↦ absurd (ground arith)
      | inr (j, g) ↦
          let z : i ≡ suc j = ground arith in
          let (a, q, r) = position-first p xs j g in rw z (a, q, r)
    ]
  ]

  position-ne-none :
      (p : A → Bool) (xs : List A) (a : A) → Mem a xs → p a ≡ true → position p xs ≢ none
  unfolding position
  position-ne-none p [] a m t n = not-mem-nil m
  position-ne-none p (x ∷ xs) a m t n =
      Or.elim ⊥_prop (mem-cons.0 m) (λ (e : a ≡ x). absurd (ground arith))
        (λ (later : Mem a xs).
          position-ne-none p xs a later t (elim (Option-cases (position p xs)) [
            | inl g ↦ g
            | inr (j, g) ↦ absurd (ground arith)
          ]))

  swap_to_front :
      (xs : List A) (i : ℕ) (b : A)
      → get_elem? xs i ≡ some b
      → i < length xs
      → get_elem? (swap xs 0 i) 0 ≡ some b
  swap_to_front xs i b e h = get_elem?-swap xs 0 i 0 (omega arith) h ∙ chosen i e
    where
      chosen :
          (i : ℕ)
          → get_elem? xs i ≡ some b
          → (if 0 == i then get_elem? xs 0 else if 0 == 0 then get_elem? xs i else get_elem? xs 0)
            ≡ some b
      chosen zero e = e
      chosen (suc i) e = ground arith

module _ {A : Type 0} (g : Rng) (rng : g.State) (is_first : A → Bool) where
  shuffle_ordered_first :
      (s : ShuffleVec A) (a : A)
      → Mem a s.vec
      → is_first a ≡ true
      → (b : A) × (get_elem? (shuffle_ordered g s rng is_first).vec 0 ≡ some b)
        × (is_first b ≡ true)
  unfolding shuffle_ordered swap_first
  shuffle_ordered_first s a m t =
      let xs = shuffle_swaps (length s.vec - 1) (draw g (length s.vec - 1) rng) s.vec in
      let inside = (Perm.mem_iff (shuffle_swaps-perm _ _ s.vec)).1 m in
      elim (Option-cases (position is_first xs)) [
        | inl n ↦ absurd (position-ne-none is_first xs a inside t n)
        | inr (i, e) ↦
            let (b, at, hit) = position-first is_first xs i e in
            rw (e, swap_first) (b, swap_to_front xs i b at (position-lt is_first xs i e), hit)
      ]

  -- Where a track of a vector of two or more satisfies `is_first`, one that does comes first.
  pub shuffle_with_rng_first :
      (s : ShuffleVec A) (a : A)
      → Mem a s.vec
      → is_first a ≡ true
      → 1 < length s.vec
      → (b : A) × (get_elem? (shuffle_with_rng g s rng is_first).vec 0 ≡ some b)
        × (is_first b ≡ true)
  unfolding shuffle_with_rng
  shuffle_with_rng_first s a m t h =
      let big : leb (length s.vec) 1 ≡ false = ground arith in
      elim (Option-cases s.indices) [
        | inl e ↦ rw (big, e, shuffle_with_rng) (shuffle_ordered_first s a m t)
        | inr (idx, e) ↦
            rw (big, e, shuffle_with_rng)
              (shuffle_ordered_first (unshuffle s) a ((Perm.mem_iff (unshuffle-perm s)).1 m) t)
      ]

get_elem?-past : (xs : List ℕ) (i : ℕ) → length xs ≤ i → get_elem? xs i ≡ none
get_elem?-past [] i h = refl
get_elem?-past (x ∷ xs) zero h = absurd (omega arith)
get_elem?-past (x ∷ xs) (suc i) h = get_elem?-past xs i (omega arith)

module _ {A : Type 0} where
  stops_at_once :
      (k : ℕ) (idx : List ℕ) (len : ℕ) (xs : List A)
      → length idx + 1 < len
      → unshuffle_swaps k 1 idx len xs ≡ xs
  unfolding unshuffle_swaps
  stops_at_once zero idx len xs h = refl
  stops_at_once (suc k) idx len xs h =
      rw (get_elem?-past idx (len - 1 - 1) (omega arith), unshuffle_swaps)

  -- A track that is pushed onto a shuffled vector keeps `unshuffle` from undoing any swap of the
  -- shuffle: only the first track is put back, and the drawn indices are dropped.
  pub unshuffle-push :
      (s : ShuffleVec A) (idx : List ℕ) (a : A)
      → s.indices ≡ some idx
      → length idx + 1 ≡ length s.vec
      → unshuffle (push s a) ≡ from_vec (swap_first s.original_first_position (s.vec ++ (a ∷ [])))
  unfolding unshuffle push
  unshuffle-push s idx a e l =
      rw (e, unshuffle)
        (ap from_vec (stops_at_once _ idx _ _ (omega (arith, length-append s.vec (a ∷ [])))))
