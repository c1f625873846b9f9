-- ===== src/ShuffleVec/Unshuffle.antt =====
-- librespot_src/connect/src/shuffle_vec.rs: `unshuffle` after `shuffle_with_rng`.
use mathlib.Core.List.{append_assoc}
use mathlib.Core.Path.{subst}
use native.Mathlib.Nat.{zero-add}
use neotune.Common.{
  ℕ, zero, suc, ◌+◌, ◌-◌, ◌<◌, ◌≡◌, refl, sym, ap, ◌∙◌, ◌⊎◌, Option, none, some, List, [], ◌∷◌,
  ◌++◌, length, get_elem?, leb, arith, Bool, Option-cases, Bool-cases, inl, inr,
}
use neotune.ShuffleVec.{
  Rng, ShuffleVec, from_vec, position, shuffle_swaps, swap_first, unshuffle_swaps, unshuffle, draw,
  shuffle_ordered, shuffle_with_rng,
}
use neotune.ShuffleVec.Swap.{swap, length-swap, swap-swap, swap_comm}

-- One index for each place from `i` down to 1, each at most its place.
abbrev pub Draws : ℕ → List ℕ → Type 0
Draws zero [] = Unit {0}
Draws zero (r ∷ rs) = ⊥
Draws (suc i) [] = ⊥
Draws (suc i) (r ∷ rs) = (r < suc i + 1) × Draws i rs

pub draw-Draws : (g : Rng) (i : ℕ) (s : g.State) → Draws i (draw g i s)
unfolding draw
draw-Draws g zero s = tt
draw-Draws g (suc i) s =
    (g.random_range_lt s (suc i + 1) (omega arith), draw-Draws g i (g.random_range s (suc i + 1)).1)

pub length-of_Draws : (i : ℕ) (rs : List ℕ) → Draws i rs → length rs ≡ i
length-of_Draws zero [] d = refl
length-of_Draws zero (r ∷ rs) d = absurd d
length-of_Draws (suc i) [] d = absurd d
length-of_Draws (suc i) (r ∷ rs) d = ap suc (length-of_Draws i rs d.1)

get_elem?-middle : (pre rs : List ℕ) (r : ℕ) → get_elem? (pre ++ (r ∷ rs)) (length pre) ≡ some r
get_elem?-middle [] rs r = refl
get_elem?-middle (x ∷ pre) rs r = get_elem?-middle pre rs r

length-snoc : (pre : List ℕ) (r : ℕ) → length (pre ++ (r ∷ [])) ≡ suc (length pre)
length-snoc [] r = refl
length-snoc (x ∷ pre) r = ap suc (length-snoc pre r)

module _ {A : Type 0} where
  pub length-shuffle_swaps :
      (i : ℕ) (rs : List ℕ) (xs : List A) → length (shuffle_swaps i rs xs) ≡ length xs
  unfolding shuffle_swaps
  length-shuffle_swaps zero rs xs = refl
  length-shuffle_swaps (suc i) [] xs = refl
  length-shuffle_swaps (suc i) (r ∷ rs) xs =
      length-shuffle_swaps i rs (swap xs (suc i) r) ∙ length-swap xs (suc i) r

  -- One round of `unshuffle`, at the place where `r` stands among the indices.
  unshuffle_round :
      (k i len : ℕ) (pre idx rest : List ℕ) (r : ℕ) (xs : List A)
      → idx ≡ pre ++ (r ∷ rest)
      → len ≡ length pre + i + 1
      → unshuffle_swaps (suc k) i idx len xs ≡ unshuffle_swaps k (i + 1) idx len (swap xs r i)
  unfolding unshuffle_swaps
  unshuffle_round k i len pre idx rest r xs e l =
      let at : len - i - 1 ≡ length pre = omega arith in
      let found : get_elem? idx (len - i - 1) ≡ some r = rw (at, e) (get_elem?-middle pre rest r) in
      rw (found, unshuffle_swaps)

  -- The first `i` rounds of `unshuffle` undo the last `i` swaps of the shuffle.
  undo :
      (i k len : ℕ) (pre rs idx : List ℕ) (xs : List A)
      → Draws i rs
      → i < length xs
      → idx ≡ pre ++ rs
      → len ≡ length pre + i + 1
      → unshuffle_swaps (i + k) 1 idx len (shuffle_swaps i rs xs)
        ≡ unshuffle_swaps k (i + 1) idx len xs
  unfolding shuffle_swaps
  undo zero k len pre [] idx xs d h e l = rw (zero-add k)
  undo zero k len pre (r ∷ rs) idx xs d h e l = absurd d
  undo (suc i) k len pre [] idx xs d h e l = absurd d
  undo (suc i) k len pre (r ∷ rs) idx xs d h e l =
      let ih =
        undo i (suc k) len (pre ++ (r ∷ [])) rs idx (swap xs (suc i) r) d.1
          (omega (arith, length-swap xs (suc i) r)) (e ∙ sym (append_assoc pre (r ∷ []) rs))
          (omega (arith, length-snoc pre r)) in
      let round = unshuffle_round k (i + 1) len pre idx rs r (swap xs (suc i) r) e (omega arith) in
      let e1 : suc i + k ≡ i + suc k = omega arith in
      let e2 : i + 1 ≡ suc i = omega arith in
      let back = swap-swap xs (suc i) r h (omega arith) in cc (ih, round, e1, e2, back)

  -- The loop of `unshuffle` undoes the loop of the shuffle.
  unshuffle_swaps-shuffle_swaps :
      (rs : List ℕ) (xs : List A)
      → Draws (length xs - 1) rs
      → unshuffle_swaps (length xs - 1) 1 rs (length xs) (shuffle_swaps (length xs - 1) rs xs) ≡ xs
  unfolding unshuffle_swaps shuffle_swaps
  unshuffle_swaps-shuffle_swaps rs [] d = refl
  unshuffle_swaps-shuffle_swaps rs (x ∷ xs) d =
      let n = length (x ∷ xs) in
      let u = undo (n - 1) 0 n [] rs rs (x ∷ xs) d (omega arith) refl (omega arith) in
      let e : n - 1 + 0 ≡ n - 1 = omega arith in rw e at u

  pub position-lt : (p : A → Bool) (xs : List A) (i : ℕ) → position p xs ≡ some i → i < length xs
  unfolding position
  position-lt p [] i e = cc
  position-lt p (x ∷ xs) i e = elim (Bool-cases (p x)) [
    | inl t ↦ ground arith
    | inr f ↦ elim (Option-cases (position p xs)) [
      | inl g ↦ ground arith
      | inr (j, g) ↦ ground (arith, position-lt p xs j g)
    ]
  ]

  -- The swap of the first track is its own inverse.
  swap_first-swap_first :
      (p : A → Bool) (xs : List A) → swap_first (position p xs) (swap_first (position p xs) xs) ≡ xs
  unfolding swap_first
  swap_first-swap_first p xs = elim (Option-cases (position p xs)) [
    | inl e ↦ rw (e, swap_first)
    | inr (i, e) ↦
        let h = position-lt p xs i e in
        let l = length-swap xs 0 i in
        rw (e, swap_first)
          (swap_comm (swap xs 0 i) 0 i (omega arith) (omega arith)
            ∙ swap-swap xs 0 i (omega arith) h)
  ]

  pub length-swap_first : (o : Option ℕ) (xs : List A) → length (swap_first o xs) ≡ length xs
  unfolding swap_first
  length-swap_first none xs = refl
  length-swap_first (some i) xs = length-swap xs 0 i

  -- A vector that `unshuffle` takes back to `base`.
  abbrev pub Restores : List A → ShuffleVec A → Type 0
  Restores base s = unshuffle s ≡ from_vec base

  unshuffle_lem :
      (base : List A) (s : ShuffleVec A)
      → Restores base s
      → (s ≡ from_vec base) ⊎ ((rs : List ℕ) × (s.indices ≡ some rs))
  unfolding unshuffle
  unshuffle_lem base s h = elim (Option-cases s.indices) [
    | inl e ↦ inl (ground arith)
    | inr p ↦ inr p
  ]

module _ {A : Type 0} (g : Rng) (rng : g.State) (is_first : A → Bool) where
  shuffle_ordered-Restores :
      (base : List A) → Restores base (shuffle_ordered g (from_vec base) rng is_first)
  unfolding shuffle_ordered unshuffle
  shuffle_ordered-Restores base =
      let indices = draw g (length base - 1) rng in
      let xs = shuffle_swaps (length base - 1) indices base in
      let l = length-swap_first (position is_first xs) xs ∙ length-shuffle_swaps _ indices base in
      rw (l, swap_first-swap_first is_first xs)
        (ap from_vec (unshuffle_swaps-shuffle_swaps indices base (draw-Draws g _ rng)))

  shuffle_fresh-Restores :
      (base : List A) → Restores base (shuffle_with_rng g (from_vec base) rng is_first)
  unfolding shuffle_with_rng
  shuffle_fresh-Restores base = elim (Bool-cases (leb (length base) 1)) [
    | inl small ↦ rw (small, shuffle_with_rng) (unfold unshuffle in refl)
    | inr big ↦ rw (big, shuffle_with_rng) (shuffle_ordered-Restores base)
  ]

  -- However often a vector is shuffled, `unshuffle` gives back the order that it had at first.
  pub shuffle_with_rng-Restores :
      (base : List A) (s : ShuffleVec A)
      → Restores base s
      → Restores base (shuffle_with_rng g s rng is_first)
  unfolding shuffle_with_rng
  shuffle_with_rng-Restores base s h = elim (Bool-cases (leb (length s.vec) 1)) [
    | inl small ↦ rw (small, shuffle_with_rng) h
    | inr big ↦ elim (unshuffle_lem base s h) [
      | inl e ↦
          subst (λ (t : ShuffleVec A). Restores base (shuffle_with_rng g t rng is_first)) (sym e)
            (shuffle_fresh-Restores base)
      | inr (rs, e) ↦ rw (big, e, shuffle_with_rng) (rw h (shuffle_ordered-Restores base))
    ]
  ]
