-- ===== src/ShuffleVec/Swap.antt =====
-- `slice::swap`: it panics out of range, where the model leaves the list as it is.
use mathlib.Core.List.{Perm}
use mathlib.Core.List.Perm
use mathlib.Core.Option.{some-injective}
use neotune.Common.{
  ℕ, zero, suc, ◌<◌, ◌≤◌, ◌≡◌, refl, none, some, List, [], ◌∷◌, length, get_elem?, set, ◌==◌,
  if◌then◌else◌, arith, length-set, Option-cases, inl, inr, ◌∙◌,
}

module _ {ℓ} {A : Type ℓ} where
  unfoldable pub swap : List A → ℕ → ℕ → List A
  swap xs i j = elim (get_elem? xs i) [
    | none ↦ xs
    | some a ↦ elim (get_elem? xs j) [ none ↦ xs | some b ↦ set (set xs i b) j a ]
  ]

  pub list_ext : (xs ys : List A) → ((k : ℕ) → get_elem? xs k ≡ get_elem? ys k) → xs ≡ ys
  list_ext [] [] h = refl
  list_ext [] (y ∷ ys) h = cc (h 0)
  list_ext (x ∷ xs) [] h = cc (h 0)
  list_ext (x ∷ xs) (y ∷ ys) h = cc (h 0, list_ext xs ys (λ k. h (suc k)))

  pub get_elem?-in : (xs : List A) (i : ℕ) (a : A) → get_elem? xs i ≡ some a → i < length xs
  get_elem?-in [] i a h = cc
  get_elem?-in (x ∷ xs) zero a h = omega arith
  get_elem?-in (x ∷ xs) (suc i) a h = omega (arith, get_elem?-in xs i a h)

  pub get_elem?-of_lt : (xs : List A) (i : ℕ) → i < length xs → (a : A) × (get_elem? xs i ≡ some a)
  get_elem?-of_lt [] i h = absurd (omega arith)
  get_elem?-of_lt (x ∷ xs) zero h = (x, refl)
  get_elem?-of_lt (x ∷ xs) (suc i) h = get_elem?-of_lt xs i (omega arith)

  pub get_elem?-set :
      (xs : List A) (i k : ℕ) (v : A)
      → i < length xs
      → get_elem? (set xs i v) k ≡ (if k == i then some v else get_elem? xs k)
  get_elem?-set [] i k v h = absurd (omega arith)
  get_elem?-set (x ∷ xs) zero zero v h = refl
  get_elem?-set (x ∷ xs) zero (suc k) v h = ground arith
  get_elem?-set (x ∷ xs) (suc i) zero v h = ground arith
  get_elem?-set (x ∷ xs) (suc i) (suc k) v h = ground (arith, get_elem?-set xs i k v)

  pub length-swap : (xs : List A) (i j : ℕ) → length (swap xs i j) ≡ length xs
  unfolding swap
  length-swap xs i j = elim (Option-cases (get_elem? xs i)) [
    | inl e ↦ rw (e, swap)
    | inr (a, e) ↦ elim (Option-cases (get_elem? xs j)) [
      | inl f ↦ rw (e, f, swap)
      | inr (b, f) ↦ rw (e, f, swap) (length-set (set xs i b) j a ∙ length-set xs i b)
    ]
  ]

  pub swap_out : (xs : List A) (i j : ℕ) → length xs ≤ j → swap xs i j ≡ xs
  unfolding swap
  swap_out xs i j h = elim (Option-cases (get_elem? xs i)) [
    | inl e ↦ rw (e, swap)
    | inr (a, e) ↦ elim (Option-cases (get_elem? xs j)) [
      | inl f ↦ rw (e, f, swap)
      | inr (b, f) ↦ absurd (omega (arith, get_elem?-in xs j b f))
    ]
  ]

  pub get_elem?-swap :
      (xs : List A) (i j k : ℕ)
      → i < length xs
      → j < length xs
      → get_elem? (swap xs i j) k
        ≡ (if k == j then get_elem? xs i else if k == i then get_elem? xs j else get_elem? xs k)
  unfolding swap
  get_elem?-swap xs i j k hi hj =
      let (a, e) = get_elem?-of_lt xs i hi in
      let (b, f) = get_elem?-of_lt xs j hj in
      rw (e, f, swap)
        (ground
          (arith, get_elem?-set (set xs i b) j k a, length-set xs i b, get_elem?-set xs i k b hi))

module _ {A : Type 0} where
  -- Swapping back restores the list.
  pub swap-swap :
      (xs : List A) (i j : ℕ) → i < length xs → j < length xs → swap (swap xs i j) j i ≡ xs
  swap-swap xs i j hi hj =
      let l = length-swap xs i j in
      list_ext (swap (swap xs i j) j i) xs λ k. ground (
        arith,
        get_elem?-swap (swap xs i j) j i k,
        get_elem?-swap xs i j k hi hj,
        get_elem?-swap xs i j i hi hj,
        get_elem?-swap xs i j j hi hj,
      )

  pub swap_comm :
      (xs : List A) (i j : ℕ) → i < length xs → j < length xs → swap xs i j ≡ swap xs j i
  swap_comm xs i j hi hj =
      list_ext (swap xs i j) (swap xs j i)
        λ k. ground (arith, get_elem?-swap xs i j k hi hj, get_elem?-swap xs j i k hj hi)

  -- Moving the head into place `j` of the rest.
  set-perm :
      (xs : List A) (j : ℕ) (a b : A) → get_elem? xs j ≡ some b → Perm (b ∷ set xs j a) (a ∷ xs)
  set-perm [] j a b e = cc
  set-perm (x ∷ xs) zero a b e = rw (some-injective x b e) (Perm.swap a b xs)
  set-perm (x ∷ xs) (suc j) a b e =
      Perm.trans (Perm.swap x b (set xs j a))
        (Perm.trans (Perm.cons x (set-perm xs j a b e)) (Perm.swap a x xs))

  swap_cons : (x : A) (xs : List A) (i j : ℕ) → swap (x ∷ xs) (suc i) (suc j) ≡ x ∷ swap xs i j
  unfolding swap
  swap_cons x xs i j = ground arith

  -- A swap only moves elements.
  pub swap-perm : (xs : List A) (i j : ℕ) → Perm (swap xs i j) xs
  swap-perm [] i j = unfold swap in Perm.refl []
  swap-perm (x ∷ xs) zero zero = unfold swap in Perm.refl (x ∷ xs)
  swap-perm (x ∷ xs) zero (suc j) = elim (Option-cases (get_elem? xs j)) [
    | inl e ↦ unfold swap in rw (e, swap) (Perm.refl (x ∷ xs))
    | inr (b, e) ↦ unfold swap in rw (e, swap) (set-perm xs j x b e)
  ]
  swap-perm (x ∷ xs) (suc i) zero = elim (Option-cases (get_elem? xs i)) [
    | inl e ↦ unfold swap in rw (e, swap) (Perm.refl (x ∷ xs))
    | inr (a, e) ↦ unfold swap in rw (e, swap) (set-perm xs i x a e)
  ]
  swap-perm (x ∷ xs) (suc i) (suc j) = rw (swap_cons x xs i j) (Perm.cons x (swap-perm xs i j))
