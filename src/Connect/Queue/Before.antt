-- ===== src/Connect/Queue/Before.antt =====
-- librespot_src/connect/src/state.rs: the previous tracks that `reset_playback_to_position` takes from
-- the context.
use neotune.Common.{
  append_nil, take_all, length-reverse_onto, ℕ, zero, suc, ◌-◌, ◌≤◌, ◌<◌, ◌≡◌, refl, sym, ap, ◌∙◌,
  List, [], ◌∷◌, ◌++◌, length, take, drop, reverse, reverse_onto, length-take, ◌⊎◌, inl, inr, arith,
  sub_usize, sub_usize-eq-sub, usize_mod,
}
use neotune.Connect.Track.{Track}
use neotune.Connect.State.{max_prev_tracks}
use neotune.Connect.Queue.{tracks_before}

le-cases : (m n : ℕ) → (m ≤ n) ⊎ (n < m)
le-cases m n = ground arith

module _ {A : Type 0} where
  append_assoc : (xs ys zs : List A) → (xs ++ ys) ++ zs ≡ xs ++ (ys ++ zs)
  append_assoc [] ys zs = refl
  append_assoc (x ∷ xs) ys zs = ap (λ l. x ∷ l) (append_assoc xs ys zs)

  reverse_onto_lem : (xs out : List A) → reverse_onto xs out ≡ reverse xs ++ out
  reverse_onto_lem [] out = refl
  reverse_onto_lem (x ∷ xs) out =
      reverse_onto_lem xs (x ∷ out)
      ∙ sym (append_assoc (reverse xs) (x ∷ []) out)
      ∙ ap (λ l. l ++ out) (sym (reverse_onto_lem xs (x ∷ [])))

  reverse_onto-append :
      (xs ys out : List A) → reverse_onto (xs ++ ys) out ≡ reverse_onto ys (reverse_onto xs out)
  reverse_onto-append [] ys out = refl
  reverse_onto-append (x ∷ xs) ys out = reverse_onto-append xs ys (x ∷ out)

  reverse_onto-reverse_onto :
      (xs ys out : List A) → reverse_onto (reverse_onto xs ys) out ≡ reverse_onto ys (xs ++ out)
  reverse_onto-reverse_onto [] ys out = refl
  reverse_onto-reverse_onto (x ∷ xs) ys out = reverse_onto-reverse_onto xs (x ∷ ys) out

  reverse-append : (xs ys : List A) → reverse (xs ++ ys) ≡ reverse ys ++ reverse xs
  reverse-append xs ys = reverse_onto-append xs ys [] ∙ reverse_onto_lem ys (reverse xs)

  reverse-reverse : (xs : List A) → reverse (reverse xs) ≡ xs
  reverse-reverse xs = reverse_onto-reverse_onto xs [] [] ∙ append_nil xs

  take-append_left : (n : ℕ) (xs ys : List A) → length xs ≡ n → take n (xs ++ ys) ≡ xs
  take-append_left zero [] ys e = refl
  take-append_left zero (x ∷ xs) ys e = absurd (omega arith)
  take-append_left (suc n) [] ys e = absurd (omega arith)
  take-append_left (suc n) (x ∷ xs) ys e = ap (λ l. x ∷ l) (take-append_left n xs ys (omega arith))

  drop-append_left : (n : ℕ) (xs ys : List A) → length xs ≡ n → drop n (xs ++ ys) ≡ ys
  drop-append_left zero [] ys e = refl
  drop-append_left zero (x ∷ xs) ys e = absurd (omega arith)
  drop-append_left (suc n) [] ys e = absurd (omega arith)
  drop-append_left (suc n) (x ∷ xs) ys e = drop-append_left n xs ys (omega arith)

  take-drop : (n : ℕ) (xs : List A) → take n xs ++ drop n xs ≡ xs
  take-drop zero xs = refl
  take-drop (suc n) [] = refl
  take-drop (suc n) (x ∷ xs) = ap (λ l. x ∷ l) (take-drop n xs)

  length-drop : (n : ℕ) (xs : List A) → length (drop n xs) ≡ length xs - n
  length-drop zero xs = omega arith
  length-drop (suc n) [] = omega arith
  length-drop (suc n) (x ∷ xs) = let l = length-drop n xs in omega arith

  -- To drop from the end is to take from the front.
  drop-reverse :
      (n : ℕ) (xs : List A)
      → n ≤ length xs
      → drop (length xs - n) (reverse xs) ≡ reverse (take n xs)
  drop-reverse n xs h =
      let split : reverse xs ≡ reverse (drop n xs) ++ reverse (take n xs) =
        ap reverse (sym (take-drop n xs)) ∙ reverse-append (take n xs) (drop n xs) in
      let l : length (reverse (drop n xs)) ≡ length xs - n =
        let a = length-reverse_onto (drop n xs) [] in let b = length-drop n xs in omega arith in
      ap (drop (length xs - n)) split ∙ drop-append_left (length xs - n) (reverse (drop n xs)) _ l

  -- To take from the end is to drop from the front.
  take-reverse : (n : ℕ) (xs : List A) → reverse (take n (reverse xs)) ≡ drop (length xs - n) xs
  take-reverse n xs = elim (le-cases n (length xs)) [
    | inl h ↦
        let m = length xs - n in
        let split : reverse xs ≡ reverse (drop m xs) ++ reverse (take m xs) =
          ap reverse (sym (take-drop m xs)) ∙ reverse-append (take m xs) (drop m xs) in
        let l : length (reverse (drop m xs)) ≡ n =
          let a = length-reverse_onto (drop m xs) [] in let b = length-drop m xs in omega arith in
        ap (λ ys. reverse (take n ys)) split
        ∙ ap reverse (take-append_left n (reverse (drop m xs)) _ l)
        ∙ reverse-reverse (drop m xs)
    | inr h ↦
        let z : length xs - n ≡ 0 = omega arith in
        let l : length (reverse xs) ≤ n = let a = length-reverse_onto xs [] in omega arith in
        rw (take_all n (reverse xs) l, z) (reverse-reverse xs)
  ]

-- The tracks right before the new one, at most 10, in the order of the context.
pub tracks_before_lem :
    (i : ℕ) (ts : List Track)
    → i ≤ length ts
    → length ts < usize_mod
    → tracks_before i ts ≡ drop (i - max_prev_tracks) (take i ts)
unfolding tracks_before
tracks_before_lem i ts h small =
    let d : sub_usize (length ts) i ≡ length ts - i = sub_usize-eq-sub (length ts) i h small in
    let l : length (take i ts) ≡ i = let a = length-take i ts in omega arith in
    ap (λ n. reverse (take max_prev_tracks (drop n (reverse ts)))) d
    ∙ ap (λ ys. reverse (take max_prev_tracks ys)) (drop-reverse i ts h)
    ∙ take-reverse max_prev_tracks (take i ts)
    ∙ ap (λ n. drop (n - max_prev_tracks) (take i ts)) l
