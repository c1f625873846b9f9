-- ===== src/RangeSet/Valid.antt =====
-- The invariant of a range set, what it covers, and the two queries that stop early.
use neotune.Common.{
  ℕ, ◌+◌, ◌<◌, ◌≤◌, suc, ◌≡◌, refl, Bool, true, false, ◌&&◌, ◌||◌, List, [], ◌∷◌, ltb, leb,
  add_usize-eq-add, sub_usize-eq-sub, usize_mod, arith,
}
use neotune.RangeSet.{
  Range, RangeSet, range_end, contains_loop, contains, contained_length_loop,
  contained_length_from_value,
}

-- The end of a range does not wrap.
abbrev pub Fits : Range → Type 0
Fits r = r.start + r.length < usize_mod

-- From `lo` on: nonempty ranges, in order, with a gap between neighbours.
abbrev pub Chain : ℕ → List Range → Type 0
Chain lo [] = Unit {0}
Chain lo (r ∷ rs) = (lo ≤ r.start) × (0 < r.length) × Fits r × Chain (suc (r.start + r.length)) rs

abbrev pub IsValid : RangeSet → Type 0
IsValid s = Chain 0 s.ranges

abbrev pub covers : Range → ℕ → Bool
covers r v = leb r.start v && ltb v (r.start + r.length)

abbrev pub covered : List Range → ℕ → Bool
covered [] v = false
covered (r ∷ rs) v = covers r v || covered rs v

pub range_end-eq-add : (r : Range) → Fits r → range_end r ≡ r.start + r.length
unfolding range_end
range_end-eq-add r h = add_usize-eq-add r.start r.length h

pub Chain-mono : (lo lo' : ℕ) (rs : List Range) → lo' ≤ lo → Chain lo rs → Chain lo' rs
Chain-mono lo lo' [] h c = tt
Chain-mono lo lo' (r ∷ rs) h c = (omega arith, c.1, c.2, c.3)

pub covered_below : (lo v : ℕ) (rs : List Range) → Chain lo rs → v < lo → covered rs v ≡ false
covered_below lo v [] c h = refl
covered_below lo v (r ∷ rs) c h =
    ground (arith, covered_below (suc (r.start + r.length)) v rs c.3 (omega arith))

pub contains_loop-eq-covered :
    (lo v : ℕ) (rs : List Range) → Chain lo rs → contains_loop rs v ≡ covered rs v
unfolding contains_loop
contains_loop-eq-covered lo v [] c = refl
contains_loop-eq-covered lo v (r ∷ rs) c = ground (
  arith,
  range_end-eq-add r c.2,
  contains_loop-eq-covered (suc (r.start + r.length)) v rs c.3,
  covered_below (suc (r.start + r.length)) v rs c.3,
)

-- On a valid set the early exit of `contains` is harmless: it tells whether any range has the value.
pub contains-eq-covered : (s : RangeSet) (v : ℕ) → IsValid s → contains s v ≡ covered s.ranges v
unfolding contains
contains-eq-covered s v c = contains_loop-eq-covered 0 v s.ranges c

contained_length_loop-covered :
    (lo v i : ℕ) (rs : List Range)
    → Chain lo rs
    → i < contained_length_loop rs v
    → covered rs (v + i) ≡ true
unfolding contained_length_loop
contained_length_loop-covered lo v i [] c h = absurd (omega arith)
contained_length_loop-covered lo v i (r ∷ rs) c h = ground (
  arith,
  range_end-eq-add r c.2,
  sub_usize-eq-sub (r.start + r.length) v,
  contained_length_loop-covered (suc (r.start + r.length)) v i rs c.3,
)

contained_length_loop_end :
    (lo v : ℕ) (rs : List Range) → Chain lo rs → covered rs (v + contained_length_loop rs v) ≡ false
unfolding contained_length_loop
contained_length_loop_end lo v [] c = refl
contained_length_loop_end lo v (r ∷ rs) c = ground (
  arith,
  range_end-eq-add r c.2,
  sub_usize-eq-sub (r.start + r.length) v,
  covered_below (suc (r.start + r.length)) (r.start + r.length) rs c.3,
  covered_below (suc (r.start + r.length)) v rs c.3,
  contained_length_loop_end (suc (r.start + r.length)) v rs c.3,
)

-- `contained_length_from_value` is the length of the run of contained values from `value`: each
-- value before its end is contained, and the one at its end is not.
pub contains-contained_length :
    (s : RangeSet) (v i : ℕ)
    → IsValid s
    → i ≤ contained_length_from_value s v
    → contains s (v + i) ≡ ltb i (contained_length_from_value s v)
unfolding contained_length_from_value
contains-contained_length s v i c h = rw (contains-eq-covered s (v + i) c) (
    ground (
      arith,
      contained_length_loop-covered 0 v i s.ranges c,
      contained_length_loop_end 0 v s.ranges c,
    ))
