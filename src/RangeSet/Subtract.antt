-- ===== src/RangeSet/Subtract.antt =====
-- librespot_src/audio/src/range_set.rs: `subtract_range`, `subtract_range_set` and `minus`.
use neotune.Common.{
  ℕ, ◌+◌, ◌-◌, ◌<◌, ◌≤◌, suc, ◌≡◌, not, ◌&&◌, List, [], ◌∷◌, sub_usize-eq-sub, arith,
}
use neotune.RangeSet.{
  Range, RangeSet, cut_front, cut_back, remove_loop, subtract_loop, subtract_range, subtract_all,
  subtract_range_set, minus, contains,
}
use neotune.RangeSet.Valid.{
  Fits, Chain, IsValid, covers, covered, range_end-eq-add, Chain-mono, covered_below,
  contains-eq-covered,
}

module _ (range r : Range) (f : Fits range) (g : Fits r) where
  cut_front_lem :
      r.start ≤ range.start + range.length
      → range.start + range.length ≤ r.start + r.length
      → ((cut_front range r).start ≡ range.start + range.length)
        × ((cut_front range r).start + (cut_front range r).length ≡ r.start + r.length)
  unfolding cut_front
  cut_front_lem h k = ground (
    arith,
    range_end-eq-add range f,
    sub_usize-eq-sub (range.start + range.length) r.start,
    sub_usize-eq-sub r.length (range.start + range.length - r.start),
  )

  cut_back_lem :
      r.start ≤ range.start
      → ((cut_back range r).start ≡ r.start)
        × ((cut_back range r).start + (cut_back range r).length ≡ range.start)
  unfolding cut_back
  cut_back_lem h = ground (arith, sub_usize-eq-sub range.start r.start)

-- The inner loop runs where everything that is left begins behind the start of `range`.
remove_loop_lem :
    (lo v : ℕ) (range : Range) (rs : List Range)
    → Fits range
    → range.start ≤ lo
    → Chain lo rs
    → Chain lo (remove_loop range rs)
      × (covered (remove_loop range rs) v ≡ (covered rs v && not (covers range v)))
unfolding remove_loop
remove_loop_lem lo v range [] f h c = ground arith
remove_loop_lem lo v range (r ∷ rs) f h c = ground (
  arith,
  range_end-eq-add range f,
  range_end-eq-add r c.2,
  cut_front_lem range r f c.2,
  remove_loop_lem (suc (r.start + r.length)) v range rs f,
  Chain-mono (suc (r.start + r.length)) lo (remove_loop range rs),
  covered_below (suc (r.start + r.length)) v rs c.3,
)

subtract_loop_lem :
    (lo v : ℕ) (range : Range) (rs : List Range)
    → Fits range
    → 0 < range.length
    → Chain lo rs
    → Chain lo (subtract_loop range rs)
      × (covered (subtract_loop range rs) v ≡ (covered rs v && not (covers range v)))
unfolding subtract_loop
subtract_loop_lem lo v range [] f p c = ground arith
subtract_loop_lem lo v range (r ∷ rs) f p c = ground (
  arith,
  range_end-eq-add range f,
  range_end-eq-add r c.2,
  cut_front_lem range r f c.2,
  cut_back_lem range r f c.2,
  remove_loop_lem r.start v range (r ∷ rs) f,
  Chain-mono r.start lo (remove_loop range (r ∷ rs)),
  subtract_loop_lem (suc (r.start + r.length)) v range rs f p c.3,
  Chain-mono (suc (r.start + r.length)) (suc range.start) (subtract_loop range rs),
  covered_below (suc (r.start + r.length)) v rs c.3,
)

pub subtract_range-IsValid :
    (s : RangeSet) (range : Range) → Fits range → IsValid s → IsValid (subtract_range s range)
unfolding subtract_range
subtract_range-IsValid s range f c = ground (arith, subtract_loop_lem 0 0 range s.ranges f)

covered-subtract_range :
    (s : RangeSet) (range : Range) (v : ℕ)
    → Fits range
    → IsValid s
    → covered (subtract_range s range).ranges v ≡ (covered s.ranges v && not (covers range v))
unfolding subtract_range
covered-subtract_range s range v f c = ground (arith, subtract_loop_lem 0 v range s.ranges f)

-- After `subtract_range` a valid set is valid, and contains what it contained outside the range, where the
-- end of the range is within 64 bits.
pub subtract_range_lem :
    (s : RangeSet) (range : Range) (v : ℕ)
    → Fits range
    → IsValid s
    → IsValid (subtract_range s range)
      × (contains (subtract_range s range) v ≡ (contains s v && not (covers range v)))
subtract_range_lem s range v f c =
    let valid = subtract_range-IsValid s range f c in
    (
      valid,
      rw (contains-eq-covered (subtract_range s range) v valid, contains-eq-covered s v c)
          (covered-subtract_range s range v f c),
    )

subtract_all_lem :
    (lo v : ℕ) (s : RangeSet) (rs : List Range)
    → Chain lo rs
    → IsValid s
    → IsValid (subtract_all s rs)
      × (covered (subtract_all s rs).ranges v ≡ (covered s.ranges v && not (covered rs v)))
unfolding subtract_all
subtract_all_lem lo v s [] c d = ground arith
subtract_all_lem lo v s (r ∷ rs) c d =
    let ih =
      subtract_all_lem (suc (r.start + r.length)) v (subtract_range s r) rs c.3
        (subtract_range-IsValid s r c.2 d) in
    ground (arith, ih, covered-subtract_range s r v c.2 d)

-- `minus` keeps the invariant, and contains what the first set contains and the second does not.
pub minus_lem :
    (s other : RangeSet) (v : ℕ)
    → IsValid s
    → IsValid other
    → IsValid (minus s other)
      × (contains (minus s other) v ≡ (contains s v && not (contains other v)))
unfolding minus subtract_range_set
minus_lem s other v c d =
    let u = subtract_all_lem 0 v s other.ranges d c in
    (
      u.0,
      rw
          (
            contains-eq-covered (subtract_all s other.ranges) v u.0,
            contains-eq-covered s v c,
            contains-eq-covered other v d,
          )
          u.1,
    )
