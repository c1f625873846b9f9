-- ===== src/RangeSet/Add.antt =====
-- librespot_src/audio/src/range_set.rs: `add_range`, `add_range_set` and `union`.
use neotune.Common.{
  ℕ, ◌+◌, ◌<◌, ◌≤◌, suc, ◌≡◌, ◌||◌, List, [], ◌∷◌, sub_usize-eq-sub, arith, min, max,
}
use neotune.RangeSet.{
  Range, RangeSet, merge, merge_loop, add_loop, add_range, contains, add_all, add_range_set, union,
}
use neotune.RangeSet.Valid.{
  Fits, Chain, IsValid, covers, covered, range_end-eq-add, Chain-mono, contains-eq-covered,
}

module _ (new r : Range) (f : Fits new) (g : Fits r) where
  merge_bounds :
      ((merge new r).start ≡ min new.start r.start)
      × ((merge new r).start + (merge new r).length
          ≡ max (new.start + new.length) (r.start + r.length))
  unfolding merge
  merge_bounds = ground (
    arith,
    range_end-eq-add new f,
    range_end-eq-add r g,
    sub_usize-eq-sub (max (new.start + new.length) (r.start + r.length)) (min new.start r.start)
        (omega arith) (omega arith),
  )

merge_loop_lem :
    (lo v : ℕ) (new : Range) (rs : List Range)
    → Fits new
    → 0 < new.length
    → new.start ≤ lo
    → Chain lo rs
    → Chain new.start (merge_loop new rs)
      × (covered (merge_loop new rs) v ≡ (covers new v || covered rs v))
unfolding merge_loop
merge_loop_lem lo v new [] f p h c = ground arith
merge_loop_lem lo v new (r ∷ rs) f p h c =
    let b = merge_bounds new r f c.2 in
    ground (
      arith,
      range_end-eq-add new f,
      b,
      merge_loop_lem (suc (r.start + r.length)) v (merge new r) rs,
    )

-- The branch of the outer loop that hands over to the inner one.
touching_lem :
    (lo v : ℕ) (range r : Range) (rs : List Range)
    → Fits range
    → 0 < range.length
    → Chain lo (r ∷ rs)
    → range.start ≤ r.start + r.length
    → r.start ≤ range.start + range.length
    → Chain (min lo range.start) (merge_loop range (r ∷ rs))
      × (covered (merge_loop range (r ∷ rs)) v ≡ (covers range v || covered (r ∷ rs) v))
unfolding merge_loop
touching_lem lo v range r rs f p c h k =
    let b = merge_bounds range r f c.2 in
    let m =
      merge_loop_lem (suc (r.start + r.length)) v (merge range r) rs (omega arith) (omega arith)
        (omega arith) c.3 in
    let wide =
      Chain-mono (merge range r).start (min lo range.start) (merge_loop (merge range r) rs)
        (omega arith) m.0 in
    ground (arith, range_end-eq-add range f, b, m, wide)

add_loop_lem :
    (lo v : ℕ) (range : Range) (rs : List Range)
    → Fits range
    → 0 < range.length
    → Chain lo rs
    → Chain (min lo range.start) (add_loop range rs)
      × (covered (add_loop range rs) v ≡ (covers range v || covered rs v))
unfolding add_loop
add_loop_lem lo v range [] f p c = ground arith
add_loop_lem lo v range (r ∷ rs) f p c = ground (
  arith,
  range_end-eq-add range f,
  range_end-eq-add r c.2,
  touching_lem lo v range r rs f p c,
  add_loop_lem (suc (r.start + r.length)) v range rs f p c.3,
  Chain-mono (min (suc (r.start + r.length)) range.start) (suc (r.start + r.length))
      (add_loop range rs),
)

-- `add_range` keeps the ranges ordered, nonempty and apart.
pub add_range-IsValid :
    (s : RangeSet) (range : Range) → Fits range → IsValid s → IsValid (add_range s range)
unfolding add_range
add_range-IsValid s range f c = ground (
  arith,
  add_loop_lem 0 0 range s.ranges f,
  Chain-mono (min 0 range.start) 0 (add_loop range s.ranges),
)

pub covered-add_range :
    (s : RangeSet) (range : Range) (v : ℕ)
    → Fits range
    → IsValid s
    → covered (add_range s range).ranges v ≡ (covers range v || covered s.ranges v)
unfolding add_range
covered-add_range s range v f c = ground (arith, add_loop_lem 0 v range s.ranges f)

-- After `add_range` the set contains what it contained, and the new range, and nothing else.
pub contains-add_range :
    (s : RangeSet) (range : Range) (v : ℕ)
    → Fits range
    → IsValid s
    → contains (add_range s range) v ≡ (covers range v || contains s v)
contains-add_range s range v f c =
    rw
      (
        contains-eq-covered (add_range s range) v (add_range-IsValid s range f c),
        contains-eq-covered s v c,
      )
      (covered-add_range s range v f c)

pub add_all_lem :
    (lo v : ℕ) (s : RangeSet) (rs : List Range)
    → Chain lo rs
    → IsValid s
    → IsValid (add_all s rs)
      × (covered (add_all s rs).ranges v ≡ (covered s.ranges v || covered rs v))
unfolding add_all
add_all_lem lo v s [] c d = ground arith
add_all_lem lo v s (r ∷ rs) c d =
    let ih =
      add_all_lem (suc (r.start + r.length)) v (add_range s r) rs c.3
        (add_range-IsValid s r c.2 d) in
    ground (arith, ih, covered-add_range s r v c.2 d)

-- `union` keeps the invariant, and contains what one of the two sets contains.
pub union_lem :
    (s other : RangeSet) (v : ℕ)
    → IsValid s
    → IsValid other
    → IsValid (union s other) × (contains (union s other) v ≡ (contains s v || contains other v))
unfolding union add_range_set
union_lem s other v c d =
    let u = add_all_lem 0 v s other.ranges d c in
    (
      u.0,
      rw
          (
            contains-eq-covered (add_all s other.ranges) v u.0,
            contains-eq-covered s v c,
            contains-eq-covered other v d,
          )
          u.1,
    )
