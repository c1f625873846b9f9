-- ===== src/RangeSet/Intersect.antt =====
-- librespot_src/audio/src/range_set.rs: `intersection`.
use neotune.Common.{
  ℕ, ◌+◌, ◌<◌, ◌≤◌, suc, ◌≡◌, ◌&&◌, ◌||◌, List, [], ◌∷◌, leb, sub_usize-eq-sub, arith, min, max,
  Bool-cases, inl, inr,
}
use neotune.RangeSet.{
  Range, RangeSet, range_end, overlap, add_range, intersection_loop, intersection, contains, new,
  new_range,
}
use neotune.RangeSet.Valid.{
  Fits, Chain, IsValid, covers, covered, range_end-eq-add, covered_below, contains-eq-covered,
}
use neotune.RangeSet.Add.{add_range-IsValid, covered-add_range}

-- Overlapping ranges share the range that a round adds.
overlap_lem :
    (a b : Range) (v : ℕ)
    → Fits a
    → Fits b
    → b.start < a.start + a.length
    → a.start < b.start + b.length
    → Fits (overlap a b) × (covers (overlap a b) v ≡ (covers a v && covers b v))
unfolding overlap new_range
overlap_lem a b v f g h k = ground (
  arith,
  range_end-eq-add a f,
  range_end-eq-add b g,
  sub_usize-eq-sub (min (a.start + a.length) (b.start + b.length)) (max a.start b.start)
      (omega arith) (omega arith),
)

abbrev Meets : ℕ → RangeSet → List Range → List Range → RangeSet → Type 0
Meets v result xs ys out =
    IsValid out
    × (covered out.ranges v ≡ (covered result.ranges v || (covered xs v && covered ys v)))

-- The round that adds an overlap.
add_overlap_lem :
    (v : ℕ) (result : RangeSet) (a b : Range)
    → IsValid result
    → Fits a
    → Fits b
    → b.start < a.start + a.length
    → a.start < b.start + b.length
    → IsValid (add_range result (overlap a b))
      × (covered (add_range result (overlap a b)).ranges v
          ≡ ((covers a v && covers b v) || covered result.ranges v))
add_overlap_lem v result a b c f g h k =
    let o = overlap_lem a b v f g h k in
    (
      add_range-IsValid result (overlap a b) o.0 c,
      rw (covered-add_range result (overlap a b) v o.0 c, o.1),
    )

-- The four kinds of round, each with what the rest of the loop returns.
module _ (m n v : ℕ) (result out : RangeSet) (a b : Range) (xs ys : List Range)
    (d : Chain m (a ∷ xs)) (e : Chain n (b ∷ ys)) where
  skip_left :
      a.start + a.length ≤ b.start
      → Meets v result xs (b ∷ ys) out
      → Meets v result (a ∷ xs) (b ∷ ys) out
  skip_left h ih = ground (arith, covered_below b.start v (b ∷ ys))

  skip_right :
      b.start + b.length ≤ a.start
      → Meets v result (a ∷ xs) ys out
      → Meets v result (a ∷ xs) (b ∷ ys) out
  skip_right h ih = ground (arith, covered_below a.start v (a ∷ xs))

  module _ (c : IsValid result) (h : b.start < a.start + a.length)
      (k : a.start < b.start + b.length) where
    add_left :
        a.start + a.length ≤ b.start + b.length
        → Meets v (add_range result (overlap a b)) xs (b ∷ ys) out
        → Meets v result (a ∷ xs) (b ∷ ys) out
    add_left q ih =
        let o = add_overlap_lem v result a b c d.2 e.2 h k in
        let later = covered_below (suc (b.start + b.length)) v ys e.3 in ground (arith, o, later)

    add_right :
        b.start + b.length ≤ a.start + a.length
        → Meets v (add_range result (overlap a b)) (a ∷ xs) ys out
        → Meets v result (a ∷ xs) (b ∷ ys) out
    add_right q ih =
        let o = add_overlap_lem v result a b c d.2 e.2 h k in
        let later = covered_below (suc (a.start + a.length)) v xs d.3 in ground (arith, o, later)

intersection_loop_lem :
    (m n v : ℕ) (result : RangeSet) (xs ys : List Range)
    → IsValid result
    → Chain m xs
    → Chain n ys
    → Meets v result xs ys (intersection_loop result xs ys)
unfolding intersection_loop
intersection_loop_lem m n v result [] ys c d e = ground arith
intersection_loop_lem m n v result (a ∷ xs) [] c d e = ground arith
intersection_loop_lem m n v result (a ∷ xs) (b ∷ ys) c d e =
    let ea = range_end-eq-add a d.2 in
    let eb = range_end-eq-add b e.2 in
    elim (Bool-cases (leb (range_end a) b.start)) [
      | inl p ↦
          rw (p, intersection_loop)
            (skip_left m n v result _ a b xs ys d e (ground arith)
              (intersection_loop_lem (suc (a.start + a.length)) n v result xs (b ∷ ys) c d.3 e))
      | inr p ↦ elim (Bool-cases (leb (range_end b) a.start)) [
        | inl q ↦
            rw (p, q, intersection_loop)
              (skip_right m n v result _ a b xs ys d e (ground arith)
                (intersection_loop_lem m (suc (b.start + b.length)) v result (a ∷ xs) ys c d e.3))
        | inr q ↦
            let h : b.start < a.start + a.length = ground arith in
            let k : a.start < b.start + b.length = ground arith in
            let valid = (add_overlap_lem v result a b c d.2 e.2 h k).0 in
            elim (Bool-cases (leb (range_end a) (range_end b))) [
              | inl s ↦
                  rw (p, q, s, intersection_loop)
                    (add_left m n v result _ a b xs ys d e c h k (ground arith) (
                      intersection_loop_lem (suc (a.start + a.length)) n v
                        (add_range result (overlap a b)) xs (b ∷ ys) valid d.3 e))
              | inr s ↦
                  rw (p, q, s, intersection_loop)
                    (add_right m n v result _ a b xs ys d e c h k (ground arith) (
                      intersection_loop_lem m (suc (b.start + b.length)) v
                        (add_range result (overlap a b)) (a ∷ xs) ys valid d e.3))
            ]
      ]
    ]

-- `intersection` is valid, and contains what both sets contain.
pub intersection_lem :
    (s other : RangeSet) (v : ℕ)
    → IsValid s
    → IsValid other
    → IsValid (intersection s other)
      × (contains (intersection s other) v ≡ (contains s v && contains other v))
unfolding intersection
intersection_lem s other v c d =
    let u = intersection_loop_lem 0 0 v new s.ranges other.ranges tt c d in
    (
      u.0,
      rw
          (
            contains-eq-covered (intersection_loop new s.ranges other.ranges) v u.0,
            contains-eq-covered s v c,
            contains-eq-covered other v d,
          )
          u.1,
    )
