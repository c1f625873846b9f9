-- ===== src/RangeSet/Tests.antt =====
-- Range sets at work, and the theorems at a concrete set.
use neotune.Common.{ℕ, ◌≡◌, refl, true, ◌||◌, ◌&&◌, not, [], ◌∷◌, arith, add_usize, sub_usize}
use neotune.RangeSet.{
  Range, RangeSet, range_end, contains, contained_length_from_value, add_range, subtract_range,
  intersection, merge, merge_loop, add_loop, cut_front, cut_back, remove_loop, subtract_loop,
  contained_length_loop,
}
use neotune.RangeSet.Valid.{IsValid, contains-eq-covered, covered}
use neotune.RangeSet.Add.{contains-add_range}
use neotune.RangeSet.Subtract.{subtract_range_lem}
use neotune.RangeSet.Intersect.{intersection_lem}

abbrev range : ℕ → ℕ → Range
range start length = record { start = start; length = length }

-- 0 to 9, and 20 to 29.
abbrev two : RangeSet
two = record { ranges = range 0 10 ∷ range 20 10 ∷ [] }

abbrev middle_range : RangeSet
middle_range = record { ranges = range 5 20 ∷ [] }

two-IsValid : IsValid two
two-IsValid = omega arith

middle_range-IsValid : IsValid middle_range
middle_range-IsValid = omega arith

-- A range that touches both joins them.
add_joins : (add_range two (range 10 10)).ranges ≡ range 0 30 ∷ []
unfolding add_range add_loop merge_loop merge range_end add_usize sub_usize
add_joins = refl

-- A range inside leaves a hole.
subtract_punches : (subtract_range middle_range (range 10 5)).ranges ≡ range 5 5 ∷ range 15 10 ∷ []
unfolding subtract_range subtract_loop remove_loop cut_front cut_back range_end add_usize sub_usize
subtract_punches = refl

contains-eq-covered_example : contains two 25 ≡ covered two.ranges 25
contains-eq-covered_example = contains-eq-covered two 25 two-IsValid

contained_length_of_two : contained_length_from_value two 22 ≡ 8
unfolding contained_length_from_value contained_length_loop range_end add_usize sub_usize
contained_length_of_two = refl

contains-add_range_example : contains (add_range two (range 12 3)) 13 ≡ (true || contains two 13)
contains-add_range_example = contains-add_range two (range 12 3) 13 (omega arith) two-IsValid

subtract_range_lem_example :
    IsValid (subtract_range two (range 5 20))
    × (contains (subtract_range two (range 5 20)) 7 ≡ (contains two 7 && not true))
subtract_range_lem_example = subtract_range_lem two (range 5 20) 7 (omega arith) two-IsValid

intersection_lem_example :
    IsValid (intersection two middle_range)
    × (contains (intersection two middle_range) 22 ≡ (contains two 22 && contains middle_range 22))
intersection_lem_example = intersection_lem two middle_range 22 two-IsValid middle_range-IsValid
