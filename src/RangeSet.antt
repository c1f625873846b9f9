-- ===== src/RangeSet.antt =====
-- librespot_src/audio/src/range_set.rs: the byte ranges of a file that are there, or asked for.
mod Tests
pub mod Valid
pub mod Add
pub mod Subtract
pub mod Intersect
use neotune.Common.{
  ℕ, ◌+◌, ◌<◌, ◌≤◌, min, max, Bool, true, false, ◌&&◌, Option, List, [], ◌∷◌, ltb, leb, ◌==◌,
  length, get_elem?, if◌then◌else◌, add_usize, sub_usize, usize_mod,
}

pub record Range : Type 0 where
  pub start : ℕ
  pub length : ℕ

unfoldable pub new_range : ℕ → ℕ → Range
new_range start length = record { start = start; length = length }

unfoldable pub range_end : Range → ℕ
range_end r = add_usize r.start r.length

pub record RangeSet : Type 0 where
  pub ranges : List Range

abbrev pub new : RangeSet
new = record { ranges = [] }

abbrev pub is_empty : RangeSet → Bool
is_empty s = elim s.ranges [ [] ↦ true | _ ↦ false ]

pub sum_lengths : List Range → ℕ
sum_lengths [] = 0
sum_lengths (r ∷ rs) = add_usize r.length (sum_lengths rs)

pub len : RangeSet → ℕ
len s = sum_lengths s.ranges

-- `none` is the panic of an index out of range.
unfoldable pub get_range : RangeSet → ℕ → Option Range
get_range s index = get_elem? s.ranges index

unfoldable pub contains_loop : List Range → ℕ → Bool
contains_loop [] value = false
contains_loop (r ∷ rs) value =
    if ltb value r.start
    then false
    else if leb r.start value && ltb value (range_end r)
    then true
    else contains_loop rs value

unfoldable pub contains : RangeSet → ℕ → Bool
contains s value = contains_loop s.ranges value

unfoldable pub contained_length_loop : List Range → ℕ → ℕ
contained_length_loop [] value = 0
contained_length_loop (r ∷ rs) value =
    if ltb value r.start
    then 0
    else if leb r.start value && ltb value (range_end r)
    then sub_usize (range_end r) value
    else contained_length_loop rs value

unfoldable pub contained_length_from_value : RangeSet → ℕ → ℕ
contained_length_from_value s value = contained_length_loop s.ranges value

pub contains_all : RangeSet → List Range → Bool
contains_all s [] = true
contains_all s (r ∷ rs) =
    if ltb (contained_length_from_value s r.start) r.length then false else contains_all s rs

pub contains_range_set : RangeSet → RangeSet → Bool
contains_range_set s other = contains_all s other.ranges

-- One round of the inner loop of `add_range`, before `remove`.
unfoldable pub merge : Range → Range → Range
merge new r =
    let new_end = max (range_end new) (range_end r) in
    let start = min new.start r.start in record { start = start; length = sub_usize new_end start }

-- The inner loop of `add_range`: its list is `self.ranges[index..]`.
unfoldable pub merge_loop : Range → List Range → List Range
merge_loop new [] = new ∷ []
merge_loop new (r ∷ rs) =
    let rest = merge_loop (merge new r) rs in
    if leb r.start (range_end new) then rest else new ∷ r ∷ rs

-- The outer loop: the list is `self.ranges[index..]`, what stands before it is kept.
unfoldable pub add_loop : Range → List Range → List Range
add_loop range [] = range ∷ []
add_loop range (r ∷ rs) =
    if ltb (range_end range) r.start
    then range ∷ r ∷ rs
    else if leb range.start (range_end r) && leb r.start (range_end range)
    then merge_loop range (r ∷ rs)
    else r ∷ add_loop range rs

unfoldable pub add_range : RangeSet → Range → RangeSet
add_range s range = if range.length == 0 then s else record s { ranges = add_loop range s.ranges }

unfoldable pub add_all : RangeSet → List Range → RangeSet
add_all s [] = s
add_all s (r ∷ rs) = add_all (add_range s r) rs

unfoldable pub add_range_set : RangeSet → RangeSet → RangeSet
add_range_set s other = add_all s other.ranges

unfoldable pub union : RangeSet → RangeSet → RangeSet
union s other = add_range_set s other

-- `self.ranges[index].length -= range.end() - start; self.ranges[index].start = range.end()`
unfoldable pub cut_front : Range → Range → Range
cut_front range r = record {
  start = range_end range;
  length = sub_usize r.length (sub_usize (range_end range) r.start);
}

-- The part of `r` in front of `range`.
unfoldable pub cut_back : Range → Range → Range
cut_back range r = record { start = r.start; length = sub_usize range.start r.start }

-- The inner loop of `subtract_range`, and the test behind it.
unfoldable pub remove_loop : Range → List Range → List Range
remove_loop range [] = []
remove_loop range (r ∷ rs) =
    let rest = remove_loop range rs in
    if leb (range_end r) (range_end range)
    then rest
    else if ltb r.start (range_end range)
    then cut_front range r ∷ rs
    else r ∷ rs

unfoldable pub subtract_loop : Range → List Range → List Range
subtract_loop range [] = []
subtract_loop range (r ∷ rs) =
    let rest = subtract_loop range rs in
    if leb (range_end range) r.start
    then r ∷ rs
    else if leb range.start r.start && ltb r.start (range_end range)
    then remove_loop range (r ∷ rs)
    else if ltb (range_end range) (range_end r)
    then cut_back range r ∷ cut_front range r ∷ rs
    else if ltb range.start (range_end r)
    then cut_back range r ∷ rest
    else r ∷ rest

unfoldable pub subtract_range : RangeSet → Range → RangeSet
subtract_range s range =
    if range.length == 0 then s else record s { ranges = subtract_loop range s.ranges }

unfoldable pub subtract_all : RangeSet → List Range → RangeSet
subtract_all s [] = s
subtract_all s (r ∷ rs) = subtract_all (subtract_range s r) rs

unfoldable pub subtract_range_set : RangeSet → RangeSet → RangeSet
subtract_range_set s other = subtract_all s other.ranges

unfoldable pub minus : RangeSet → RangeSet → RangeSet
minus s other = subtract_range_set s other

-- The overlap that a round of `intersection` adds.
unfoldable pub overlap : Range → Range → Range
overlap a b =
    let new_start = max a.start b.start in
    let new_end = min (range_end a) (range_end b) in
    new_range new_start (sub_usize new_end new_start)

-- The lists are `self.ranges[self_index..]` and `other.ranges[other_index..]`.
unfoldable pub intersection_loop : RangeSet → List Range → List Range → RangeSet
intersection_loop result [] ys = result
intersection_loop result (a ∷ xs) [] = result
intersection_loop result (a ∷ xs) (b ∷ ys) = elim (leb (range_end a) b.start) [
  | true ↦ intersection_loop result xs (b ∷ ys)
  | false ↦ elim (leb (range_end b) a.start) [
    | true ↦ intersection_loop result (a ∷ xs) ys
    | false ↦ elim (leb (range_end a) (range_end b)) [
      | true ↦ intersection_loop (add_range result (overlap a b)) xs (b ∷ ys)
      | false ↦ intersection_loop (add_range result (overlap a b)) (a ∷ xs) ys
    ]
  ]
]

unfoldable pub intersection : RangeSet → RangeSet → RangeSet
intersection s other = intersection_loop new s.ranges other.ranges
