-- ===== src/Fetch/Tests/Reading.antt =====
-- A reader, and a controller, of a file of ten bytes, and the theorems at them.
use neotune.Common.{
  ℕ, ◌≡◌, refl, ◌⊎◌, inl, true, false, some, List, [], ◌∷◌, arith, add_usize, sub_usize, ok,
  get_elem?,
}
use neotune.RangeSet.{
  Range, RangeSet, new, new_range, contains, contains_loop, add_range, add_loop, merge, merge_loop,
  range_end,
}
use neotune.Fetch.{AudioFetchParams, AudioFileShared, StreamLoaderCommand, fetch}
use neotune.Fetch.Download.{AudioFileFetch, download_range}
use neotune.Fetch.Stream.{AudioFileStreaming, Wake, read}
use neotune.Fetch.Stream.Read.Whole.{ReadsFrom, read-IsMirror}
use neotune.Fetch.Controller.{StreamLoaderController, Notice, fetch_blocking}
use neotune.Fetch.Controller.Wait.{fetch_blocking-contains}
use neotune.Fetch.Tests.{remote, zeros, shared_with, range_set, copied}

-- A reader at the byte 6, of which there is nothing until it is woken.
abbrev reader : AudioFileStreaming
reader = record { read_file = zeros; position = 6; commands = []; shared = shared_with [] [] }

abbrev eight : List ℕ
eight = 10 ∷ 11 ∷ 12 ∷ 13 ∷ 14 ∷ 15 ∷ 16 ∷ 17 ∷ 0 ∷ 0 ∷ []

abbrev wakes : List Wake
wakes = record { timeout = false; file = eight; state = shared_with [] (new_range 0 8 ∷ []) } ∷ []

abbrev moved_reader : AudioFileStreaming
moved_reader = record {
  read_file = eight;
  position = 8;
  commands = fetch (new_range 6 4) ∷ [];
  shared = record (shared_with [] (new_range 0 8 ∷ [])) { read_position = 8 };
}

not_copied :
    (i : ℕ) → (contains (range_set []) i ≡ false) ⊎ (get_elem? zeros i ≡ get_elem? remote i)
unfolding contains contains_loop
not_copied i = inl refl

reads : read 0 true wakes 5 reader ≡ some (ok (16 ∷ 17 ∷ [], moved_reader))
unfolding read sub_usize neotune.Fetch.Stream.send_commands neotune.Fetch.Stream.ranges_to_request
    neotune.Fetch.Download.missing_from neotune.RangeSet.subtract_range_set
    neotune.RangeSet.subtract_all add_range new_range add_usize add_loop
    neotune.Fetch.Stream.wait_for contains contains_loop range_end
    neotune.Fetch.Stream.read_available neotune.RangeSet.contained_length_from_value
    neotune.RangeSet.contained_length_loop neotune.Fetch.Stream.length_to_request
reads = refl

read-IsMirror_example : ReadsFrom remote 5 reader (16 ∷ 17 ∷ []) moved_reader
unfolding new_range
read-IsMirror_example =
    read-IsMirror remote (16 ∷ 17 ∷ []) 0 true wakes 5 reader moved_reader
      (omega arith, refl, tt, (refl, not_copied))
      ((omega arith, refl, (omega arith, omega arith, omega arith, tt), (refl, copied)), tt) reads

abbrev controller : StreamLoaderController
controller = record { channel = some []; stream_shared = some (shared_with [] []); file_size = 10 }

abbrev notices : List Notice
notices = record { timeout = false; state = shared_with [] (new_range 0 10 ∷ []) } ∷ []

abbrev served_controller : StreamLoaderController
served_controller = record {
  channel = some (fetch (new_range 6 4) ∷ []);
  stream_shared = some (shared_with [] (new_range 0 10 ∷ []));
  file_size = 10;
}

blocks : fetch_blocking (new_range 6 9) notices controller ≡ some (ok tt, served_controller)
unfolding fetch_blocking neotune.Fetch.Controller.wait_for_range neotune.Fetch.Controller.is_missing
    neotune.RangeSet.contained_length_from_value neotune.RangeSet.contained_length_loop new_range
    range_end add_usize sub_usize neotune.Fetch.Controller.request_again neotune.RangeSet.union
    neotune.RangeSet.add_range_set neotune.RangeSet.add_all
blocks = refl

fetch_blocking-contains_example : contains (range_set (new_range 0 10 ∷ [])) 9 ≡ true
unfolding new_range
fetch_blocking-contains_example =
    fetch_blocking-contains (new_range 6 9) notices controller served_controller
      (shared_with [] (new_range 0 10 ∷ [])) 9 (omega arith) (omega arith) blocks refl
      (omega arith, omega arith, omega arith, tt) (omega arith) (omega arith) (omega arith)
