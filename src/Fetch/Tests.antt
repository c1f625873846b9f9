-- ===== src/Fetch/Tests.antt =====
-- A file of ten bytes while it is downloaded, and the theorems at it.
mod Reading
use neotune.Common.{
  ℕ, zero, suc, ◌+◌, ◌<◌, ◌≤◌, ◌≡◌, ◌≢◌, refl, ap, ◌⊎◌, inl, inr, Bool, true, false, Option, none,
  some, List, [], ◌∷◌, length, arith, take, drop, usize_mod, add_usize, sub_usize, Result, ok, err,
  get_elem?,
}
use neotune.RangeSet.{
  Range, RangeSet, new, new_range, contains, contains_loop, add_range, add_loop, merge, merge_loop,
  range_end,
}
use neotune.Fetch.{AudioFetchParams, AudioFileShared, StreamLoaderCommand, fetch}
use neotune.Fetch.Download.{AudioFileFetch, download_range}
use neotune.Fetch.Download.Request.{Requests, wish, download_range_lem}
use neotune.Fetch.Receive.{Disk, written, partial_file, break, handle_file_data}
use neotune.Fetch.Receive.Content.{IsCopy}
use neotune.Fetch.Receive.Complete.{handle_file_data_complete}
use neotune.Fetch.Response.{Response, Arrival, StreamingRequest}
use neotune.Fetch.Main.{Turn, round, file_data, audio_file_fetch}
use neotune.Fetch.Main.Faithful.{audio_file_fetch-IsCopy}
use neotune.Fetch.Stream.{AudioFileStreaming, Wake, read}
use neotune.Fetch.Stream.Read.Whole.{ReadsFrom, read-IsMirror}
use neotune.Fetch.Stream.Seek.{
  start, end, current, requested_pos, target_pos, Moves, Fails, seek, requested_pos-target_pos,
}
use neotune.Fetch.Controller.{StreamLoaderController, Notice, fetch_blocking}
use neotune.Fetch.Controller.Wait.{fetch_blocking-contains}

abbrev pub remote : List ℕ
remote = 10 ∷ 11 ∷ 12 ∷ 13 ∷ 14 ∷ 15 ∷ 16 ∷ 17 ∷ 18 ∷ 19 ∷ []

abbrev pub zeros : List ℕ
zeros = 0 ∷ 0 ∷ 0 ∷ 0 ∷ 0 ∷ 0 ∷ 0 ∷ 0 ∷ 0 ∷ 0 ∷ []

abbrev some_params : AudioFetchParams
some_params = record {
  minimum_download_size = 4;
  minimum_throughput = 1;
  initial_ping_time_estimate = 0;
  maximum_assumed_ping_time = 0;
}

-- Up to two ranges that are there and requested.
abbrev pub range_set : List Range → RangeSet
range_set rs = record { ranges = rs }

abbrev pub shared_with : List Range → List Range → AudioFileShared
shared_with requested downloaded = record {
  file_size = 10;
  bytes_per_second = 4;
  requested = range_set requested;
  downloaded = range_set downloaded;
  download_streaming = true;
  ping_time_ms = 0;
  read_position = 0;
  throughput = 0;
}

abbrev state_with : AudioFileShared → List ℕ → AudioFileFetch
state_with s file = record {
  shared = s;
  output = some file;
  complete_tx = true;
  completed = none;
  network_response_times = [];
  spawned = [];
  params = some_params;
}

abbrev always : Range → Bool
always r = true

-- The bytes 4 and 5 are there, and 6 is requested.
abbrev partly : AudioFileFetch
partly = state_with (shared_with (new_range 6 1 ∷ []) (new_range 4 2 ∷ [])) zeros

download_range_lem_example :
    (2 + (wish 2 6 partly).length ≤ 10)
    × ((rs : RangeSet) × Requests partly
          (download_range always 2 6 partly).1
          (wish 2 6 partly)
          7
          rs)
unfolding download_range new_range neotune.RangeSet.subtract_range_set neotune.RangeSet.subtract_all
    neotune.RangeSet.subtract_range neotune.RangeSet.subtract_loop add_range
    neotune.Common.add_usize neotune.RangeSet.add_loop neotune.RangeSet.range_end
    neotune.RangeSet.cut_back neotune.Common.sub_usize neotune.RangeSet.cut_front
    neotune.RangeSet.remove_loop
download_range_lem_example =
    download_range_lem always 2 6 7 partly (omega arith) (omega arith) (omega arith)
      (omega arith, omega arith, omega arith, tt) (omega arith, omega arith, omega arith, tt) refl

-- All but the last two bytes.
abbrev almost : AudioFileFetch
almost =
    state_with (shared_with [] (new_range 0 8 ∷ []))
      (10 ∷ 11 ∷ 12 ∷ 13 ∷ 14 ∷ 15 ∷ 16 ∷ 17 ∷ 0 ∷ 0 ∷ [])

same_last : (i : ℕ) → (2 ≤ i) ⊎ (get_elem? (18 ∷ 19 ∷ []) i ≡ get_elem? remote (8 + i))
same_last zero = inr refl
same_last (suc zero) = inr refl
same_last (suc (suc i)) = inl (omega arith)

pub copied :
    (i : ℕ)
    → (contains (range_set (new_range 0 8 ∷ [])) i ≡ false)
      ⊎ (get_elem? (10 ∷ 11 ∷ 12 ∷ 13 ∷ 14 ∷ 15 ∷ 16 ∷ 17 ∷ 0 ∷ 0 ∷ []) i ≡ get_elem? remote i)
unfolding contains contains_loop range_end new_range add_usize
copied zero = inr refl
copied (suc zero) = inr refl
copied (suc (suc zero)) = inr refl
copied (suc (suc (suc zero))) = inr refl
copied (suc (suc (suc (suc zero)))) = inr refl
copied (suc (suc (suc (suc (suc zero))))) = inr refl
copied (suc (suc (suc (suc (suc (suc zero)))))) = inr refl
copied (suc (suc (suc (suc (suc (suc (suc zero))))))) = inr refl
copied (suc (suc (suc (suc (suc (suc (suc (suc i)))))))) = inl (ground arith)

everything :
    (i : ℕ)
    → (10 ≤ i) ⊎ (contains (add_range (range_set (new_range 0 8 ∷ [])) (new_range 8 2)) i ≡ true)
unfolding contains contains_loop range_end new_range add_usize sub_usize add_range add_loop merge
    merge_loop
everything i = ground arith

abbrev sound : Disk
sound = record { write = written; rewinds = true; receives = true }

handle_file_data_complete_example :
    ((handle_file_data sound (partial_file 8 (18 ∷ 19 ∷ [])) almost).0 ≡ ok break)
    × ((handle_file_data sound (partial_file 8 (18 ∷ 19 ∷ [])) almost).1.completed ≡ some remote)
unfolding new_range
handle_file_data_complete_example =
    handle_file_data_complete remote (18 ∷ 19 ∷ [])
      (10 ∷ 11 ∷ 12 ∷ 13 ∷ 14 ∷ 15 ∷ 16 ∷ 17 ∷ 0 ∷ 0 ∷ []) sound 8 almost refl refl refl
      (omega arith, refl, (omega arith, omega arith, omega arith, tt), (refl, copied), inl refl)
      (omega arith, same_last) refl refl everything

-- The connection ends after two of four bytes.
abbrev half_answered : StreamingRequest
half_answered = record {
  streamer =
      record { elapsed = 0; response = some (record { status = 206; body = some (12 ∷ 13 ∷ []) }) }
      ∷ record { elapsed = 0; response = none }
      ∷ [];
  initial_response = none;
  offset = 2;
  length = 4;
}

abbrev asked : AudioFileShared
asked = shared_with (new_range 2 4 ∷ []) []

-- The whole file arrives at once.
same_all : (i : ℕ) → (10 ≤ i) ⊎ (get_elem? remote i ≡ get_elem? remote (0 + i))
same_all i = inr (ap (get_elem? remote) (omega arith))

abbrev at_once : List Turn
at_once = round (file_data sound (partial_file 0 remote)) true 0 ∷ []

audio_file_fetch-IsCopy_example :
    IsCopy remote
      (audio_file_fetch always some_params
        (shared_with [] [])
        0
        4
        zeros
        at_once).1.shared.downloaded
      (audio_file_fetch always some_params (shared_with [] []) 0 4 zeros at_once).1.output
    × (((audio_file_fetch always some_params (shared_with [] []) 0 4 zeros at_once).1.completed
          ≡ none)
        ⊎ ((audio_file_fetch always some_params (shared_with [] []) 0 4 zeros at_once).1.completed
            ≡ some remote))
audio_file_fetch-IsCopy_example =
    audio_file_fetch-IsCopy always remote zeros some_params (shared_with [] []) 0 4 at_once
      (omega arith) refl refl refl ((omega arith, same_all), tt)
