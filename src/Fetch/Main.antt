-- ===== src/Fetch/Main.antt =====
-- librespot_src/audio/src/fetch/receive.rs: `audio_file_fetch`, the task that owns the file, among the
-- other tasks and threads that change what they share with it.
pub mod Faithful
use neotune.Common.{
  ℕ, ◌+◌, ◌-◌, Bool, true, false, ◌&&◌, Option, none, some, List, [], ◌∷◌, ltb, if◌then◌else◌,
  add_usize, sub_usize, Result, ok, err,
}
use neotune.RangeSet.{Range, RangeSet, new, new_range, add_range, subtract_range, minus, len}
use neotune.Fetch.{AudioFetchParams, AudioFileError, AudioFileShared, StreamLoaderCommand}
use neotune.Fetch.Download.{AudioFileFetch, pre_fetch_more_data}
use neotune.Fetch.Receive.{
  ReceivedData, Disk, ControlFlow, break, continue, handle_file_data, handle_stream_loader_command,
}

-- What `select!` takes: `closed` is the `None` of a channel.
pub data Event : Type 0 where
  command : StreamLoaderCommand → Event
  file_data : Disk → ReceivedData → Event
  closed : Event

-- A round of the loop, or what the others do in between: `receive_data` gives back a range, and the
-- reader moves on or sets its mode. `desired` is `desired_pending_bytes`, computed on floats.
pub data Turn : Type 0 where
  round : Event → (has_slots : Bool) → (desired : ℕ) → Turn
  give_back : Range → Turn
  set_read_position : ℕ → Turn
  set_download_streaming : Bool → Turn

abbrev pub Outcome : Type 0
Outcome = Result AudioFileError ControlFlow × AudioFileFetch

unfoldable pub handle_event : (Range → Bool) → Event → AudioFileFetch → Outcome
unfolding handle_file_data handle_stream_loader_command
handle_event stream_from_cdn (command c) f = handle_stream_loader_command stream_from_cdn c f
handle_event stream_from_cdn (file_data disk d) f = handle_file_data disk d f
handle_event stream_from_cdn closed f = (ok break, f)

unfoldable pub bytes_pending : AudioFileShared → ℕ
bytes_pending s = len (minus s.requested s.downloaded)

-- The lower half of a round: "pre_fetch_more_data".
unfoldable pub pre_fetch : (Range → Bool) → Bool → ℕ → AudioFileFetch → Outcome
unfolding bytes_pending
pre_fetch stream_from_cdn has_slots desired f =
    let wanted =
      f.shared.download_streaming && (has_slots && ltb (bytes_pending f.shared) desired) in
    elim wanted [
      | false ↦ (ok continue, f)
      | true ↦
          (let (res, f') =
              pre_fetch_more_data stream_from_cdn (sub_usize desired (bytes_pending f.shared)) f in
            elim res [ ok _ ↦ (ok continue, f') | err e ↦ (err e, f') ])
    ]

-- The `?` on a result, and the test for `ControlFlow::Break`.
unfoldable pub continue_with : (AudioFileFetch → Outcome) → Outcome → Outcome
continue_with rest (err error, f) = (err error, f)
continue_with rest (ok break, f) = (ok break, f)
continue_with rest (ok continue, f) = rest f

unfoldable pub fetch_round : (Range → Bool) → Event → Bool → ℕ → AudioFileFetch → Outcome
unfolding continue_with
fetch_round stream_from_cdn e has_slots desired f =
    continue_with (pre_fetch stream_from_cdn has_slots desired) (handle_event stream_from_cdn e f)

unfoldable pub set_shared : AudioFileShared → AudioFileFetch → AudioFileFetch
set_shared s f = record f { shared = s }

unfoldable pub take_turn : (Range → Bool) → Turn → AudioFileFetch → Outcome
unfolding set_shared
take_turn stream_from_cdn (round e has_slots desired) f =
    fetch_round stream_from_cdn e has_slots desired f
take_turn stream_from_cdn (give_back r) f = (
  ok continue,
  set_shared (record f.shared { requested = subtract_range f.shared.requested r }) f,
)
take_turn stream_from_cdn (set_read_position p) f =
    (ok continue, set_shared (record f.shared { read_position = p }) f)
take_turn stream_from_cdn (set_download_streaming on) f =
    (ok continue, set_shared (record f.shared { download_streaming = on }) f)

-- The loop, until it is left or the turns end.
unfoldable pub fetch_loop : (Range → Bool) → List Turn → AudioFileFetch → Outcome
unfolding continue_with
fetch_loop stream_from_cdn [] f = (ok continue, f)
fetch_loop stream_from_cdn (t ∷ ts) f =
    continue_with (fetch_loop stream_from_cdn ts) (take_turn stream_from_cdn t f)

-- The file as `audio_file_fetch` finds it: `output` is as long as the file.
unfoldable pub opened : AudioFetchParams → AudioFileShared → ℕ → ℕ → List ℕ → AudioFileFetch
opened p s offset length file = record {
  shared = record s {
    requested = add_range s.requested (new_range offset (add_usize offset length));
  };
  output = some file;
  complete_tx = true;
  completed = none;
  network_response_times = [];
  spawned = new_range offset length ∷ [];
  params = p;
}

unfoldable pub audio_file_fetch :
    (Range → Bool) → AudioFetchParams → AudioFileShared → ℕ → ℕ → List ℕ → List Turn → Outcome
unfolding opened
audio_file_fetch stream_from_cdn p s offset length file ts =
    fetch_loop stream_from_cdn ts (opened p s offset length file)
