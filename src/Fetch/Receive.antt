-- ===== src/Fetch/Receive.antt =====
-- librespot_src/audio/src/fetch/receive.rs: what arrives, and what is done with it.
pub mod Write
pub mod Content
pub mod Complete
use neotune.Common.{
  ℕ, zero, suc, ◌+◌, ◌-◌, ◌*◌, ◌/◌, min, max, Bool, true, false, Option, none, some, List, [], ◌∷◌,
  ◌++◌, ltb, leb, length, take, drop, get_elem?, if◌then◌else◌, add_usize, Result, ok, err,
}
use neotune.RangeSet.{Range, RangeSet, new_range, add_range, contained_length_from_value}
use neotune.Fetch.{
  AudioFetchParams, AudioFileError, output, channel, io_error, AudioFileShared, millisecond,
  StreamLoaderCommand, fetch, close,
}
use neotune.Fetch.Download.{AudioFileFetch, download_range}

pub data ReceivedData : Type 0 where
  throughput : ℕ → ReceivedData
  response_time : ℕ → ReceivedData
  partial_file : ℕ → List ℕ → ReceivedData

pub data ControlFlow : Type 0 where
  break continue : ControlFlow

-- `seek(SeekFrom::Start(offset))` and `write_all`: a gap behind the end is filled with zeros.
unfoldable pub write_at : ℕ → List ℕ → List ℕ → List ℕ
write_at offset [] file = file
write_at zero (b ∷ bs) [] = b ∷ write_at zero bs []
write_at zero (b ∷ bs) (x ∷ file) = b ∷ write_at zero bs file
write_at (suc offset) (b ∷ bs) [] = 0 ∷ write_at offset (b ∷ bs) []
write_at (suc offset) (b ∷ bs) (x ∷ file) = x ∷ write_at offset (b ∷ bs) file

unfoldable pub average_throughput : AudioFetchParams → ℕ → ℕ → ℕ
average_throughput p old new =
    let new' = if ltb new p.minimum_throughput then p.minimum_throughput else new in
    if ltb 0 old then add_usize old new' / 2 else new'

-- The middle one of three.
abbrev pub middle : ℕ → ℕ → ℕ → ℕ
middle a b c = max (min a b) (min (max a b) c)

-- "the median of up to three"; `none` is `unreachable!()`.
unfoldable pub median : List ℕ → Option ℕ
median [] = none
median (a ∷ []) = some a
median (a ∷ b ∷ []) = some ((a + b) / 2)
median (a ∷ b ∷ c ∷ []) = some (middle a b c)
median (a ∷ b ∷ c ∷ d ∷ ts) = none

-- "Keep at most two so we can push a third."
unfoldable pub push_response_time : ℕ → List ℕ → List ℕ
push_response_time t ts = drop (length ts - 2) ts ++ (t ∷ [])

-- How the calls of the file and of the channel end: a `seek` that fails, a `write_all` that fails when so
-- many bytes are written, or one that succeeds; `rewind`; and whether the receiver of the file is there.
pub data WriteResult : Type 0 where
  no_seek : WriteResult
  cut_short : ℕ → WriteResult
  written : WriteResult

pub record Disk : Type 0 where
  pub write : WriteResult
  pub rewinds : Bool
  pub receives : Bool

unfoldable pub finish : Disk → AudioFileFetch → Result AudioFileError (Unit {0}) × AudioFileFetch
finish disk f = elim f.output [
  | none ↦ (ok tt, record f { complete_tx = false })
  | some file ↦ elim disk.rewinds [
    | false ↦ (err io_error, record f { output = none; complete_tx = false })
    | true ↦ elim f.complete_tx [
      | false ↦ (ok tt, record f { output = none })
      | true ↦ elim disk.receives [
        | false ↦ (err channel, record f { output = none; complete_tx = false })
        | true ↦ (ok tt, record f { output = none; complete_tx = false; completed = some file })
      ]
    ]
  ]
]

unfoldable pub handle_throughput : ℕ → AudioFileFetch → AudioFileFetch
unfolding average_throughput
handle_throughput t f = record f {
  shared = record f.shared { throughput = average_throughput f.params f.shared.throughput t };
}

unfoldable pub handle_response_time : ℕ → AudioFileFetch → AudioFileFetch
unfolding push_response_time median
handle_response_time t f =
    let capped = min t f.params.maximum_assumed_ping_time in
    let times = push_response_time capped f.network_response_times in
    let ping : ℕ = elim (median times) [
      | none ↦ f.shared.ping_time_ms
      | some m ↦ m / millisecond
    ] in
    record f { network_response_times = times; shared = record f.shared { ping_time_ms = ping } }

-- The file with the bytes written, and the note that they are there.
unfoldable pub store_data : ℕ → List ℕ → List ℕ → AudioFileFetch → AudioFileFetch
unfolding write_at
store_data offset bytes file f = record f {
  output = some (write_at offset bytes file);
  shared = record f.shared {
    downloaded = add_range f.shared.downloaded (new_range offset (length bytes));
  };
}

abbrev pub break_after :
    Result AudioFileError (Unit {0}) × AudioFileFetch
    → Result AudioFileError ControlFlow × AudioFileFetch
break_after (ok _, f) = (ok break, f)
break_after (err e, f) = (err e, f)

-- The bytes for a file that is there.
unfoldable pub receive_bytes :
    Disk
    → WriteResult
    → ℕ
    → List ℕ
    → List ℕ
    → AudioFileFetch
    → Result AudioFileError ControlFlow × AudioFileFetch
unfolding store_data write_at
receive_bytes disk no_seek offset bytes file f = (err io_error, f)
receive_bytes disk (cut_short n) offset bytes file f =
    (err io_error, record f { output = some (write_at offset (take n bytes) file) })
receive_bytes disk written offset bytes file f =
    let f' = store_data offset bytes file f in
    if leb f'.shared.file_size (contained_length_from_value f'.shared.downloaded 0)
    then break_after (finish disk f')
    else (ok continue, f')

unfoldable pub handle_file_data :
    Disk → ReceivedData → AudioFileFetch → Result AudioFileError ControlFlow × AudioFileFetch
unfolding handle_throughput handle_response_time
handle_file_data disk (throughput t) f = (ok continue, handle_throughput t f)
handle_file_data disk (response_time t) f = (ok continue, handle_response_time t f)
handle_file_data disk (partial_file offset bytes) f = elim f.output [
  | none ↦ (err output, f)
  | some file ↦ receive_bytes disk disk.write offset bytes file f
]

unfoldable pub handle_stream_loader_command :
    (Range → Bool)
    → StreamLoaderCommand
    → AudioFileFetch
    → Result AudioFileError ControlFlow × AudioFileFetch
unfolding download_range
handle_stream_loader_command stream_from_cdn close f = (ok break, f)
handle_stream_loader_command stream_from_cdn (fetch r) f =
    let (res, f') = download_range stream_from_cdn r.start r.length f in
    elim res [ ok _ ↦ (ok continue, f') | err e ↦ (err e, f') ]
