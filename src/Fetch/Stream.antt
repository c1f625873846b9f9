-- ===== src/Fetch/Stream.antt =====
-- librespot_src/audio/src/fetch/mod.rs: `AudioFileStreaming`, which reads the file while it is
-- downloaded.
pub mod Read
pub mod Seek
use neotune.Common.{
  ℕ, ◌+◌, ◌^◌, min, Bool, true, false, not, ◌&&◌, Option, none, some, List, [], ◌∷◌, ◌++◌, map, ltb,
  leb, ◌==◌, length, take, drop, if◌then◌else◌, add_usize, sub_usize, Result, ok, err,
}
use neotune.RangeSet.{Range, RangeSet, new_range, contains, contained_length_from_value}
use neotune.Fetch.{AudioFileShared, StreamLoaderCommand, fetch}
use neotune.Fetch.Download.{missing_from}

-- `read_file` is the content of the file, which the task that owns it writes; `commands` is what has
-- been sent to that task.
pub record AudioFileStreaming : Type 0 where
  pub read_file : List ℕ
  pub position : ℕ
  pub commands : List StreamLoaderCommand
  pub shared : AudioFileShared

-- The errors of `read` and `seek`; `invalid_input` is a position before the start of the file.
pub data IoError : Type 0 where
  broken_pipe timed_out invalid_input : IoError

-- What a wait on the condition variable ends with, and what the others have done by then.
pub record Wake : Type 0 where
  pub timeout : Bool
  pub file : List ℕ
  pub state : AudioFileShared

-- `read_ahead` is `read_ahead_during_playback` in bytes, computed on floats.
unfoldable pub length_to_request : ℕ → AudioFileShared → ℕ → ℕ → ℕ
length_to_request read_ahead s offset length =
    if s.download_streaming
    then min (add_usize length read_ahead) (sub_usize s.file_size offset)
    else length

-- The ranges that are neither there nor on their way.
unfoldable pub ranges_to_request : ℕ → AudioFileShared → ℕ → ℕ → List Range
unfolding length_to_request
ranges_to_request read_ahead s offset length =
    (missing_from s (new_range offset (length_to_request read_ahead s offset length))).ranges

-- A command cannot be sent when the task is gone.
unfoldable pub send_commands :
    Bool → List Range → AudioFileStreaming → Result IoError AudioFileStreaming
send_commands is_open [] f = ok f
send_commands false (r ∷ rs) f = err broken_pipe
send_commands true (r ∷ rs) f =
    send_commands true rs (record f { commands = f.commands ++ (fetch r ∷ []) })

abbrev pub woken : Wake → AudioFileStreaming → AudioFileStreaming
woken w f = record f { read_file = w.file; shared = w.state }

-- The loop on the condition variable; `none` when it still waits after these wakes.
unfoldable pub wait_for :
    ℕ → List Wake → AudioFileStreaming → Option (Result IoError AudioFileStreaming)
wait_for offset [] f = elim (contains f.shared.downloaded offset) [
  | true ↦ some (ok f)
  | false ↦ none
]
wait_for offset (w ∷ ws) f = elim (contains f.shared.downloaded offset) [
  | true ↦ some (ok f)
  | false ↦ elim w.timeout [ true ↦ some (err timed_out) | false ↦ wait_for offset ws (woken w f) ]
]

-- From the end of the wait on.
unfoldable pub read_available : ℕ → ℕ → AudioFileStreaming → List ℕ × AudioFileStreaming
read_available offset wanted f =
    let read_len = min wanted (contained_length_from_value f.shared.downloaded offset) in
    let bytes = take read_len (drop offset f.read_file) in
    let position = add_usize offset (length bytes) in
    (bytes, record f { position = position; shared = record f.shared { read_position = position } })

-- `output_len` is the length of the buffer. The state after an error is that before it but for what the
-- others have done, and is left out.
unfoldable pub read :
    ℕ
    → Bool
    → List Wake
    → ℕ
    → AudioFileStreaming
    → Option (Result IoError (List ℕ × AudioFileStreaming))
read read_ahead is_open ws output_len f =
    let offset = f.position in
    let wanted = min output_len (sub_usize f.shared.file_size offset) in
    elim (leb f.shared.file_size offset) [
      | true ↦ some (ok ([], f))
      | false ↦ elim (wanted == 0) [
        | true ↦ some (ok ([], f))
        | false ↦
            elim (send_commands is_open (ranges_to_request read_ahead f.shared offset wanted) f) [
              | err e ↦ some (err e)
              | ok sent ↦ elim (wait_for offset ws sent) [
                | none ↦ none
                | some (err e) ↦ some (err e)
                | some (ok there) ↦ some (ok (read_available offset wanted there))
              ]
            ]
      ]
    ]
