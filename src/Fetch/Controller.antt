-- ===== src/Fetch/Controller.antt =====
-- librespot_src/audio/src/fetch/mod.rs: `StreamLoaderController`, through which the player asks for
-- parts of the file and waits for them.
pub mod Wait
use neotune.Common.{
  ℕ, ◌+◌, ◌<◌, Bool, true, false, Option, none, some, List, [], ◌∷◌, ◌++◌, ltb, leb, ◌==◌,
  if◌then◌else◌, sub_usize, Result, ok, err,
}
use neotune.RangeSet.{Range, RangeSet, new_range, range_end, union, contained_length_from_value}
use neotune.Fetch.{
  AudioFetchParams, AudioFileError, wait_timeout, AudioFileShared, StreamLoaderCommand, fetch,
  close, ping_time,
}

-- `channel` is what has been sent, and `none` without a channel; `stream_shared` is `none` for a file
-- that is not streamed.
pub record StreamLoaderController : Type 0 where
  pub channel : Option (List StreamLoaderCommand)
  pub stream_shared : Option AudioFileShared
  pub file_size : ℕ

-- What a wait on the condition variable ends with.
pub record Notice : Type 0 where
  pub timeout : Bool
  pub state : AudioFileShared

abbrev pub Waited : Type 0
Waited = Option (Result AudioFileError (Unit {0}) × StreamLoaderController)

unfoldable pub is_empty : StreamLoaderController → Bool
is_empty c = c.file_size == 0

unfoldable pub range_available : Range → StreamLoaderController → Bool
range_available r c = elim c.stream_shared [
  | some s ↦ leb r.length (contained_length_from_value s.downloaded r.start)
  | none ↦ leb r.length (sub_usize c.file_size r.start)
]

unfoldable pub range_to_end_available : StreamLoaderController → Bool
unfolding range_available
range_to_end_available c = elim c.stream_shared [
  | some s ↦ range_available (new_range s.read_position (sub_usize c.file_size s.read_position)) c
  | none ↦ true
]

unfoldable pub controller_ping_time : AudioFetchParams → StreamLoaderController → Option ℕ
controller_ping_time p c = elim c.stream_shared [ some s ↦ some (ping_time p s) | none ↦ none ]

unfoldable pub send_stream_loader_command :
    StreamLoaderCommand → StreamLoaderController → StreamLoaderController
send_stream_loader_command command c = elim c.channel [
  | some commands ↦ record c { channel = some (commands ++ (command ∷ [])) }
  | none ↦ c
]

unfoldable pub fetch_range : Range → StreamLoaderController → StreamLoaderController
unfolding send_stream_loader_command
fetch_range r c = send_stream_loader_command (fetch r) c

-- "ensure the range is within the file's bounds."
unfoldable pub cut_range : ℕ → Range → Range
cut_range file_size r =
    if leb file_size r.start
    then record r { length = 0 }
    else if ltb file_size (range_end r)
    then record r { length = sub_usize file_size r.start }
    else r

unfoldable pub is_missing : Range → RangeSet → Bool
is_missing r s = ltb (contained_length_from_value s r.start) r.length

abbrev pub notified : Notice → StreamLoaderController → StreamLoaderController
notified n c = record c { stream_shared = some n.state }

-- "Request it again."
unfoldable pub request_again :
    Range → AudioFileShared → StreamLoaderController → StreamLoaderController
unfolding fetch_range is_missing
request_again r s c = if is_missing r (union s.downloaded s.requested) then fetch_range r c else c

-- The loop on the condition variable; `none` when it still waits after these notices.
unfoldable pub wait_for_range :
    Range → List Notice → AudioFileShared → StreamLoaderController → Waited
wait_for_range r [] s c = elim (is_missing r s.downloaded) [ true ↦ none | false ↦ some (ok tt, c) ]
wait_for_range r (n ∷ ns) s c = elim (is_missing r s.downloaded) [
  | false ↦ some (ok tt, c)
  | true ↦ elim n.timeout [
    | true ↦ some (err wait_timeout, notified n c)
    | false ↦ wait_for_range r ns n.state (request_again r n.state (notified n c))
  ]
]

unfoldable pub fetch_blocking : Range → List Notice → StreamLoaderController → Waited
unfolding cut_range fetch_range
fetch_blocking range ns c = elim c.stream_shared [
  | some s ↦
      wait_for_range (cut_range c.file_size range) ns s
        (fetch_range (cut_range c.file_size range) c)
  | none ↦ some (ok tt, fetch_range (cut_range c.file_size range) c)
]

unfoldable pub fetch_next_and_wait : ℕ → ℕ → List Notice → StreamLoaderController → Waited
unfolding fetch_blocking fetch_range
fetch_next_and_wait request_length wait_length ns c = elim c.stream_shared [
  | some s ↦
      fetch_blocking (new_range s.read_position wait_length) ns
        (fetch_range (new_range s.read_position request_length) c)
  | none ↦ some (ok tt, c)
]

unfoldable pub set_mode : Bool → StreamLoaderController → StreamLoaderController
set_mode streaming c = elim c.stream_shared [
  | some s ↦ record c { stream_shared = some (record s { download_streaming = streaming }) }
  | none ↦ c
]

unfoldable pub set_random_access_mode : StreamLoaderController → StreamLoaderController
unfolding set_mode
set_random_access_mode c = set_mode false c

unfoldable pub set_stream_mode : StreamLoaderController → StreamLoaderController
unfolding set_mode
set_stream_mode c = set_mode true c

unfoldable pub close_loader : StreamLoaderController → StreamLoaderController
unfolding send_stream_loader_command
close_loader c = send_stream_loader_command close c

-- The cast to `usize` loses nothing at 64 bits.
unfoldable pub from_local_file : ℕ → StreamLoaderController
from_local_file file_size = record { channel = none; stream_shared = none; file_size = file_size }
