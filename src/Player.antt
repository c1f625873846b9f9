-- ===== src/Player.antt =====
-- librespot_src/playback/src/player.rs: the state of the player. Times are nanoseconds, positions and
-- durations milliseconds. The metadata of a track and what is computed on floats are left out.
mod Tests
pub mod Uri
pub mod Sink
pub mod Load
pub mod Command
pub mod Poll
use neotune.Common.{
  ℕ, ◌+◌, ◌-◌, ◌*◌, ◌%◌, ◌^◌, Bool, true, false, Option, none, some, List, [], ◌∷◌, ◌++◌, leb,
  if◌then◌else◌,
}
use neotune.SpotifyUri.{SpotifyUri}
use neotune.Fetch.Controller.{StreamLoaderController, Notice}

pub data SinkStatus : Type 0 where
  running closed temporarily_closed : SinkStatus

pub record PlayerLoadedTrackData : Type 0 where
  pub stream_loader_controller : StreamLoaderController
  pub duration_ms : ℕ
  pub stream_position_ms : ℕ
  pub is_explicit : Bool

-- A thread that loads a track: what it was asked for, and whether its result has been taken.
pub record Loader : Type 0 where
  pub uri : SpotifyUri
  pub position : ℕ
  pub is_terminated : Bool

pub data PlayerPreload : Type 0 where
  no_preload : PlayerPreload
  preloading : SpotifyUri → Loader → PlayerPreload
  ready : SpotifyUri → PlayerLoadedTrackData → PlayerPreload

-- The fields that `Paused` and `Playing` have in common.
pub record Current : Type 0 where
  pub track_id : SpotifyUri
  pub play_request_id : ℕ
  pub loaded_track : PlayerLoadedTrackData
  pub suggested_to_preload_next_track : Bool

-- `loading` has the track, the request, whether to start the playback, and the loader; `playing` has the
-- time at which the track would have started.
pub data PlayerState : Type 0 where
  stopped : PlayerState
  loading : SpotifyUri → ℕ → Bool → Loader → PlayerState
  paused : Current → PlayerState
  playing : Current → Option ℕ → PlayerState
  end_of_track : SpotifyUri → ℕ → PlayerLoadedTrackData → PlayerState
  invalid : PlayerState

-- The events with a track have the request first. `TrackChanged` has the duration of the item, and
-- `emitted` stands for the events that are only passed on.
pub data PlayerEvent : Type 0 where
  play_request_id_changed : ℕ → PlayerEvent
  stopped_event end_of_track_event unavailable_event time_to_preload_next_track :
      ℕ → SpotifyUri → PlayerEvent
  loading_event playing_event paused_event position_correction position_changed seeked :
      ℕ → SpotifyUri → (position_ms : ℕ) → PlayerEvent
  preloading_event : SpotifyUri → PlayerEvent
  track_changed : (duration_ms : ℕ) → PlayerEvent
  volume_changed : ℕ → PlayerEvent
  filter_explicit_content_changed : Bool → PlayerEvent
  emitted : PlayerEvent

-- `events` is what has been sent, `sink_events` what the callback of the sink has been told, `loads` the
-- loads that have been started. `next_request_id` is the generator of the requests.
pub record PlayerInternal : Type 0 where
  pub state : PlayerState
  pub preload : PlayerPreload
  pub sink_status : SinkStatus
  pub gapless : Bool
  pub passthrough : Bool
  pub position_update_interval : Option ℕ
  pub auto_normalise_as_album : Bool
  pub next_request_id : ℕ
  pub last_progress_update : ℕ
  pub events : List PlayerEvent
  pub sink_events : List SinkStatus
  pub loads : List (SpotifyUri × ℕ)

-- The packets of the decoder: `packet` has its position, whether packets were skipped, and whether it
-- holds samples and is empty.
pub data Decoded : Type 0 where
  decode_error end_of_stream : Decoded
  packet : (position_ms : ℕ) → (skipped has_samples is_empty : Bool) → Decoded

-- What a loader says when it is polled.
pub data Polled : Type 0 where
  pending failed : Polled
  loaded : PlayerLoadedTrackData → Polled

-- What the audio device, the decoder, the loaders and the clock answer while one part of the code runs.
pub record World : Type 0 where
  pub now : ℕ
  pub sink_starts : Bool
  pub sink_stops : Bool
  pub sink_writes : Bool
  pub seek : ℕ → Option ℕ
  pub next_packet : Decoded
  pub loader : Polled
  pub preload_loader : Polled
  pub read_ahead : ℕ
  pub notices : List Notice

-- How a method ends: `err` is an error that is returned, `exits` the exit of the process, and `waits` a
-- wait for data that has not come.
pub data Run : Type 0 where
  ok err : PlayerInternal → Run
  exits waits : Run

infixl 10 ◌>>=◌
-- The `?`.
abbrev pub ◌>>=◌ : Run → (PlayerInternal → Run) → Run
◌>>=◌ (ok p) f = f p
◌>>=◌ (err p) f = err p
◌>>=◌ exits f = exits
◌>>=◌ waits f = waits

unfoldable pub send_event : PlayerEvent → PlayerInternal → PlayerInternal
send_event e p = record p { events = p.events ++ (e ∷ []) }

unfoldable pub set_state : PlayerState → PlayerInternal → PlayerInternal
set_state s p = record p { state = s }

unfoldable pub set_preload : PlayerPreload → PlayerInternal → PlayerInternal
set_preload s p = record p { preload = s }

-- A transition of the state that exits the process from the wrong one.
abbrev pub transition : Option PlayerState → PlayerInternal → Run
transition none p = exits
transition (some s) p = ok (set_state s p)

-- "Instant::now().checked_sub(Duration::from_millis(...))"
unfoldable pub start_time : ℕ → ℕ → Option ℕ
start_time now position_ms =
    if leb (position_ms * 10 ^ 6) now then some (now - position_ms * 10 ^ 6) else none

-- `none` is the exit of the process.
unfoldable pub is_playing : PlayerState → Option Bool
is_playing stopped = some false
is_playing (loading uri id start loader) = some false
is_playing (paused c) = some false
is_playing (playing c t) = some true
is_playing (end_of_track uri id t) = some false
is_playing invalid = none

unfoldable pub playing_to_end_of_track : PlayerState → Option PlayerState
playing_to_end_of_track (playing c t) =
    some (end_of_track c.track_id c.play_request_id c.loaded_track)
playing_to_end_of_track stopped = none
playing_to_end_of_track (loading uri id start loader) = none
playing_to_end_of_track (paused c) = none
playing_to_end_of_track (end_of_track uri id t) = none
playing_to_end_of_track invalid = none

unfoldable pub paused_to_playing : ℕ → PlayerState → Option PlayerState
paused_to_playing now (paused c) =
    some (playing c (start_time now c.loaded_track.stream_position_ms))
paused_to_playing now stopped = none
paused_to_playing now (loading uri id start loader) = none
paused_to_playing now (playing c t) = none
paused_to_playing now (end_of_track uri id t) = none
paused_to_playing now invalid = none

unfoldable pub playing_to_paused : PlayerState → Option PlayerState
playing_to_paused (playing c t) = some (paused c)
playing_to_paused stopped = none
playing_to_paused (loading uri id start loader) = none
playing_to_paused (paused c) = none
playing_to_paused (end_of_track uri id t) = none
playing_to_paused invalid = none
