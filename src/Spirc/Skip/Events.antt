-- ===== src/Spirc/Skip/Events.antt =====
-- librespot_src/connect/src/spirc.rs: `handle_player_event`.
pub mod Sync
pub mod Lists
use neotune.Common.{
  ℕ, ◌+◌, ◌-◌, ◌^◌, Bool, true, false, ◌&&◌, not, Option, none, some, List, [], ltb, ◌==◌, bytes_eq,
  sub_u64, if◌then◌else◌, to_option, ◌∷◌,
}
use neotune.SpotifyUri.{SpotifyUri, from_uri}
use neotune.Connect.Track.{Track}
use neotune.Connect.State.{ConnectState}
use neotune.Connect.Player.{repeat_track, current_track}
use neotune.Connect.Queue.{mark_unavailable}
use neotune.Connect.Handle.Status.{
  SpircPlayStatus, stopped, loading_play, loading_pause, playing, paused,
}
use neotune.Spirc.{
  SpircTask, Ended, done, state_error, uri_error, out_of_fuel, preload, tell, set_play_status,
  update_position,
}
use neotune.Spirc.Skip.{Handled, on_state, try, current_uri, handle_next}

-- The events that the handler looks at, with the request that they belong to. An unavailable track is
-- named by the uri that is printed for it.
pub data PlayerEvent : Type 0 where
  track_changed : (duration : ℕ) → PlayerEvent
  play_request_id_changed : ℕ → PlayerEvent
  end_of_track_event loading_event stopped_event time_to_preload_event : ℕ → PlayerEvent
  seeked_event playing_event position_correction_event paused_event :
      ℕ → (position_ms : ℕ) → PlayerEvent
  unavailable_event : ℕ → List ℕ → PlayerEvent
  other_event : PlayerEvent

-- librespot_src/playback/src/player.rs: `get_play_request_id`
unfoldable pub get_play_request_id : PlayerEvent → Option ℕ
get_play_request_id (track_changed d) = none
get_play_request_id (play_request_id_changed i) = none
get_play_request_id (end_of_track_event i) = some i
get_play_request_id (loading_event i) = some i
get_play_request_id (stopped_event i) = some i
get_play_request_id (time_to_preload_event i) = some i
get_play_request_id (seeked_event i p) = some i
get_play_request_id (playing_event i p) = some i
get_play_request_id (position_correction_event i p) = some i
get_play_request_id (paused_event i p) = some i
get_play_request_id (unavailable_event i uri) = some i
get_play_request_id other_event = none

abbrev pub is_current_track : Option ℕ → Option ℕ → Bool
is_current_track (some event_id) (some current_id) = event_id == current_id
is_current_track (some event_id) none = false
is_current_track none current = false

-- "self.update_state = true", which an error skips.
unfoldable pub updated : Handled → Handled
updated (done, f) = (done, record f { update_state = true })
updated (state_error e, f) = (state_error e, f)
updated (uri_error e, f) = (uri_error e, f)
updated (out_of_fuel, f) = (out_of_fuel, f)
updated (Ended.panicked, f) = (Ended.panicked, f)

-- `(a - b).abs() > 100` of two `i64`; the least `i64` has no absolute value and stays negative.
unfoldable pub far_apart : ℕ → ℕ → Bool
far_apart a b = let d = sub_u64 a b in ltb 100 d && (ltb d (2 ^ 64 - 100) && not (d == 2 ^ 63))

abbrev pub loading_position : SpircPlayStatus → ℕ
loading_position (loading_play p) = p
loading_position (loading_pause p) = p
loading_position stopped = 0
loading_position (playing start b) = 0
loading_position (paused p b) = 0

unfoldable pub move_play_status : SpircPlayStatus → ℕ → ℕ → SpircTask → Handled
unfolding set_play_status update_position updated
move_play_status status position_ms now f =
    updated (done, set_play_status status (update_position position_ms now f))

-- `PlayerEvent::Playing` and `PlayerEvent::PositionCorrection`
unfoldable pub handle_playing : ℕ → ℕ → SpircPlayStatus → SpircTask → Handled
unfolding move_play_status far_apart
handle_playing now position_ms stopped f = (done, f)
handle_playing now position_ms (paused p b) f = (done, f)
handle_playing now position_ms (loading_play p) f =
    move_play_status (playing (sub_u64 now position_ms) false) position_ms now f
handle_playing now position_ms (loading_pause p) f =
    move_play_status (playing (sub_u64 now position_ms) false) position_ms now f
handle_playing now position_ms (playing start b) f =
    elim (far_apart start (sub_u64 now position_ms)) [
      | true ↦ move_play_status (playing (sub_u64 now position_ms) b) position_ms now f
      | false ↦ (done, f)
    ]

unfoldable pub handle_paused : ℕ → ℕ → SpircPlayStatus → SpircTask → Handled
unfolding move_play_status
handle_paused now position_ms stopped f = (done, f)
handle_paused now position_ms (paused p b) f =
    move_play_status (paused position_ms false) position_ms now f
handle_paused now position_ms (loading_play p) f =
    move_play_status (paused position_ms false) position_ms now f
handle_paused now position_ms (loading_pause p) f =
    move_play_status (paused position_ms false) position_ms now f
handle_paused now position_ms (playing start b) f =
    move_play_status (paused position_ms false) position_ms now f

unfoldable pub handle_stopped : SpircPlayStatus → SpircTask → Handled
unfolding set_play_status updated
handle_stopped stopped f = (done, f)
handle_stopped (paused p b) f = updated (done, set_play_status stopped f)
handle_stopped (loading_play p) f = updated (done, set_play_status stopped f)
handle_stopped (loading_pause p) f = updated (done, set_play_status stopped f)
handle_stopped (playing start b) f = updated (done, set_play_status stopped f)

-- librespot_src/connect/src/state/tracks.rs: `preview_next_track`
unfoldable pub preview_next_track : ConnectState → Option SpotifyUri
preview_next_track s = elim (repeat_track s) [
  | true ↦ to_option (from_uri (current_track s).uri)
  | false ↦ elim s.player.next_tracks [ [] ↦ none | t ∷ ts ↦ to_option (from_uri t.uri) ]
]

abbrev triggered : SpircPlayStatus → SpircPlayStatus
triggered stopped = stopped
triggered (loading_play p) = loading_play p
triggered (loading_pause p) = loading_pause p
triggered (paused p b) = paused p true
triggered (playing start b) = playing start true

unfoldable pub preload_next : Option SpotifyUri → SpircTask → SpircTask
unfolding tell
preload_next none f = f
preload_next (some id) f = tell (preload id) f

unfoldable pub handle_preload_next_track : SpircTask → SpircTask
unfolding preload_next preview_next_track set_play_status
handle_preload_next_track f =
    preload_next (preview_next_track f.connect_state) (set_play_status (triggered f.play_status) f)

-- What follows `handle_unavailable`: the current track is skipped if it is the one.
unfoldable pub skip_unavailable : ℕ → ℕ → List ℕ → SpircTask → Handled
skip_unavailable fuel now uri f = elim (bytes_eq (current_uri f) uri) [
  | true ↦ handle_next fuel now none f
  | false ↦ (done, f)
]

unfoldable pub handle_unavailable : List ℕ → SpircTask → Handled
unfolding handle_preload_next_track
handle_unavailable uri f =
    try (on_state (mark_unavailable uri) f) (λ _ f'. (done, handle_preload_next_track f'))

-- The `?` behind a handler.
abbrev pub and_then : Handled → (SpircTask → Handled) → Handled
and_then (done, f) rest = rest f
and_then (state_error e, f) rest = (state_error e, f)
and_then (uri_error e, f) rest = (uri_error e, f)
and_then (out_of_fuel, f) rest = (out_of_fuel, f)
and_then (Ended.panicked, f) rest = (Ended.panicked, f)

unfoldable pub handle_current_event : ℕ → ℕ → PlayerEvent → SpircTask → Handled
unfolding handle_playing handle_paused handle_stopped handle_preload_next_track handle_unavailable
    skip_unavailable update_position updated
handle_current_event fuel now (track_changed d) f = (done, f)
handle_current_event fuel now (play_request_id_changed i) f = (done, f)
handle_current_event fuel now (end_of_track_event i) f =
    updated
      (handle_next fuel now (if repeat_track f.connect_state then some (current_uri f) else none) f)
handle_current_event fuel now (loading_event i) f =
    updated (done, update_position (loading_position f.play_status) now f)
handle_current_event fuel now (seeked_event i p) f = updated (done, update_position p now f)
handle_current_event fuel now (playing_event i p) f = handle_playing now p f.play_status f
handle_current_event fuel now (position_correction_event i p) f =
    handle_playing now p f.play_status f
handle_current_event fuel now (paused_event i p) f = handle_paused now p f.play_status f
handle_current_event fuel now (stopped_event i) f = handle_stopped f.play_status f
handle_current_event fuel now (time_to_preload_event i) f = (done, handle_preload_next_track f)
handle_current_event fuel now (unavailable_event i uri) f =
    updated (and_then (handle_unavailable uri f) (skip_unavailable fuel now uri))
handle_current_event fuel now other_event f = (done, f)

-- "we only process events if the play_request_id matches."
unfoldable pub handle_request_event : ℕ → ℕ → PlayerEvent → SpircTask → Handled
unfolding handle_current_event
handle_request_event fuel now e f =
    elim (is_current_track (get_play_request_id e) f.play_request_id) [
      | true ↦ handle_current_event fuel now e f
      | false ↦ (done, f)
    ]

abbrev changed : PlayerEvent → SpircTask → Option SpircTask
changed (track_changed d) f = some (record f { duration = d; update_state = true })
changed (play_request_id_changed i) f = some (record f { play_request_id = some i })
changed e f = none

unfoldable pub handle_player_event : ℕ → ℕ → PlayerEvent → SpircTask → Handled
unfolding handle_request_event
handle_player_event fuel now e f = elim (changed e f) [
  | some f' ↦ (done, f')
  | none ↦ handle_request_event fuel now e f
]
