-- ===== src/Player/Sink.antt =====
-- librespot_src/playback/src/player.rs: the audio device, playing, pausing and stopping, and the start
-- of the playback of a loaded track.
pub mod Safe
pub mod Resume
use neotune.Common.{ℕ, Bool, true, false, Option, none, some, List, [], ◌∷◌, ◌++◌, if◌then◌else◌}
use neotune.SpotifyUri.{SpotifyUri}
use neotune.Player.{
  SinkStatus, running, closed, temporarily_closed, PlayerLoadedTrackData, Current, PlayerState,
  stopped, loading, paused, playing, end_of_track, invalid, stopped_event, playing_event,
  paused_event, track_changed, PlayerInternal, World, Run, ok, exits, ◌>>=◌, send_event, set_state,
  transition, start_time, paused_to_playing, playing_to_paused,
}

-- A new status of the device, of which the callback is told.
unfoldable pub report_sink : SinkStatus → PlayerInternal → PlayerInternal
report_sink status p = record p {
  sink_status = status;
  sink_events = p.sink_events ++ (status ∷ []);
}

unfoldable pub closing_status : Bool → SinkStatus
closing_status temporarily = if temporarily then temporarily_closed else closed

unfoldable pub ensure_sink_stopped : World → Bool → PlayerInternal → Run
unfolding report_sink closing_status
ensure_sink_stopped w temporarily p = elim p.sink_status [
  | running ↦ elim w.sink_stops [
    | true ↦ ok (report_sink (closing_status temporarily) p)
    | false ↦ exits
  ]
  | temporarily_closed ↦ elim temporarily [ true ↦ ok p | false ↦ ok (report_sink closed p) ]
  | closed ↦ ok p
]

-- `handle_pause` in a state; a state in which there is nothing to pause is only logged.
unfoldable pub pause_from : World → PlayerState → PlayerInternal → Run
pause_from w (paused c) p = ensure_sink_stopped w false p
pause_from w (playing c t) p = transition (playing_to_paused (playing c t)) p >>= λ p1.
    ensure_sink_stopped w false p1 >>= λ p2.
    ok (send_event (paused_event c.play_request_id c.track_id c.loaded_track.stream_position_ms) p2)
pause_from w (loading uri id start loader) p = ok (set_state (loading uri id false loader) p)
pause_from w stopped p = ok p
pause_from w (end_of_track uri id t) p = ok p
pause_from w invalid p = ok p

unfoldable pub handle_pause : World → PlayerInternal → Run
handle_pause w p = pause_from w p.state p

abbrev pub is_running : SinkStatus → Bool
is_running running = true
is_running closed = false
is_running temporarily_closed = false

-- The callback is told before the device is started.
unfoldable pub ensure_sink_running : World → PlayerInternal → Run
ensure_sink_running w p = elim (is_running p.sink_status) [
  | true ↦ ok p
  | false ↦ elim w.sink_starts [
    | true ↦ ok (report_sink running p)
    | false ↦ handle_pause w (record p { sink_events = p.sink_events ++ (running ∷ []) })
  ]
]

unfoldable pub play_from : World → PlayerState → PlayerInternal → Run
play_from w (paused c) p = transition (paused_to_playing w.now (paused c)) p >>= λ p1.
    ensure_sink_running w
      (send_event (playing_event c.play_request_id c.track_id c.loaded_track.stream_position_ms) p1)
play_from w (loading uri id start loader) p = ok (set_state (loading uri id true loader) p)
play_from w stopped p = ok p
play_from w (playing c t) p = ok p
play_from w (end_of_track uri id t) p = ok p
play_from w invalid p = ok p

unfoldable pub handle_play : World → PlayerInternal → Run
handle_play w p = play_from w p.state p

abbrev stop_track : World → SpotifyUri → ℕ → PlayerInternal → Run
stop_track w uri id p = ensure_sink_stopped w false p >>= λ p1.
    ok (set_state stopped (send_event (stopped_event id uri) p1))

unfoldable pub stop_from : World → PlayerState → PlayerInternal → Run
stop_from w stopped p = ok p
stop_from w (loading uri id start loader) p = stop_track w uri id p
stop_from w (paused c) p = stop_track w c.track_id c.play_request_id p
stop_from w (playing c t) p = stop_track w c.track_id c.play_request_id p
stop_from w (end_of_track uri id t) p = stop_track w uri id p
stop_from w invalid p = exits

unfoldable pub handle_player_stop : World → PlayerInternal → Run
handle_player_stop w p = stop_from w p.state p

-- What is played or paused from now on.
abbrev pub new_current : SpotifyUri → ℕ → PlayerLoadedTrackData → Current
new_current uri id t = record {
  track_id = uri;
  play_request_id = id;
  loaded_track = t;
  suggested_to_preload_next_track = false;
}

unfoldable pub start_playback :
    World → SpotifyUri → ℕ → PlayerLoadedTrackData → Bool → PlayerInternal → Run
start_playback w uri id t true p =
    ensure_sink_running w (send_event (track_changed t.duration_ms) p) >>= λ p1. ok (
      set_state (playing (new_current uri id t) (start_time w.now t.stream_position_ms))
        (send_event (playing_event id uri t.stream_position_ms) p1))
start_playback w uri id t false p =
    ensure_sink_stopped w false (send_event (track_changed t.duration_ms) p) >>= λ p1. ok (
      send_event (paused_event id uri t.stream_position_ms)
        (set_state (paused (new_current uri id t)) p1))
