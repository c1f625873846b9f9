-- ===== src/Player/Poll.antt =====
-- librespot_src/playback/src/player.rs: `poll` of the player, one round of its loop after the other.
pub mod Safe
pub mod Exits
pub mod Position
pub mod Survives
use neotune.Common.{
  ℕ, ◌+◌, ◌-◌, ◌*◌, ◌^◌, Bool, true, false, not, ◌&&◌, ◌||◌, Option, none, some, List, [], ◌∷◌, leb,
  ltb, if◌then◌else◌,
}
use neotune.SpotifyUri.{SpotifyUri}
use neotune.Fetch.Controller.{range_to_end_available}
use neotune.Player.{
  PlayerLoadedTrackData, Loader, PlayerPreload, no_preload, preloading, ready, Current, PlayerState,
  stopped, loading, paused, playing, end_of_track, invalid, end_of_track_event, unavailable_event,
  time_to_preload_next_track, position_correction, position_changed, preloading_event,
  PlayerInternal, Decoded, decode_error, end_of_stream, packet, Polled, pending, failed, loaded,
  World, Run, ok, err, exits, waits, ◌>>=◌, send_event, set_state, set_preload, transition,
  start_time, is_playing, playing_to_end_of_track,
}
use neotune.Player.Sink.{handle_pause, ensure_sink_running, start_playback}
use neotune.Player.Command.{PlayerCommand, at_position, handle_command}

-- "Error handling command"
unfoldable pub logged : Run → Run
logged (ok p) = ok p
logged (err p) = ok p
logged exits = exits
logged waits = waits

unfoldable pub run_command : World → Option PlayerCommand → PlayerInternal → Run
run_command w none p = ok p
run_command w (some cmd) p = logged (handle_command w cmd p)

-- "The state wasn't changed by start_playback()"
unfoldable pub check_started : PlayerState → PlayerInternal → Run
check_started (loading uri id start loader) p = exits
check_started stopped p = ok p
check_started (paused c) p = ok p
check_started (playing c t) p = ok p
check_started (end_of_track uri id t) p = ok p
check_started invalid p = ok p

-- A loader that has not been taken from is polled.
unfoldable pub take_loaded : World → Polled → SpotifyUri → ℕ → Bool → Loader → PlayerInternal → Run
take_loaded w pending uri id start loader p = ok p
take_loaded w failed uri id start loader p = ok (
    send_event (unavailable_event id uri)
      (set_state (loading uri id start (record loader { is_terminated = true })) p))
take_loaded w (loaded t) uri id start loader p =
    start_playback w uri id t start p >>= λ p1. check_started p1.state p1

-- "Handle loading of a new track to play"
unfoldable pub load_turn : World → PlayerState → PlayerInternal → Run
load_turn w (loading uri id start loader) p = elim loader.is_terminated [
  | true ↦ ok p
  | false ↦ take_loaded w w.loader uri id start loader p
]
load_turn w stopped p = ok p
load_turn w (paused c) p = ok p
load_turn w (playing c t) p = ok p
load_turn w (end_of_track uri id t) p = ok p
load_turn w invalid p = ok p

-- "Let Spirc know that the track was unavailable."
unfoldable pub report_unavailable : SpotifyUri → PlayerState → PlayerInternal → PlayerInternal
report_unavailable uri (paused c) p = send_event (unavailable_event c.play_request_id uri) p
report_unavailable uri (playing c t) p = send_event (unavailable_event c.play_request_id uri) p
report_unavailable uri stopped p = p
report_unavailable uri (loading uri' id start loader) p = p
report_unavailable uri (end_of_track uri' id t) p = p
report_unavailable uri invalid p = p

-- "handle pending preload requests."
unfoldable pub preload_turn : Polled → PlayerPreload → PlayerInternal → PlayerInternal
preload_turn o no_preload p = p
preload_turn o (ready uri t) p = p
preload_turn pending (preloading uri loader) p = p
preload_turn failed (preloading uri loader) p =
    report_unavailable uri p.state (set_preload no_preload p)
preload_turn (loaded t) (preloading uri loader) p =
    set_preload (ready uri t) (send_event (preloading_event uri) p)

abbrev pub notify_after : ℕ
notify_after = 10 ^ 9

-- "ahead >= Duration::from_secs(1)", in milliseconds.
abbrev pub is_ahead : (expected_ms position_ms : ℕ) → Bool
is_ahead expected_ms position_ms =
    leb expected_ms position_ms && leb 1000 (position_ms - expected_ms)

-- "lag >= Duration::from_secs(1)"
abbrev pub is_behind : (now start position_ms : ℕ) → Bool
is_behind now start position_ms =
    leb start now
    && (leb (position_ms * 10 ^ 6) (now - start)
        && leb notify_after (now - start - position_ms * 10 ^ 6))

unfoldable pub notify_about_position :
    (now : ℕ) → Option ℕ → (expected_ms position_ms : ℕ) → (skipped : Bool) → Bool
notify_about_position now none expected_ms position_ms skipped = true
notify_about_position now (some start) expected_ms position_ms skipped =
    (skipped && is_ahead expected_ms position_ms) || is_behind now start position_ms

unfoldable pub correct_position :
    World → Current → Option ℕ → ℕ → Bool → PlayerInternal → PlayerInternal
correct_position w c t position_ms skipped p =
    elim (notify_about_position w.now t c.loaded_track.stream_position_ms position_ms skipped) [
      | true ↦
          send_event (position_correction c.play_request_id c.track_id position_ms)
            (set_state (playing (at_position position_ms c) (start_time w.now position_ms)) p)
      | false ↦ set_state (playing (at_position position_ms c) t) p
    ]

-- "self.config.position_update_interval"
unfoldable pub report_progress : World → Current → ℕ → Option ℕ → PlayerInternal → PlayerInternal
report_progress w c position_ms none p = p
report_progress w c position_ms (some interval) p =
    elim (ltb interval (w.now - p.last_progress_update)) [
      | true ↦
          send_event (position_changed c.play_request_id c.track_id position_ms)
            (record p { last_progress_update = w.now })
      | false ↦ p
    ]

unfoldable pub note_packet :
    World → Current → Option ℕ → ℕ → (skipped has_samples : Bool) → PlayerInternal → PlayerInternal
note_packet w c t position_ms skipped has_samples p = elim p.passthrough [
  | true ↦ set_state (playing (at_position position_ms c) t) p
  | false ↦ elim has_samples [
    | true ↦
        report_progress w c position_ms p.position_update_interval
          (correct_position w c t position_ms skipped p)
    | false ↦
        send_event (end_of_track_event c.play_request_id c.track_id)
          (set_state (playing (at_position position_ms c) t) p)
  ]
]

-- `handle_packet` with a packet. The volume and the normalisation of the samples are left out.
unfoldable pub write_packet : World → (is_empty : Bool) → PlayerInternal → Run
write_packet w true p = ok p
write_packet w false p = if w.sink_writes then ok p else handle_pause w p

-- `handle_packet` at the end of the stream.
unfoldable pub finish_track : PlayerState → PlayerInternal → Run
finish_track (playing c t) p = transition (playing_to_end_of_track (playing c t)) p >>= λ p1.
    ok (send_event (end_of_track_event c.play_request_id c.track_id) p1)
finish_track stopped p = exits
finish_track (loading uri id start loader) p = exits
finish_track (paused c) p = exits
finish_track (end_of_track uri id t) p = exits
finish_track invalid p = exits

unfoldable pub take_packet : World → Current → Option ℕ → Decoded → PlayerInternal → Run
take_packet w c t decode_error p =
    ok (send_event (end_of_track_event c.play_request_id c.track_id) p)
take_packet w c t end_of_stream p = finish_track p.state p
take_packet w c t (packet position_ms skipped has_samples is_empty) p =
    write_packet w is_empty (note_packet w c t position_ms skipped has_samples p)

-- "PlayerInternal poll: Invalid PlayerState"
unfoldable pub decode_from : World → PlayerState → PlayerInternal → Run
decode_from w (playing c t) p = take_packet w c t w.next_packet p
decode_from w stopped p = exits
decode_from w (loading uri id start loader) p = exits
decode_from w (paused c) p = exits
decode_from w (end_of_track uri id t) p = exits
decode_from w invalid p = exits

unfoldable pub play_turn : World → PlayerInternal → Run
play_turn w p = elim (is_playing p.state) [
  | none ↦ exits
  | some true ↦ ensure_sink_running w p >>= λ p1. decode_from w p1.state p1
  | some false ↦ ok p
]

-- `PRELOAD_NEXT_TRACK_BEFORE_END_DURATION_MS`
abbrev pub preload_next_track_before_end : ℕ
preload_next_track_before_end = 30000

unfoldable pub wants_next_track : Current → Bool
wants_next_track c =
    not c.suggested_to_preload_next_track
    && (ltb c.loaded_track.duration_ms
          (c.loaded_track.stream_position_ms + preload_next_track_before_end)
        && range_to_end_available c.loaded_track.stream_loader_controller)

abbrev pub suggested : Current → Current
suggested c = record c { suggested_to_preload_next_track = true }

unfoldable pub suggest_next : PlayerState → PlayerInternal → PlayerInternal
suggest_next (paused c) p = elim (wants_next_track c) [
  | true ↦
      send_event (time_to_preload_next_track c.play_request_id c.track_id)
        (set_state (paused (suggested c)) p)
  | false ↦ p
]
suggest_next (playing c t) p = elim (wants_next_track c) [
  | true ↦
      send_event (time_to_preload_next_track c.play_request_id c.track_id)
        (set_state (playing (suggested c) t) p)
  | false ↦ p
]
suggest_next stopped p = p
suggest_next (loading uri id start loader) p = p
suggest_next (end_of_track uri id t) p = p
suggest_next invalid p = p

-- The end of a round, with whether the loop returns until it is woken up.
unfoldable pub is_pending : Option PlayerCommand → PlayerState → Option Bool
is_pending none s = elim (is_playing s) [ none ↦ none | some b ↦ some (not b) ]
is_pending (some cmd) s = elim (is_playing s) [ none ↦ none | some b ↦ some false ]

unfoldable pub end_turn : Option PlayerCommand → PlayerInternal → Run
end_turn cmd p = elim (is_pending cmd p.state) [ none ↦ exits | some b ↦ ok p ]

-- What one round of the loop meets: a command, and the answers to its parts.
pub record Turn : Type 0 where
  pub command : Option PlayerCommand
  pub to_command : World
  pub to_loading : World
  pub to_playing : World

unfoldable pub poll : Turn → PlayerInternal → Run
poll u p = run_command u.to_command u.command p >>= λ p1.
    load_turn u.to_loading p1.state p1 >>= λ p2.
    play_turn u.to_playing (preload_turn u.to_loading.preload_loader p2.preload p2) >>= λ p3.
    end_turn u.command (suggest_next p3.state p3)

-- The rounds from the start until the player is dropped.
unfoldable pub poll_all : List Turn → PlayerInternal → Run
poll_all [] p = ok p
poll_all (u ∷ us) p = poll u p >>= λ p1. poll_all us p1
