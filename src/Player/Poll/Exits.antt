-- ===== src/Player/Poll/Exits.antt =====
-- librespot_src/playback/src/player.rs: what ends the process.
use neotune.Common.{ℕ, ◌≡◌, ◌==◌, refl, Bool, true, false, Option, none, some}
use neotune.SpotifyUri.{SpotifyUri}
use neotune.Player.{
  PlayerLoadedTrackData, Current, PlayerState, stopped, loading, playing, paused, end_of_track,
  invalid, PlayerPreload, no_preload, preloading, ready, Polled, pending, failed, loaded,
  play_request_id_changed, PlayerInternal, World, Run, ok, err, exits, waits, ◌>>=◌, send_event,
  set_state, set_preload, is_playing,
}
use neotune.Player.Uri.{uri_eq}
use neotune.Player.Sink.{is_running, handle_pause, ensure_sink_running}
use neotune.Player.Sink.Safe.{IsFaulty, Settles, weaken-Settles}
use neotune.Player.Sink.Resume.{handle_pause-state}
use neotune.Player.Load.{
  seek_loaded, repeat_track, load_from, new_request, stop_unless_gapless, handle_command_load,
}
use neotune.Player.Command.{PlayerCommand, load, handle_command}
use neotune.Player.Poll.{
  logged, run_command, report_unavailable, suggest_next, end_turn, load_turn, preload_turn,
  decode_from, play_turn, Turn, poll,
}

settled-exits :
    (F : Type 0) (r : Run) (f : PlayerInternal → Run)
    → Settles F (λ q. f q ≡ exits) r
    → r >>= f ≡ exits
settled-exits F (ok p) f h = h
settled-exits F (err p) f h = elim h [ ]
settled-exits F exits f h = refl
settled-exits F waits f h = elim h [ ]

report_unavailable-state :
    (uri : SpotifyUri) (s : PlayerState) (p : PlayerInternal)
    → (report_unavailable uri s p).state ≡ p.state
unfolding report_unavailable send_event
report_unavailable-state uri stopped p = refl
report_unavailable-state uri (paused c) p = refl
report_unavailable-state uri (playing c t) p = refl
report_unavailable-state uri (loading uri' id start loader) p = refl
report_unavailable-state uri (end_of_track uri' id t) p = refl
report_unavailable-state uri invalid p = refl

-- A player that is playing exits the process when the audio device is not running and does not start.
pub play_turn-exits :
    (w : World) (p : PlayerInternal) (c : Current) (t : Option ℕ)
    → p.state ≡ playing c t
    → is_running p.sink_status ≡ false
    → w.sink_starts ≡ false
    → play_turn w p ≡ exits
unfolding play_turn is_playing ensure_sink_running decode_from
play_turn-exits w p c t e off stuck =
    let plays : is_playing p.state ≡ some true = rw (e) refl in
    simp (play_turn, plays, ensure_sink_running, off, stuck)
      (settled-exits (IsFaulty w) (handle_pause w _) (λ q. decode_from w q.state q)
        (weaken-Settles (IsFaulty w)
          (λ q. (q.state ≡ paused c) × (is_running q.sink_status ≡ false))
          (λ q. decode_from w q.state q ≡ exits) (handle_pause w _) (λ q (s, quiet). rw (s) refl)
          (handle_pause-state w _ c t e)))

preload_turn-state :
    (o : Polled) (s : PlayerPreload) (p : PlayerInternal) → (preload_turn o s p).state ≡ p.state
unfolding preload_turn set_preload send_event
preload_turn-state o no_preload p = refl
preload_turn-state o (ready uri t) p = refl
preload_turn-state pending (preloading uri loader) p = refl
preload_turn-state failed (preloading uri loader) p = report_unavailable-state uri p.state _
preload_turn-state (loaded t) (preloading uri loader) p = refl

-- The rest of a round from `Invalid`.
invalid-exits :
    (u : Turn) (cmd : Option PlayerCommand) (p : PlayerInternal)
    → load_turn u.to_loading invalid (set_state invalid p) >>= (λ p2.
      play_turn u.to_playing (preload_turn u.to_loading.preload_loader p2.preload p2) >>= λ p3.
      end_turn cmd (suggest_next p3.state p3))
      ≡ exits
unfolding load_turn play_turn is_playing set_state
invalid-exits u cmd p =
    let p2 = set_state invalid p in
    let s = preload_turn-state u.to_loading.preload_loader p2.preload p2 in simp (play_turn, s) refl

module _ (w : World) (uri uri' : SpotifyUri) (id : ℕ) (t : PlayerLoadedTrackData) (plays : Bool)
    (position_ms : ℕ) (same : uri_eq uri' uri ≡ true)
    (away : position_ms == t.stream_position_ms ≡ false) (fails : w.seek position_ms ≡ none) where
  seek_loaded-none : seek_loaded w position_ms t ≡ none
  unfolding seek_loaded
  seek_loaded-none = simp (seek_loaded, away, fails) refl

  load_from-invalid :
      (new : ℕ) (s : PlayerState) (p : PlayerInternal)
      → s ≡ end_of_track uri' id t
      → load_from w uri new plays position_ms s p ≡ err (set_state invalid p)
  unfolding load_from repeat_track
  load_from-invalid new s p e = simp (e, load_from, same, repeat_track, seek_loaded-none) refl

  handle_command_load-invalid :
      (p : PlayerInternal)
      → p.state ≡ end_of_track uri' id t
      → p.gapless ≡ true
      → handle_command_load w uri none plays position_ms p
        ≡ err (
            set_state invalid
              (send_event (play_request_id_changed p.next_request_id) (new_request p)))
  unfolding handle_command_load stop_unless_gapless new_request send_event
  handle_command_load-invalid p e gapless =
      let p1 = send_event (play_request_id_changed p.next_request_id) (new_request p) in
      let on : stop_unless_gapless w plays p1 ≡ ok p1 = simp (stop_unless_gapless, gapless) refl in
      simp (handle_command_load, on) (load_from-invalid p.next_request_id p.state p1 e)

-- The track that has just ended is loaded again, from a position to which the decoder cannot be moved: the
-- round of `poll` exits the process.
pub poll-exits :
    (u : Turn) (p : PlayerInternal) (uri uri' : SpotifyUri) (id : ℕ) (t : PlayerLoadedTrackData)
    (plays : Bool) (position_ms : ℕ)
    → p.state ≡ end_of_track uri' id t
    → uri_eq uri' uri ≡ true
    → p.gapless ≡ true
    → position_ms == t.stream_position_ms ≡ false
    → u.command ≡ some (load uri plays position_ms)
    → u.to_command.seek position_ms ≡ none
    → poll u p ≡ exits
unfolding poll run_command handle_command logged set_state
poll-exits u p uri uri' id t plays position_ms e same gapless away command fails =
    let h =
      handle_command_load-invalid u.to_command uri uri' id t plays position_ms same away fails p e
        gapless in
    simp (poll, run_command, command, logged, h)
      (invalid-exits u _ (send_event (play_request_id_changed p.next_request_id) (new_request p)))
