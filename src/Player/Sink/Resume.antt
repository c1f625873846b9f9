-- ===== src/Player/Sink/Resume.antt =====
-- librespot_src/playback/src/player.rs: a pause and what follows it.
use neotune.Common.{ℕ, ◌≡◌, refl, true, false, Option}
use neotune.Player.{
  running, Current, paused, playing, PlayerInternal, World, ok, ◌>>=◌, send_event, set_state,
  start_time, paused_to_playing, playing_to_paused,
}
use neotune.Player.Sink.{
  ensure_sink_stopped, report_sink, is_running, pause_from, handle_pause, ensure_sink_running,
  play_from, handle_play,
}
use neotune.Player.Sink.Safe.{IsFaulty, Settles, IsQuiet, bind-Settles, ensure_sink_stopped-Settles}

pub handle_pause-state :
    (w : World) (p : PlayerInternal) (c : Current) (t : Option ℕ)
    → p.state ≡ playing c t
    → Settles
        (IsFaulty w)
        (λ q. (q.state ≡ paused c) × (is_running q.sink_status ≡ false))
        (handle_pause w p)
unfolding handle_pause pause_from playing_to_paused set_state send_event
handle_pause-state w p c t e =
    simp (handle_pause, e)
      (bind-Settles (IsFaulty w) (IsQuiet (set_state (paused c) p))
        (λ q. (q.state ≡ paused c) × (is_running q.sink_status ≡ false))
        (ensure_sink_stopped w false (set_state (paused c) p)) _ (λ q quiet. quiet)
        (ensure_sink_stopped-Settles w false (set_state (paused c) p)))

play_again :
    (w : World) (p : PlayerInternal) (c : Current)
    → w.sink_starts ≡ true
    → p.state ≡ paused c
    → is_running p.sink_status ≡ false
    → (q : PlayerInternal) × ((handle_play w p ≡ ok q)
        × ((q.state ≡ playing c (start_time w.now c.loaded_track.stream_position_ms))
            × (q.sink_status ≡ running)))
unfolding handle_play play_from paused_to_playing ensure_sink_running report_sink set_state
    send_event
play_again w p c starts e off =
    simp (handle_play, e, ensure_sink_running, off, starts) (_, (refl, (refl, refl)))

-- A track that is paused and played again, on a device that starts, is the track that was playing: at the
-- position of the pause, counted from the time at which it is played again, and with the device running.
pub handle_play-handle_pause_track :
    (w w' : World) (p : PlayerInternal) (c : Current) (t : Option ℕ)
    → p.state ≡ playing c t
    → w'.sink_starts ≡ true
    → Settles
        (IsFaulty w)
        (λ q.
          (q.state ≡ playing c (start_time w'.now c.loaded_track.stream_position_ms))
          × (q.sink_status ≡ running))
        (handle_pause w p >>= handle_play w')
handle_play-handle_pause_track w w' p c t e starts =
    bind-Settles (IsFaulty w) _ _ (handle_pause w p) (handle_play w')
      (λ q (s, off).
        let (r, (played, result)) = play_again w' q c starts s off in rw (played) result)
      (handle_pause-state w p c t e)
