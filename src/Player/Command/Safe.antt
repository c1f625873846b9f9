-- ===== src/Player/Command/Safe.antt =====
-- librespot_src/playback/src/player.rs: what the commands lead to.
use neotune.Common.{
  ℕ, ◌≡◌, refl, Bool, true, false, Option, none, some, to_option, inl, inr, Bool-cases,
  Option-cases,
}
use neotune.SpotifyUri.{SpotifyUri}
use neotune.Fetch.Controller.{fetch_next_and_wait}
use neotune.Player.{
  Current, PlayerState, stopped, loading, paused, playing, end_of_track, invalid, PlayerInternal,
  World, ok, send_event, set_state, set_preload, filter_explicit_content_changed,
}
use neotune.Player.Sink.{handle_play, handle_pause, handle_player_stop}
use neotune.Player.Sink.Safe.{
  IsSound, IsFaulty, handle_play-Keeps, handle_pause-Keeps, handle_player_stop-Settles,
}
use neotune.Player.Load.{handle_command_preload, is_preloaded, is_loaded, spawn_load}
use neotune.Player.Load.Safe.{Ends, Keeps-Ends, Settles-Ends, bind-Ends, handle_command_load-Ends}
use neotune.Player.Command.{
  PlayerCommand, load, preload_track, play, pause, stop, set_other, emit, seek_to,
  emit_volume_changed, set_auto_normalise_as_album, emit_filter_explicit_content_changed,
  move_decoder, preload_data_before_playback, restart_clock, seek_loaded_track, seek_from,
  handle_command_seek, skip_current, skip_explicit, filter_explicit, handle_command,
}

move_decoder-Ends :
    (w : World) (o : Option ℕ) (p : PlayerInternal)
    → IsSound p
    → Ends (IsFaulty w) (move_decoder o p.state p)
unfolding move_decoder set_state send_event
move_decoder-Ends w o p sound = go o p.state refl
  where
    go : (o : Option ℕ) (s : PlayerState) → p.state ≡ s → Ends (IsFaulty w) (move_decoder o s p)
    go none (paused c) e = inl sound
    go none (playing c t) e = inl sound
    go (some q) (paused c) e = inl (let h = simp (e) at sound in h)
    go (some q) (playing c t) e = inl refl
    go o stopped e = inl sound
    go o (loading uri id start loader) e = inl sound
    go o (end_of_track uri id t) e = inl sound
    go o invalid e = (let h = simp (e) at sound in cc)

preload_data_before_playback-Ends :
    (w : World) (p : PlayerInternal)
    → IsSound p
    → Ends (IsFaulty w) (preload_data_before_playback w p.state p)
unfolding preload_data_before_playback set_state
preload_data_before_playback-Ends w p sound = go p.state
  where
    go : (s : PlayerState) → Ends (IsFaulty w) (preload_data_before_playback w s p)
    go (playing c t) =
        elim (Option-cases (
          fetch_next_and_wait w.read_ahead w.read_ahead w.notices
            c.loaded_track.stream_loader_controller)) [
              | inl e ↦ simp (preload_data_before_playback, e) tt
              | inr ((r, s), e) ↦ elim (Option-cases (to_option r)) [
                | inl f ↦ simp (preload_data_before_playback, e, f) (inl refl)
                | inr (u, f) ↦ simp (preload_data_before_playback, e, f) (inl refl)
              ]
            ]
    go stopped = inl sound
    go (paused c) = inl sound
    go (loading uri id start loader) = inl sound
    go (end_of_track uri id t) = inl sound
    go invalid = inl sound

restart_clock-IsSound :
    (w : World) (position_ms : ℕ) (s : PlayerState) (p : PlayerInternal)
    → IsSound p
    → IsSound (restart_clock w position_ms s p)
unfolding restart_clock set_state
restart_clock-IsSound w position_ms (playing c t) p sound = refl
restart_clock-IsSound w position_ms stopped p sound = sound
restart_clock-IsSound w position_ms (paused c) p sound = sound
restart_clock-IsSound w position_ms (loading uri id start loader) p sound = sound
restart_clock-IsSound w position_ms (end_of_track uri id t) p sound = sound
restart_clock-IsSound w position_ms invalid p sound = sound

seek_loaded_track-Ends :
    (w : World) (position_ms : ℕ) (p : PlayerInternal)
    → IsSound p
    → Ends (IsFaulty w) (seek_loaded_track w position_ms p)
unfolding seek_loaded_track
seek_loaded_track-Ends w position_ms p sound =
    bind-Ends (IsFaulty w) (move_decoder (w.seek position_ms) p.state p) _
      (λ p1 sound1.
        bind-Ends (IsFaulty w) (preload_data_before_playback w p1.state p1)
          (λ p2. ok (restart_clock w position_ms p2.state p2))
          (λ p2 sound2. inl (restart_clock-IsSound w position_ms p2.state p2 sound2))
          (preload_data_before_playback-Ends w p1 sound1))
      (move_decoder-Ends w (w.seek position_ms) p sound)

handle_command_seek-Ends :
    (w : World) (position_ms : ℕ) (p : PlayerInternal)
    → IsSound p
    → Ends (IsFaulty w) (handle_command_seek w position_ms p)
unfolding handle_command_seek seek_from
handle_command_seek-Ends w position_ms p sound = go p.state
  where
    go : (s : PlayerState) → Ends (IsFaulty w) (seek_from w position_ms s p)
    go (loading uri id start loader) =
        handle_command_load-Ends w uri (some id) start position_ms p sound
    go stopped = seek_loaded_track-Ends w position_ms p sound
    go (paused c) = seek_loaded_track-Ends w position_ms p sound
    go (playing c t) = seek_loaded_track-Ends w position_ms p sound
    go (end_of_track uri id t) = seek_loaded_track-Ends w position_ms p sound
    go invalid = seek_loaded_track-Ends w position_ms p sound

handle_command_preload-IsSound :
    (uri : SpotifyUri) (p : PlayerInternal) → IsSound p → IsSound (handle_command_preload uri p)
unfolding handle_command_preload set_preload spawn_load
handle_command_preload-IsSound uri p sound = elim (Bool-cases (is_preloaded uri p.preload)) [
  | inl on ↦ simp (handle_command_preload, on) sound
  | inr off ↦ elim (Bool-cases (is_loaded uri p.state)) [
    | inl here ↦ simp (handle_command_preload, off, here) sound
    | inr away ↦ simp (handle_command_preload, off, away) sound
  ]
]

skip_current-IsSound : (c : Current) (p : PlayerInternal) → IsSound p → IsSound (skip_current c p)
unfolding skip_current send_event
skip_current-IsSound c p sound = elim (Bool-cases c.loaded_track.is_explicit) [
  | inl on ↦ simp (skip_current, on) sound
  | inr off ↦ simp (skip_current, off) sound
]

filter_explicit-IsSound :
    (filter : Bool) (p : PlayerInternal) → IsSound p → IsSound (filter_explicit filter p)
unfolding filter_explicit skip_explicit send_event
filter_explicit-IsSound false p sound = sound
filter_explicit-IsSound true p sound = go p.state
  where
    go :
        (s : PlayerState)
        → IsSound (skip_explicit s (send_event (filter_explicit_content_changed true) p))
    go (paused c) = skip_current-IsSound c _ sound
    go (playing c t) = skip_current-IsSound c _ sound
    go stopped = sound
    go (loading uri id start loader) = sound
    go (end_of_track uri id t) = sound
    go invalid = sound

pub handle_command-Ends :
    (w : World) (cmd : PlayerCommand) (p : PlayerInternal)
    → IsSound p
    → Ends (IsFaulty w) (handle_command w cmd p)
unfolding handle_command send_event
handle_command-Ends w (load uri starts position_ms) p sound =
    handle_command_load-Ends w uri none starts position_ms p sound
handle_command-Ends w (preload_track uri) p sound = inl (handle_command_preload-IsSound uri p sound)
handle_command-Ends w (seek_to position_ms) p sound = handle_command_seek-Ends w position_ms p sound
handle_command-Ends w play p sound = Keeps-Ends w p (handle_play w p) sound (handle_play-Keeps w p)
handle_command-Ends w pause p sound =
    Keeps-Ends w p (handle_pause w p) sound (handle_pause-Keeps w p)
handle_command-Ends w stop p sound =
    Settles-Ends (IsFaulty w) (handle_player_stop w p) (handle_player_stop-Settles w p sound)
handle_command-Ends w set_other p sound = inl sound
handle_command-Ends w emit p sound = inl sound
handle_command-Ends w (emit_volume_changed v) p sound = inl sound
handle_command-Ends w (set_auto_normalise_as_album v) p sound = inl sound
handle_command-Ends w (emit_filter_explicit_content_changed v) p sound =
    inl (filter_explicit-IsSound v p sound)
