-- ===== src/Player/Load/Safe.antt =====
-- librespot_src/playback/src/player.rs: what the loading of a track leads to.
use neotune.Common.{
  ℕ, ◌≡◌, refl, Bool, ◌&&◌, ◌==◌, Option, none, some, ◌⊎◌, inl, inr, Bool-cases, Option-cases,
}
use neotune.SpotifyUri.{SpotifyUri}
use neotune.Player.{
  PlayerLoadedTrackData, PlayerPreload, no_preload, preloading, ready, PlayerState, stopped,
  loading, paused, playing, end_of_track, invalid, PlayerInternal, World, Run, ok, err, exits,
  waits, ◌>>=◌, send_event, set_state, set_preload, play_request_id_changed,
}
use neotune.Player.Uri.{uri_eq}
use neotune.Player.Sink.{start_playback}
use neotune.Player.Sink.Safe.{
  IsSound, IsStarted, IsFaulty, Settles, IsQuiet, Keeps, weaken-Settles,
  ensure_sink_stopped-Settles, quiet-IsSound, start_playback-Settles, cannot_move,
}
use neotune.Player.Load.{
  spawn_load, seek_loaded, repeat_track, reload_track, set_loading, load_anew, load_from_preload,
  load_preloaded, load_from, new_request, or_new, stop_unless_gapless, handle_command_load,
}

-- A method that returns something sound, with or without an error, or waits, but for a fault.
abbrev pub Ends : Type 0 → Run → Type 0
Ends F (ok p) = IsSound p ⊎ F
Ends F (err p) = IsSound p ⊎ F
Ends F exits = F
Ends F waits = Unit {0}

pub faulty-Ends : (F : Type 0) (r : Run) → F → Ends F r
faulty-Ends F (ok p) fault = inr fault
faulty-Ends F (err p) fault = inr fault
faulty-Ends F exits fault = fault
faulty-Ends F waits fault = tt

pub Settles-Ends : (F : Type 0) (r : Run) → Settles F IsSound r → Ends F r
Settles-Ends F (ok p) h = inl h
Settles-Ends F (err p) h = elim h [ ]
Settles-Ends F exits h = h
Settles-Ends F waits h = elim h [ ]

pub bind-Ends :
    (F : Type 0) (r : Run) (f : PlayerInternal → Run)
    → ((p : PlayerInternal) → IsSound p → Ends F (f p))
    → Ends F r
    → Ends F (r >>= f)
bind-Ends F (ok p) f keeps h = elim h [
  | inl sound ↦ keeps p sound
  | inr fault ↦ faulty-Ends F (f p) fault
]
bind-Ends F (err p) f keeps h = h
bind-Ends F exits f keeps h = h
bind-Ends F waits f keeps h = h

pub Keeps-Ends :
    (w : World) (p : PlayerInternal) (r : Run) → IsSound p → Keeps w p r → Ends (IsFaulty w) r
Keeps-Ends w p r sound h =
    Settles-Ends (IsFaulty w) r (
      weaken-Settles (IsFaulty w) (λ q. IsSound p → IsSound q) IsSound r (λ q keeps. keeps sound) h)

pub start_playback-Ends :
    (w : World) (uri : SpotifyUri) (id : ℕ) (t : PlayerLoadedTrackData) (starts : Bool)
    (p : PlayerInternal)
    → Ends (IsFaulty w) (start_playback w uri id t starts p)
start_playback-Ends w uri id t starts p =
    Settles-Ends (IsFaulty w) (start_playback w uri id t starts p) (
      weaken-Settles (IsFaulty w) IsStarted IsSound (start_playback w uri id t starts p)
        (λ q started. started.0) (start_playback-Settles w uri id t starts p))

seek_loaded-none :
    (w : World) (q : ℕ) (t : PlayerLoadedTrackData) → seek_loaded w q t ≡ none → w.seek q ≡ none
unfolding seek_loaded
seek_loaded-none w q t h = elim (Bool-cases (q == t.stream_position_ms)) [
  | inl here ↦ (let h' : some t ≡ none = rw (seek_loaded, here) at h in cc)
  | inr away ↦ elim (Option-cases (w.seek q)) [
    | inl fails ↦ fails
    | inr (r, moves) ↦ (let h' = simp (seek_loaded, away, moves) at h in cc)
  ]
]

module _ (w : World) (uri : SpotifyUri) (id : ℕ) (play : Bool) (position_ms : ℕ) where
  repeat_track-Ends :
      (t : PlayerLoadedTrackData) (p : PlayerInternal)
      → Ends (IsFaulty w) (repeat_track w uri id play position_ms t p)
  unfolding repeat_track
  repeat_track-Ends t p = elim (Option-cases (seek_loaded w position_ms t)) [
    | inl fails ↦
        simp (repeat_track, fails)
          (inr (cannot_move w position_ms (seek_loaded-none w position_ms t fails)))
    | inr (t', moves) ↦
        simp (repeat_track, moves)
          (start_playback-Ends w uri id t' play (set_preload no_preload (set_state invalid p)))
  ]

  reload_track-Ends :
      (t : PlayerLoadedTrackData) (p : PlayerInternal)
      → IsSound p
      → Ends (IsFaulty w) (reload_track w uri id play position_ms t p)
  unfolding reload_track
  reload_track-Ends t p sound = elim (Option-cases (seek_loaded w position_ms t)) [
    | inl fails ↦ simp (reload_track, fails) (inl sound)
    | inr (t', moves) ↦
        simp (reload_track, moves)
          (start_playback-Ends w uri id t' play (set_preload no_preload (set_state invalid p)))
  ]

  load_from_preload-Ends :
      (s : PlayerPreload) (p : PlayerInternal)
      → IsSound p
      → Ends (IsFaulty w) (load_from_preload w uri id play position_ms s p)
  unfolding load_from_preload load_anew set_loading spawn_load set_state set_preload send_event
  load_from_preload-Ends no_preload p sound = inl refl
  load_from_preload-Ends (preloading uri' loader) p sound =
      elim (Bool-cases (uri_eq uri uri' && position_ms == 0)) [
        | inl same ↦ simp (load_from_preload, same) (inl refl)
        | inr other ↦ simp (load_from_preload, other) (inl refl)
      ]
  load_from_preload-Ends (ready uri' t) p sound = elim (Bool-cases (uri_eq uri uri')) [
    | inl same ↦ elim (Option-cases (seek_loaded w position_ms t)) [
      | inl fails ↦ simp (load_from_preload, same, fails) (inl sound)
      | inr (t', moves) ↦
          simp (load_from_preload, same, moves)
            (start_playback-Ends w uri' id t' play (set_preload no_preload p))
    ]
    | inr other ↦ simp (load_from_preload, other) (inl refl)
  ]

  load_from-Ends :
      (s : PlayerState) (p : PlayerInternal)
      → IsSound p
      → Ends (IsFaulty w) (load_from w uri id play position_ms s p)
  unfolding load_from load_preloaded
  load_from-Ends invalid p sound = inl sound
  load_from-Ends stopped p sound = load_from_preload-Ends p.preload p sound
  load_from-Ends (loading uri' id' start loader) p sound = load_from_preload-Ends p.preload p sound
  load_from-Ends (end_of_track uri' id' t) p sound = elim (Bool-cases (uri_eq uri' uri)) [
    | inl same ↦ simp (load_from, same) (repeat_track-Ends t p)
    | inr other ↦ simp (load_from, load_preloaded, other) (load_from_preload-Ends p.preload p sound)
  ]
  load_from-Ends (playing c s) p sound = elim (Bool-cases (uri_eq c.track_id uri)) [
    | inl same ↦ simp (load_from, same) (reload_track-Ends c.loaded_track p sound)
    | inr other ↦ simp (load_from, load_preloaded, other) (load_from_preload-Ends p.preload p sound)
  ]
  load_from-Ends (paused c) p sound = elim (Bool-cases (uri_eq c.track_id uri)) [
    | inl same ↦ simp (load_from, same) (reload_track-Ends c.loaded_track p sound)
    | inr other ↦ simp (load_from, load_preloaded, other) (load_from_preload-Ends p.preload p sound)
  ]

stop_unless_gapless-Keeps :
    (w : World) (play : Bool) (p : PlayerInternal) → Keeps w p (stop_unless_gapless w play p)
unfolding stop_unless_gapless
stop_unless_gapless-Keeps w play p = elim (Bool-cases p.gapless) [
  | inl on ↦ simp (stop_unless_gapless, on) (λ h. h)
  | inr off ↦
      simp (stop_unless_gapless, off)
        (weaken-Settles (IsFaulty w) (IsQuiet p) (λ q. IsSound p → IsSound q) _
          (λ q quiet. quiet-IsSound p q quiet) (ensure_sink_stopped-Settles w play p))
]

pub handle_command_load-Ends :
    (w : World) (uri : SpotifyUri) (id : Option ℕ) (play : Bool) (position_ms : ℕ)
    (p : PlayerInternal)
    → IsSound p
    → Ends (IsFaulty w) (handle_command_load w uri id play position_ms p)
unfolding handle_command_load new_request send_event
handle_command_load-Ends w uri id play position_ms p sound =
    let new = or_new id p.next_request_id in
    let p1 = send_event (play_request_id_changed new) (new_request p) in
    bind-Ends (IsFaulty w) (stop_unless_gapless w play p1)
      (λ q. load_from w uri new play position_ms q.state q)
      (λ q. load_from-Ends w uri new play position_ms q.state q)
      (Keeps-Ends w p1 (stop_unless_gapless w play p1) sound (stop_unless_gapless-Keeps w play p1))
