-- ===== src/Spirc/Skip.antt =====
-- librespot_src/connect/src/spirc.rs: the track that is played next, and the events of the player.
pub mod Hangs
pub mod Bounds
pub mod Events
use neotune.Common.{
  ℕ, zero, suc, ◌+◌, ◌^◌, ◌<◌, Bool, true, false, not, ◌&&◌, ◌||◌, Option, none, some, List, [],
  ◌∷◌, ◌++◌, ltb, ◌==◌, bytes_eq, Result, sub_u64, if◌then◌else◌,
}
use neotune.SpotifyUri.{SpotifyUri, SpotifyUriError, from_uri}
use neotune.Connect.Track.{Track}
use neotune.Connect.State.{ConnectState, StateError, StateContext, autoplay}
use neotune.Connect.Player.{current_track, is_playing, repeat_context, repeat_track, get_context?}
use neotune.Connect.Exec.{Run, Exec}
use neotune.Connect.Tracks.{next_track, prev_track}
use neotune.Connect.Queue.{
  clear_next_tracks, reset_playback_to_position, has_next_tracks, mark_unavailable,
}
use neotune.Resolver.{append, replace, resolve_from_uri}
use neotune.Connect.Handle.Status.{
  SpircPlayStatus, stopped, loading_play, loading_pause, playing, paused, set_status,
}
use neotune.Spirc.{
  SpircTask, Ended, done, state_error, uri_error, out_of_fuel, load, preload, stop, tell,
  set_play_status, set_connect_state, update_position,
}
use neotune.Spirc.Play.{get_position, handle_seek}

abbrev pub Handled : Type 0
Handled = Ended × SpircTask

-- A method of the connect state.
abbrev pub on_state : {A : Type 0} → Exec A → SpircTask → Run A × SpircTask
on_state m f = let (r, s) = m f.connect_state in (r, set_connect_state s f)

-- The `?` on what such a method returns.
abbrev pub try : {A : Type 0} → Run A × SpircTask → (A → SpircTask → Handled) → Handled
try (Run.ok a, f) rest = rest a f
try (Run.err e, f) rest = (state_error e, f)
try (Run.out_of_fuel, f) rest = (out_of_fuel, f)
try (Run.panicked, f) rest = (Ended.panicked, f)

-- An error while the context is reset is only logged.
unfoldable pub handle_stop : ℕ → SpircTask → SpircTask
unfolding tell update_position set_connect_state
handle_stop now f =
    let f1 = update_position 0 now (tell stop f) in
    set_connect_state (reset_playback_to_position none (clear_next_tracks f1.connect_state)).1 f1

abbrev pub current_uri : SpircTask → List ℕ
current_uri f = (current_track f.connect_state).uri

unfoldable pub loaded : SpotifyUri → Bool → ℕ → ℕ → SpircTask → SpircTask
unfolding tell update_position set_connect_state set_play_status
loaded id start_playing position_ms now f =
    let status = if start_playing then loading_play position_ms else loading_pause position_ms in
    let f1 =
      set_play_status status
        (update_position position_ms now (tell (load id start_playing position_ms) f)) in
    set_connect_state (set_status status f1.connect_state) f1

unfoldable pub load_track : ℕ → Bool → ℕ → SpircTask → Handled
unfolding loaded handle_stop
load_track now start_playing position_ms f = elim f.connect_state.player.track [
  | none ↦ (done, handle_stop now f)
  | some t ↦ elim (from_uri t.uri) [
    | Result.err e ↦ (uri_error e, f)
    | Result.ok id ↦ (done, loaded id start_playing position_ms now f)
  ]
]

abbrev context_fetch_threshold : ℕ
context_fetch_threshold = 2

abbrev is_nil : List ℕ → Bool
is_nil [] = true
is_nil (b ∷ bs) = false

abbrev has_tracks : Option StateContext → Bool
has_tracks none = false
has_tracks (some c) = elim c.tracks.vec [ [] ↦ false | _ ↦ true ]

unfoldable pub require_load_new : SpircTask → Bool
require_load_new f =
    not (has_next_tracks (some context_fetch_threshold) f.connect_state)
    && (f.autoplay && not (is_nil f.connect_state.player.context_uri))

unfoldable pub add_autoplay_resolving_when_required : SpircTask → SpircTask
add_autoplay_resolving_when_required f =
    if require_load_new f
    then (let s = f.connect_state in
        let action = if has_tracks (get_context? autoplay s) then append else replace in
        record f {
          resolves =
              f.resolves
              ++ (resolve_from_uri s.player.context_uri (current_uri f) autoplay action ∷ []);
        })
    else f

abbrev pub is_sought : Option (List ℕ) → List ℕ → Bool
is_sought none uri = true
is_sought (some t) uri = bytes_eq uri t

abbrev pub is_current : Option (List ℕ) → List ℕ → Bool
is_current none uri = false
is_current (some t) uri = bytes_eq uri t

abbrev pub Skipped : Type 0
Skipped = Run (Option ℕ) × SpircTask

-- What follows a call of `next_track` in the loop of `handle_next`.
unfoldable pub skip_from : Option (List ℕ) → (SpircTask → Skipped) → Skipped → Skipped
skip_from target more (Run.ok i, f) = elim (is_sought target (current_uri f)) [
  | true ↦ (Run.ok i, f)
  | false ↦ more f
]
skip_from target more (Run.err e, f) = (Run.err e, f)
skip_from target more (Run.out_of_fuel, f) = (Run.out_of_fuel, f)
skip_from target more (Run.panicked, f) = (Run.panicked, f)

-- The loop of `handle_next`.
unfoldable pub skip_to : Option (List ℕ) → ℕ → SpircTask → Skipped
skip_to target zero f = (Run.out_of_fuel, f)
skip_to target (suc fuel) f = skip_from target (skip_to target fuel) (on_state next_track f)

-- The end of `handle_next`: whether there is a track to play.
unfoldable pub play_next : ℕ → Bool → Option ℕ → SpircTask → Handled
play_next now continue_playing (some i) f =
    load_track now continue_playing 0 (add_autoplay_resolving_when_required f)
play_next now continue_playing none f = (done, handle_stop now f)

-- `some 0` stands for `has_next_track` where the current track is the one that is asked for.
unfoldable pub handle_next : ℕ → ℕ → Option (List ℕ) → SpircTask → Handled
handle_next fuel now target f =
    let continue_playing = is_playing f.connect_state in
    elim (is_current target (current_uri f)) [
      | true ↦ play_next now continue_playing (some 0) f
      | false ↦ try (skip_to target fuel f) (play_next now continue_playing)
    ]

-- What `handle_prev` does after `prev_track`.
unfoldable pub play_prev : ℕ → Bool → Option Track → SpircTask → Handled
play_prev now repeats (some t) f = load_track now (is_playing f.connect_state) 0 f
play_prev now repeats none f =
    try (on_state (reset_playback_to_position none) f)
      (λ _ f'. (done, (if repeats then f' else handle_stop now f')))

-- "Under 3s it goes to the previous song ... Over 3s it seeks to zero"
unfoldable pub handle_prev : ℕ → SpircTask → Handled
handle_prev now f =
    let repeats = repeat_context f.connect_state in
    elim (ltb (get_position now f) 3000) [
      | true ↦ try (on_state prev_track f) (play_prev now repeats)
      | false ↦ (done, handle_seek now 0 f)
    ]
