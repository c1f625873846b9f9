-- ===== src/Spirc/Load/Bounds.antt =====
-- librespot_src/connect/src/spirc.rs: the lists of the connect state under `handle_load`, and a load that fails.
use neotune.Common.{
  ℕ, zero, suc, length, ◌≡◌, refl, inl, inr, Bool, true, false, Option, none, some, List,
  Option-cases,
}
use neotune.ShuffleVec.{Rng}
use neotune.Connect.State.{default, ConnectState, or_default}
use neotune.Connect.Player.{
  set_repeat_context, set_repeat_track, set_shuffle, reset_options, clear_restrictions,
  set_active_context, update_queue_revision,
}
use neotune.Connect.Exec.{get_context}
use neotune.Connect.Context.{ContextPage, ResetContext, reset_context, merge_context}
use neotune.Connect.Tracks.{set_current_track}
use neotune.Connect.Tracks.Bounds.{IsBounded, SameLists-IsBounded, set_active_context-SameLists}
use neotune.Connect.Queue.Bounds.{
  Keeps, Keeps-bind, Keeps-get_context, Keeps-set_current_track, clear_next_tracks-IsBounded,
  reset_playback_to_position-IsBounded,
}
use neotune.Connect.Handle.Bounds.{Keeps-shuffle_new, reset_context-SameLists}
use neotune.Connect.Update.{update_context}
use neotune.Connect.Update.Pages.{update_context-IsBounded}
use neotune.Resolver.Apply.{merge_context-player}
use neotune.Spirc.{SpircTask, set_connect_state}
use neotune.Spirc.Skip.{Handled, on_state}
use neotune.Spirc.Skip.Bounds.{
  IsTaskBounded, try-IsTaskBounded, load_track-IsTaskBounded, handle_stop-IsTaskBounded,
  add_autoplay_resolving_when_required-connect_state,
}
use neotune.Spirc.Skip.Events.Lists.{and_then-IsTaskBounded}
use neotune.Spirc.Load.{
  PlayingTrack, at_index, at_uri, at_uid, LoadContextOptions, with_options, as_autoplay,
  LoadRequestOptions, playing_index, apply_options, asks_shuffle, draw_track,
  set_current_track_random, set_first_track, shuffle_unless, start_context, resolve_autoplay,
  load_or_stop, loaded_context, set_options, begin, start_loaded, web_api_context,
  load_context_from_tracks, handle_load,
}

Keeps-playing_index :
    (t : Option PlayingTrack) (fallback : Option ℕ) → Keeps (playing_index t fallback)
unfolding playing_index
Keeps-playing_index none fallback s b = b
Keeps-playing_index (some (at_index i)) fallback s b = b
Keeps-playing_index (some (at_uri uri)) fallback s b =
    Keeps-bind (get_context default) _ (Keeps-get_context default) (λ ctx s' b'. b') s b
Keeps-playing_index (some (at_uid uid)) fallback s b =
    Keeps-bind (get_context default) _ (Keeps-get_context default) (λ ctx s' b'. b') s b

Keeps-draw_track : (n random : ℕ) → Keeps (draw_track n random)
unfolding draw_track
Keeps-draw_track zero random s b = b
Keeps-draw_track (suc n) random s b = b

Keeps-set_first_track : (random : ℕ) (i : Option ℕ) → Keeps (set_first_track random i)
unfolding set_first_track set_current_track_random
Keeps-set_first_track random none s b =
    Keeps-bind (get_context s.active_context) _ (Keeps-get_context s.active_context)
      (λ ctx.
        Keeps-bind (draw_track (length ctx.tracks.vec) random) set_current_track
          (Keeps-draw_track (length ctx.tracks.vec) random) Keeps-set_current_track)
      s b
Keeps-set_first_track random (some i) s b = Keeps-set_current_track i s b

Keeps-shuffle_unless :
    (g : Rng) (seed : ℕ) (has_next : Bool) → Keeps (shuffle_unless g seed has_next)
unfolding shuffle_unless update_queue_revision
Keeps-shuffle_unless g seed true s b = b
Keeps-shuffle_unless g seed false s b = Keeps-shuffle_new g seed s b

Keeps-start_context :
    (g : Rng) (seed random : ℕ) (has_next shuffles : Bool) (i : Option ℕ)
    → Keeps (start_context g seed random has_next shuffles i)
unfolding start_context
Keeps-start_context g seed random has_next true i =
    Keeps-bind (set_first_track random i) _ (Keeps-set_first_track random i)
      (λ _. Keeps-shuffle_unless g seed has_next)
Keeps-start_context g seed random has_next false i =
    Keeps-bind (set_current_track (or_default 0 i)) _ (Keeps-set_current_track (or_default 0 i))
      (λ _. reset_playback_to_position-IsBounded i)

loaded_context-IsBounded :
    (page : Option ContextPage) (s : ConnectState) → IsBounded s → IsBounded (loaded_context page s)
unfolding loaded_context clear_restrictions
loaded_context-IsBounded page s b =
    let s1 = set_active_context default s in
    clear_next_tracks-IsBounded (merge_context page s1).1 (
      rw (merge_context-player page s1)
        (SameLists-IsBounded s s1 (set_active_context-SameLists default s) b))

apply_options-IsBounded :
    (o : Option LoadContextOptions) (s : ConnectState) → IsBounded s → IsBounded (apply_options o s)
unfolding apply_options set_repeat_track set_repeat_context set_shuffle
apply_options-IsBounded none s b = b
apply_options-IsBounded (some as_autoplay) s b = b
apply_options-IsBounded (some (with_options o)) s b = b

resolve_autoplay-connect_state :
    (has_next shuffles : Bool) (f : SpircTask)
    → (resolve_autoplay has_next shuffles f).connect_state ≡ f.connect_state
unfolding resolve_autoplay
resolve_autoplay-connect_state true true f = refl
resolve_autoplay-connect_state true false f = add_autoplay_resolving_when_required-connect_state f
resolve_autoplay-connect_state false shuffles f =
    add_autoplay_resolving_when_required-connect_state f

load_or_stop-IsTaskBounded :
    (now : ℕ) (o : LoadRequestOptions) (f : SpircTask)
    → IsTaskBounded f
    → IsTaskBounded (load_or_stop now o f).1
unfolding load_or_stop
load_or_stop-IsTaskBounded now o f b = elim (Option-cases f.connect_state.player.track) [
  | inl e ↦ simp (load_or_stop, e) (handle_stop-IsTaskBounded now f b)
  | inr (t, e) ↦ simp (load_or_stop, e) (load_track-IsTaskBounded now o.start_playing o.seek_to f b)
]

module _ (g : Rng) (seed now random : ℕ) (has_next : Bool) (o : LoadRequestOptions)
    (page : Option ContextPage) (fallback : Option ℕ) where
  begin-IsTaskBounded :
      (i : Option ℕ) (f : SpircTask)
      → IsTaskBounded f
      → IsTaskBounded (begin g seed now random has_next o i f).1
  unfolding begin set_connect_state
  begin-IsTaskBounded i f b =
      let shuffles = asks_shuffle o.context_options in
      try-IsTaskBounded
        (on_state (start_context g seed random has_next shuffles i)
          (set_options o.context_options f))
        (λ _ f1. load_or_stop now o (resolve_autoplay has_next shuffles f1))
        (λ _ f1 b1.
          load_or_stop-IsTaskBounded now o (resolve_autoplay has_next shuffles f1)
            (rw (resolve_autoplay-connect_state has_next shuffles f1) b1))
        (Keeps-start_context g seed random has_next shuffles i _
          (apply_options-IsBounded o.context_options f.connect_state b))

  start_loaded-IsTaskBounded :
      (f : SpircTask)
      → IsTaskBounded f
      → IsTaskBounded (start_loaded g seed now random has_next o page fallback f).1
  unfolding start_loaded set_connect_state
  start_loaded-IsTaskBounded f b =
      try-IsTaskBounded
        (on_state (playing_index o.playing_track fallback)
          (set_connect_state (loaded_context page f.connect_state) f))
        (begin g seed now random has_next o) begin-IsTaskBounded
        (Keeps-playing_index o.playing_track fallback _
          (loaded_context-IsBounded page f.connect_state b))

  -- A load keeps the bounds of the lists, however it ends, if what loads the context keeps them.
  pub handle_load-IsTaskBounded :
      (reset_as : ResetContext) (load_context : SpircTask → Handled)
      → ((f : SpircTask) → IsTaskBounded f → IsTaskBounded (load_context f).1)
      → (f : SpircTask) → IsTaskBounded f
      → IsTaskBounded
          (handle_load g seed now random has_next reset_as load_context o page fallback f).1
  unfolding handle_load set_connect_state reset_options set_repeat_track set_repeat_context
      set_shuffle
  handle_load-IsTaskBounded reset_as load_context keeps f b =
      and_then-IsTaskBounded (load_context _)
        (start_loaded g seed now random has_next o page fallback) start_loaded-IsTaskBounded
        (keeps _ (
          SameLists-IsBounded f.connect_state (reset_context reset_as f.connect_state)
            (reset_context-SameLists reset_as f.connect_state) b))

pub load_context_from_tracks-IsTaskBounded :
    (uuids : ℕ → ℕ → List ℕ) (page : ContextPage) (f : SpircTask)
    → IsTaskBounded f
    → IsTaskBounded (load_context_from_tracks uuids page f).1
unfolding load_context_from_tracks set_connect_state
load_context_from_tracks-IsTaskBounded uuids page f b =
    try-IsTaskBounded (on_state (update_context uuids (web_api_context page) default) f) _
      (λ _ f1 b1. b1)
      (update_context-IsBounded uuids (web_api_context page) default f.connect_state b)
