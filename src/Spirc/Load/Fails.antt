-- ===== src/Spirc/Load/Fails.antt =====
-- librespot_src/connect/src/spirc.rs: a load as autoplay.
use neotune.Common.{◌⊎◌, ℕ, ◌≡◌, refl, Bool, true, false, Option, none, some, inl, inr}
use neotune.ShuffleVec.{Rng}
use neotune.Connect.State.{default, no_context, ConnectState, or_default}
use neotune.Connect.Player.{
  set_active_context, switch_context, clear_restrictions, get_context?, set_next, set_repeat_track,
  set_repeat_context, set_shuffle,
}
use neotune.Connect.Exec.{Run, Exec, ◌>>=◌, get_context}
use neotune.Connect.Context.{ContextPage, merge_context}
use neotune.Connect.Tracks.{set_current_track}
use neotune.Connect.Queue.{clear_next_tracks, reset_playback_to_position}
use neotune.Spirc.{SpircTask, state_error, set_connect_state}
use neotune.Spirc.Skip.{Handled, on_state, try}
use neotune.Spirc.Load.{
  PlayingTrack, at_index, at_uri, at_uid, LoadContextOptions, with_options, as_autoplay,
  LoadRequestOptions, playing_index, apply_options, asks_shuffle, set_current_track_random,
  set_first_track, shuffle_unless, start_context, loaded_context, set_options, begin, start_loaded,
}

-- The default context is the active one, and is not there.
abbrev LacksContext : ConnectState → Type 0
LacksContext s = (s.context ≡ none) × (s.active_context ≡ default)

set_active_context-LacksContext :
    (s : ConnectState) → s.context ≡ none → LacksContext (set_active_context default s)
unfolding set_active_context switch_context get_context?
set_active_context-LacksContext s e = simp (set_active_context, get_context?, e) (refl, refl)

merge_context-LacksContext :
    (page : Option ContextPage) (s : ConnectState)
    → LacksContext s
    → LacksContext (merge_context page s).1
unfolding merge_context
merge_context-LacksContext page s (e, a) = simp (merge_context, e) (refl, a)

loaded_context-LacksContext :
    (page : Option ContextPage) (s : ConnectState)
    → s.context ≡ none
    → LacksContext (loaded_context page s)
unfolding loaded_context clear_restrictions clear_next_tracks set_next
loaded_context-LacksContext page s e =
    merge_context-LacksContext page (set_active_context default s)
      (set_active_context-LacksContext s e)

NeedsContext-set_current_track :
    (i : ℕ) (s : ConnectState)
    → LacksContext s
    → (set_current_track i s).0 ≡ Run.err (no_context default)
unfolding set_current_track get_context get_context?
NeedsContext-set_current_track i s (e, a) =
    simp (set_current_track, get_context, a, get_context?, e) refl

-- What the computation ends with from such a state.
abbrev NeedsContext : {A : Type 0} → Exec A → Type 0
NeedsContext m = (s : ConnectState) → LacksContext s → (m s).0 ≡ Run.err (no_context default)

NeedsContext-bind :
    {A B : Type 0} (m : Exec A) (k : A → Exec B) → NeedsContext m → NeedsContext (m >>= k)
NeedsContext-bind m k needs s h = rw (needs s h) refl

NeedsContext-set_first_track : (random : ℕ) (i : Option ℕ) → NeedsContext (set_first_track random i)
unfolding set_first_track set_current_track_random get_context get_context?
NeedsContext-set_first_track random none s (e, a) =
    simp (set_first_track, set_current_track_random, get_context, a, get_context?, e) refl
NeedsContext-set_first_track random (some i) s h = NeedsContext-set_current_track i s h

NeedsContext-start_context :
    (g : Rng) (seed random : ℕ) (has_next shuffles : Bool) (i : Option ℕ)
    → NeedsContext (start_context g seed random has_next shuffles i)
unfolding start_context
NeedsContext-start_context g seed random has_next true i =
    NeedsContext-bind (set_first_track random i) (λ _. shuffle_unless g seed has_next)
      (NeedsContext-set_first_track random i)
NeedsContext-start_context g seed random has_next false i =
    NeedsContext-bind (set_current_track (or_default 0 i)) (λ _. reset_playback_to_position i)
      (NeedsContext-set_current_track (or_default 0 i))

apply_options-LacksContext :
    (o : Option LoadContextOptions) (s : ConnectState)
    → LacksContext s
    → LacksContext (apply_options o s)
unfolding apply_options set_repeat_track set_repeat_context set_shuffle
apply_options-LacksContext none s h = h
apply_options-LacksContext (some as_autoplay) s h = h
apply_options-LacksContext (some (with_options o)) s h = h

-- It ends so, or leaves the state.
abbrev NeedsOrKeeps : {A : Type 0} → Exec A → Type 0
NeedsOrKeeps {A} m =
    (s : ConnectState)
    → LacksContext s
    → ((m s).0 ≡ Run.err (no_context default)) ⊎ ((i : A) × (m s ≡ (Run.ok i, s)))

playing_index-NeedsOrKeeps :
    (t : Option PlayingTrack) (fallback : Option ℕ) → NeedsOrKeeps (playing_index t fallback)
unfolding playing_index get_context get_context?
playing_index-NeedsOrKeeps none fallback s h = inr (none, refl)
playing_index-NeedsOrKeeps (some (at_index i)) fallback s h = inr (some i, refl)
playing_index-NeedsOrKeeps (some (at_uri uri)) fallback s (e, a) =
    inl (simp (playing_index, get_context, get_context?, e) refl)
playing_index-NeedsOrKeeps (some (at_uid uid)) fallback s (e, a) =
    inl (simp (playing_index, get_context, get_context?, e) refl)

try-fails :
    {A : Type 0} (p : Run A × SpircTask) (rest : A → SpircTask → Handled)
    → p.0 ≡ Run.err (no_context default)
    → (try p rest).0 ≡ state_error (no_context default)
try-fails p rest e = rw e refl

module _ (g : Rng) (seed now random : ℕ) (has_next : Bool) (o : LoadRequestOptions) where
  begin-fails :
      (i : Option ℕ) (f : SpircTask)
      → LacksContext f.connect_state
      → (begin g seed now random has_next o i f).0 ≡ state_error (no_context default)
  unfolding begin set_connect_state
  begin-fails i f h =
      let shuffles = asks_shuffle o.context_options in
      try-fails
        (on_state (start_context g seed random has_next shuffles i)
          (set_options o.context_options f))
        _
        (NeedsContext-start_context g seed random has_next shuffles i _
          (apply_options-LacksContext o.context_options f.connect_state h))

  -- Once the load of the context is done, the rest of `handle_load` needs the default context: if it is not there,
  -- the request fails with it, whatever its options and its track.
  pub start_loaded-fails :
      (page : Option ContextPage) (fallback : Option ℕ) (f : SpircTask)
      → f.connect_state.context ≡ none
      → (start_loaded g seed now random has_next o page fallback f).0
        ≡ state_error (no_context default)
  unfolding start_loaded set_connect_state
  start_loaded-fails page fallback f e =
      let s = loaded_context page f.connect_state in
      let h = loaded_context-LacksContext page f.connect_state e in
      elim (playing_index-NeedsOrKeeps o.playing_track fallback s h) [
        | inl fails ↦
            try-fails (on_state (playing_index o.playing_track fallback) (set_connect_state s f)) _
              fails
        | inr (i, ok) ↦ simp (start_loaded, ok) (begin-fails i (set_connect_state s f) h)
      ]
