-- ===== src/Spirc/Skip/Bounds.antt =====
-- librespot_src/connect/src/spirc.rs: what skipping does to the lists of the connect state.
use neotune.Common.{
  ℕ, zero, suc, ◌≡◌, refl, Bool, true, false, Option, none, some, List, ltb, Bool-cases,
  Option-cases, Result-cases, inl, inr, if◌then◌else◌,
}
use neotune.SpotifyUri.{from_uri}
use neotune.Connect.Track.{Track}
use neotune.Connect.Player.{is_playing, repeat_context}
use neotune.Connect.Exec.{Run}
use neotune.Connect.Tracks.{next_track, prev_track}
use neotune.Connect.Tracks.Bounds.{IsBounded, next_track-IsBounded}
use neotune.Connect.Tracks.PrevBounds.{prev_track-IsBounded}
use neotune.Connect.Queue.{clear_next_tracks, reset_playback_to_position}
use neotune.Connect.Queue.Bounds.{clear_next_tracks-IsBounded, reset_playback_to_position-IsBounded}
use neotune.Connect.Reach.{set_status-IsBounded}
use neotune.Spirc.{SpircTask, tell, set_play_status, set_connect_state, update_position}
use neotune.Spirc.Play.{handle_seek, get_position}
use neotune.Spirc.Skip.{
  Handled, Skipped, on_state, try, handle_stop, loaded, load_track,
  add_autoplay_resolving_when_required, skip_from, skip_to, is_sought, require_load_new, is_current,
  current_uri, play_next, handle_next, play_prev, handle_prev,
}

-- The lists of the connect state of the task are within their bounds.
abbrev pub IsTaskBounded : SpircTask → Type 0
IsTaskBounded f = IsBounded f.connect_state

pub handle_stop-IsTaskBounded :
    (now : ℕ) (f : SpircTask) → IsTaskBounded f → IsTaskBounded (handle_stop now f)
unfolding handle_stop set_connect_state update_position tell
handle_stop-IsTaskBounded now f b =
    reset_playback_to_position-IsBounded none (clear_next_tracks f.connect_state)
      (clear_next_tracks-IsBounded f.connect_state b)

pub load_track-IsTaskBounded :
    (now : ℕ) (start_playing : Bool) (position_ms : ℕ) (f : SpircTask)
    → IsTaskBounded f
    → IsTaskBounded (load_track now start_playing position_ms f).1
unfolding load_track loaded set_connect_state set_play_status update_position tell
load_track-IsTaskBounded now start_playing position_ms f b =
    elim (Option-cases f.connect_state.player.track) [
      | inl e ↦ simp (load_track, e) (handle_stop-IsTaskBounded now f b)
      | inr (t, e) ↦ elim (Result-cases (from_uri t.uri)) [
        | inl (x, bad) ↦ simp (load_track, e, bad) b
        | inr (id, good) ↦ simp (load_track, e, good) (set_status-IsBounded _ f.connect_state b)
      ]
    ]

pub try-IsTaskBounded :
    {A : Type 0}
    → (o : Run A × SpircTask) (rest : A → SpircTask → Handled)
    → ((a : A) (f : SpircTask) → IsTaskBounded f → IsTaskBounded (rest a f).1)
    → IsTaskBounded o.1
    → IsTaskBounded (try o rest).1
try-IsTaskBounded (Run.ok a, f) rest keeps b = keeps a f b
try-IsTaskBounded (Run.err e, f) rest keeps b = b
try-IsTaskBounded (Run.out_of_fuel, f) rest keeps b = b
try-IsTaskBounded (Run.panicked, f) rest keeps b = b

skip_from-IsTaskBounded :
    (target : Option (List ℕ)) (more : SpircTask → Skipped) (o : Skipped)
    → ((f : SpircTask) → IsTaskBounded f → IsTaskBounded (more f).1)
    → IsTaskBounded o.1
    → IsTaskBounded (skip_from target more o).1
unfolding skip_from
skip_from-IsTaskBounded target more (Run.ok i, f) keeps b =
    elim (Bool-cases (is_sought target (current_uri f))) [
      | inl e ↦ rw (skip_from, e) b
      | inr e ↦ rw (skip_from, e) (keeps f b)
    ]
skip_from-IsTaskBounded target more (Run.err e, f) keeps b = b
skip_from-IsTaskBounded target more (Run.out_of_fuel, f) keeps b = b
skip_from-IsTaskBounded target more (Run.panicked, f) keeps b = b

skip_to-IsTaskBounded :
    (target : Option (List ℕ)) (fuel : ℕ) (f : SpircTask)
    → IsTaskBounded f
    → IsTaskBounded (skip_to target fuel f).1
unfolding skip_to set_connect_state
skip_to-IsTaskBounded target zero f b = b
skip_to-IsTaskBounded target (suc fuel) f b =
    skip_from-IsTaskBounded target (skip_to target fuel) (on_state next_track f)
      (λ f'. skip_to-IsTaskBounded target fuel f') (next_track-IsBounded f.connect_state b)

pub add_autoplay_resolving_when_required-connect_state :
    (f : SpircTask) → (add_autoplay_resolving_when_required f).connect_state ≡ f.connect_state
unfolding add_autoplay_resolving_when_required
add_autoplay_resolving_when_required-connect_state f = elim (Bool-cases (require_load_new f)) [
  | inl e ↦ rw (add_autoplay_resolving_when_required, e) refl
  | inr e ↦ rw (add_autoplay_resolving_when_required, e) refl
]

play_next-IsTaskBounded :
    (now : ℕ) (on : Bool) (i : Option ℕ) (f : SpircTask)
    → IsTaskBounded f
    → IsTaskBounded (play_next now on i f).1
unfolding play_next
play_next-IsTaskBounded now on (some i) f b =
    load_track-IsTaskBounded now on 0 (add_autoplay_resolving_when_required f)
      (rw (add_autoplay_resolving_when_required-connect_state f) b)
play_next-IsTaskBounded now on none f b = handle_stop-IsTaskBounded now f b

-- Skipping to a next track keeps the bounds of the lists, however it ends.
pub handle_next-IsTaskBounded :
    (fuel now : ℕ) (target : Option (List ℕ)) (f : SpircTask)
    → IsTaskBounded f
    → IsTaskBounded (handle_next fuel now target f).1
unfolding handle_next
handle_next-IsTaskBounded fuel now target f b =
    elim (Bool-cases (is_current target (current_uri f))) [
      | inl e ↦
          rw (handle_next, e)
            (play_next-IsTaskBounded now (is_playing f.connect_state) (some 0) f b)
      | inr e ↦
          rw (handle_next, e)
            (try-IsTaskBounded _ _ (play_next-IsTaskBounded now (is_playing f.connect_state))
              (skip_to-IsTaskBounded target fuel f b))
    ]

play_prev-IsTaskBounded :
    (now : ℕ) (repeats : Bool) (t : Option Track) (f : SpircTask)
    → IsTaskBounded f
    → IsTaskBounded (play_prev now repeats t f).1
unfolding play_prev set_connect_state
play_prev-IsTaskBounded now repeats (some t) f b = load_track-IsTaskBounded now _ 0 f b
play_prev-IsTaskBounded now repeats none f b =
    try-IsTaskBounded (on_state (reset_playback_to_position none) f) _
      (λ _ f' h. stop_unless now repeats f' h)
      (reset_playback_to_position-IsBounded none f.connect_state b)
  where
    stop_unless :
        (now : ℕ) (repeats : Bool) (f : SpircTask)
        → IsTaskBounded f
        → IsTaskBounded (if repeats then f else handle_stop now f)
    stop_unless now true f h = h
    stop_unless now false f h = handle_stop-IsTaskBounded now f h

pub handle_seek-connect_state :
    (now q : ℕ) (f : SpircTask) → (handle_seek now q f).connect_state ≡ f.connect_state
unfolding handle_seek set_play_status update_position tell
handle_seek-connect_state now q f = elim (Bool-cases (ltb f.duration q)) [
  | inl e ↦ rw (handle_seek, e) refl
  | inr e ↦ rw (handle_seek, e) refl
]

-- So does going back.
pub handle_prev-IsTaskBounded :
    (now : ℕ) (f : SpircTask) → IsTaskBounded f → IsTaskBounded (handle_prev now f).1
unfolding handle_prev set_connect_state
handle_prev-IsTaskBounded now f b = elim (Bool-cases (ltb (get_position now f) 3000)) [
  | inl e ↦
      rw (handle_prev, e)
        (try-IsTaskBounded (on_state prev_track f) _
          (play_prev-IsTaskBounded now (repeat_context f.connect_state))
          (prev_track-IsBounded f.connect_state b))
  | inr e ↦ rw (handle_prev, e) (rw (handle_seek-connect_state now 0 f) b)
]
