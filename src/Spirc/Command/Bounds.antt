-- ===== src/Spirc/Command/Bounds.antt =====
-- librespot_src/connect/src/spirc.rs: the lists of the connect state under `handle_command`.
use neotune.Common.{
  ℕ, ◌≡◌, refl, Bool, true, not, ◌||◌, ◌==◌, none, List, [], ◌∷◌, inl, inr, Bool-cases,
}
use neotune.ShuffleVec.{Rng}
use neotune.Connect.State.{ConnectState}
use neotune.Connect.Player.{set_repeat_track}
use neotune.Connect.Tracks.Bounds.{IsBounded}
use neotune.Connect.Queue.{add_to_queue}
use neotune.Connect.Queue.Order.{add_to_queue-IsBounded}
use neotune.Connect.Handle.Bounds.{handle_shuffle-IsBounded, handle_set_repeat_context-IsBounded}
use neotune.Connect.Handle.Status.{
  SpircPlayStatus, stopped, loading_play, loading_pause, playing, paused,
}
use neotune.Connect.Reach.{set_status-IsBounded}
use neotune.Spirc.{
  SpircTask, done, tell, set_connect_state, set_play_status, update_position, set_volume,
  handle_volume_up, handle_volume_down, notify_status,
}
use neotune.Spirc.Play.{sync_volume, handle_play, handle_pause, handle_play_pause}
use neotune.Spirc.Skip.Bounds.{
  IsTaskBounded, try-IsTaskBounded, handle_next-IsTaskBounded, handle_prev-IsTaskBounded,
  handle_seek-connect_state,
}
use neotune.Spirc.Skip.Events.Lists.{and_then-IsTaskBounded}
use neotune.Spirc.Command.{
  SpircCommand, play_command, play_pause_command, pause_command, prev_command, next_command,
  volume_up_command, volume_down_command, shuffle_command, repeat_command, repeat_track_command,
  set_position, set_volume_command, add_uris, change_shuffle, handle_repeat_context,
  handle_repeat_track, queue_track, queue_uris, active_command, handle_command,
}

set_volume-connect_state :
    (v : ℕ) (f : SpircTask) → (set_volume v f).connect_state ≡ f.connect_state
unfolding set_volume tell
set_volume-connect_state v f =
    elim (Bool-cases (not (f.volume == v) || not (f.mixer_volume == v))) [
      | inr same ↦ rw (set_volume, same) refl
      | inl differs ↦ elim (Bool-cases f.is_active) [
        | inl on ↦ rw (set_volume, differs, on) refl
        | inr off ↦ rw (set_volume, differs, off) refl
      ]
    ]

pub handle_play-connect_state :
    (now : ℕ) (f : SpircTask) → (handle_play now f).connect_state ≡ f.connect_state
unfolding handle_play sync_volume set_play_status update_position tell
handle_play-connect_state now f = go f.play_status refl
  where
    go :
        (p : SpircPlayStatus)
        → f.play_status ≡ p
        → (handle_play now f).connect_state ≡ f.connect_state
    go stopped e = rw (handle_play, e) refl
    go (loading_play p) e = rw (handle_play, e) refl
    go (loading_pause p) e = rw (handle_play, e) (set_volume-connect_state _ _)
    go (playing start b) e = rw (handle_play, e) refl
    go (paused p b) e = rw (handle_play, e) (set_volume-connect_state _ _)

pub handle_pause-connect_state :
    (now : ℕ) (f : SpircTask) → (handle_pause now f).connect_state ≡ f.connect_state
unfolding handle_pause set_play_status update_position tell
handle_pause-connect_state now f = go f.play_status refl
  where
    go :
        (p : SpircPlayStatus)
        → f.play_status ≡ p
        → (handle_pause now f).connect_state ≡ f.connect_state
    go stopped e = rw (handle_pause, e) refl
    go (loading_play p) e = rw (handle_pause, e) refl
    go (loading_pause p) e = rw (handle_pause, e) refl
    go (playing start b) e = rw (handle_pause, e) refl
    go (paused p b) e = rw (handle_pause, e) refl

handle_play_pause-connect_state :
    (now : ℕ) (f : SpircTask) → (handle_play_pause now f).connect_state ≡ f.connect_state
unfolding handle_play_pause
handle_play_pause-connect_state now f = go f.play_status refl
  where
    go :
        (p : SpircPlayStatus)
        → f.play_status ≡ p
        → (handle_play_pause now f).connect_state ≡ f.connect_state
    go stopped e = rw (handle_play_pause, e) refl
    go (loading_play p) e = rw (handle_play_pause, e) (handle_pause-connect_state now f)
    go (loading_pause p) e = rw (handle_play_pause, e) (handle_play-connect_state now f)
    go (playing start b) e = rw (handle_play_pause, e) (handle_pause-connect_state now f)
    go (paused p b) e = rw (handle_play_pause, e) (handle_play-connect_state now f)

queue_uris-IsBounded :
    (uris : List (List ℕ)) (s : ConnectState) → IsBounded s → IsBounded (queue_uris uris s)
unfolding queue_uris
queue_uris-IsBounded [] s b = b
queue_uris-IsBounded (uri ∷ uris) s b =
    queue_uris-IsBounded uris (add_to_queue (queue_track uri) true s)
      (add_to_queue-IsBounded (queue_track uri) true s b)

pub change_shuffle-IsTaskBounded :
    (g : Rng) (seed : ℕ) (on : Bool) (f : SpircTask)
    → IsTaskBounded f
    → IsTaskBounded (change_shuffle g seed on f).1
unfolding change_shuffle set_connect_state tell
change_shuffle-IsTaskBounded g seed on f b =
    try-IsTaskBounded _ (λ _ f'. (done, f')) (λ _ f' h. h)
      (handle_shuffle-IsBounded g seed on f.connect_state b)

pub handle_repeat_context-IsTaskBounded :
    (on : Bool) (f : SpircTask) → IsTaskBounded f → IsTaskBounded (handle_repeat_context on f).1
unfolding handle_repeat_context set_connect_state tell
handle_repeat_context-IsTaskBounded on f b =
    try-IsTaskBounded _ (λ _ f'. (done, f')) (λ _ f' h. h)
      (handle_set_repeat_context-IsBounded on f.connect_state b)

module _ (g : Rng) (seed fuel now : ℕ) where
  active_command-IsTaskBounded :
      (c : SpircCommand) (f : SpircTask)
      → IsTaskBounded f
      → IsTaskBounded (active_command g seed fuel now c f).1
  unfolding active_command handle_volume_up handle_volume_down handle_repeat_track set_repeat_track
      set_connect_state tell
  active_command-IsTaskBounded play_command f b = rw (handle_play-connect_state now f) b
  active_command-IsTaskBounded play_pause_command f b = rw (handle_play_pause-connect_state now f) b
  active_command-IsTaskBounded pause_command f b = rw (handle_pause-connect_state now f) b
  active_command-IsTaskBounded prev_command f b = handle_prev-IsTaskBounded now f b
  active_command-IsTaskBounded next_command f b = handle_next-IsTaskBounded fuel now none f b
  active_command-IsTaskBounded volume_up_command f b = rw (set_volume-connect_state _ f) b
  active_command-IsTaskBounded volume_down_command f b = rw (set_volume-connect_state _ f) b
  active_command-IsTaskBounded (shuffle_command on) f b = change_shuffle-IsTaskBounded g seed on f b
  active_command-IsTaskBounded (repeat_command on) f b = handle_repeat_context-IsTaskBounded on f b
  active_command-IsTaskBounded (repeat_track_command on) f b = b
  active_command-IsTaskBounded (set_position p) f b = rw (handle_seek-connect_state now p f) b
  active_command-IsTaskBounded (set_volume_command v) f b = rw (set_volume-connect_state v f) b
  active_command-IsTaskBounded (add_uris uris) f b = queue_uris-IsBounded uris f.connect_state b

  notify_status-IsTaskBounded : (f : SpircTask) → IsTaskBounded f → IsTaskBounded (notify_status f)
  unfolding notify_status set_connect_state
  notify_status-IsTaskBounded f b = set_status-IsBounded f.play_status f.connect_state b

  pub handle_command-IsTaskBounded :
      (c : SpircCommand) (f : SpircTask)
      → IsTaskBounded f
      → IsTaskBounded (handle_command g seed fuel now c f).1
  unfolding handle_command
  handle_command-IsTaskBounded c f b = elim (Bool-cases f.is_active) [
    | inl on ↦
        simp (handle_command, on)
          (and_then-IsTaskBounded (active_command g seed fuel now c f)
            (λ f'. (done, notify_status f')) notify_status-IsTaskBounded
            (active_command-IsTaskBounded c f b))
    | inr off ↦ simp (handle_command, off) (notify_status-IsTaskBounded f b)
  ]
