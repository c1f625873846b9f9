-- ===== src/Spirc/Request/Bounds.antt =====
-- librespot_src/connect/src/spirc.rs: the lists of the connect state under `handle_request`.
use neotune.Common.{ℕ, ◌≤◌, Bool, true, Option, none, some, length}
use neotune.ShuffleVec.{Rng}
use neotune.Connect.State.{max_next_tracks, max_prev_tracks}
use neotune.Connect.Player.{set_repeat_track}
use neotune.Connect.Queue.Order.{add_to_queue-IsBounded, length-handle_set_queue}
use neotune.Connect.Handle.Status.{
  SpircPlayStatus, stopped, loading_play, loading_pause, playing, paused,
}
use neotune.Spirc.{SpircTask, tell, set_connect_state}
use neotune.Spirc.Skip.{Handled}
use neotune.Spirc.Skip.Bounds.{
  IsTaskBounded, handle_next-IsTaskBounded, handle_prev-IsTaskBounded, load_track-IsTaskBounded,
  handle_seek-connect_state,
}
use neotune.Spirc.Skip.Events.Lists.{and_then-IsTaskBounded}
use neotune.Spirc.Command.{change_shuffle, handle_repeat_context, handle_repeat_track}
use neotune.Spirc.Command.Bounds.{
  handle_play-connect_state, handle_pause-connect_state, change_shuffle-IsTaskBounded,
  handle_repeat_context-IsTaskBounded,
}
use neotune.Spirc.Request.{
  Request, pause_request, skip_prev, resume, seek_to, set_shuffling_context, set_repeating_context,
  set_repeating_track, add_track, set_queue, set_options, skip_next, when_set, repeat_track_done,
  target_uri, handle_resume, request_arm, handle_request,
}

-- A request that sets the queue has lists within the bounds.
abbrev pub RequestFits : Request → Type 0
RequestFits pause_request = Unit
RequestFits skip_prev = Unit
RequestFits resume = Unit
RequestFits (seek_to p) = Unit
RequestFits (set_shuffling_context on) = Unit
RequestFits (set_repeating_context on) = Unit
RequestFits (set_repeating_track on) = Unit
RequestFits (add_track t) = Unit
RequestFits (set_queue next prev) =
    (length next ≤ max_next_tracks) × (length prev ≤ max_prev_tracks)
RequestFits (set_options shuffling context track) = Unit
RequestFits (skip_next track) = Unit

abbrev Preserves : (SpircTask → Handled) → Type 0
Preserves h = (f : SpircTask) → IsTaskBounded f → IsTaskBounded (h f).1

when_set-IsTaskBounded :
    (on : Option Bool) (handle : Bool → SpircTask → Handled)
    → ((b : Bool) → Preserves (handle b))
    → Preserves (when_set on handle)
when_set-IsTaskBounded none handle keeps f b = b
when_set-IsTaskBounded (some on) handle keeps f b = keeps on f b

handle_repeat_track-IsTaskBounded : (on : Bool) → Preserves (repeat_track_done on)
unfolding handle_repeat_track set_repeat_track set_connect_state tell
handle_repeat_track-IsTaskBounded on f b = b

handle_resume-IsTaskBounded : (now : ℕ) (p : SpircPlayStatus) → Preserves (handle_resume now p)
unfolding handle_resume
handle_resume-IsTaskBounded now stopped f b = load_track-IsTaskBounded now true 0 f b
handle_resume-IsTaskBounded now (loading_play p) f b = rw (handle_play-connect_state now f) b
handle_resume-IsTaskBounded now (loading_pause p) f b = rw (handle_play-connect_state now f) b
handle_resume-IsTaskBounded now (playing start q) f b = rw (handle_play-connect_state now f) b
handle_resume-IsTaskBounded now (paused p q) f b = rw (handle_play-connect_state now f) b

module _ (g : Rng) (seed fuel now : ℕ) where
  request_arm-IsTaskBounded :
      (r : Request) (f : SpircTask)
      → RequestFits r
      → IsTaskBounded f
      → IsTaskBounded (request_arm g seed fuel now r f).1
  unfolding request_arm handle_repeat_track set_repeat_track set_connect_state tell
  request_arm-IsTaskBounded pause_request f fits b = rw (handle_pause-connect_state now f) b
  request_arm-IsTaskBounded (seek_to p) f fits b = rw (handle_seek-connect_state now p f) b
  request_arm-IsTaskBounded (set_shuffling_context on) f fits b =
      change_shuffle-IsTaskBounded g seed on f b
  request_arm-IsTaskBounded (set_repeating_context on) f fits b =
      handle_repeat_context-IsTaskBounded on f b
  request_arm-IsTaskBounded (set_repeating_track on) f fits b = b
  request_arm-IsTaskBounded (add_track t) f fits b = add_to_queue-IsBounded t true f.connect_state b
  request_arm-IsTaskBounded (set_queue next prev) f (n, p) b =
      let (n', p') = length-handle_set_queue next prev f.connect_state in rw (n', p') (n, p)
  request_arm-IsTaskBounded (set_options shuffling context track) f fits b =
      and_then-IsTaskBounded (when_set context handle_repeat_context f) _
        (λ f1 b1.
          and_then-IsTaskBounded (when_set track repeat_track_done f1)
            (when_set shuffling (change_shuffle g seed))
            (when_set-IsTaskBounded shuffling (change_shuffle g seed)
              (change_shuffle-IsTaskBounded g seed))
            (when_set-IsTaskBounded track repeat_track_done handle_repeat_track-IsTaskBounded f1
              b1))
        (when_set-IsTaskBounded context handle_repeat_context handle_repeat_context-IsTaskBounded f
          b)
  request_arm-IsTaskBounded (skip_next track) f fits b =
      handle_next-IsTaskBounded fuel now (target_uri track) f b
  request_arm-IsTaskBounded skip_prev f fits b = handle_prev-IsTaskBounded now f b
  request_arm-IsTaskBounded resume f fits b = handle_resume-IsTaskBounded now f.play_status f b

  pub handle_request-IsTaskBounded :
      (r : Request) (f : SpircTask)
      → RequestFits r
      → IsTaskBounded f
      → IsTaskBounded (handle_request g seed fuel now r f).1
  unfolding handle_request
  handle_request-IsTaskBounded r f fits b =
      and_then-IsTaskBounded (request_arm g seed fuel now r f) _ (λ f1 b1. b1)
        (request_arm-IsTaskBounded r f fits b)
