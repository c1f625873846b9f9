-- ===== src/Spirc/Request.antt =====
-- librespot_src/connect/src/spirc.rs: `handle_request`, without what transfers, plays or updates a context.
pub mod Bounds
use neotune.Common.{ℕ, Bool, Option, none, some, List, length, ◌≤◌, ◌≡◌, refl, ◌∙◌}
use neotune.ShuffleVec.{Rng}
use neotune.Connect.Track.{Track}
use neotune.Connect.State.{max_next_tracks, max_prev_tracks, ConnectState}
use neotune.Connect.Queue.{add_to_queue, handle_set_queue}
use neotune.Connect.Handle.Status.{
  SpircPlayStatus, stopped, loading_play, loading_pause, playing, paused,
}
use neotune.Spirc.{SpircTask, done, set_connect_state}
use neotune.Spirc.Play.{handle_play, handle_pause, handle_seek}
use neotune.Spirc.Skip.{Handled, load_track, handle_next, handle_prev}
use neotune.Spirc.Skip.Events.{and_then}
use neotune.Spirc.Command.{change_shuffle, handle_repeat_context, handle_repeat_track}

-- The commands that the dealer passes on from another device.
pub data Request : Type 0 where
  pause_request skip_prev resume : Request
  seek_to : ℕ → Request
  set_shuffling_context set_repeating_context set_repeating_track : Bool → Request
  add_track : Track → Request
  set_queue : (next_tracks prev_tracks : List Track) → Request
  set_options : (shuffling_context repeating_context repeating_track : Option Bool) → Request
  skip_next : Option Track → Request

abbrev pub when_set : Option Bool → (Bool → SpircTask → Handled) → SpircTask → Handled
when_set none handle f = (done, f)
when_set (some on) handle f = handle on f

abbrev pub repeat_track_done : Bool → SpircTask → Handled
repeat_track_done on f = (done, handle_repeat_track on f)

abbrev pub target_uri : Option Track → Option (List ℕ)
target_uri none = none
target_uri (some t) = some t.uri

unfoldable pub handle_resume : ℕ → SpircPlayStatus → SpircTask → Handled
handle_resume now stopped f = load_track now Bool.true 0 f
handle_resume now (loading_play p) f = (done, handle_play now f)
handle_resume now (loading_pause p) f = (done, handle_play now f)
handle_resume now (playing start b) f = (done, handle_play now f)
handle_resume now (paused p b) f = (done, handle_play now f)

-- The arms of the `match`.
unfoldable pub request_arm : Rng → (seed fuel now : ℕ) → Request → SpircTask → Handled
request_arm g seed fuel now pause_request f = (done, handle_pause now f)
request_arm g seed fuel now (seek_to p) f = (done, handle_seek now p f)
request_arm g seed fuel now (set_shuffling_context on) f = change_shuffle g seed on f
request_arm g seed fuel now (set_repeating_context on) f = handle_repeat_context on f
request_arm g seed fuel now (set_repeating_track on) f = (done, handle_repeat_track on f)
request_arm g seed fuel now (add_track t) f =
    (done, set_connect_state (add_to_queue t Bool.true f.connect_state) f)
request_arm g seed fuel now (set_queue next prev) f =
    (done, set_connect_state (handle_set_queue next prev f.connect_state) f)
request_arm g seed fuel now (set_options shuffling context track) f =
    and_then (when_set context handle_repeat_context f) (λ f1.
      and_then (when_set track repeat_track_done f1) (when_set shuffling (change_shuffle g seed)))
request_arm g seed fuel now (skip_next track) f = handle_next fuel now (target_uri track) f
request_arm g seed fuel now skip_prev f = handle_prev now f
request_arm g seed fuel now resume f = handle_resume now f.play_status f

-- An error leaves before the state is noted as changed.
unfoldable pub handle_request : Rng → (seed fuel now : ℕ) → Request → SpircTask → Handled
unfolding request_arm
handle_request g seed fuel now r f =
    and_then (request_arm g seed fuel now r f)
      (λ f'. (done, record f' { update_state = Bool.true }))
