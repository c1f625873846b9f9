-- ===== src/Spirc/Skip/Events/Lists.antt =====
-- librespot_src/connect/src/spirc.rs: what the events of the player do to the lists of the
-- connect state.
use neotune.Common.{ℕ, ◌≡◌, refl, inl, inr, none, List, bytes_eq, Bool-cases, Option-cases, sub_u64}
use neotune.Connect.Queue.{mark_unavailable}
use neotune.Connect.Queue.Bounds.{mark_unavailable-IsBounded}
use neotune.Connect.Handle.Status.{
  SpircPlayStatus, stopped, loading_play, loading_pause, playing, paused,
}
use neotune.Spirc.{
  SpircTask, Ended, done, state_error, uri_error, out_of_fuel, tell, set_connect_state,
  set_play_status, update_position,
}
use neotune.Spirc.Skip.{Handled, on_state, current_uri}
use neotune.Spirc.Skip.Bounds.{IsTaskBounded, try-IsTaskBounded, handle_next-IsTaskBounded}
use neotune.Spirc.Skip.Events.{
  PlayerEvent, track_changed, play_request_id_changed, end_of_track_event, loading_event,
  stopped_event, time_to_preload_event, seeked_event, playing_event, position_correction_event,
  paused_event, unavailable_event, other_event, get_play_request_id, is_current_track, updated,
  far_apart, move_play_status, handle_playing, handle_paused, handle_stopped, preview_next_track,
  preload_next, handle_preload_next_track, skip_unavailable, handle_unavailable, and_then,
  handle_current_event, handle_request_event, handle_player_event,
}

updated-IsTaskBounded : (h : Handled) → IsTaskBounded h.1 → IsTaskBounded (updated h).1
unfolding updated
updated-IsTaskBounded (done, f) b = b
updated-IsTaskBounded (state_error e, f) b = b
updated-IsTaskBounded (uri_error e, f) b = b
updated-IsTaskBounded (out_of_fuel, f) b = b
updated-IsTaskBounded (Ended.panicked, f) b = b

pub and_then-IsTaskBounded :
    (h : Handled) (rest : SpircTask → Handled)
    → ((f : SpircTask) → IsTaskBounded f → IsTaskBounded (rest f).1)
    → IsTaskBounded h.1
    → IsTaskBounded (and_then h rest).1
and_then-IsTaskBounded (done, f) rest keeps b = keeps f b
and_then-IsTaskBounded (state_error e, f) rest keeps b = b
and_then-IsTaskBounded (uri_error e, f) rest keeps b = b
and_then-IsTaskBounded (out_of_fuel, f) rest keeps b = b
and_then-IsTaskBounded (Ended.panicked, f) rest keeps b = b

handle_preload_next_track-IsTaskBounded :
    (f : SpircTask) → IsTaskBounded f → IsTaskBounded (handle_preload_next_track f)
unfolding handle_preload_next_track preload_next set_play_status tell
handle_preload_next_track-IsTaskBounded f b =
    elim (Option-cases (preview_next_track f.connect_state)) [
      | inl e ↦ rw (handle_preload_next_track, e) b
      | inr (id, e) ↦ rw (handle_preload_next_track, e) b
    ]

handle_unavailable-IsTaskBounded :
    (uri : List ℕ) (f : SpircTask) → IsTaskBounded f → IsTaskBounded (handle_unavailable uri f).1
unfolding handle_unavailable set_connect_state
handle_unavailable-IsTaskBounded uri f b =
    try-IsTaskBounded (on_state (mark_unavailable uri) f)
      (λ _ f'. (done, handle_preload_next_track f'))
      (λ _ f' h. handle_preload_next_track-IsTaskBounded f' h)
      (mark_unavailable-IsBounded uri f.connect_state b)

skip_unavailable-IsTaskBounded :
    (fuel now : ℕ) (uri : List ℕ) (f : SpircTask)
    → IsTaskBounded f
    → IsTaskBounded (skip_unavailable fuel now uri f).1
unfolding skip_unavailable
skip_unavailable-IsTaskBounded fuel now uri f b = elim (Bool-cases (bytes_eq (current_uri f) uri)) [
  | inl e ↦ rw (skip_unavailable, e) (handle_next-IsTaskBounded fuel now none f b)
  | inr e ↦ rw (skip_unavailable, e) b
]

handle_playing-connect_state :
    (now p : ℕ) (st : SpircPlayStatus) (f : SpircTask)
    → (handle_playing now p st f).1.connect_state ≡ f.connect_state
unfolding handle_playing move_play_status updated set_play_status update_position
handle_playing-connect_state now p stopped f = refl
handle_playing-connect_state now p (paused q b) f = refl
handle_playing-connect_state now p (loading_play q) f = refl
handle_playing-connect_state now p (loading_pause q) f = refl
handle_playing-connect_state now p (playing start b) f =
    elim (Bool-cases (far_apart start (sub_u64 now p))) [
      | inl e ↦ rw (handle_playing, e) refl
      | inr e ↦ rw (handle_playing, e) refl
    ]

handle_paused-connect_state :
    (now p : ℕ) (st : SpircPlayStatus) (f : SpircTask)
    → (handle_paused now p st f).1.connect_state ≡ f.connect_state
unfolding handle_paused move_play_status updated set_play_status update_position
handle_paused-connect_state now p stopped f = refl
handle_paused-connect_state now p (paused q b) f = refl
handle_paused-connect_state now p (loading_play q) f = refl
handle_paused-connect_state now p (loading_pause q) f = refl
handle_paused-connect_state now p (playing start b) f = refl

handle_stopped-connect_state :
    (st : SpircPlayStatus) (f : SpircTask) → (handle_stopped st f).1.connect_state ≡ f.connect_state
unfolding handle_stopped updated set_play_status
handle_stopped-connect_state stopped f = refl
handle_stopped-connect_state (paused q b) f = refl
handle_stopped-connect_state (loading_play q) f = refl
handle_stopped-connect_state (loading_pause q) f = refl
handle_stopped-connect_state (playing start b) f = refl

handle_current_event-IsTaskBounded :
    (fuel now : ℕ) (e : PlayerEvent) (f : SpircTask)
    → IsTaskBounded f
    → IsTaskBounded (handle_current_event fuel now e f).1
unfolding handle_current_event updated update_position
handle_current_event-IsTaskBounded fuel now (track_changed d) f b = b
handle_current_event-IsTaskBounded fuel now (play_request_id_changed i) f b = b
handle_current_event-IsTaskBounded fuel now (end_of_track_event i) f b =
    updated-IsTaskBounded _ (handle_next-IsTaskBounded fuel now _ f b)
handle_current_event-IsTaskBounded fuel now (loading_event i) f b = b
handle_current_event-IsTaskBounded fuel now (seeked_event i p) f b = b
handle_current_event-IsTaskBounded fuel now (playing_event i p) f b =
    rw (handle_playing-connect_state now p f.play_status f) b
handle_current_event-IsTaskBounded fuel now (position_correction_event i p) f b =
    rw (handle_playing-connect_state now p f.play_status f) b
handle_current_event-IsTaskBounded fuel now (paused_event i p) f b =
    rw (handle_paused-connect_state now p f.play_status f) b
handle_current_event-IsTaskBounded fuel now (stopped_event i) f b =
    rw (handle_stopped-connect_state f.play_status f) b
handle_current_event-IsTaskBounded fuel now (time_to_preload_event i) f b =
    handle_preload_next_track-IsTaskBounded f b
handle_current_event-IsTaskBounded fuel now (unavailable_event i uri) f b =
    updated-IsTaskBounded _ (
      and_then-IsTaskBounded (handle_unavailable uri f) (skip_unavailable fuel now uri)
        (skip_unavailable-IsTaskBounded fuel now uri) (handle_unavailable-IsTaskBounded uri f b))
handle_current_event-IsTaskBounded fuel now other_event f b = b

handle_request_event-IsTaskBounded :
    (fuel now : ℕ) (e : PlayerEvent) (f : SpircTask)
    → IsTaskBounded f
    → IsTaskBounded (handle_request_event fuel now e f).1
unfolding handle_request_event
handle_request_event-IsTaskBounded fuel now e f b =
    elim (Bool-cases (is_current_track (get_play_request_id e) f.play_request_id)) [
      | inl t ↦ rw (handle_request_event, t) (handle_current_event-IsTaskBounded fuel now e f b)
      | inr t ↦ rw (handle_request_event, t) b
    ]

-- Every event of the player keeps the bounds of the lists, however it is handled.
pub handle_player_event-IsTaskBounded :
    (fuel now : ℕ) (e : PlayerEvent) (f : SpircTask)
    → IsTaskBounded f
    → IsTaskBounded (handle_player_event fuel now e f).1
unfolding handle_player_event
handle_player_event-IsTaskBounded fuel now (track_changed d) f b = b
handle_player_event-IsTaskBounded fuel now (play_request_id_changed i) f b = b
handle_player_event-IsTaskBounded fuel now (end_of_track_event i) f b =
    handle_request_event-IsTaskBounded fuel now (end_of_track_event i) f b
handle_player_event-IsTaskBounded fuel now (loading_event i) f b =
    handle_request_event-IsTaskBounded fuel now (loading_event i) f b
handle_player_event-IsTaskBounded fuel now (seeked_event i p) f b =
    handle_request_event-IsTaskBounded fuel now (seeked_event i p) f b
handle_player_event-IsTaskBounded fuel now (playing_event i p) f b =
    handle_request_event-IsTaskBounded fuel now (playing_event i p) f b
handle_player_event-IsTaskBounded fuel now (position_correction_event i p) f b =
    handle_request_event-IsTaskBounded fuel now (position_correction_event i p) f b
handle_player_event-IsTaskBounded fuel now (paused_event i p) f b =
    handle_request_event-IsTaskBounded fuel now (paused_event i p) f b
handle_player_event-IsTaskBounded fuel now (stopped_event i) f b =
    handle_request_event-IsTaskBounded fuel now (stopped_event i) f b
handle_player_event-IsTaskBounded fuel now (time_to_preload_event i) f b =
    handle_request_event-IsTaskBounded fuel now (time_to_preload_event i) f b
handle_player_event-IsTaskBounded fuel now (unavailable_event i uri) f b =
    handle_request_event-IsTaskBounded fuel now (unavailable_event i uri) f b
handle_player_event-IsTaskBounded fuel now other_event f b =
    handle_request_event-IsTaskBounded fuel now other_event f b
