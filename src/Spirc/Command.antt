-- ===== src/Spirc/Command.antt =====
-- librespot_src/connect/src/spirc.rs: `handle_command`, and the events and commands in any order. The
-- commands that load or transfer a context, connect or disconnect are left out.
pub mod Bounds
pub mod Reach
use neotune.Common.{ℕ, Bool, true, false, Option, none, some, List, [], ◌∷◌}
use neotune.ShuffleVec.{Rng}
use neotune.Connect.Track.{Track, default_track}
use neotune.Connect.State.{ConnectState}
use neotune.Connect.Player.{repeat_context, repeat_track, set_repeat_track}
use neotune.Connect.Queue.{add_to_queue}
use neotune.Connect.Handle.{handle_shuffle, handle_set_repeat_context}
use neotune.Spirc.{
  SpircTask, Ended, done, shuffle_changed, repeat_changed, tell, set_connect_state, set_volume,
  handle_volume_up, handle_volume_down, notify_status,
}
use neotune.Spirc.Play.{handle_play, handle_pause, handle_play_pause, handle_seek}
use neotune.Spirc.Skip.{Handled, on_state, try, handle_next, handle_prev}
use neotune.Spirc.Skip.Events.{PlayerEvent, and_then, handle_player_event}

-- `add_uris` is `AddToQueue` with the uris of the item, which the server names for albums and playlists.
pub data SpircCommand : Type 0 where
  play_command play_pause_command pause_command prev_command next_command : SpircCommand
  volume_up_command volume_down_command : SpircCommand
  shuffle_command repeat_command repeat_track_command : Bool → SpircCommand
  set_position set_volume_command : ℕ → SpircCommand
  add_uris : List (List ℕ) → SpircCommand

unfoldable pub change_shuffle : Rng → ℕ → Bool → SpircTask → Handled
unfolding tell
change_shuffle g seed on f =
    try (on_state (handle_shuffle g seed on) (tell (shuffle_changed on) f)) (λ _ f'. (done, f'))

unfoldable pub handle_repeat_context : Bool → SpircTask → Handled
unfolding tell
handle_repeat_context on f =
    try
      (on_state (handle_set_repeat_context on)
        (tell (repeat_changed on (repeat_track f.connect_state)) f))
      (λ _ f'. (done, f'))

unfoldable pub handle_repeat_track : Bool → SpircTask → SpircTask
unfolding tell set_connect_state
handle_repeat_track on f =
    let f1 = tell (repeat_changed (repeat_context f.connect_state) on) f in
    set_connect_state (set_repeat_track on f1.connect_state) f1

abbrev pub queue_track : List ℕ → Track
queue_track uri = record default_track { uri = uri }

unfoldable pub queue_uris : List (List ℕ) → ConnectState → ConnectState
queue_uris [] s = s
queue_uris (uri ∷ uris) s = queue_uris uris (add_to_queue (queue_track uri) true s)

-- The commands of an active device.
unfoldable pub active_command : Rng → ℕ → ℕ → ℕ → SpircCommand → SpircTask → Handled
unfolding set_connect_state
active_command g seed fuel now play_command f = (done, handle_play now f)
active_command g seed fuel now play_pause_command f = (done, handle_play_pause now f)
active_command g seed fuel now pause_command f = (done, handle_pause now f)
active_command g seed fuel now prev_command f = handle_prev now f
active_command g seed fuel now next_command f = handle_next fuel now none f
active_command g seed fuel now volume_up_command f = (done, handle_volume_up f)
active_command g seed fuel now volume_down_command f = (done, handle_volume_down f)
active_command g seed fuel now (shuffle_command on) f = change_shuffle g seed on f
active_command g seed fuel now (repeat_command on) f = handle_repeat_context on f
active_command g seed fuel now (repeat_track_command on) f = (done, handle_repeat_track on f)
active_command g seed fuel now (set_position p) f = (done, handle_seek now p f)
active_command g seed fuel now (set_volume_command v) f = (done, set_volume v f)
active_command g seed fuel now (add_uris uris) f =
    (done, set_connect_state (queue_uris uris f.connect_state) f)

-- "will be ignored while Not Active"; at the end of a command that succeeds the others are notified.
unfoldable pub handle_command : Rng → ℕ → ℕ → ℕ → SpircCommand → SpircTask → Handled
unfolding active_command notify_status
handle_command g seed fuel now c f = elim f.is_active [
  | true ↦ and_then (active_command g seed fuel now c f) (λ f'. (done, notify_status f'))
  | false ↦ (done, notify_status f)
]
