-- ===== src/Spirc/Tests.antt =====
-- A task that plays the first track of an album, and the theorems at it.
use neotune.Common.{◌≡◌, refl, true, false, none, some, [], ◌∷◌, codes, arith, bytes_eq}
use neotune.Connect.Player.{current_track}
use neotune.Connect.Handle.Status.{playing}
use neotune.Connect.Tests.{playing_album, counting}
use neotune.Connect.State.{default, no_context}
use neotune.Spirc.{SpircTask, out_of_fuel, state_error}
use neotune.Spirc.Load.{as_autoplay, LoadRequestOptions, start_loaded}
use neotune.Spirc.Load.Fails.{start_loaded-fails}
use neotune.Spirc.Play.{get_position, handle_play, handle_pause, handle_play-handle_pause}
use neotune.Spirc.Skip.{handle_next}
use neotune.Spirc.Skip.Hangs.{handle_next-out_of_fuel}
use neotune.Spirc.Skip.Bounds.{IsTaskBounded}
use neotune.Spirc.Skip.Events.{end_of_track_event, handle_player_event}
use neotune.Spirc.Command.{add_uris, handle_command}
use neotune.Spirc.Request.{skip_next, handle_request}
use neotune.Spirc.Command.Reach.{
  command, event, request, Reaches, here, there, Reaches-IsTaskBounded,
}

abbrev task : SpircTask
task = record {
  connect_state = playing_album;
  is_active = true;
  position = 0;
  timestamp = 1000;
  duration = 60000;
  volume = 100;
  volume_step_size = 10;
  mixer_volume = 100;
  play_request_id = some 7;
  play_status = playing 1000 false;
  update_volume = false;
  update_state = false;
  autoplay = true;
  player = [];
  resolves = [];
}

handle_play-handle_pause_example :
    get_position 9000 (handle_play 9000 (handle_pause 5000 task)) ≡ get_position 5000 task
handle_play-handle_pause_example = handle_play-handle_pause 5000 9000 task tt (omega arith)

-- The album without next tracks.
abbrev last : SpircTask
last = record task {
  connect_state = record playing_album {
    player = record playing_album.player { next_tracks = [] };
  };
}

another : bytes_eq (current_track last.connect_state).uri (codes "x") ≡ false
unfolding current_track
another = refl

handle_next-out_of_fuel_example : (handle_next 5 5000 (some (codes "x")) last).0 ≡ out_of_fuel
handle_next-out_of_fuel_example = handle_next-out_of_fuel 120 [] 5 5000 last refl another

abbrev queued_task : SpircTask
queued_task = (handle_command counting 0 1 5000 (add_uris (codes "a" ∷ [])) task).1

abbrev next_task : SpircTask
next_task = (handle_player_event 1 6000 (end_of_track_event 7) queued_task).1

abbrev skipped_task : SpircTask
skipped_task = (handle_request counting 0 1 7000 (skip_next none) next_task).1

abbrev run : Reaches counting task skipped_task
run = there task queued_task skipped_task (command 0 1 5000 (add_uris (codes "a" ∷ [])) task) (
    there queued_task next_task skipped_task (event 1 6000 (end_of_track_event 7) queued_task) (
      there next_task skipped_task skipped_task (request 0 1 7000 (skip_next none) next_task)
        (here skipped_task)))

Reaches-IsTaskBounded_example : IsTaskBounded skipped_task
Reaches-IsTaskBounded_example =
    Reaches-IsTaskBounded counting task skipped_task run (tt, (tt, (tt, tt)))
      (omega arith, omega arith)

-- A request for the autoplay of a context that is not there yet.
abbrev autoplay_request : LoadRequestOptions
autoplay_request = record {
  start_playing = true;
  seek_to = 0;
  context_options = some as_autoplay;
  playing_track = none;
}

abbrev emptied : SpircTask
emptied = record task { connect_state = record playing_album { context = none } }

start_loaded-fails_example :
    (start_loaded counting 0 5000 0 false autoplay_request none none emptied).0
    ≡ state_error (no_context default)
start_loaded-fails_example =
    start_loaded-fails counting 0 5000 0 false autoplay_request none none emptied refl
