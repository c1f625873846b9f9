-- ===== src/Player/Tests.antt =====
-- A player of local files on a device that works and one that does not, and the theorems at it.
use neotune.Common.{ℕ, ◌≡◌, refl, ◌⊎◌, Bool, true, false, Option, none, some, List, [], ◌∷◌}
use neotune.SpotifyUri.{SpotifyUri, track}
use neotune.Fetch.Controller.{StreamLoaderController}
use neotune.Player.{
  SinkStatus, running, closed, PlayerLoadedTrackData, no_preload, Current, PlayerState, stopped,
  playing, end_of_track, PlayerInternal, Decoded, packet, end_of_stream, Polled, pending, loaded,
  World, ok, exits, waits, ◌>>=◌, start_time,
}
use neotune.Player.Uri.{uri_eq}
use neotune.Player.Sink.{new_current, handle_pause, handle_play}
use neotune.Player.Sink.Safe.{IsFaulty, Settles, IsSound}
use neotune.Player.Sink.Resume.{handle_play-handle_pause_track}
use neotune.Player.Load.{handle_command_preload}
use neotune.Player.Load.Once.{handle_command_preload-handle_command_preload}
use neotune.Player.Command.{PlayerCommand, load, pause}
use neotune.Player.Poll.{Turn, take_packet, play_turn, poll, poll_all}
use neotune.Player.Poll.Exits.{play_turn-exits, poll-exits}
use neotune.Player.Poll.Position.{PlaysAt, take_packet-IsTold}
use neotune.Player.Poll.Survives.{IsHealthy, poll_all-IsSound}

abbrev some_track : SpotifyUri
some_track = track (record { id = 7 })

abbrev local_file_controller : StreamLoaderController
local_file_controller = record { channel = none; stream_shared = none; file_size = 100 }

abbrev loaded_track : PlayerLoadedTrackData
loaded_track = record {
  stream_loader_controller = local_file_controller;
  duration_ms = 60000;
  stream_position_ms = 4000;
  is_explicit = false;
}

abbrev playing_track : Current
playing_track = new_current some_track 3 loaded_track

abbrev player_in : PlayerState → SinkStatus → PlayerInternal
player_in s status = record {
  state = s;
  preload = no_preload;
  sink_status = status;
  gapless = true;
  passthrough = false;
  position_update_interval = none;
  auto_normalise_as_album = false;
  next_request_id = 4;
  last_progress_update = 0;
  events = [];
  sink_events = [];
  loads = [];
}

-- A device that starts or not, and a decoder that moves to every position or to none.
abbrev world_with : (now : ℕ) (starts moves : Bool) → Decoded → Polled → World
world_with now starts moves next o = record {
  now = now;
  sink_starts = starts;
  sink_stops = true;
  sink_writes = true;
  seek = λ q. elim moves [ true ↦ some q | false ↦ none ];
  next_packet = next;
  loader = o;
  preload_loader = pending;
  read_ahead = 10;
  notices = [];
}

abbrev works : World
works = world_with 9000000000 true true (packet 4100 false true false) pending

abbrev loads_track : World
loads_track = world_with 9000000000 true true end_of_stream (loaded loaded_track)

abbrev broken : World
broken = world_with 9000000000 false false end_of_stream pending

abbrev turn_with : Option PlayerCommand → World → World → Turn
turn_with cmd w v = record { command = cmd; to_command = w; to_loading = v; to_playing = works }

-- A track is loaded, played for a packet, and paused.
abbrev three_turns : List Turn
three_turns =
    turn_with (some (load some_track true 4000)) works works
    ∷ turn_with none works loads_track
    ∷ turn_with (some pause) works works
    ∷ []

works_well : IsHealthy works
works_well = (refl, (refl, λ q e. cc))

loads_well : IsHealthy loads_track
loads_well = (refl, (refl, λ q e. cc))

poll_all-IsSound_example :
    (poll_all three_turns (player_in stopped closed) ≡ waits)
    ⊎ ((q : PlayerInternal) × ((poll_all three_turns (player_in stopped closed) ≡ ok q)
          × IsSound q))
poll_all-IsSound_example =
    poll_all-IsSound three_turns (player_in stopped closed)
      (
        (works_well, (works_well, works_well)),
        ((works_well, (loads_well, works_well)), ((works_well, (works_well, works_well)), tt)),
      )
      refl

play_turn-exits_example : play_turn broken (player_in (playing playing_track none) closed) ≡ exits
play_turn-exits_example =
    play_turn-exits broken (player_in (playing playing_track none) closed) playing_track none refl
      refl refl

abbrev again : Turn
again = turn_with (some (load some_track true 0)) broken works

poll-exits_example : poll again (player_in (end_of_track some_track 3 loaded_track) running) ≡ exits
unfolding uri_eq
poll-exits_example =
    poll-exits again (player_in (end_of_track some_track 3 loaded_track) running) some_track
      some_track 3 loaded_track true 0 refl refl refl refl refl refl

take_packet-IsTold_example :
    (p' : PlayerInternal) × ((take_packet works playing_track
          (some 1000)
          (packet 4100 false true false)
          (player_in (playing playing_track (some 1000)) running)
        ≡ ok p')
      × PlaysAt works playing_track 4100 p'.state)
take_packet-IsTold_example =
    take_packet-IsTold works playing_track (some 1000) 4100 false false
      (player_in (playing playing_track (some 1000)) running) refl refl

handle_play-handle_pause_track_example :
    Settles
      (IsFaulty works)
      (λ q.
        (q.state ≡ playing playing_track (start_time 9000000000 4000)) × (q.sink_status ≡ running))
      (handle_pause works (player_in (playing playing_track none) running) >>= handle_play works)
handle_play-handle_pause_track_example =
    handle_play-handle_pause_track works works (player_in (playing playing_track none) running)
      playing_track none refl refl

handle_command_preload-handle_command_preload_example :
    handle_command_preload some_track (handle_command_preload some_track (player_in stopped closed))
    ≡ handle_command_preload some_track (player_in stopped closed)
handle_command_preload-handle_command_preload_example =
    handle_command_preload-handle_command_preload some_track (player_in stopped closed)
