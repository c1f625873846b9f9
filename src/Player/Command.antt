-- ===== src/Player/Command.antt =====
-- librespot_src/playback/src/player.rs: `handle_command` and the seek.
pub mod Safe
use neotune.Common.{ℕ, Bool, true, false, Option, none, some, to_option}
use neotune.SpotifyUri.{SpotifyUri}
use neotune.Fetch.Controller.{StreamLoaderController, fetch_next_and_wait}
use neotune.Player.{
  Current, PlayerState, stopped, loading, paused, playing, end_of_track, invalid, PlayerEvent,
  seeked, volume_changed, filter_explicit_content_changed, end_of_track_event, emitted,
  PlayerInternal, World, Run, ok, err, exits, waits, ◌>>=◌, send_event, set_state, start_time,
}
use neotune.Player.Sink.{handle_play, handle_pause, handle_player_stop}
use neotune.Player.Load.{handle_command_load, handle_command_preload}

-- `set_other` stands for the session, the senders and the callback, `emit` for the events that are only
-- passed on.
pub data PlayerCommand : Type 0 where
  load : (track_id : SpotifyUri) (play : Bool) (position_ms : ℕ) → PlayerCommand
  preload_track : SpotifyUri → PlayerCommand
  play pause stop set_other emit : PlayerCommand
  seek_to emit_volume_changed : ℕ → PlayerCommand
  set_auto_normalise_as_album emit_filter_explicit_content_changed : Bool → PlayerCommand

abbrev pub at_position : ℕ → Current → Current
at_position position_ms c = record c {
  loaded_track = record c.loaded_track { stream_position_ms = position_ms };
}

abbrev pub with_controller : StreamLoaderController → Current → Current
with_controller s c = record c {
  loaded_track = record c.loaded_track { stream_loader_controller = s };
}

-- The part of a seek that moves the decoder; an error of the decoder is only logged.
unfoldable pub move_decoder : Option ℕ → PlayerState → PlayerInternal → Run
move_decoder none (paused c) p = ok p
move_decoder none (playing c t) p = ok p
move_decoder (some q) (paused c) p =
    ok (send_event (seeked c.play_request_id c.track_id q) (set_state (paused (at_position q c)) p))
move_decoder (some q) (playing c t) p =
    ok (
      send_event (seeked c.play_request_id c.track_id q)
        (set_state (playing (at_position q c) t) p))
move_decoder o stopped p = ok p
move_decoder o (loading uri id start loader) p = ok p
move_decoder o (end_of_track uri id t) p = ok p
move_decoder o invalid p = exits

unfoldable pub preload_data_before_playback : World → PlayerState → PlayerInternal → Run
preload_data_before_playback w (playing c t) p =
    elim (fetch_next_and_wait w.read_ahead w.read_ahead w.notices
      c.loaded_track.stream_loader_controller) [
        | none ↦ waits
        | some (r, s) ↦ elim (to_option r) [
          | some u ↦ ok (set_state (playing (with_controller s c) t) p)
          | none ↦ err (set_state (playing (with_controller s c) t) p)
        ]
      ]
preload_data_before_playback w stopped p = ok p
preload_data_before_playback w (loading uri id start loader) p = ok p
preload_data_before_playback w (paused c) p = ok p
preload_data_before_playback w (end_of_track uri id t) p = ok p
preload_data_before_playback w invalid p = ok p

-- The time at which a playing track would have started is counted from the requested position.
unfoldable pub restart_clock : World → ℕ → PlayerState → PlayerInternal → PlayerInternal
restart_clock w position_ms (playing c t) p = set_state (playing c (start_time w.now position_ms)) p
restart_clock w position_ms stopped p = p
restart_clock w position_ms (loading uri id start loader) p = p
restart_clock w position_ms (paused c) p = p
restart_clock w position_ms (end_of_track uri id t) p = p
restart_clock w position_ms invalid p = p

unfoldable pub seek_loaded_track : World → ℕ → PlayerInternal → Run
seek_loaded_track w position_ms p = move_decoder (w.seek position_ms) p.state p >>= λ p1.
    preload_data_before_playback w p1.state p1 >>= λ p2.
    ok (restart_clock w position_ms p2.state p2)

-- While a track is loading, it is loaded again from the new position.
unfoldable pub seek_from : World → ℕ → PlayerState → PlayerInternal → Run
seek_from w position_ms (loading uri id start loader) p =
    handle_command_load w uri (some id) start position_ms p
seek_from w position_ms stopped p = seek_loaded_track w position_ms p
seek_from w position_ms (paused c) p = seek_loaded_track w position_ms p
seek_from w position_ms (playing c t) p = seek_loaded_track w position_ms p
seek_from w position_ms (end_of_track uri id t) p = seek_loaded_track w position_ms p
seek_from w position_ms invalid p = seek_loaded_track w position_ms p

unfoldable pub handle_command_seek : World → ℕ → PlayerInternal → Run
handle_command_seek w position_ms p = seek_from w position_ms p.state p

skip_current : Current → PlayerInternal → PlayerInternal
skip_current c p = elim c.loaded_track.is_explicit [
  | true ↦ send_event (end_of_track_event c.play_request_id c.track_id) p
  | false ↦ p
]

-- "Currently loaded track is explicit, which client setting forbids -- skipping to next track."
unfoldable pub skip_explicit : PlayerState → PlayerInternal → PlayerInternal
unfolding skip_current
skip_explicit (paused c) p = skip_current c p
skip_explicit (playing c t) p = skip_current c p
skip_explicit stopped p = p
skip_explicit (loading uri id start loader) p = p
skip_explicit (end_of_track uri id t) p = p
skip_explicit invalid p = p

unfoldable pub filter_explicit : Bool → PlayerInternal → PlayerInternal
filter_explicit true p = skip_explicit p.state (send_event (filter_explicit_content_changed true) p)
filter_explicit false p = send_event (filter_explicit_content_changed false) p

unfoldable pub handle_command : World → PlayerCommand → PlayerInternal → Run
handle_command w (load uri starts position_ms) p =
    handle_command_load w uri none starts position_ms p
handle_command w (preload_track uri) p = ok (handle_command_preload uri p)
handle_command w (seek_to position_ms) p = handle_command_seek w position_ms p
handle_command w play p = handle_play w p
handle_command w pause p = handle_pause w p
handle_command w stop p = handle_player_stop w p
handle_command w set_other p = ok p
handle_command w emit p = ok (send_event emitted p)
handle_command w (emit_volume_changed volume) p = ok (send_event (volume_changed volume) p)
handle_command w (set_auto_normalise_as_album setting) p =
    ok (record p { auto_normalise_as_album = setting })
handle_command w (emit_filter_explicit_content_changed filter) p = ok (filter_explicit filter p)
