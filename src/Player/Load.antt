-- ===== src/Player/Load.antt =====
-- librespot_src/playback/src/player.rs: `handle_command_load` and `handle_command_preload`.
pub mod Safe
pub mod Once
use neotune.Common.{
  ℕ, ◌+◌, ◌%◌, ◌^◌, Bool, true, false, ◌&&◌, Option, none, some, List, [], ◌∷◌, ◌++◌, ◌==◌,
  if◌then◌else◌,
}
use neotune.SpotifyUri.{SpotifyUri}
use neotune.Player.{
  PlayerLoadedTrackData, Loader, PlayerPreload, no_preload, preloading, ready, Current, PlayerState,
  stopped, loading, paused, playing, end_of_track, invalid, play_request_id_changed, loading_event,
  PlayerInternal, World, Run, ok, err, ◌>>=◌, send_event, set_state, set_preload,
}
use neotune.Player.Uri.{uri_eq}
use neotune.Player.Sink.{ensure_sink_stopped, start_playback}

-- `load_track`: a thread is started.
abbrev pub new_loader : SpotifyUri → ℕ → Loader
new_loader uri position_ms = record { uri = uri; position = position_ms; is_terminated = false }

unfoldable pub spawn_load : SpotifyUri → ℕ → PlayerInternal → PlayerInternal
spawn_load uri position_ms p = record p { loads = p.loads ++ ((uri, position_ms) ∷ []) }

-- The decoder is moved unless it is at the position; `none` is its error.
unfoldable pub seek_loaded : World → ℕ → PlayerLoadedTrackData → Option PlayerLoadedTrackData
seek_loaded w position_ms t = elim (position_ms == t.stream_position_ms) [
  | true ↦ some t
  | false ↦ elim (w.seek position_ms) [
    | none ↦ none
    | some q ↦ some (record t { stream_position_ms = q })
  ]
]

-- `EndOfTrack` with the same track: the state is `Invalid` while the decoder is moved.
unfoldable pub repeat_track :
    World → SpotifyUri → ℕ → Bool → ℕ → PlayerLoadedTrackData → PlayerInternal → Run
repeat_track w uri id play position_ms t p = elim (seek_loaded w position_ms t) [
  | none ↦ err (set_state invalid p)
  | some t' ↦ start_playback w uri id t' play (set_preload no_preload (set_state invalid p))
]

-- `Playing` or `Paused` with the same track: the state is `Invalid` only once the decoder has moved.
unfoldable pub reload_track :
    World → SpotifyUri → ℕ → Bool → ℕ → PlayerLoadedTrackData → PlayerInternal → Run
reload_track w uri id play position_ms t p = elim (seek_loaded w position_ms t) [
  | none ↦ err p
  | some t' ↦ start_playback w uri id t' play (set_preload no_preload (set_state invalid p))
]

-- "Set ourselves to a loading state."
unfoldable pub set_loading : SpotifyUri → ℕ → Bool → Loader → PlayerInternal → PlayerInternal
set_loading uri id play loader p = set_state (loading uri id play loader) (set_preload no_preload p)

unfoldable pub load_anew : SpotifyUri → ℕ → Bool → ℕ → PlayerInternal → PlayerInternal
load_anew uri id play position_ms p =
    set_loading uri id play (new_loader uri position_ms) (spawn_load uri position_ms p)

-- "Check if the requested track has been preloaded already."
unfoldable pub load_from_preload :
    World → SpotifyUri → ℕ → Bool → ℕ → PlayerPreload → PlayerInternal → Run
load_from_preload w uri id play position_ms no_preload p =
    ok (load_anew uri id play position_ms (send_event (loading_event id uri position_ms) p))
load_from_preload w uri id play position_ms (preloading uri' loader) p =
    let p1 = send_event (loading_event id uri position_ms) p in
    elim (uri_eq uri uri' && position_ms == 0) [
      | true ↦ ok (set_loading uri id play loader p1)
      | false ↦ ok (load_anew uri id play position_ms p1)
    ]
load_from_preload w uri id play position_ms (ready uri' t) p = elim (uri_eq uri uri') [
  | true ↦ elim (seek_loaded w position_ms t) [
    | none ↦ err (set_preload no_preload p)
    | some t' ↦ start_playback w uri' id t' play (set_preload no_preload p)
  ]
  | false ↦ ok (load_anew uri id play position_ms (send_event (loading_event id uri position_ms) p))
]

unfoldable pub load_preloaded : World → SpotifyUri → ℕ → Bool → ℕ → PlayerInternal → Run
load_preloaded w uri id play position_ms p = load_from_preload w uri id play position_ms p.preload p

unfoldable pub load_from : World → SpotifyUri → ℕ → Bool → ℕ → PlayerState → PlayerInternal → Run
load_from w uri id play position_ms invalid p = err p
load_from w uri id play position_ms stopped p = load_preloaded w uri id play position_ms p
load_from w uri id play position_ms (loading uri' id' start loader) p =
    load_preloaded w uri id play position_ms p
load_from w uri id play position_ms (end_of_track uri' id' t) p = elim (uri_eq uri' uri) [
  | true ↦ repeat_track w uri id play position_ms t p
  | false ↦ load_preloaded w uri id play position_ms p
]
load_from w uri id play position_ms (playing c s) p = elim (uri_eq c.track_id uri) [
  | true ↦ reload_track w uri id play position_ms c.loaded_track p
  | false ↦ load_preloaded w uri id play position_ms p
]
load_from w uri id play position_ms (paused c) p = elim (uri_eq c.track_id uri) [
  | true ↦ reload_track w uri id play position_ms c.loaded_track p
  | false ↦ load_preloaded w uri id play position_ms p
]

-- The generator is asked in each case.
unfoldable pub new_request : PlayerInternal → PlayerInternal
new_request p = record p { next_request_id = (p.next_request_id + 1) % 2 ^ 64 }

abbrev pub or_new : Option ℕ → ℕ → ℕ
or_new (some id) new = id
or_new none new = new

-- "if !self.config.gapless"
unfoldable pub stop_unless_gapless : World → Bool → PlayerInternal → Run
stop_unless_gapless w play p = if p.gapless then ok p else ensure_sink_stopped w play p

unfoldable pub handle_command_load : World → SpotifyUri → Option ℕ → Bool → ℕ → PlayerInternal → Run
handle_command_load w uri id_option play position_ms p =
    let id = or_new id_option p.next_request_id in
    stop_unless_gapless w play (send_event (play_request_id_changed id) (new_request p)) >>= λ p1.
    load_from w uri id play position_ms p1.state p1

-- "check whether the track is already loaded somewhere or being loaded."
unfoldable pub is_preloaded : SpotifyUri → PlayerPreload → Bool
is_preloaded uri no_preload = false
is_preloaded uri (preloading uri' loader) = uri_eq uri' uri
is_preloaded uri (ready uri' t) = uri_eq uri' uri

unfoldable pub is_loaded : SpotifyUri → PlayerState → Bool
is_loaded uri stopped = false
is_loaded uri (loading uri' id start loader) = false
is_loaded uri (paused c) = uri_eq c.track_id uri
is_loaded uri (playing c t) = uri_eq c.track_id uri
is_loaded uri (end_of_track uri' id t) = uri_eq uri' uri
is_loaded uri invalid = false

unfoldable pub handle_command_preload : SpotifyUri → PlayerInternal → PlayerInternal
handle_command_preload uri p = elim (is_preloaded uri p.preload) [
  | true ↦ p
  | false ↦ elim (is_loaded uri p.state) [
    | true ↦ set_preload no_preload p
    | false ↦ set_preload (preloading uri (new_loader uri 0)) (spawn_load uri 0 p)
  ]
]
