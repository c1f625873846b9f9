-- ===== src/Spirc/Load.antt =====
-- librespot_src/connect/src/spirc.rs: `handle_load`, and the requests of librespot_src/connect/src/model.rs.
-- Resolving a context by its uri asks the server and is an argument; the events about the queue are left out.
pub mod Bounds
pub mod Fails
use neotune.Common.{
  ℕ, zero, suc, length, Bool, true, false, Option, none, some, List, [], ◌∷◌, ◌++◌, codes, bytes_eq,
  to_option,
}
use neotune.ShuffleVec.{Rng}
use neotune.Connect.State.{default, ConnectState, or_default}
use neotune.Connect.Player.{
  set_repeat_context, set_repeat_track, set_shuffle, reset_options, clear_restrictions,
  set_active_context, update_queue_revision,
}
use neotune.Connect.Exec.{Run, Exec, ◌>>=◌, ◌>>◌, pure, gets, modify, get_context}
use neotune.Connect.Context.{
  ContextPage, ResetContext, completely, when_different, find_index_in_context, reset_context,
  merge_context,
}
use neotune.Connect.Tracks.{set_current_track}
use neotune.Connect.Queue.{clear_next_tracks, reset_playback_to_position}
use neotune.Connect.Handle.{shuffle_new}
use neotune.Connect.Update.{Context, update_context}
use neotune.Spirc.{SpircTask, done, set_connect_state}
use neotune.Spirc.Skip.{
  Handled, on_state, try, handle_stop, load_track, add_autoplay_resolving_when_required,
}
use neotune.Spirc.Skip.Events.{and_then}

pub data PlayingTrack : Type 0 where
  at_index : ℕ → PlayingTrack
  at_uri at_uid : List ℕ → PlayingTrack

pub record Options : Type 0 where
  pub shuffle : Bool
  pub repeat : Bool
  pub repeat_track : Bool

pub data LoadContextOptions : Type 0 where
  with_options : Options → LoadContextOptions
  as_autoplay : LoadContextOptions

pub record LoadRequestOptions : Type 0 where
  pub start_playing : Bool
  pub seek_to : ℕ
  pub context_options : Option LoadContextOptions
  pub playing_track : Option PlayingTrack

abbrev or_fallback : Option ℕ → Option ℕ → Option ℕ
or_fallback fallback none = some (or_default 0 fallback)
or_fallback fallback (some i) = some i

-- The index in the default context, or else the fallback.
unfoldable pub playing_index : Option PlayingTrack → Option ℕ → Exec (Option ℕ)
playing_index none fallback = pure none
playing_index (some (at_index i)) fallback = pure (some i)
playing_index (some (at_uri uri)) fallback = do
  ctx ← get_context default
  pure (or_fallback fallback (to_option (find_index_in_context ctx (λ t. bytes_eq t.uri uri))))
playing_index (some (at_uid uid)) fallback = do
  ctx ← get_context default
  pure (or_fallback fallback (to_option (find_index_in_context ctx (λ t. bytes_eq t.uid uid))))

unfoldable pub apply_options : Option LoadContextOptions → ConnectState → ConnectState
apply_options none s = s
apply_options (some as_autoplay) s = s
apply_options (some (with_options o)) s =
    set_repeat_track o.repeat_track (set_repeat_context o.repeat (set_shuffle o.shuffle s))

unfoldable pub asks_shuffle : Option LoadContextOptions → Bool
asks_shuffle none = false
asks_shuffle (some as_autoplay) = false
asks_shuffle (some (with_options o)) = o.shuffle

-- `rand::rng().random_range(0..n)`: `random` is what the crate `rand` draws, and an empty range panics.
unfoldable pub draw_track : (n random : ℕ) → Exec ℕ
draw_track zero random s = (Run.panicked, s)
draw_track (suc n) random s = (Run.ok random, s)

unfoldable pub set_current_track_random : (random : ℕ) → Exec (Unit {0})
set_current_track_random random = do
  ty ← gets (λ s. s.active_context)
  ctx ← get_context ty
  rng_track ← draw_track (length ctx.tracks.vec) random
  set_current_track rng_track

unfoldable pub set_first_track : (random : ℕ) → Option ℕ → Exec (Unit {0})
set_first_track random none = set_current_track_random random
set_first_track random (some i) = set_current_track i

unfoldable pub shuffle_unless : Rng → ℕ → (has_next : Bool) → Exec (Unit {0})
shuffle_unless g seed true = modify update_queue_revision
shuffle_unless g seed false = shuffle_new g seed

unfoldable pub start_context :
    Rng → ℕ → (random : ℕ) → (has_next shuffles : Bool) → Option ℕ → Exec (Unit {0})
start_context g seed random has_next true i = do
  set_first_track random i
  shuffle_unless g seed has_next
start_context g seed random has_next false i = do
  set_current_track (or_default 0 i)
  reset_playback_to_position i

unfoldable pub resolve_autoplay : (has_next shuffles : Bool) → SpircTask → SpircTask
resolve_autoplay true true f = f
resolve_autoplay true false f = add_autoplay_resolving_when_required f
resolve_autoplay false shuffles f = add_autoplay_resolving_when_required f

-- "No active track, stopping"
unfoldable pub load_or_stop : ℕ → LoadRequestOptions → SpircTask → Handled
load_or_stop now o f = elim f.connect_state.player.track [
  | none ↦ (done, handle_stop now f)
  | some t ↦ load_track now o.start_playing o.seek_to f
]

-- The state once the context is there.
unfoldable pub loaded_context : Option ContextPage → ConnectState → ConnectState
loaded_context page s =
    clear_restrictions (clear_next_tracks (merge_context page (set_active_context default s)).1)

abbrev pub set_options : Option LoadContextOptions → SpircTask → SpircTask
set_options o f = set_connect_state (apply_options o f.connect_state) f

-- From where the first track is known.
unfoldable pub begin :
    Rng
    → ℕ
    → (now random : ℕ) → (has_next : Bool) → LoadRequestOptions
    → Option ℕ
    → SpircTask
    → Handled
begin g seed now random has_next o i f =
    let shuffles = asks_shuffle o.context_options in
    try
      (on_state (start_context g seed random has_next shuffles i) (set_options o.context_options f))
      (λ _ f1. load_or_stop now o (resolve_autoplay has_next shuffles f1))

-- `handle_load` from where the context is there. `has_next` is whether the resolver has another context.
unfoldable pub start_loaded :
    Rng
    → ℕ
    → (now random : ℕ) → (has_next : Bool) → LoadRequestOptions
    → Option ContextPage
    → Option ℕ
    → SpircTask
    → Handled
start_loaded g seed now random has_next o page fallback f =
    try
      (on_state (playing_index o.playing_track fallback)
        (set_connect_state (loaded_context page f.connect_state) f))
      (begin g seed now random has_next o)

abbrev web_api_uri : List ℕ
web_api_uri = codes "spotify:web-api"

abbrev pub web_api_context : ContextPage → Context
web_api_context page = record {
  uri = some web_api_uri;
  url = some (codes "context://" ++ web_api_uri);
  metadata = [];
  restrictions = none;
  pages = page ∷ [];
}

unfoldable pub load_context_from_tracks :
    (uuids : ℕ → ℕ → List ℕ) → ContextPage → SpircTask → Handled
load_context_from_tracks uuids page f =
    try (on_state (update_context uuids (web_api_context page) default) f) (λ _ f1. (done, f1))

-- `load_context` is the load from the uri or from the tracks.
unfoldable pub handle_load :
    Rng
    → ℕ
    → (now random : ℕ) → (has_next : Bool) → ResetContext
    → (load_context : SpircTask → Handled) → LoadRequestOptions
    → Option ContextPage
    → Option ℕ
    → SpircTask
    → Handled
handle_load g seed now random has_next reset_as load_context o page fallback f =
    and_then
      (load_context (set_connect_state (reset_options (reset_context reset_as f.connect_state)) f))
      (start_loaded g seed now random has_next o page fallback)
