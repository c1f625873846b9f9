-- ===== src/Connect/Handle.antt =====
-- librespot_src/connect/src/state/options.rs and state/handle.rs: the shuffle and the commands that
-- change the options; of state.rs, `set_status`.
pub mod Status
pub mod Bounds
use neotune.Common.{
  ℕ, Bool, true, false, Option, none, some, List, [], ◌∷◌, codes, bytes_eq, show_u64, Result,
  if◌then◌else◌,
}
use neotune.ShuffleVec.{Rng, ShuffleVec, shuffle_with_seed}
use neotune.Connect.Track.{Track, insert, shuffle_seed_key, initial_track_key, get_context_index}
use neotune.Connect.State.{
  ContextType, default, autoplay, StateError, currently_disallowed, StateContext, ConnectState,
  PlayerState, Restrictions, new_restrictions, with_player, or_default,
}
use neotune.Connect.Player.{
  current_track, set_shuffle, set_repeat_context, put_context, update_restrictions,
}
use neotune.Connect.Exec.{
  Run, ok, err, Exec, ◌>>=◌, ◌>>◌, pure, fail, gets, modify, get_context, lift,
}
use neotune.Connect.Context.{default_index, reset_context, find_index_in_context}
use neotune.Connect.Fill.{fill_up_next_tracks}
use neotune.Connect.Queue.{clear_prev_track, clear_next_tracks, reset_playback_to_position}

pub record ShuffleState : Type 0 where
  pub seed : ℕ
  pub initial_track : List ℕ

-- The first reason that there is refuses the action.
abbrev pub refuse_shuffle : List (List ℕ) → Exec (Unit {0})
refuse_shuffle [] s = (ok tt, s)
refuse_shuffle (reason ∷ reasons) s = (err (currently_disallowed (codes "shuffle") reason), s)

unfoldable pub validate_shuffle_allowed : Exec (Unit {0})
validate_shuffle_allowed s =
    refuse_shuffle
      (or_default new_restrictions s.player.restrictions).disallow_toggling_shuffle_reasons s

-- The changes of `shuffle` to the context.
unfoldable pub shuffle_context : Rng → ℕ → List ℕ → StateContext → StateContext
unfolding insert show_u64 shuffle_with_seed
shuffle_context g seed initial_track ctx = record ctx {
  tracks = shuffle_with_seed g ctx.tracks seed (λ t. bytes_eq t.uri initial_track);
  metadata =
      insert shuffle_seed_key (show_u64 seed) (insert initial_track_key initial_track ctx.metadata);
}

unfoldable pub shuffle : Rng → ℕ → List ℕ → Exec (Unit {0})
unfolding shuffle_context clear_prev_track clear_next_tracks reset_context get_context put_context
    fill_up_next_tracks
shuffle g seed initial_track = do
  modify clear_prev_track
  modify clear_next_tracks
  modify (reset_context default_index)
  ctx ← get_context default
  modify (put_context default (shuffle_context g seed initial_track ctx))
  fill_up_next_tracks

unfoldable pub shuffle_restore : Rng → ShuffleState → Exec (Unit {0})
unfolding validate_shuffle_allowed shuffle
shuffle_restore g state = do validate_shuffle_allowed; shuffle g state.seed state.initial_track

-- `rand::rng().random_range(...)` is the argument `new_seed`.
unfoldable pub shuffle_new : Rng → ℕ → Exec (Unit {0})
unfolding validate_shuffle_allowed shuffle current_track
shuffle_new g new_seed = do
  validate_shuffle_allowed
  t ← gets current_track
  shuffle g new_seed t.uri

unfoldable pub return_to_order : Exec (Unit {0})
unfolding get_context_index get_context find_index_in_context reset_playback_to_position
    current_track
return_to_order s = elim s.player.track [
  | none ↦ (ok tt, s)
  | some t ↦ elim (get_context_index t) [
    | some i ↦ reset_playback_to_position (some i) s
    | none ↦
        (do
          ctx ← get_context default
          i ← lift (find_index_in_context ctx (λ c. bytes_eq c.uri t.uri))
          reset_playback_to_position (some i))
          s
  ]
]

unfoldable pub handle_shuffle : Rng → ℕ → Bool → Exec (Unit {0})
unfolding shuffle_new return_to_order reset_context set_shuffle
handle_shuffle g new_seed true = do modify (set_shuffle true); shuffle_new g new_seed
handle_shuffle g new_seed false = do
  modify (set_shuffle false)
  modify (reset_context default_index)
  return_to_order

-- "if let ContextType::Autoplay = self.fill_up_context"
unfoldable pub fill_from_default : Bool → ConnectState → ConnectState
fill_from_default true s = record s { fill_up_context = default }
fill_from_default false s = s

unfoldable pub handle_set_repeat_context : Bool → Exec (Unit {0})
unfolding set_repeat_context fill_from_default get_context find_index_in_context current_track
    reset_playback_to_position
handle_set_repeat_context repeat = do
  modify (set_repeat_context repeat)
  modify (fill_from_default repeat)
  ctx ← get_context default
  t ← gets current_track
  i ← lift (find_index_in_context ctx (λ c. bytes_eq t.uri c.uri))
  reset_playback_to_position (some i)
