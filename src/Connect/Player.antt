-- ===== src/Connect/Player.antt =====
-- The methods of the connect state that cannot fail: state.rs, state/options.rs,
-- state/restrictions.rs, and of state/context.rs what reads and sets the contexts.
use neotune.Common.{
  ℕ, ◌^◌, ◌%◌, Bool, false, not, ◌&&◌, Option, none, some, List, [], ◌∷◌, map, codes, if◌then◌else◌,
}
use neotune.Connect.Track.{Track, default_track, is_autoplay, insert_all}
use neotune.Connect.State.{
  ContextType, default, autoplay, Restrictions, new_restrictions, ContextPlayerOptions, new_options,
  ConnectState, StateContext, new_index, with_player, or_default,
}

abbrev pub player_options : ConnectState → ContextPlayerOptions
player_options s = or_default new_options s.player.options

unfoldable pub shuffling_context : ConnectState → Bool
shuffling_context s = (player_options s).shuffling_context

unfoldable pub repeat_context : ConnectState → Bool
repeat_context s = (player_options s).repeating_context

unfoldable pub repeat_track : ConnectState → Bool
repeat_track s = (player_options s).repeating_track

-- `current_track(|t| ...)`, which reads through the message field
unfoldable pub current_track : ConnectState → Track
current_track s = or_default default_track s.player.track

unfoldable pub is_playing : ConnectState → Bool
is_playing s = s.player.is_playing && not s.player.is_paused

unfoldable pub is_pause : ConnectState → Bool
is_pause s = s.player.is_playing && (s.player.is_paused && s.player.is_buffering)

unfoldable pub get_context? : ContextType → ConnectState → Option StateContext
get_context? default s = s.context
get_context? autoplay s = s.autoplay_context

-- A write through `get_context_mut`, where the context is there.
unfoldable pub put_context : ContextType → StateContext → ConnectState → ConnectState
put_context default c s = record s { context = some c }
put_context autoplay c s = record s { autoplay_context = some c }

-- `options.rs`: the three setters fill in empty options first.
unfoldable pub set_repeat_context : Bool → ConnectState → ConnectState
set_repeat_context b s =
    with_player s
      (record s.player { options = some (record (player_options s) { repeating_context = b }) })

unfoldable pub set_repeat_track : Bool → ConnectState → ConnectState
set_repeat_track b s =
    with_player s
      (record s.player { options = some (record (player_options s) { repeating_track = b }) })

unfoldable pub set_shuffle : Bool → ConnectState → ConnectState
set_shuffle b s =
    with_player s
      (record s.player { options = some (record (player_options s) { shuffling_context = b }) })

unfoldable pub reset_options : ConnectState → ConnectState
unfolding set_shuffle set_repeat_track set_repeat_context
reset_options s = set_repeat_context false (set_repeat_track false (set_shuffle false s))

-- `restrictions.rs`
unfoldable pub clear_restrictions : ConnectState → ConnectState
clear_restrictions s = with_player s (record s.player {
  context_restrictions = some new_restrictions;
  restrictions = some new_restrictions;
})

-- The two tests on the play status.
unfoldable pub status_restrictions : Bool → Bool → Restrictions → Restrictions
status_restrictions playing paused r =
    let r' =
      if playing
      then record r {
        disallow_pausing_reasons = [];
        disallow_resuming_reasons = codes "not_paused" ∷ [];
      }
      else r in
    if paused
    then record r' {
      disallow_resuming_reasons = [];
      disallow_pausing_reasons = codes "not_playing" ∷ [];
    }
    else r'

-- What `prev_tracks` and the provider of the current track disallow.
unfoldable pub track_restrictions : List (List ℕ) → List (List ℕ) → Restrictions → Restrictions
track_restrictions prev toggle r = record r {
  disallow_peeking_prev_reasons = prev;
  disallow_skipping_prev_reasons = prev;
  disallow_toggling_shuffle_reasons = toggle;
  disallow_toggling_repeat_context_reasons = toggle;
  disallow_toggling_repeat_track_reasons = toggle;
}

unfoldable pub update_restrictions : ConnectState → ConnectState
unfolding status_restrictions track_restrictions is_playing is_pause current_track is_autoplay
update_restrictions s =
    let prev : List (List ℕ) = elim s.player.prev_tracks [
      | [] ↦ codes "no previous tracks" ∷ []
      | _ ↦ []
    ] in
    let toggle : List (List ℕ) =
      if is_autoplay (current_track s) then codes "autoplay" ∷ [] else [] in
    let r : Restrictions = elim s.player.restrictions [
      | none ↦ new_restrictions
      | some r ↦ status_restrictions (is_playing s) (is_pause s) r
    ] in
    with_player s (record s.player { restrictions = some (track_restrictions prev toggle r) })

-- `set_active_context`, up to the look-up of the context.
unfoldable pub switch_context : ContextType → ConnectState → ConnectState
switch_context ty s = record s {
  active_context = ty;
  player = record s.player {
    context_metadata = [];
    context_restrictions = some new_restrictions;
    restrictions = some new_restrictions;
  };
}

unfoldable pub set_active_context : ContextType → ConnectState → ConnectState
unfolding switch_context get_context? insert_all
set_active_context ty s =
    let s' = switch_context ty s in
    elim (get_context? ty s') [
      | none ↦ s'
      | some ctx ↦ with_player s' (record s'.player {
        restrictions = elim ctx.restrictions [ none ↦ s'.player.restrictions | some r ↦ some r ];
        context_metadata = insert_all ctx.metadata s'.player.context_metadata;
      })
    ]

-- `update_current_index`, which fills in an empty index first; `as u32`.
unfoldable pub set_index_track : ℕ → ConnectState → ConnectState
set_index_track n s = with_player s (record s.player {
  index = some (record (or_default new_index s.player.index) { track = n % 2 ^ 32 });
})

unfoldable pub set_track : Track → ConnectState → ConnectState
set_track t s = with_player s (record s.player { track = some t })

unfoldable pub set_next : List Track → ConnectState → ConnectState
set_next ts s = with_player s (record s.player { next_tracks = ts })

unfoldable pub set_prev : List Track → ConnectState → ConnectState
set_prev ts s = with_player s (record s.player { prev_tracks = ts })

unfoldable pub update_queue_revision : ConnectState → ConnectState
update_queue_revision s =
    with_player s (record s.player { queue_revision = map (λ t. t.uri) s.player.next_tracks })
