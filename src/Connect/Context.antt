-- ===== src/Connect/Context.antt =====
-- librespot_src/connect/src/state/context.rs: the look-ups in a context, its reset, the index up to
-- which it is loaded, and the track a new version of it continues from.
use neotune.Common.{
  ℕ, ◌%◌, ◌^◌, Bool, true, false, not, ◌||◌, Option, none, some, List, [], ◌∷◌, codes, bytes_eq,
  starts_with, ◌==◌, length, set, get_elem?, if◌then◌else◌, Result, ok_or, to_option,
}
use neotune.ShuffleVec.{position, unshuffle}
use neotune.Connect.Track.{
  Metadata, lookup, insert_all, remove, shuffle_seed_key, initial_track_key, Track,
}
use neotune.Connect.State.{
  ContextType, default, StateError, no_context, can_not_find_track_in_context, new_index,
  StateContext, ConnectState, or_default,
}
use neotune.Connect.Player.{get_context?, put_context, set_active_context, update_restrictions}
use neotune.Connect.Exec.{ok, err, Exec}

abbrev pub search_identifier : List ℕ
search_identifier = codes "spotify:search"

unfoldable pub find_index_in_context : StateContext → (Track → Bool) → Result StateError ℕ
unfolding position
find_index_in_context ctx f =
    ok_or (position f ctx.tracks.vec) (can_not_find_track_in_context none (length ctx.tracks.vec))

unfoldable pub different_context_uri : ConnectState → List ℕ → Bool
different_context_uri s uri =
    not (bytes_eq s.player.context_uri uri) || starts_with uri search_identifier

unfoldable pub valid_resolve_uri : List ℕ → Option (List ℕ)
valid_resolve_uri [] = none
valid_resolve_uri (c ∷ uri) =
    if starts_with (c ∷ uri) search_identifier then none else some (c ∷ uri)

pub data ResetContext : Type 0 where
  completely : ResetContext
  default_index : ResetContext
  when_different : List ℕ → ResetContext

-- The first `if`: which reset is done.
unfoldable pub effective_reset : ConnectState → ResetContext → ResetContext
unfolding different_context_uri
effective_reset s completely = completely
effective_reset s default_index = default_index
effective_reset s (when_different uri) =
    if different_context_uri s uri then completely else when_different uri

-- The second `if`: the default context is put back in order.
unfoldable pub restore_order : StateContext → StateContext
unfolding remove unshuffle
restore_order ctx = record ctx {
  metadata = remove initial_track_key (remove shuffle_seed_key ctx.metadata);
  tracks = unshuffle ctx.tracks;
}

abbrev pub at_start : StateContext → StateContext
at_start ctx = record ctx { index = new_index }

abbrev pub map_context : (StateContext → StateContext) → Option StateContext → Option StateContext
map_context f none = none
map_context f (some ctx) = some (f ctx)

-- The `match` on the reset.
unfoldable pub apply_reset : ResetContext → ConnectState → ConnectState
apply_reset (when_different uri) s = s
apply_reset completely s = record s {
  context = none;
  autoplay_context = none;
  player = record s.player { context_uri = []; context_url = [] };
}
apply_reset default_index s = record s {
  context = map_context at_start s.context;
  autoplay_context = map_context at_start s.autoplay_context;
}

unfoldable pub reset_context : ResetContext → ConnectState → ConnectState
unfolding effective_reset restore_order apply_reset set_active_context update_restrictions
reset_context reset_as s =
    let s1 = record s { context = map_context restore_order s.context } in
    let s2 = apply_reset (effective_reset s reset_as) s1 in
    update_restrictions (set_active_context default (record s2 { fill_up_context = default }))

-- `is_none_or(|i| i == 0)`
abbrev pub is_none_or_zero : Option ℕ → Bool
is_none_or_zero none = true
is_none_or_zero (some i) = i == 0

unfoldable pub is_skip_track : ConnectState → Track → Option ℕ → Bool
unfolding get_context? lookup
is_skip_track s t iteration = elim (get_context? s.active_context s) [
  | none ↦ false
  | some ctx ↦ elim (lookup initial_track_key ctx.metadata) [
    | none ↦ false
    | some uri ↦ if bytes_eq uri t.uri then is_none_or_zero iteration else false
  ]
]

unfoldable pub update_context_index : ContextType → ℕ → Exec (Unit {0})
unfolding get_context? put_context
update_context_index ty n s = elim (get_context? ty s) [
  | none ↦ (err (no_context ty), s)
  | some ctx ↦
      (ok tt, put_context ty (record ctx { index = record ctx.index { track = n % 2 ^ 32 } }) s)
]

-- `ContextTrack` and `ContextPage`, whose fields may be unset.
pub record ContextTrack : Type 0 where
  pub uri : Option (List ℕ)
  pub uid : Option (List ℕ)
  pub gid : Option (List ℕ)
  pub metadata : Metadata

pub record ContextPage : Type 0 where
  pub page_url : Option (List ℕ)
  pub metadata : Metadata
  pub tracks : List ContextTrack

-- `first_page.and_then(|p| p.tracks.first().and_then(|t| t.uri))`
abbrev pub first_track_uri : Option ContextPage → Option (List ℕ)
first_track_uri none = none
first_track_uri (some page) = elim page.tracks [ [] ↦ none | t ∷ _ ↦ t.uri ]

unfoldable pub find_valid_uri : Option (List ℕ) → Option ContextPage → Option (List ℕ)
unfolding valid_resolve_uri
find_valid_uri none first_page = first_track_uri first_page
find_valid_uri (some uri) first_page = elim (valid_resolve_uri uri) [
  | none ↦ first_track_uri first_page
  | some valid ↦ some valid
]

-- The body of the loop of `merge_context` for a track with a uri.
unfoldable pub merge_entry : List ℕ → ContextTrack → StateContext → StateContext
unfolding find_index_in_context insert_all
merge_entry uri new_track ctx =
    elim (to_option (find_index_in_context ctx (λ t. bytes_eq t.uri uri))) [
      | none ↦ ctx
      | some i ↦ elim (get_elem? ctx.tracks.vec i) [
        | none ↦ ctx
        | some t ↦ record ctx {
          tracks = record ctx.tracks {
            vec = set ctx.tracks.vec i (record t {
              metadata = insert_all new_track.metadata t.metadata;
              uid = or_default t.uid new_track.uid;
            });
          };
        }
      ]
    ]

unfoldable pub merge_tracks : List ContextTrack → StateContext → StateContext
unfolding merge_entry
merge_tracks [] ctx = ctx
merge_tracks (new_track ∷ rest) ctx = elim new_track.uri [
  | none ↦ merge_tracks rest ctx
  | some [] ↦ merge_tracks rest ctx
  | some (c ∷ uri) ↦ merge_tracks rest (merge_entry (c ∷ uri) new_track ctx)
]

unfoldable pub merge_context : Option ContextPage → ConnectState → Option (Unit {0}) × ConnectState
unfolding merge_tracks
merge_context page s = elim s.context [
  | none ↦ (none, s)
  | some ctx ↦ elim page [
    | none ↦ (none, s)
    | some p ↦ (some tt, record s { context = some (merge_tracks p.tracks ctx) })
  ]
]
