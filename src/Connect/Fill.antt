-- ===== src/Connect/Fill.antt =====
-- librespot_src/connect/src/state/tracks.rs: `fill_up_next_tracks`, which tops up the next tracks
-- from the context, and goes on with the context from its start or with the autoplay context.
pub mod Rounds
pub mod Loop
pub mod Result
pub mod Plain
use neotune.Common.{
  ℕ, zero, suc, ◌+◌, ◌-◌, ◌*◌, ◌%◌, ◌^◌, Bool, true, false, not, ◌&&◌, ◌||◌, Option, none, some,
  List, [], ◌∷◌, ◌++◌, map, codes, bytes_eq, starts_with, show_u64, leb, ltb, ◌==◌, length, take,
  drop, get_elem?, add_u64, sub_usize, if◌then◌else◌,
}
use neotune.ShuffleVec.{position}
use neotune.Connect.Track.{
  Track, Provider, context, queue, unavailable, is_autoplay, is_context, is_queue, is_unavailable,
  set_provider, is_from_queue, get_context_index, set_from_queue, set_hidden, set_iteration,
  provider_text, default_track,
}
use neotune.Connect.State.{
  max_prev_tracks, max_next_tracks, ContextType, default, autoplay, StateError, no_context,
  can_not_find_track_in_context, StateContext, ConnectState, with_player, or_default, new_index,
}
use neotune.Connect.Player.{
  current_track, repeat_context, repeat_track, get_context?, set_active_context, set_index_track,
  set_track, set_next, set_prev, set_repeat_track, update_queue_revision, update_restrictions,
}
use neotune.Connect.Exec.{
  Run, ok, err, out_of_fuel, Exec, after, ◌>>=◌, ◌>>◌, pure, fail, gets, modify, or_fail,
  get_context,
}
use neotune.Connect.Context.{is_skip_track, update_context_index}

abbrev pub identifier_delimiter : List ℕ
identifier_delimiter = codes "delimiter"

unfoldable pub new_delimiter : ℕ → Track
unfolding set_iteration set_hidden show_u64
new_delimiter iteration = set_iteration iteration (
    set_hidden (record {
      uri = codes "spotify:delimiter";
      uid = identifier_delimiter ++ show_u64 iteration;
      metadata = [];
      provider = provider_text context;
    }))

abbrev pub is_delimiter : Track → Bool
is_delimiter t = starts_with t.uid identifier_delimiter

abbrev pub push_next : Track → ConnectState → ConnectState
push_next t s = with_player s (record s.player { next_tracks = s.player.next_tracks ++ (t ∷ []) })

-- What a round of the loop in `fill_up_next_tracks` does with `new_index` and `iteration`.
pub data Round : Type 0 where
  stop : Round
  failed : StateError → ConnectState → Round
  continue : ℕ → ℕ → ConnectState → Round

-- The arm that goes on with the autoplay context.
unfoldable pub to_autoplay : ℕ → ℕ → ConnectState → Round
unfolding update_context_index get_context? new_delimiter
to_autoplay i iteration s =
    let (r, s1) = update_context_index s.fill_up_context i s in
    let s2 = record s1 { fill_up_context = autoplay } in
    elim r [
      | ok _ ↦ elim (get_context? autoplay s2) [
        | none ↦ failed (no_context autoplay) s2
        | some auto ↦ continue auto.index.track iteration (push_next (new_delimiter iteration) s2)
      ]
      | err e ↦ failed e s1
      | out_of_fuel ↦ stop
      | Run.panicked ↦ stop
    ]

-- The arms for the end of the context, in their order.
unfoldable pub at_end : ℕ → ℕ → ConnectState → Round
unfolding to_autoplay repeat_context new_delimiter
at_end i iteration s =
    if repeat_context s
    then continue 0 ((iteration + 1) % 2 ^ 32) (push_next (new_delimiter iteration) s)
    else elim s.autoplay_context [
      | none ↦ stop
      | some auto ↦ elim s.fill_up_context [
        | default ↦ to_autoplay i iteration s
        | autoplay ↦ elim (get_elem? auto.tracks.vec i) [
          | none ↦ stop
          | some t ↦ continue (i + 1) iteration (push_next t s)
        ]
      ]
    ]

unfoldable pub fill_up_round : StateContext → ℕ → ℕ → ConnectState → Round
unfolding at_end is_skip_track is_unavailable
fill_up_round ctx i iteration s = elim (get_elem? ctx.tracks.vec i) [
  | none ↦ at_end i iteration s
  | some t ↦
      if is_unavailable t || is_skip_track s t (some iteration)
      then continue (i + 1) iteration s
      else continue (i + 1) iteration (push_next t s)
]

-- The loop, which returns the index that it got to.
unfoldable pub fill_up_loop : ℕ → ℕ → ℕ → Exec ℕ
unfolding fill_up_round get_context?
fill_up_loop zero i iteration s = (out_of_fuel, s)
fill_up_loop (suc fuel) i iteration s = elim (ltb (length s.player.next_tracks) max_next_tracks) [
  | false ↦ (ok i, s)
  | true ↦ elim (get_context? s.fill_up_context s) [
    | none ↦ (err (no_context s.fill_up_context), s)
    | some ctx ↦ elim (fill_up_round ctx i iteration s) [
      | stop ↦ (ok i, s)
      | failed e s' ↦ (err e, s')
      | continue i' iteration' s' ↦ fill_up_loop fuel i' iteration' s'
    ]
  ]
]

abbrev pub track_count : Option StateContext → ℕ
track_count none = 0
track_count (some ctx) = length ctx.tracks.vec

-- The rounds there can be: at most the two contexts' tracks between two pushes.
unfoldable pub fill_up_fuel : ConnectState → ℕ
fill_up_fuel s =
    (max_next_tracks + 1) * (track_count s.context + track_count s.autoplay_context + 2)

unfoldable pub fill_up_next_tracks : Exec (Unit {0})
unfolding get_context fill_up_loop fill_up_fuel update_context_index update_queue_revision
fill_up_next_tracks = do
  ty ← gets (λ s. s.fill_up_context)
  ctx ← get_context ty
  fuel ← gets fill_up_fuel
  i ← fill_up_loop fuel ctx.index.track ctx.index.page
  ty' ← gets (λ s. s.fill_up_context)
  update_context_index ty' i
  modify update_queue_revision
