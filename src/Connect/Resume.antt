-- ===== src/Connect/Resume.antt =====
-- librespot_src/connect/src/state/context.rs: where a new version of the same context is continued.
use neotune.Common.{
  ℕ, ◌+◌, ◌-◌, ◌%◌, ◌^◌, ◌||◌, Option, none, some, List, [], ◌∷◌, bytes_eq, leb, reverse,
  if◌then◌else◌, Result, to_option,
}
use neotune.Connect.Track.{Track, is_queue, is_from_queue}
use neotune.Connect.State.{max_next_tracks, new_index, StateContext, ConnectState, or_default}
use neotune.Connect.Player.{current_track}
use neotune.Connect.Context.{find_index_in_context}

-- The loop over the previous tracks, the last one first.
unfoldable pub first_found : StateContext → List Track → Option ℕ
unfolding find_index_in_context
first_found ctx [] = none
first_found ctx (t ∷ ts) =
    elim (to_option (find_index_in_context ctx (λ c. bytes_eq t.uri c.uri))) [
      | none ↦ first_found ctx ts
      | some i ↦ some i
    ]

unfoldable pub find_first_prev_track_index : ConnectState → StateContext → Option ℕ
unfolding first_found
find_first_prev_track_index s ctx = first_found ctx (reverse s.player.prev_tracks)

-- The index before `as u32 + 1`.
unfoldable pub last_index : ConnectState → StateContext → StateContext → Option ℕ
unfolding find_first_prev_track_index find_index_in_context is_queue is_from_queue current_track
last_index s ctx new_context =
    if leb max_next_tracks ctx.index.track
    then some (ctx.index.track - max_next_tracks)
    else if is_queue (current_track s) || is_from_queue (current_track s)
    then find_first_prev_track_index s new_context
    else to_option (find_index_in_context new_context (λ c. bytes_eq (current_track s).uri c.uri))

-- `ok` holds a found position, `err` the fallback.
unfoldable pub find_last_index_in_new_context : ConnectState → StateContext → Option (Result ℕ ℕ)
unfolding last_index
find_last_index_in_new_context s new_context = elim s.context [
  | none ↦ none
  | some ctx ↦ elim (last_index s ctx new_context) [
    | none ↦ some (Result.err (or_default new_index s.player.index).track)
    | some i ↦ some (Result.ok ((i % 2 ^ 32 + 1) % 2 ^ 32))
  ]
]
