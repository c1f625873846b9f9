-- ===== src/Connect/Transfer.antt =====
-- librespot_src/connect/src/state/transfer.rs: the state that is taken over from another device. The field
-- `transfer_shuffle` of the connect state, which only these methods use, is a result of the first and an
-- argument of the second; the playback speed, the origin and the suppressions are left out.
pub mod Bounds
use neotune.Common.{
  ℕ, zero, suc, ◌-◌, ◌^◌, Bool, true, false, not, ◌&&◌, ◌||◌, ◌==◌, Option, none, some, List, [],
  ◌∷◌, ◌++◌, codes, bytes_eq, parse_u64, ltb, if◌then◌else◌, Result, to_option,
}
use neotune.ShuffleVec.{Rng}
use neotune.Connect.Track.{
  Metadata, lookup, insert_all, shuffle_seed_key, initial_track_key, Provider, queue, Track,
  is_queue, is_from_autoplay,
}
use neotune.Connect.State.{
  ContextType, default, autoplay, could_not_resolve_track_from_transfer, ContextPlayerOptions,
  StateContext, PlayerState, ConnectState, with_player, or_default,
}
use neotune.Connect.Player.{
  current_track, shuffling_context, set_active_context, set_index_track, set_track, set_shuffle,
  update_queue_revision, update_restrictions,
}
use neotune.Connect.Exec.{Run, Exec, ◌>>=◌, ◌>>◌, pure, gets, modify, get_context}
use neotune.Connect.Context.{ContextTrack, find_index_in_context}
use neotune.Connect.Tracks.{set_current_track}
use neotune.Connect.Queue.{
  add_to_queue, clear_prev_track, clear_next_tracks, reset_playback_to_position,
}
use neotune.Connect.Handle.{ShuffleState, shuffle_new, shuffle_restore}
use neotune.Connect.Convert.{TrackError, state_error, context_to_provided_track}
use neotune.Connect.Update.{Context}

-- The message `Session`, whose context may be unset.
pub record Session : Type 0 where
  pub context : Option Context
  pub current_uid : Option (List ℕ)

-- The message `TransferState`, with the fields of its queue and its playback.
pub record TransferState : Type 0 where
  pub options : Option ContextPlayerOptions
  pub is_paused : Option Bool
  pub current_track : Option ContextTrack
  pub queue_tracks : List ContextTrack
  pub is_playing_queue : Option Bool
  pub current_session : Option Session

abbrev pub plays_queue : TransferState → Bool
plays_queue transfer = or_default false transfer.is_playing_queue

abbrev first_queued : List ContextTrack → Option ContextTrack
first_queued [] = none
first_queued (t ∷ ts) = some t

abbrev session_context : Option Session → Option Context
session_context none = none
session_context (some session) = session.context

abbrev session_context_uri : Option Context → Option (List ℕ)
session_context_uri none = none
session_context_uri (some context) = context.uri

unfoldable pub current_track_from_transfer :
    (uuid : List ℕ) → TransferState → ConnectState → Result TrackError Track
current_track_from_transfer uuid transfer s =
    elim (if plays_queue transfer
      then first_queued transfer.queue_tracks
      else transfer.current_track) [
        | none ↦ Result.err (state_error could_not_resolve_track_from_transfer)
        | some t ↦
            context_to_provided_track uuid t
              (session_context_uri (session_context transfer.current_session)) none none
              (if plays_queue transfer then some queue else none) s
      ]

abbrev session_metadata : Option Context → Metadata
session_metadata none = []
session_metadata (some context) = context.metadata

abbrev parsed : Option (List ℕ) → Option ℕ
parsed none = none
parsed (some text) = parse_u64 text

-- The seed and the track that the shuffle began with, where both are there.
unfoldable pub transferred_shuffle : Metadata → Option ShuffleState
transferred_shuffle m = elim (parsed (lookup shuffle_seed_key m)) [
  | none ↦ none
  | some seed ↦ elim (lookup initial_track_key m) [
    | none ↦ none
    | some uri ↦ some (record { seed = seed; initial_track = uri })
  ]
]

-- The restrictions and the metadata of the context that is handed over.
unfoldable pub take_session : Option Context → PlayerState → PlayerState
take_session none p = p
take_session (some context) p = record p {
  restrictions = context.restrictions;
  context_metadata = insert_all context.metadata p.context_metadata;
}

abbrev present :
    Option ContextPlayerOptions → Option ContextPlayerOptions → Option ContextPlayerOptions
present none old = old
present (some options) old = some options

abbrev unknown_uri : List ℕ
unknown_uri = codes "spotify:unknown"

abbrev own_metadata : Option StateContext → Metadata
own_metadata none = []
own_metadata (some ctx) = ctx.metadata

unfoldable pub transferred_player :
    TransferState → Option (List ℕ) → Metadata → PlayerState → PlayerState
transferred_player transfer ctx_uri metadata p =
    let paused = or_default false transfer.is_paused in
    let uri = or_default unknown_uri ctx_uri in
    let p1 = take_session (session_context transfer.current_session) (record p {
      is_buffering = false;
      options = present transfer.options p.options;
      is_paused = paused;
      is_playing = not paused;
    }) in
    record p1 {
      context_url = codes "context://" ++ uri;
      context_uri = uri;
      context_metadata = insert_all metadata p1.context_metadata;
    }

-- "handles the initially transferable data"
unfoldable pub handle_initial_transfer :
    TransferState → Option (List ℕ) → ConnectState → Option ShuffleState × ConnectState
handle_initial_transfer transfer ctx_uri s = (
  transferred_shuffle (session_metadata (session_context transfer.current_session)),
  update_queue_revision (
      clear_next_tracks (
        clear_prev_track
          (with_player s (transferred_player transfer ctx_uri (own_metadata s.context) s.player)))),
)

abbrev session_uid : Option Session → Option (List ℕ)
session_uid none = none
session_uid (some session) = session.current_uid

abbrev before : Option ℕ → Option ℕ
before none = none
before (some i) = some (if ltb 0 i then i - 1 else i)

-- Where a queued track stands, the context goes on behind the track before it.
unfoldable pub transferred_index : TransferState → Track → StateContext → Option ℕ
transferred_index transfer t ctx =
    let here =
      to_option (find_index_in_context ctx (λ c. bytes_eq c.uri t.uri || bytes_eq c.uid t.uid)) in
    elim (session_uid transfer.current_session) [
      | none ↦ here
      | some uid ↦
          if is_queue t
          then before (to_option (find_index_in_context ctx (λ c. bytes_eq c.uid uid)))
          else here
    ]

unfoldable pub set_missing_track : Track → ConnectState → ConnectState
set_missing_track t s = elim s.player.track [ none ↦ set_track t s | some old ↦ s ]

unfoldable pub set_found_index : Option ℕ → ConnectState → ConnectState
set_found_index none s = s
set_found_index (some i) s = set_index_track i s

unfoldable pub queue_one : (uuid : List ℕ) → ContextTrack → ConnectState → ConnectState
queue_one uuid t s =
    elim (context_to_provided_track uuid t (some s.player.context_uri) none none (some queue) s) [
      | Result.ok u ↦ add_to_queue u false s
      | Result.err e ↦ s
    ]

-- The loop over the queue from an index on; the track that is played from the queue is left out.
unfoldable pub queue_transferred :
    (uuids : ℕ → List ℕ)
    → (skips_first : Bool) → ℕ
    → List ContextTrack
    → ConnectState
    → ConnectState
queue_transferred uuids skips_first i [] s = s
queue_transferred uuids skips_first i (t ∷ ts) s = elim (skips_first && i == 0) [
  | true ↦ queue_transferred uuids skips_first (suc i) ts s
  | false ↦ queue_transferred uuids skips_first (suc i) ts (queue_one (uuids i) t s)
]

abbrev pub shuffle_transferred : Rng → ℕ → Option ShuffleState → Exec (Unit {0})
shuffle_transferred g new_seed none = shuffle_new g new_seed
shuffle_transferred g new_seed (some state) = shuffle_restore g state

unfoldable pub set_up : Rng → ℕ → Option ShuffleState → Option ℕ → Bool → Exec (Unit {0})
set_up g new_seed shuffle i true = do
  set_current_track (or_default 0 i)
  modify (set_shuffle true)
  shuffle_transferred g new_seed shuffle
set_up g new_seed shuffle i false = reset_playback_to_position i

abbrev pub transferred_type : ConnectState → ContextType
transferred_type s = if is_from_autoplay (current_track s) then autoplay else default

unfoldable pub finish_with :
    (uuids : ℕ → List ℕ) → Rng → ℕ → TransferState → Option ShuffleState → Track → Exec (Unit {0})
finish_with uuids g new_seed transfer shuffle t = do
  ty ← gets transferred_type
  modify (set_active_context ty)
  modify (λ s. record s { fill_up_context = ty })
  ctx ← get_context ty
  modify (set_missing_track t)
  modify (set_found_index (transferred_index transfer t ctx))
  modify (queue_transferred uuids (plays_queue transfer) 0 transfer.queue_tracks)
  shuffling ← gets shuffling_context
  set_up g new_seed shuffle (transferred_index transfer t ctx) shuffling
  modify update_restrictions

-- "completes the transfer, loading the queue and updating metadata". An `err` is that of the current track.
unfoldable pub finish_transfer :
    (uuid : List ℕ) (uuids : ℕ → List ℕ)
    → Rng
    → ℕ
    → TransferState
    → Option ShuffleState
    → ConnectState
    → Result TrackError (Run (Unit {0})) × ConnectState
finish_transfer uuid uuids g new_seed transfer shuffle s = elim s.player.track [
  | some t ↦ (let (r, s1) = finish_with uuids g new_seed transfer shuffle t s in (Result.ok r, s1))
  | none ↦ elim (current_track_from_transfer uuid transfer s) [
    | Result.err e ↦ (Result.err e, s)
    | Result.ok t ↦
        (let (r, s1) = finish_with uuids g new_seed transfer shuffle t s in (Result.ok r, s1))
  ]
]
