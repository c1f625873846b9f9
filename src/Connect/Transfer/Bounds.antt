-- ===== src/Connect/Transfer/Bounds.antt =====
-- librespot_src/connect/src/state/transfer.rs: the bounds of the lists under a transfer.
use neotune.Common.{
  ℕ, suc, ◌≡◌, refl, inl, inr, Bool, true, false, ◌&&◌, ◌==◌, Option, none, some, List, [], ◌∷◌,
  arith, Bool-cases, Option-cases, Result-cases,
}
use neotune.ShuffleVec.{Rng}
use neotune.Connect.Track.{Track, queue}
use neotune.Connect.State.{ConnectState, PlayerState, or_default}
use neotune.Connect.Player.{
  set_active_context, set_index_track, set_track, set_shuffle, set_prev, update_queue_revision,
  update_restrictions, shuffling_context,
}
use neotune.Connect.Exec.{modify, get_context}
use neotune.Connect.Context.{ContextTrack}
use neotune.Connect.Tracks.{set_current_track}
use neotune.Connect.Tracks.Bounds.{
  IsBounded, SameLists-IsBounded, set_active_context-SameLists, update_restrictions-SameLists,
}
use neotune.Connect.Queue.{clear_prev_track}
use neotune.Connect.Queue.Bounds.{
  Keeps, Keeps-bind, Keeps-get_context, Keeps-set_current_track, clear_next_tracks-IsBounded,
  reset_playback_to_position-IsBounded,
}
use neotune.Connect.Queue.Order.{add_to_queue-IsBounded}
use neotune.Connect.Handle.{ShuffleState, shuffle, validate_shuffle_allowed, shuffle_restore}
use neotune.Connect.Handle.Bounds.{Keeps-shuffle_new, Keeps-validate, Keeps-shuffle}
use neotune.Connect.Convert.{context_to_provided_track}
use neotune.Connect.Update.{Context}
use neotune.Connect.Transfer.{
  TransferState, plays_queue, transferred_type, current_track_from_transfer, take_session,
  transferred_player, handle_initial_transfer, transferred_index, set_missing_track,
  set_found_index, queue_one, queue_transferred, shuffle_transferred, set_up, finish_with,
  finish_transfer,
}

take_session-next_tracks :
    (o : Option Context) (p : PlayerState) → (take_session o p).next_tracks ≡ p.next_tracks
unfolding take_session
take_session-next_tracks none p = refl
take_session-next_tracks (some context) p = refl

-- After the initial part of a transfer there are no previous tracks, and no more next tracks than before.
pub handle_initial_transfer-IsBounded :
    (transfer : TransferState) (uri : Option (List ℕ)) (s : ConnectState)
    → IsBounded s
    → IsBounded (handle_initial_transfer transfer uri s).1
unfolding handle_initial_transfer update_queue_revision clear_prev_track set_prev transferred_player
handle_initial_transfer-IsBounded transfer uri s (n, p) =
    clear_next_tracks-IsBounded _ (rw (take_session-next_tracks _ _) n, omega arith)

queue_one-IsBounded :
    (uuid : List ℕ) (t : ContextTrack) (s : ConnectState)
    → IsBounded s
    → IsBounded (queue_one uuid t s)
unfolding queue_one
queue_one-IsBounded uuid t s b =
    elim (Result-cases
      (context_to_provided_track uuid t (some s.player.context_uri) none none (some queue) s)) [
        | inl (x, e) ↦ simp (queue_one, e) b
        | inr (u, e) ↦ simp (queue_one, e) (add_to_queue-IsBounded u false s b)
      ]

Keeps-queue_transferred :
    (uuids : ℕ → List ℕ) (skips : Bool) (i : ℕ) (ts : List ContextTrack)
    → Keeps (modify (queue_transferred uuids skips i ts))
unfolding queue_transferred
Keeps-queue_transferred uuids skips i [] s b = b
Keeps-queue_transferred uuids skips i (t ∷ ts) s b = elim (Bool-cases (skips && i == 0)) [
  | inl e ↦ simp (queue_transferred, e) (Keeps-queue_transferred uuids skips (suc i) ts s b)
  | inr e ↦
      simp (queue_transferred, e)
        (Keeps-queue_transferred uuids skips (suc i) ts (queue_one (uuids i) t s)
          (queue_one-IsBounded (uuids i) t s b))
]

Keeps-shuffle_transferred :
    (g : Rng) (seed : ℕ) (o : Option ShuffleState) → Keeps (shuffle_transferred g seed o)
unfolding shuffle_restore
Keeps-shuffle_transferred g seed none = Keeps-shuffle_new g seed
Keeps-shuffle_transferred g seed (some state) =
    Keeps-bind validate_shuffle_allowed (λ _. shuffle g state.seed state.initial_track)
      Keeps-validate (λ _. Keeps-shuffle g state.seed state.initial_track)

Keeps-set_up :
    (g : Rng) (seed : ℕ) (o : Option ShuffleState) (i : Option ℕ) (on : Bool)
    → Keeps (set_up g seed o i on)
unfolding set_up set_shuffle
Keeps-set_up g seed o i true =
    Keeps-bind (set_current_track (or_default 0 i)) _ (Keeps-set_current_track (or_default 0 i))
      (λ _ s b. Keeps-shuffle_transferred g seed o (set_shuffle true s) b)
Keeps-set_up g seed o i false = reset_playback_to_position-IsBounded i

set_missing_track-IsBounded :
    (t : Track) (s : ConnectState) → IsBounded s → IsBounded (set_missing_track t s)
unfolding set_missing_track set_track
set_missing_track-IsBounded t s b = elim (Option-cases s.player.track) [
  | inl e ↦ simp (set_missing_track, e) b
  | inr (old, e) ↦ simp (set_missing_track, e) b
]

set_found_index-IsBounded :
    (i : Option ℕ) (s : ConnectState) → IsBounded s → IsBounded (set_found_index i s)
unfolding set_found_index set_index_track
set_found_index-IsBounded none s b = b
set_found_index-IsBounded (some i) s b = b

Keeps-finish_with :
    (uuids : ℕ → List ℕ) (g : Rng) (seed : ℕ) (transfer : TransferState) (o : Option ShuffleState)
    (t : Track)
    → Keeps (finish_with uuids g seed transfer o t)
unfolding finish_with
Keeps-finish_with uuids g seed transfer o t s b =
    let ty = transferred_type s in
    let s1 = record (set_active_context ty s) { fill_up_context = ty } in
    Keeps-bind (get_context ty) _ (Keeps-get_context ty)
      (λ ctx s2 b2.
        let i = transferred_index transfer t ctx in
        let s4 = set_found_index i (set_missing_track t s2) in
        let s5 = queue_transferred uuids (plays_queue transfer) 0 transfer.queue_tracks s4 in
        let b4 = set_found_index-IsBounded i _ (set_missing_track-IsBounded t s2 b2) in
        Keeps-bind (set_up g seed o i (shuffling_context s5)) (λ _. modify update_restrictions)
          (Keeps-set_up g seed o i (shuffling_context s5))
          (λ _ s6 b6.
            SameLists-IsBounded s6 (update_restrictions s6) (update_restrictions-SameLists s6) b6)
          s5 (Keeps-queue_transferred uuids (plays_queue transfer) 0 transfer.queue_tracks s4 b4))
      s1 (SameLists-IsBounded s (set_active_context ty s) (set_active_context-SameLists ty s) b)

-- Completing a transfer keeps the bounds of the lists, whether it fails or not.
pub finish_transfer-IsBounded :
    (uuid : List ℕ) (uuids : ℕ → List ℕ) (g : Rng) (seed : ℕ) (transfer : TransferState)
    (o : Option ShuffleState) (s : ConnectState)
    → IsBounded s
    → IsBounded (finish_transfer uuid uuids g seed transfer o s).1
unfolding finish_transfer
finish_transfer-IsBounded uuid uuids g seed transfer o s b = elim (Option-cases s.player.track) [
  | inr (t, e) ↦ simp (finish_transfer, e) (Keeps-finish_with uuids g seed transfer o t s b)
  | inl e ↦ elim (Result-cases (current_track_from_transfer uuid transfer s)) [
    | inl (x, f) ↦ simp (finish_transfer, e, f) b
    | inr (t, f) ↦ simp (finish_transfer, e, f) (Keeps-finish_with uuids g seed transfer o t s b)
  ]
]
