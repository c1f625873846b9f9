-- ===== src/Connect/Queue/Order.antt =====
-- librespot_src/connect/src/state/tracks.rs: the order of the queue.
use neotune.Common.{
  take_all, ℕ, suc, ◌+◌, ◌≤◌, ◌≡◌, refl, ap, ◌∙◌, inl, inr, Bool, true, false, List, [], ◌∷◌, ◌++◌,
  length, length-take, take, drop, arith, Bool-cases, bytes_eq_refl, map, add_u64,
}
use neotune.Connect.Track.{
  Track, queue, provider_text, is_queue, is_from_queue, set_provider, set_from_queue,
}
use neotune.Connect.State.{max_next_tracks, ConnectState}
use neotune.Connect.Player.{update_queue_revision, update_restrictions}
use neotune.Connect.Tracks.Bounds.{IsBounded}
use neotune.Connect.Queue.{
  queued, queue_uid, insert_queued, add_to_queue, queued_front, requeue, set_next_tracks,
  handle_set_queue,
}

-- The tracks behind the queue.
abbrev pub behind_queue : List Track → List Track
behind_queue ts = drop (length (queued_front ts)) ts

insert_queued_lem :
    (t : Track) (ts : List Track) → insert_queued t ts ≡ queued_front ts ++ (t ∷ behind_queue ts)
unfolding insert_queued queued_front
insert_queued_lem t [] = refl
insert_queued_lem t (n ∷ ns) = elim (Bool-cases (is_queue n)) [
  | inl q ↦ rw (insert_queued, queued_front, q) (ap (λ l. n ∷ l) (insert_queued_lem t ns))
  | inr nq ↦ rw (insert_queued, queued_front, nq) refl
]

add_to_queue-next :
    (t : Track) (rev : Bool) (s : ConnectState)
    → (add_to_queue t rev s).player.next_tracks
      ≡ take max_next_tracks (insert_queued (queued s.queue_count t) s.player.next_tracks)
unfolding add_to_queue update_restrictions update_queue_revision
add_to_queue-next t true s = refl
add_to_queue-next t false s = refl

add_to_queue-prev :
    (t : Track) (rev : Bool) (s : ConnectState)
    → (add_to_queue t rev s).player.prev_tracks ≡ s.player.prev_tracks
unfolding add_to_queue update_restrictions update_queue_revision
add_to_queue-prev t true s = refl
add_to_queue-prev t false s = refl

add_to_queue-count :
    (t : Track) (rev : Bool) (s : ConnectState)
    → (add_to_queue t rev s).queue_count ≡ add_u64 s.queue_count 1
unfolding add_to_queue update_restrictions update_queue_revision
add_to_queue-count t true s = refl
add_to_queue-count t false s = refl

-- A track is queued behind the tracks of the queue and in front of all others, of which the last
-- ones fall off beyond 80.
pub add_to_queue_lem :
    (t : Track) (rev : Bool) (s : ConnectState)
    → (add_to_queue t rev s).player.next_tracks
      ≡ take max_next_tracks (
          queued_front s.player.next_tracks
          ++ (queued s.queue_count t ∷ behind_queue s.player.next_tracks))
add_to_queue_lem t rev s =
    add_to_queue-next t rev s
    ∙ ap (take max_next_tracks) (insert_queued_lem (queued s.queue_count t) s.player.next_tracks)

-- Adding to the queue leaves at most 80 next tracks and keeps the previous ones.
pub add_to_queue-IsBounded :
    (t : Track) (rev : Bool) (s : ConnectState) → IsBounded s → IsBounded (add_to_queue t rev s)
add_to_queue-IsBounded t rev s (n, p) =
    let l =
      length-take max_next_tracks (insert_queued (queued s.queue_count t) s.player.next_tracks) in
    rw (add_to_queue-next t rev s, add_to_queue-prev t rev s) (omega arith, p)

queued-is_queue : (n : ℕ) (t : Track) → is_queue (queued n t) ≡ true
unfolding queued is_queue set_provider set_from_queue
queued-is_queue n t =
    elim (Bool-cases (is_from_queue (record (set_provider queue t) { uid = queue_uid n }))) [
      | inl f ↦ rw (queued, f) (bytes_eq_refl (provider_text queue))
      | inr nf ↦ rw (queued, nf) (bytes_eq_refl (provider_text queue))
    ]

insert_queued_twice :
    (a b : Track) (ts : List Track)
    → is_queue a ≡ true
    → insert_queued b (insert_queued a ts) ≡ queued_front ts ++ (a ∷ b ∷ behind_queue ts)
unfolding insert_queued queued_front
insert_queued_twice a b [] h = rw (insert_queued, h) refl
insert_queued_twice a b (n ∷ ns) h = elim (Bool-cases (is_queue n)) [
  | inl q ↦
      rw (insert_queued, queued_front, q, insert_queued, q)
        (ap (λ l. n ∷ l) (insert_queued_twice a b ns h))
  | inr nq ↦ rw (insert_queued, queued_front, nq, h, insert_queued, nq) refl
]

length-insert_queued : (t : Track) (ts : List Track) → length (insert_queued t ts) ≡ suc (length ts)
unfolding insert_queued
length-insert_queued t [] = refl
length-insert_queued t (n ∷ ns) = elim (Bool-cases (is_queue n)) [
  | inl q ↦ rw (insert_queued, q) (ap suc (length-insert_queued t ns))
  | inr nq ↦ rw (insert_queued, nq) refl
]

-- Where there is room for two, the track that is queued first is played first; both are played
-- behind what was queued before, and in front of everything else.
pub add_to_queue-add_to_queue :
    (a b : Track) (rev : Bool) (s : ConnectState)
    → length s.player.next_tracks + 2 ≤ max_next_tracks
    → (add_to_queue b rev (add_to_queue a rev s)).player.next_tracks
      ≡ queued_front s.player.next_tracks
        ++ (queued s.queue_count a
            ∷ queued (add_u64 s.queue_count 1) b
            ∷ behind_queue s.player.next_tracks)
add_to_queue-add_to_queue a b rev s room =
    let a' = queued s.queue_count a in
    let b' = queued (add_u64 s.queue_count 1) b in
    let next = s.player.next_tracks in
    let one = length-insert_queued a' next in
    let two = length-insert_queued b' (insert_queued a' next) in
    let first = take_all max_next_tracks (insert_queued a' next) (omega arith) in
    let second =
      take_all max_next_tracks (insert_queued b' (insert_queued a' next)) (omega arith) in
    rw
      (
        add_to_queue-next b rev (add_to_queue a rev s),
        add_to_queue-next a rev s,
        add_to_queue-count a rev s,
        first,
        second,
      )
      (insert_queued_twice a' b' next (queued-is_queue s.queue_count a))

length-requeue : (n : ℕ) (ts : List Track) → length (requeue n ts).1 ≡ length ts
unfolding requeue
length-requeue n [] = refl
length-requeue n (t ∷ ts) = elim (Bool-cases (is_from_queue t)) [
  | inl f ↦ rw (requeue, f) (ap suc (length-requeue (add_u64 n 1) ts))
  | inr nf ↦ rw (requeue, nf) (ap suc (length-requeue n ts))
]

length-map_tracks : (f : Track → Track) (ts : List Track) → length (map f ts) ≡ length ts
length-map_tracks f [] = refl
length-map_tracks f (t ∷ ts) = ap suc (length-map_tracks f ts)

-- `handle_set_queue` takes over as many tracks as it is sent, whatever their number.
pub length-handle_set_queue :
    (next prev : List Track) (s : ConnectState)
    → (length (handle_set_queue next prev s).player.next_tracks ≡ length next)
      × ((handle_set_queue next prev s).player.prev_tracks ≡ prev)
unfolding handle_set_queue set_next_tracks update_queue_revision
length-handle_set_queue next prev s =
    (length-map_tracks _ (requeue s.queue_count next).1 ∙ length-requeue s.queue_count next, refl)
