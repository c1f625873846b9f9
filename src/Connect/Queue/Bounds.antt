-- ===== src/Connect/Queue/Bounds.antt =====
-- librespot_src/connect/src/state/tracks.rs and state.rs: the bounds of the lists under
-- `mark_unavailable` and `reset_playback_to_position`.
use neotune.Common.{
  length-reverse_onto, ℕ, zero, suc, ◌+◌, ◌≤◌, ◌≡◌, refl, ap, inl, inr, Bool, true, false, Option,
  none, some, List, [], ◌∷◌, ◌++◌, length, length-take, take, drop, reverse, map, arith, bytes_eq,
  Bool-cases, Option-cases, get_elem?, if◌then◌else◌, sub_usize,
}
use neotune.Connect.Track.{Track, is_queue}
use neotune.Connect.State.{
  max_prev_tracks, ContextType, default, autoplay, ConnectState, or_default, StateError,
}
use neotune.Connect.Player.{
  get_context?, put_context, update_queue_revision, update_restrictions, set_index_track, set_track,
  set_prev, set_next,
}
use neotune.Connect.Exec.{Exec, ◌>>=◌, ◌>>◌, modify, pure, or_fail, get_context}
use neotune.Connect.Context.{update_context_index}
use neotune.Connect.Fill.{fill_up_next_tracks}
use neotune.Connect.Tracks.{set_current_track}
use neotune.Connect.Tracks.Bounds.{
  IsBounded, SameLists-IsBounded, fill_up_next_tracks-IsBounded, after-IsBounded,
  update_restrictions-SameLists,
}
use neotune.Connect.Queue.{
  remove_uri, mark_as_unavailable_for_match, mark_unavailable, queued_front, clear_next_tracks,
  clear_prev_track, tracks_before, prev_from_context, keeps_current, reset_playback_to_position,
}

length-remove_uri : (uri : List ℕ) (ts : List Track) → length (remove_uri uri ts) ≤ length ts
unfolding remove_uri
length-remove_uri uri [] = omega arith
length-remove_uri uri (t ∷ ts) =
    let l = length-remove_uri uri ts in
    elim (Bool-cases (bytes_eq t.uri uri)) [
      | inl e ↦ rw (remove_uri, e) (omega arith)
      | inr e ↦ rw (remove_uri, e) (omega arith)
    ]

length-map_marked :
    (uri : List ℕ) (ts : List Track)
    → length (map (mark_as_unavailable_for_match uri) ts) ≡ length ts
length-map_marked uri [] = refl
length-map_marked uri (t ∷ ts) = ap suc (length-map_marked uri ts)

-- The state in which the track is taken out of the lists.
abbrev marked : List ℕ → ConnectState → ConnectState
marked uri s = record s {
  unavailable_uri = s.unavailable_uri ++ (uri ∷ []);
  player = record s.player {
    next_tracks = map (mark_as_unavailable_for_match uri) (remove_uri uri s.player.next_tracks);
    prev_tracks = map (mark_as_unavailable_for_match uri) (remove_uri uri s.player.prev_tracks);
  };
}

-- Marking a track as unavailable keeps the bounds.
pub mark_unavailable-IsBounded :
    (uri : List ℕ) (s : ConnectState) → IsBounded s → IsBounded (mark_unavailable uri s).1
unfolding mark_unavailable update_queue_revision
mark_unavailable-IsBounded uri s (n, p) =
    let n1 = length-remove_uri uri s.player.next_tracks in
    let n2 = length-map_marked uri (remove_uri uri s.player.next_tracks) in
    let p1 = length-remove_uri uri s.player.prev_tracks in
    let p2 = length-map_marked uri (remove_uri uri s.player.prev_tracks) in
    after-IsBounded (fill_up_next_tracks (marked uri s)) _ (λ _ s' b. b)
      (fill_up_next_tracks-IsBounded (marked uri s) (omega arith, omega arith))

update_context_index-IsBounded :
    (ty : ContextType) (i : ℕ) (s : ConnectState)
    → IsBounded s
    → IsBounded (update_context_index ty i s).1
unfolding update_context_index get_context? put_context
update_context_index-IsBounded default i s b = elim (Option-cases s.context) [
  | inl e ↦ rw (update_context_index, get_context?, e) b
  | inr (ctx, e) ↦ rw (update_context_index, get_context?, e) b
]
update_context_index-IsBounded autoplay i s b = elim (Option-cases s.autoplay_context) [
  | inl e ↦ rw (update_context_index, get_context?, e) b
  | inr (ctx, e) ↦ rw (update_context_index, get_context?, e) b
]

pub length-queued_front : (ts : List Track) → length (queued_front ts) ≤ length ts
unfolding queued_front
length-queued_front [] = omega arith
length-queued_front (t ∷ ts) =
    let l = length-queued_front ts in
    elim (Bool-cases (is_queue t)) [
      | inl e ↦ rw (queued_front, e) (omega arith)
      | inr e ↦ rw (queued_front, e) (omega arith)
    ]

length-tracks_before : (i : ℕ) (ts : List Track) → length (tracks_before i ts) ≤ max_prev_tracks
unfolding tracks_before
length-tracks_before i ts =
    let before = drop (sub_usize (length ts) i) (reverse ts) in
    let l = length-reverse_onto (take max_prev_tracks before) [] in
    let t = length-take max_prev_tracks before in omega arith

-- A method that keeps the bounds, whether it fails or not.
abbrev pub Keeps : {A : Type 0} → Exec A → Type 0
Keeps m = (s : ConnectState) → IsBounded s → IsBounded (m s).1

pub Keeps-bind :
    {A B : Type 0} (m : Exec A) (f : A → Exec B)
    → Keeps m
    → ((a : A) → Keeps (f a))
    → Keeps (m >>= f)
Keeps-bind m f hm hf s b = after-IsBounded (m s) f hf (hm s b)

pub Keeps-get_context : (ty : ContextType) → Keeps (get_context ty)
unfolding get_context
Keeps-get_context ty s b = elim (Option-cases (get_context? ty s)) [
  | inl e ↦ rw (get_context, e) b
  | inr (ctx, e) ↦ rw (get_context, e) b
]

Keeps-or_fail : {A : Type 0} (o : Option A) (e : StateError) → Keeps (or_fail o e)
Keeps-or_fail none e s b = b
Keeps-or_fail (some a) e s b = b

pub Keeps-set_current_track : (i : ℕ) → Keeps (set_current_track i)
unfolding set_current_track set_track set_index_track
Keeps-set_current_track i s b =
    Keeps-bind (get_context s.active_context) _ (Keeps-get_context s.active_context)
      (λ ctx.
        Keeps-bind (or_fail (get_elem? ctx.tracks.vec i) _) _ (Keeps-or_fail _ _) (λ t s' b'. b'))
      s b

Keeps-prev_from_context : (i : ℕ) → Keeps (prev_from_context i)
unfolding prev_from_context set_prev
Keeps-prev_from_context zero s b = b
Keeps-prev_from_context (suc i) s b =
    Keeps-bind (get_context s.active_context) _ (Keeps-get_context s.active_context)
      (λ ctx s' b'. (b'.0, length-tracks_before (suc i) ctx.tracks.vec)) s b

abbrev reload : ℕ → Exec (Unit {0})
reload i = do
  modify clear_prev_track
  prev_from_context i
  modify clear_next_tracks
  fill_up_next_tracks
  modify update_restrictions

-- The part of the reset behind the choice of the current track.
Keeps-reload : (i : ℕ) → Keeps (reload i)
unfolding clear_prev_track set_prev clear_next_tracks set_next
Keeps-reload i s (n, p) =
    Keeps-bind (prev_from_context i) _ (Keeps-prev_from_context i)
      (λ _ s1 (n1, p1).
        let l = length-queued_front s1.player.next_tracks in
        Keeps-bind fill_up_next_tracks _ fill_up_next_tracks-IsBounded
          (λ _ s2 b2.
            SameLists-IsBounded s2 (update_restrictions s2) (update_restrictions-SameLists s2) b2)
          (clear_next_tracks s1) (omega arith, p1))
      (clear_prev_track s) (n, omega arith)

Keeps-choice : (kept : Bool) (i : ℕ) → Keeps (if kept then pure tt else set_current_track i)
Keeps-choice true i s b = b
Keeps-choice false i s b = Keeps-set_current_track i s b

-- Resetting the playback to a position keeps the bounds, whether it fails or not.
pub reset_playback_to_position-IsBounded :
    (new : Option ℕ) (s : ConnectState)
    → IsBounded s
    → IsBounded (reset_playback_to_position new s).1
unfolding reset_playback_to_position set_index_track
reset_playback_to_position-IsBounded new s b =
    let i = or_default 0 new in
    let s1 = set_index_track i s in
    Keeps-bind (update_context_index s1.active_context (i + 1)) _
      (update_context_index-IsBounded s1.active_context (i + 1))
      (λ _ s2 b2.
        let s3 = record s2 { fill_up_context = s2.active_context } in
        Keeps-bind (if keeps_current s3 then pure tt else set_current_track i) (λ _. reload i)
          (Keeps-choice (keeps_current s3) i) (λ _. Keeps-reload i) s3 b2)
      s1 b

pub clear_next_tracks-IsBounded : (s : ConnectState) → IsBounded s → IsBounded (clear_next_tracks s)
unfolding clear_next_tracks set_next
clear_next_tracks-IsBounded s (n, p) =
    (let l = length-queued_front s.player.next_tracks in (omega arith, p))
