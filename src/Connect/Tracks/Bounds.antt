-- ===== src/Connect/Tracks/Bounds.antt =====
-- librespot_src/connect/src/state/tracks.rs: the bounds of the lists of the next and the previous
-- tracks, which a comment of state.rs calls essential.
use neotune.Common.{
  suc, ◌≤◌, ◌<◌, ◌≡◌, refl, ap, ◌∙◌, inl, inr, false, Option, none, some, List, [], ◌∷◌, length,
  length-append, drop, arith, leb, Bool-cases, Option-cases,
}
use neotune.Connect.Track.{Track, is_unavailable, is_queue, is_autoplay, get_context_index}
use neotune.Connect.State.{
  max_prev_tracks, max_next_tracks, ContextType, default, autoplay, ConnectState,
}
use neotune.Connect.Player.{
  get_context?, set_active_context, set_index_track, set_track, set_next, set_prev, repeat_track,
  set_repeat_track, update_restrictions,
}
use neotune.Connect.Exec.{Run, ok, err, out_of_fuel, Exec, after}
use neotune.Connect.Fill.{is_delimiter, fill_up_next_tracks}
use neotune.Connect.Fill.Result.{
  FillResult, fill_up_next_tracks_lem, fill_up_next_tracks-no_context,
}
use neotune.Connect.Tracks.{
  push_prev, is_kept, retire_track, advance, index_for, start_track, leave_track, next_track,
}

abbrev pub IsBounded : ConnectState → Type 0
IsBounded s =
    (length s.player.next_tracks ≤ max_next_tracks)
    × (length s.player.prev_tracks ≤ max_prev_tracks)

-- The two lists are the same in both states.
abbrev pub SameLists : ConnectState → ConnectState → Type 0
SameLists s s' =
    (s'.player.next_tracks ≡ s.player.next_tracks) × (s'.player.prev_tracks ≡ s.player.prev_tracks)

pub SameLists-IsBounded : (s s' : ConnectState) → SameLists s s' → IsBounded s → IsBounded s'
SameLists-IsBounded s s' (n, p) b = rw (n, p) b

pub SameLists-chain :
    (s s' s'' : ConnectState) → SameLists s s' → SameLists s' s'' → SameLists s s''
SameLists-chain s s' s'' (n, p) (n', p') = (n' ∙ n, p' ∙ p)

length-drop_one : (ts : List Track) → 0 < length ts → suc (length (drop 1 ts)) ≡ length ts
length-drop_one [] h = absurd (omega arith)
length-drop_one (t ∷ ts) h = refl

pub length-push_prev :
    (t : Track) (prev : List Track)
    → length prev ≤ max_prev_tracks
    → length (push_prev t prev) ≤ max_prev_tracks
unfolding push_prev
length-push_prev t prev b = elim (Bool-cases (leb max_prev_tracks (length prev))) [
  | inl full ↦
      let l = length-append (drop 1 prev) (t ∷ []) in
      let d = length-drop_one prev (ground arith) in rw (full, push_prev) (omega arith)
  | inr small ↦ let l = length-append prev (t ∷ []) in rw (small, push_prev) (ground arith)
]

pub advance-bounds :
    (next prev : List Track)
    → length prev ≤ max_prev_tracks
    → (length (advance next prev).1 ≤ length next)
      × (length (advance next prev).2 ≤ max_prev_tracks)
unfolding advance
advance-bounds [] prev b = (omega arith, b)
advance-bounds (t ∷ ts) prev b = elim (Bool-cases (is_delimiter t)) [
  | inl d ↦
      let (n, p) = advance-bounds ts (push_prev t prev) (length-push_prev t prev b) in
      rw (advance, d) (omega arith, p)
  | inr nd ↦ elim (Bool-cases (is_unavailable t)) [
    | inl u ↦ let (n, p) = advance-bounds ts prev b in rw (advance, nd, u) (omega arith, p)
    | inr nu ↦ rw (advance, nd, nu) (omega arith, b)
  ]
]

pub set_active_context-SameLists :
    (ty : ContextType) (s : ConnectState) → SameLists s (set_active_context ty s)
unfolding set_active_context get_context?
set_active_context-SameLists default s = elim (Option-cases s.context) [
  | inl e ↦ rw (set_active_context, get_context?, e) (refl, refl)
  | inr (ctx, e) ↦ rw (set_active_context, get_context?, e) (refl, refl)
]
set_active_context-SameLists autoplay s = elim (Option-cases s.autoplay_context) [
  | inl e ↦ rw (set_active_context, get_context?, e) (refl, refl)
  | inr (ctx, e) ↦ rw (set_active_context, get_context?, e) (refl, refl)
]

pub update_restrictions-SameLists : (s : ConnectState) → SameLists s (update_restrictions s)
unfolding update_restrictions
update_restrictions-SameLists s = (refl, refl)

index_for-SameLists : (t : Track) (s : ConnectState) → SameLists s (index_for t s)
unfolding index_for set_index_track
index_for-SameLists t s = elim (Bool-cases (is_queue t)) [
  | inl q ↦ rw (index_for, q) (refl, refl)
  | inr nq ↦ elim (Bool-cases (is_autoplay t)) [
    | inl a ↦ rw (index_for, nq, a) (set_active_context-SameLists autoplay s)
    | inr na ↦ elim (Option-cases (get_context_index t)) [
      | inl e ↦ rw (index_for, nq, na, e) (refl, refl)
      | inr (i, e) ↦ rw (index_for, nq, na, e) (refl, refl)
    ]
  ]
]

filled-IsBounded :
    (s : ConnectState) (r : Run (Unit {0}) × ConnectState)
    → FillResult s r
    → IsBounded s
    → IsBounded r.1
filled-IsBounded s r (s', added, e, p, final, bound) (n, b) =
    let prev : s'.player.prev_tracks ≡ s.player.prev_tracks = ap (λ q. q.prev_tracks) p in
    rw (e, prev) (omega arith, b)

pub fill_up_next_tracks-IsBounded :
    (s : ConnectState) → IsBounded s → IsBounded (fill_up_next_tracks s).1
fill_up_next_tracks-IsBounded s b = elim (Option-cases (get_context? s.fill_up_context s)) [
  | inl e ↦ rw (fill_up_next_tracks-no_context s e) b
  | inr (ctx, e) ↦ filled-IsBounded s _ (fill_up_next_tracks_lem s ctx e) b
]

-- An effect that runs behind a bounded one, and keeps the bounds.
pub after-IsBounded :
    {A B : Type 0} (r : Run A × ConnectState) (f : A → Exec B)
    → ((a : A) (s : ConnectState) → IsBounded s → IsBounded (f a s).1)
    → IsBounded r.1
    → IsBounded (after r.0 f r.1).1
after-IsBounded (ok a, s) f h b = h a s b
after-IsBounded (err e, s) f h b = b
after-IsBounded (out_of_fuel, s) f h b = b
after-IsBounded (Run.panicked, s) f h b = b

start_track-IsBounded :
    (o : Option Track) (s : ConnectState) → IsBounded s → IsBounded (start_track o s).1
unfolding start_track set_track
start_track-IsBounded none s b = b
start_track-IsBounded (some t) s b =
    after-IsBounded (fill_up_next_tracks s) _
      (λ _ s' b'.
        let s1 = set_track t (index_for t s') in
        SameLists-IsBounded s' (update_restrictions s1)
          (SameLists-chain s' s1 (update_restrictions s1) (index_for-SameLists t s')
            (update_restrictions-SameLists s1))
          b')
      (fill_up_next_tracks-IsBounded s b)

retire_track-IsBounded : (s : ConnectState) → IsBounded s → IsBounded (retire_track s)
unfolding retire_track
retire_track-IsBounded s (n, b) = elim (Option-cases s.player.track) [
  | inl e ↦ rw (retire_track, e) (n, b)
  | inr (t, e) ↦ elim (Bool-cases (is_kept t)) [
    | inl k ↦ rw (retire_track, e, k) (n, length-push_prev t s.player.prev_tracks b)
    | inr nk ↦ rw (retire_track, e, nk) (n, b)
  ]
]

leave_track-IsBounded : (s : ConnectState) → IsBounded s → IsBounded (leave_track s)
unfolding leave_track set_repeat_track
leave_track-IsBounded s b = elim (Bool-cases (repeat_track s)) [
  | inl r ↦ rw (leave_track, r) (retire_track-IsBounded (set_repeat_track false s) b)
  | inr nr ↦ rw (leave_track, nr) (retire_track-IsBounded s b)
]

-- Whatever `next_track` returns, it leaves at most 80 next and 10 previous tracks, if it finds them.
pub next_track-IsBounded : (s : ConnectState) → IsBounded s → IsBounded (next_track s).1
unfolding next_track set_next set_prev
next_track-IsBounded s b =
    let s1 = leave_track s in
    let (n1, p1) = leave_track-IsBounded s b in
    let (n2, p2) = advance-bounds s1.player.next_tracks s1.player.prev_tracks p1 in
    let r = advance s1.player.next_tracks s1.player.prev_tracks in
    start_track-IsBounded r.0 (set_prev r.2 (set_next r.1 s1)) (omega arith, p2)
