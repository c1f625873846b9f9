-- ===== src/Connect/Tracks/PrevBounds.antt =====
-- librespot_src/connect/src/state/tracks.rs: the bounds of the lists under `prev_track`.
use neotune.Common.{
  ℕ, zero, suc, ◌≤◌, ◌≡◌, refl, sym, ap, ◌∙◌, inl, inr, Option, none, some, List, [], ◌∷◌, length,
  length-take, arith, Bool-cases, Option-cases, if◌then◌else◌,
}
use neotune.Connect.Track.{Track, is_context}
use neotune.Connect.State.{
  max_prev_tracks, max_next_tracks, default, autoplay, ConnectState, or_default, new_index,
}
use neotune.Connect.Player.{
  set_active_context, set_index_track, set_track, set_prev, update_restrictions,
}
use neotune.Connect.Fill.{is_delimiter, fill_up_next_tracks}
use neotune.Connect.Tracks.{
  pop, return_delimiter, rewind, leave_autoplay, step_index_back, prev_track,
}
use neotune.Connect.Tracks.Bounds.{
  IsBounded, SameLists, SameLists-IsBounded, SameLists-chain, set_active_context-SameLists,
  update_restrictions-SameLists, fill_up_next_tracks-IsBounded, after-IsBounded,
}

-- The length of a list of which this is the top and the rest.
popped_length : {A : Type 0} → Option (A × List A) → ℕ
popped_length none = 0
popped_length (some p) = suc (length p.1)

popped_length-pop : {A : Type 0} (xs : List A) → popped_length (pop xs) ≡ length xs
unfolding popped_length
popped_length-pop [] = refl
popped_length-pop (x ∷ xs) =
    let l = popped_length-pop xs in
    elim (Option-cases (pop xs)) [
      | inl e ↦
          let z : 0 ≡ length xs = rw (e, popped_length) at l in
          rw (pop, e, popped_length) (ap suc z)
      | inr (q, e) ↦
          let z : suc (length q.1) ≡ length xs = rw (e, popped_length) at l in
          rw (pop, e, popped_length) (ap suc z)
    ]

pub length-pop :
    {A : Type 0} (xs : List A) (p : A × List A) → pop xs ≡ some p → suc (length p.1) ≡ length xs
unfolding popped_length
length-pop xs p e = sym (ap popped_length e) ∙ popped_length-pop xs

return_delimiter-bound :
    (next prev : List Track)
    → length prev ≤ max_prev_tracks
    → length (return_delimiter next prev).1 ≤ max_prev_tracks
unfolding return_delimiter
return_delimiter-bound next prev b = elim (Option-cases (pop prev)) [
  | inl e ↦ rw (return_delimiter, e) b
  | inr (p, e) ↦ elim (Bool-cases (is_delimiter p.0)) [
    | inl d ↦ let l = length-pop prev p e in rw (return_delimiter, e, d) (omega arith)
    | inr nd ↦ rw (return_delimiter, e, nd) b
  ]
]

rewind-IsBounded : (s : ConnectState) → IsBounded s → IsBounded (rewind s)
unfolding rewind
rewind-IsBounded s (n, b) = (
  rw (length-take max_next_tracks) (omega arith),
  return_delimiter-bound _ s.player.prev_tracks b,
)

leave_autoplay-SameLists : (t : Track) (s : ConnectState) → SameLists s (leave_autoplay t s)
unfolding leave_autoplay
leave_autoplay-SameLists t s =
    elim s.active_context
      as (λ ty. SameLists s (elim ty [
        | default ↦ s
        | autoplay ↦ if is_context t then set_active_context default s else s
      ])) [
        | default ↦ (refl, refl)
        | autoplay ↦ elim (Bool-cases (is_context t)) [
          | inl c ↦ rw c (set_active_context-SameLists default s)
          | inr nc ↦ rw nc (refl, refl)
        ]
      ]

step_index_back-SameLists : (s : ConnectState) → SameLists s (step_index_back s)
unfolding step_index_back set_index_track
step_index_back-SameLists s =
    elim (or_default new_index s.player.index).track
      as (λ n. SameLists s (elim n [ zero ↦ s | suc i ↦ set_index_track i s ])) [
        | zero ↦ (refl, refl)
        | suc i ↦ (refl, refl)
      ]

prev_track-IsBounded_popped :
    (s : ConnectState) (p : Track × List Track)
    → pop (rewind s).player.prev_tracks ≡ some p
    → IsBounded s
    → IsBounded (prev_track s).1
unfolding prev_track set_prev set_track
prev_track-IsBounded_popped s p e b =
    let (n, l) = rewind-IsBounded s b in
    let shorter = length-pop (rewind s).player.prev_tracks p e in
    let s2 = set_prev p.1 (rewind s) in
    let s3 = leave_autoplay p.0 s2 in
    let b3 = SameLists-IsBounded s2 s3 (leave_autoplay-SameLists p.0 s2) (n, omega arith) in
    rw (prev_track, e)
      (after-IsBounded (fill_up_next_tracks s3) _
        (λ _ s' b'.
          let s4 = set_track p.0 s' in
          SameLists-IsBounded s4 (update_restrictions (step_index_back s4))
            (SameLists-chain s4 (step_index_back s4) (update_restrictions (step_index_back s4))
              (step_index_back-SameLists s4) (update_restrictions-SameLists (step_index_back s4)))
            b')
        (fill_up_next_tracks-IsBounded s3 b3))

-- Whatever `prev_track` returns, it leaves at most 80 next and 10 previous tracks, if it finds them.
pub prev_track-IsBounded : (s : ConnectState) → IsBounded s → IsBounded (prev_track s).1
unfolding prev_track
prev_track-IsBounded s b = elim (Option-cases (pop (rewind s).player.prev_tracks)) [
  | inl e ↦ rw (prev_track, e) (rewind-IsBounded s b)
  | inr (p, e) ↦ prev_track-IsBounded_popped s p e b
]
