-- ===== src/Connect/Tracks.antt =====
-- librespot_src/connect/src/state/tracks.rs: the current track, and the steps to the next and the
-- previous one.
pub mod Bounds
pub mod PrevBounds
use neotune.Common.{
  ℕ, zero, suc, ◌+◌, ◌-◌, ◌*◌, ◌%◌, ◌^◌, Bool, true, false, not, ◌&&◌, ◌||◌, Option, none, some,
  List, [], ◌∷◌, ◌++◌, map, codes, bytes_eq, show_u64, leb, ltb, ◌==◌, length, take, drop,
  get_elem?, add_u64, sub_usize, if◌then◌else◌,
}
use neotune.ShuffleVec.{position}
use neotune.Connect.Track.{
  Track, Provider, context, queue, unavailable, is_autoplay, is_context, is_queue, is_unavailable,
  set_provider, is_from_queue, get_context_index, set_from_queue, default_track,
}
use neotune.Connect.State.{
  max_prev_tracks, max_next_tracks, ContextType, default, autoplay, StateError,
  can_not_find_track_in_context, StateContext, ConnectState, PlayerState, with_player, or_default,
  new_index,
}
use neotune.Connect.Player.{
  current_track, repeat_track, get_context?, set_active_context, set_index_track, set_track,
  set_next, set_prev, set_repeat_track, update_queue_revision, update_restrictions,
}
use neotune.Connect.Exec.{
  Run, ok, err, Exec, ◌>>=◌, ◌>>◌, pure, fail, gets, modify, or_fail, get_context,
}
use neotune.Connect.Context.{is_skip_track, update_context_index}
use neotune.Connect.Fill.{is_delimiter, fill_up_next_tracks}

-- `push_prev`, on the previous tracks.
unfoldable pub push_prev : Track → List Track → List Track
push_prev t prev =
    if leb max_prev_tracks (length prev) then drop 1 prev ++ (t ∷ []) else prev ++ (t ∷ [])

-- The top of a list whose end is the top, and what is below it.
abbrev pub pop {ℓ} : {A : Type ℓ} → List A → Option (A × List A)
pop [] = none
pop (x ∷ xs) = elim (pop xs) [ none ↦ some (x, []) | some p ↦ some (p.0, x ∷ p.1) ]

-- `set_current_track`
unfoldable pub set_current_track : ℕ → Exec (Unit {0})
unfolding get_context set_track set_index_track
set_current_track index = do
  ty ← gets (λ s. s.active_context)
  ctx ← get_context ty
  t ←
      or_fail (get_elem? ctx.tracks.vec index)
        (can_not_find_track_in_context (some index) (length ctx.tracks.vec))
  modify (set_track t)
  modify (set_index_track index)

-- Whether a track that is left is kept as a previous track, or as a next one.
abbrev pub is_kept : Track → Bool
is_kept t = is_context t || is_autoplay t

-- `self.player_mut().track.take()` and the test behind it
unfoldable pub retire_track : ConnectState → ConnectState
unfolding push_prev is_context is_autoplay
retire_track s = elim s.player.track [
  | none ↦ s
  | some old ↦ with_player s (record s.player {
    track = none;
    prev_tracks = if is_kept old then push_prev old s.player.prev_tracks else s.player.prev_tracks;
  })
]

-- The loop of `next_track`: the track that it stops at, the tracks behind it, the previous ones.
unfoldable pub advance : List Track → List Track → Option Track × List Track × List Track
unfolding push_prev is_unavailable
advance [] prev = (none, [], prev)
advance (t ∷ ts) prev = elim (is_delimiter t) [
  | true ↦ advance ts (push_prev t prev)
  | false ↦ elim (is_unavailable t) [ true ↦ advance ts prev | false ↦ (some t, ts, prev) ]
]

-- The index of the player for a track that is started.
unfoldable pub index_for : Track → ConnectState → ConnectState
unfolding set_active_context set_index_track get_context_index is_queue is_autoplay
index_for t s =
    let cleared : ConnectState → ConnectState =
      λ s. with_player s (record s.player { index = none }) in
    if is_queue t
    then cleared s
    else if is_autoplay t
    then cleared (set_active_context autoplay s)
    else elim (get_context_index t) [ none ↦ cleared s | some i ↦ set_index_track (i % 2 ^ 32) s ]

unfoldable pub start_track : Option Track → Exec (Option ℕ)
unfolding fill_up_next_tracks index_for set_track update_restrictions
start_track none = pure none
start_track (some t) = do
  fill_up_next_tracks
  modify (index_for t)
  modify (set_track t)
  modify update_restrictions
  i ← gets (λ s. (or_default new_index s.player.index).track)
  pure (some i)

-- `next_track` up to the loop: "when we skip in repeat track, we don't repeat it anymore".
unfoldable pub leave_track : ConnectState → ConnectState
unfolding repeat_track set_repeat_track retire_track
leave_track s = retire_track (if repeat_track s then set_repeat_track false s else s)

unfoldable pub next_track : Exec (Option ℕ)
unfolding leave_track advance start_track set_next set_prev
next_track s =
    let s1 = leave_track s in
    let (new_track, next, prev) = advance s1.player.next_tracks s1.player.prev_tracks in
    start_track new_track (set_prev prev (set_next next s1))

-- `prev_track` up to the new track: the old one, a delimiter and the bound.
unfoldable pub put_back : Track → List Track → List Track
unfolding is_context is_autoplay
put_back old next = if is_kept old then old ∷ next else next

unfoldable pub put_back_delimiter : Track → List Track → List Track
put_back_delimiter t next =
    if leb max_next_tracks (length next) then t ∷ take (length next - 1) next else t ∷ next

unfoldable pub return_delimiter : List Track → List Track → List Track × List Track
unfolding put_back_delimiter
return_delimiter next prev = elim (pop prev) [
  | none ↦ (next, prev)
  | some p ↦ if is_delimiter p.0 then (put_back_delimiter p.0 next, p.1) else (next, prev)
]

unfoldable pub rewind : ConnectState → ConnectState
unfolding put_back return_delimiter set_next set_prev
rewind s =
    let next : List Track = elim s.player.track [
      | none ↦ s.player.next_tracks
      | some old ↦ put_back old s.player.next_tracks
    ] in
    let (next', prev') = return_delimiter next s.player.prev_tracks in
    with_player s (record s.player {
      track = none;
      next_tracks = take max_next_tracks next';
      prev_tracks = prev';
    })

-- "transition back to default context"
unfoldable pub leave_autoplay : Track → ConnectState → ConnectState
unfolding set_active_context is_context
leave_autoplay t s = elim s.active_context [
  | default ↦ s
  | autoplay ↦ if is_context t then set_active_context default s else s
]

unfoldable pub step_index_back : ConnectState → ConnectState
unfolding set_index_track
step_index_back s = elim (or_default new_index s.player.index).track [
  | zero ↦ s
  | suc i ↦ set_index_track i s
]

unfoldable pub prev_track : Exec (Option Track)
unfolding rewind leave_autoplay fill_up_next_tracks set_track step_index_back update_restrictions
prev_track s =
    let s1 = rewind s in
    elim (pop s1.player.prev_tracks) [
      | none ↦ (ok none, s1)
      | some p ↦
          (do
            modify (set_prev p.1)
            modify (leave_autoplay p.0)
            fill_up_next_tracks
            modify (set_track p.0)
            modify step_index_back
            modify update_restrictions
            t ← gets current_track
            pure (some t))
            s1
    ]
