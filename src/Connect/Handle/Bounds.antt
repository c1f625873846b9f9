-- ===== src/Connect/Handle/Bounds.antt =====
-- librespot_src/connect/src/state/options.rs and state/handle.rs: the bounds of the lists under the
-- commands.
use neotune.Common.{
  ℕ, refl, inl, inr, Bool, true, false, some, List, [], ◌∷◌, arith, bytes_eq, Option-cases, Result,
}
use neotune.ShuffleVec.{Rng}
use neotune.Connect.Track.{get_context_index}
use neotune.Connect.State.{ContextType, default, autoplay, StateContext, StateError, ConnectState}
use neotune.Connect.Player.{
  current_track, set_active_context, update_restrictions, put_context, set_shuffle,
  set_repeat_context, set_prev, set_next,
}
use neotune.Connect.Exec.{Exec, ◌>>=◌, ◌>>◌, modify, gets, get_context, lift}
use neotune.Connect.Context.{
  ResetContext, completely, default_index, when_different, restore_order, map_context,
  effective_reset, apply_reset, reset_context, find_index_in_context,
}
use neotune.Connect.Fill.{fill_up_next_tracks}
use neotune.Connect.Tracks.Bounds.{
  IsBounded, SameLists, SameLists-IsBounded, SameLists-chain, set_active_context-SameLists,
  update_restrictions-SameLists, fill_up_next_tracks-IsBounded,
}
use neotune.Connect.Queue.{clear_prev_track, clear_next_tracks, reset_playback_to_position}
use neotune.Connect.Queue.Bounds.{
  Keeps, Keeps-bind, Keeps-get_context, length-queued_front, reset_playback_to_position-IsBounded,
}
use neotune.Connect.Handle.{
  refuse_shuffle, validate_shuffle_allowed, shuffle_context, shuffle, shuffle_new, return_to_order,
  handle_shuffle, fill_from_default, handle_set_repeat_context,
}

apply_reset-SameLists : (r : ResetContext) (s : ConnectState) → SameLists s (apply_reset r s)
unfolding apply_reset
apply_reset-SameLists completely s = (refl, refl)
apply_reset-SameLists default_index s = (refl, refl)
apply_reset-SameLists (when_different uri) s = (refl, refl)

pub reset_context-SameLists :
    (r : ResetContext) (s : ConnectState) → SameLists s (reset_context r s)
unfolding reset_context
reset_context-SameLists r s =
    let s1 = record s { context = map_context restore_order s.context } in
    let s2 = apply_reset (effective_reset s r) s1 in
    let s3 = record s2 { fill_up_context = default } in
    let s4 = set_active_context default s3 in
    SameLists-chain s s2 (update_restrictions s4) (apply_reset-SameLists (effective_reset s r) s1) (
      SameLists-chain s2 s4 (update_restrictions s4) (set_active_context-SameLists default s3)
        (update_restrictions-SameLists s4))

Keeps-reset_context : (r : ResetContext) → Keeps (modify (reset_context r))
Keeps-reset_context r s b =
    SameLists-IsBounded s (reset_context r s) (reset_context-SameLists r s) b

-- The part of a shuffle behind the reset.
abbrev reshuffle : Rng → ℕ → List ℕ → Exec (Unit {0})
reshuffle g seed uri = do
  ctx ← get_context default
  modify (put_context default (shuffle_context g seed uri ctx))
  fill_up_next_tracks

put_context-SameLists :
    (ty : ContextType) (ctx : StateContext) (s : ConnectState) → SameLists s (put_context ty ctx s)
unfolding put_context
put_context-SameLists default ctx s = (refl, refl)
put_context-SameLists autoplay ctx s = (refl, refl)

Keeps-reshuffle : (g : Rng) (seed : ℕ) (uri : List ℕ) → Keeps (reshuffle g seed uri)
Keeps-reshuffle g seed uri =
    Keeps-bind (get_context default)
      (λ ctx. modify (put_context default (shuffle_context g seed uri ctx)) >> fill_up_next_tracks)
      (Keeps-get_context default)
      (λ ctx s b.
        let s' = put_context default (shuffle_context g seed uri ctx) s in
        fill_up_next_tracks-IsBounded s' (
          SameLists-IsBounded s s'
            (put_context-SameLists default (shuffle_context g seed uri ctx) s) b))

pub Keeps-shuffle : (g : Rng) (seed : ℕ) (uri : List ℕ) → Keeps (shuffle g seed uri)
unfolding shuffle clear_prev_track clear_next_tracks set_prev set_next
Keeps-shuffle g seed uri s (n, p) =
    let l = length-queued_front s.player.next_tracks in
    Keeps-bind (modify (reset_context default_index)) (λ _. reshuffle g seed uri)
      (Keeps-reset_context default_index) (λ _. Keeps-reshuffle g seed uri)
      (clear_next_tracks (clear_prev_track s)) (omega arith, omega arith)

Keeps-refuse_shuffle : (reasons : List (List ℕ)) → Keeps (refuse_shuffle reasons)
Keeps-refuse_shuffle [] s b = b
Keeps-refuse_shuffle (reason ∷ reasons) s b = b

pub Keeps-validate : Keeps validate_shuffle_allowed
unfolding validate_shuffle_allowed
Keeps-validate s b = Keeps-refuse_shuffle _ s b

pub Keeps-shuffle_new : (g : Rng) (seed : ℕ) → Keeps (shuffle_new g seed)
unfolding shuffle_new
Keeps-shuffle_new g seed s b =
    Keeps-bind validate_shuffle_allowed (λ _ s'. shuffle g seed (current_track s').uri s')
      Keeps-validate (λ _ s' b'. Keeps-shuffle g seed (current_track s').uri s' b') s b

Keeps-lift : {A : Type 0} (r : Result StateError A) → Keeps (lift r)
Keeps-lift (Result.ok a) s b = b
Keeps-lift (Result.err e) s b = b

Keeps-return_to_order : Keeps return_to_order
unfolding return_to_order
Keeps-return_to_order s b = elim (Option-cases s.player.track) [
  | inl e ↦ rw (return_to_order, e) b
  | inr (t, e) ↦ elim (Option-cases (get_context_index t)) [
    | inr (i, f) ↦ rw (return_to_order, e, f) (reset_playback_to_position-IsBounded (some i) s b)
    | inl f ↦
        rw (return_to_order, e, f)
          (Keeps-bind (get_context default)
            (λ ctx. lift (find_index_in_context ctx (λ c. bytes_eq c.uri t.uri)) >>= λ i.
              reset_playback_to_position (some i))
            (Keeps-get_context default)
            (λ ctx.
              Keeps-bind (lift (find_index_in_context ctx (λ c. bytes_eq c.uri t.uri)))
                (λ i. reset_playback_to_position (some i)) (Keeps-lift _)
                (λ i. reset_playback_to_position-IsBounded (some i)))
            s b)
  ]
]

-- Switching the shuffle on or off keeps the bounds, whether it fails or not.
pub handle_shuffle-IsBounded :
    (g : Rng) (seed : ℕ) (on : Bool) (s : ConnectState)
    → IsBounded s
    → IsBounded (handle_shuffle g seed on s).1
unfolding handle_shuffle set_shuffle
handle_shuffle-IsBounded g seed true s b = Keeps-shuffle_new g seed (set_shuffle true s) b
handle_shuffle-IsBounded g seed false s b =
    let s1 = set_shuffle false s in
    Keeps-return_to_order (reset_context default_index s1) (Keeps-reset_context default_index s1 b)

-- `handle_set_repeat_context` behind its two setters.
abbrev repeat_from_current : Exec (Unit {0})
repeat_from_current = do
  ctx ← get_context default
  t ← gets current_track
  i ← lift (find_index_in_context ctx (λ c. bytes_eq t.uri c.uri))
  reset_playback_to_position (some i)

Keeps-repeat_from_current : Keeps repeat_from_current
Keeps-repeat_from_current s b =
    Keeps-bind (get_context default) _ (Keeps-get_context default)
      (λ ctx s' b'.
        Keeps-bind (lift (find_index_in_context ctx (λ c. bytes_eq (current_track s').uri c.uri)))
          (λ i. reset_playback_to_position (some i)) (Keeps-lift _)
          (λ i. reset_playback_to_position-IsBounded (some i)) s' b')
      s b

-- Switching the repetition of the context on or off keeps the bounds, whether it fails or not.
pub handle_set_repeat_context-IsBounded :
    (repeat : Bool) (s : ConnectState)
    → IsBounded s
    → IsBounded (handle_set_repeat_context repeat s).1
unfolding handle_set_repeat_context set_repeat_context fill_from_default
handle_set_repeat_context-IsBounded true s b =
    Keeps-repeat_from_current (fill_from_default true (set_repeat_context true s)) b
handle_set_repeat_context-IsBounded false s b =
    Keeps-repeat_from_current (fill_from_default false (set_repeat_context false s)) b
