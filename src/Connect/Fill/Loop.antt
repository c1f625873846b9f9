-- ===== src/Connect/Fill/Loop.antt =====
-- librespot_src/connect/src/state/tracks.rs: the loop of `fill_up_next_tracks` and its fuel.
use neotune.Common.{
  append-snoc, append_nil, ℕ, zero, suc, ◌+◌, ◌-◌, ◌*◌, ◌<◌, ◌≤◌, ◌≡◌, refl, sym, ap, ◌∙◌, ◌⊎◌, inl,
  inr, true, false, some, List, [], ◌∷◌, ◌++◌, length, length-append, arith, Bool-cases, ltb,
  ltb→lt, ap₂, max,
}
use neotune.Connect.Track.{Track}
use neotune.Connect.State.{
  max_next_tracks, ContextType, default, autoplay, StateContext, PlayerState, ConnectState,
}
use neotune.Connect.Player.{get_context?, repeat_context}
use neotune.Connect.Exec.{Run, ok}
use neotune.Connect.Fill.{stop, continue, fill_up_round, fill_up_loop, track_count, fill_up_fuel}
use neotune.Connect.Fill.Rounds.{IsLoaded, Appends, fill_up_round_lem}

abbrev pub room : ConnectState → ℕ
room s = max_next_tracks - length s.player.next_tracks

abbrev pub all_count : ConnectState → ℕ
all_count s = track_count s.context + track_count s.autoplay_context

-- The rounds that are left, where `k` bounds the tracks passed between two pushes.
pub rounds : ℕ → ℕ → ℕ
rounds zero k = 0
rounds (suc r) k = k + 1 + rounds r k

rounds_eq : (r k : ℕ) → rounds r k ≡ r * (k + 1)
unfolding rounds
rounds_eq zero k = omega arith
rounds_eq (suc r) k = let e = rounds_eq r k in grind arith

-- It stopped because the list is full, or because nothing is left that may be repeated.
abbrev pub IsFinal : ConnectState → Type 0
IsFinal s = (max_next_tracks ≤ length s.player.next_tracks) ⊎ (repeat_context s ≡ false)

abbrev pub LoopResult : ConnectState → Run ℕ × ConnectState → Type 0
LoopResult s r =
    (i : ℕ) × (s' : ConnectState) × (added : List Track) × (r ≡ (ok i, s'))
    × Appends s s' added
    × IsLoaded s'
    × IsFinal s'
    × (length s'.player.next_tracks ≤ max max_next_tracks (length s.player.next_tracks))

track_count-lt :
    (ty : ContextType) (s : ConnectState) (ctx : StateContext)
    → get_context? ty s ≡ some ctx
    → length ctx.tracks.vec ≤ all_count s
unfolding get_context?
track_count-lt default s ctx e = rw e (omega arith)
track_count-lt autoplay s ctx e = rw e (omega arith)

pub fill_up_loop-full :
    (fuel i iteration : ℕ) (s : ConnectState)
    → ltb (length s.player.next_tracks) max_next_tracks ≡ false
    → fill_up_loop (suc fuel) i iteration s ≡ (ok i, s)
unfolding fill_up_loop
fill_up_loop-full fuel i iteration s full = simp (fill_up_loop, full)

pub fill_up_loop-stop :
    (fuel i iteration : ℕ) (s : ConnectState) (ctx : StateContext)
    → ltb (length s.player.next_tracks) max_next_tracks ≡ true
    → get_context? s.fill_up_context s ≡ some ctx
    → fill_up_round ctx i iteration s ≡ stop
    → fill_up_loop (suc fuel) i iteration s ≡ (ok i, s)
unfolding fill_up_loop
fill_up_loop-stop fuel i iteration s ctx more c e = simp (fill_up_loop, more, c, e)

pub fill_up_loop-continue :
    (fuel i iteration : ℕ) (s : ConnectState) (ctx : StateContext) (i' iteration' : ℕ)
    (s' : ConnectState)
    → ltb (length s.player.next_tracks) max_next_tracks ≡ true
    → get_context? s.fill_up_context s ≡ some ctx
    → fill_up_round ctx i iteration s ≡ continue i' iteration' s'
    → fill_up_loop (suc fuel) i iteration s ≡ fill_up_loop fuel i' iteration' s'
unfolding fill_up_loop
fill_up_loop-continue fuel i iteration s ctx i' iteration' s' more c e =
    simp (fill_up_loop, more, c, e)

pub Appends-self : (s : ConnectState) → Appends s s []
Appends-self s = (
  sym (ap (λ n. record s.player { next_tracks = n }) (append_nil s.player.next_tracks)),
  refl,
  refl,
)

pub Appends-length :
    (s s' : ConnectState) (added : List Track)
    → Appends s s' added
    → length s'.player.next_tracks ≡ length s.player.next_tracks + length added
Appends-length s s' added (p, _, _) =
    ap (λ q. length q.next_tracks) p ∙ length-append s.player.next_tracks added

Appends-chain :
    (s s' s'' : ConnectState) (t : Track) (added : List Track)
    → Appends s s' (t ∷ [])
    → Appends s' s'' added
    → Appends s s'' (t ∷ added)
Appends-chain s s' s'' t added (p, a, b) (p', a', b') = (
  p'
      ∙ ap (λ (q : PlayerState). record q { next_tracks = q.next_tracks ++ added }) p
      ∙ ap (λ n. record s.player { next_tracks = n }) (append-snoc s.player.next_tracks t added),
  a' ∙ a,
  b' ∙ b,
)

-- A state at which the loop stops.
loop_end :
    (i : ℕ) (s : ConnectState) (r : Run ℕ × ConnectState)
    → r ≡ (ok i, s)
    → IsLoaded s
    → IsFinal s
    → LoopResult s r
loop_end i s r e loaded final = (i, s, [], e, Appends-self s, loaded, final, omega arith)

-- A push in front of the rest of the loop.
loop_push :
    (s s' : ConnectState) (t : Track) (r : Run ℕ × ConnectState)
    → length s.player.next_tracks < max_next_tracks
    → Appends s s' (t ∷ [])
    → LoopResult s' r
    → LoopResult s r
loop_push s s' t r more a (i, s'', added, e, a', loaded, final, bound) =
    let l = Appends-length s s' (t ∷ []) a in
    (i, s'', t ∷ added, e, Appends-chain s s' s'' t added a a', loaded, final, omega arith)

fuel_after :
    (before r k i i' fuel : ℕ)
    → before ≡ suc r
    → rounds before k + (k - i) < suc fuel
    → rounds r k + (k - i') < fuel
unfolding rounds
fuel_after zero r k i i' fuel e h = absurd (omega arith)
fuel_after (suc before) r k i i' fuel e h =
    let same : r ≡ before = omega arith in rw same (omega arith)

pub fill_up_loop_lem :
    (fuel i iteration : ℕ) (s : ConnectState)
    → IsLoaded s
    → rounds (room s) (all_count s) + (all_count s - i) < fuel
    → LoopResult s (fill_up_loop fuel i iteration s)
fill_up_loop_lem zero i iteration s loaded h = absurd (omega arith)
fill_up_loop_lem (suc fuel) i iteration s (ctx, c) h =
    elim (Bool-cases (ltb (length s.player.next_tracks) max_next_tracks)) [
      | inl more ↦ elim (fill_up_round_lem ctx s i iteration c) [
        | inl (e, np) ↦
            loop_end i s _ (fill_up_loop-stop fuel i iteration s ctx more c e) (ctx, c) (inr np)
        | inr (inl (small, e)) ↦
            let b = track_count-lt s.fill_up_context s ctx c in
            rw (fill_up_loop-continue fuel i iteration s ctx _ _ _ more c e)
              (fill_up_loop_lem fuel (i + 1) iteration s (ctx, c) (omega arith))
        | inr (inr (i', iteration', s', t, e, a, loaded)) ↦
            let (_, same_default, same_autoplay) = a in
            let small : length s.player.next_tracks < max_next_tracks = ltb→lt _ _ more in
            let l = Appends-length s s' (t ∷ []) a in
            let k : all_count s' ≡ all_count s = ap₂ (λ m n. m + n) same_default same_autoplay in
            let r : room s ≡ suc (room s') = omega arith in
            let enough = fuel_after (room s) (room s') (all_count s) i i' fuel r h in
            rw (fill_up_loop-continue fuel i iteration s ctx _ _ _ more c e) (
              loop_push s s' t _ small a
                (fill_up_loop_lem fuel i' iteration' s' loaded (rw k enough)))
      ]
      | inr full ↦
          let big : max_next_tracks ≤ length s.player.next_tracks = ground arith in
          loop_end i s _ (fill_up_loop-full fuel i iteration s full) (ctx, c) (inl big)
    ]

rounds_mono : (r n k : ℕ) → r ≤ n → rounds r k ≤ rounds n k
unfolding rounds
rounds_mono zero n k h = omega arith
rounds_mono (suc r) zero k h = absurd (omega arith)
rounds_mono (suc r) (suc n) k h = let e = rounds_mono r n k (omega arith) in omega arith

pub fuel_is_enough :
    (s : ConnectState) (i : ℕ) → rounds (room s) (all_count s) + (all_count s - i) < fill_up_fuel s
unfolding fill_up_fuel
fuel_is_enough s i =
    let e = rounds_eq max_next_tracks (all_count s) in
    let small = rounds_mono (room s) max_next_tracks (all_count s) (omega arith) in omega arith
