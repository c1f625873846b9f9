-- ===== src/Connect/Fill/Rounds.antt =====
-- librespot_src/connect/src/state/tracks.rs: what one round of the loop in `fill_up_next_tracks` does.
use neotune.Common.{
  ℕ, ◌+◌, ◌%◌, ◌^◌, ◌<◌, ◌≡◌, refl, sym, ◌∙◌, ◌⊎◌, inl, inr, true, false, ◌||◌, none, some, List,
  [], ◌∷◌, ◌++◌, length, get_elem?, arith, Bool-cases, Option-cases,
}
use neotune.Connect.Track.{Track, is_unavailable}
use neotune.Connect.State.{ContextType, default, autoplay, StateContext, PlayerState, ConnectState}
use neotune.Connect.Player.{get_context?, put_context, repeat_context}
use neotune.Connect.Context.{update_context_index, is_skip_track}
use neotune.Connect.Fill.{
  Round, stop, continue, push_next, new_delimiter, to_autoplay, at_end, fill_up_round, track_count,
}

-- The context that the next tracks are taken from is there.
abbrev pub IsLoaded : ConnectState → Type 0
IsLoaded s = (ctx : StateContext) × (get_context? s.fill_up_context s ≡ some ctx)

-- The second state differs from the first by tracks at the end of the next ones, and by what the
-- contexts are loaded up to.
abbrev pub Appends : ConnectState → ConnectState → List Track → Type 0
Appends s s' added =
    (s'.player ≡ record s.player { next_tracks = s.player.next_tracks ++ added })
    × (track_count s'.context ≡ track_count s.context)
    × (track_count s'.autoplay_context ≡ track_count s.autoplay_context)

abbrev pub Pushes : ConnectState → Round → Type 0
Pushes s r =
    (i : ℕ) × (iteration : ℕ) × (s' : ConnectState) × (t : Track) × (r ≡ continue i iteration s')
    × Appends s s' (t ∷ [])
    × IsLoaded s'

-- The three things that a round can do.
abbrev pub RoundCases : StateContext → ℕ → ℕ → ConnectState → Round → Type 0
RoundCases ctx i iteration s r =
    ((r ≡ stop) × (repeat_context s ≡ false))
    ⊎ ((i < length ctx.tracks.vec) × (r ≡ continue (i + 1) iteration s))
    ⊎ Pushes s r

-- The contexts do not depend on the player's state.
pub get_context?-with_player :
    (ty : ContextType) (s : ConnectState) (p : PlayerState)
    → get_context? ty (record s { player = p }) ≡ get_context? ty s
unfolding get_context?
get_context?-with_player default s p = refl
get_context?-with_player autoplay s p = refl

push_cases :
    (s : ConnectState) (i iteration : ℕ) (t : Track)
    → IsLoaded s
    → Pushes s (continue i iteration (push_next t s))
push_cases s i iteration t loaded = (
  i,
  iteration,
  push_next t s,
  t,
  refl,
  (refl, refl, refl),
  (loaded.0, get_context?-with_player s.fill_up_context s (push_next t s).player ∙ loaded.1),
)

pub ContextType-cases : (ty : ContextType) → (ty ≡ default) ⊎ (ty ≡ autoplay)
ContextType-cases default = inl refl
ContextType-cases autoplay = inr refl

to_autoplay_lem :
    (s : ConnectState) (i iteration : ℕ) (auto : StateContext)
    → IsLoaded s
    → s.fill_up_context ≡ default
    → s.autoplay_context ≡ some auto
    → Pushes s (to_autoplay i iteration s)
unfolding to_autoplay update_context_index get_context? put_context
to_autoplay_lem s i iteration auto (ctx, e) d a =
    let c : s.context ≡ some ctx = rw (d, get_context?) at e in
    rw (d, c, a)
      (
        auto.index.track,
        iteration,
        _,
        new_delimiter iteration,
        refl,
        (refl, refl, refl),
        (auto, refl),
      )

get_elem?-lt : (xs : List Track) (i : ℕ) (t : Track) → get_elem? xs i ≡ some t → i < length xs
get_elem?-lt [] i t e = cc
get_elem?-lt (x ∷ xs) ℕ.zero t e = omega arith
get_elem?-lt (x ∷ xs) (ℕ.suc i) t e = omega (arith, get_elem?-lt xs i t e)

-- `at_end` on its arms, which leave the state whole.
at_end-repeat :
    (s : ConnectState) (i iteration : ℕ)
    → repeat_context s ≡ true
    → at_end i iteration s
      ≡ continue 0 ((iteration + 1) % 2 ^ 32) (push_next (new_delimiter iteration) s)
unfolding at_end
at_end-repeat s i iteration p = simp p

at_end-no_autoplay :
    (s : ConnectState) (i iteration : ℕ)
    → repeat_context s ≡ false
    → s.autoplay_context ≡ none
    → at_end i iteration s ≡ stop
unfolding at_end
at_end-no_autoplay s i iteration np a = simp (np, a)

at_end-default :
    (s : ConnectState) (i iteration : ℕ) (auto : StateContext)
    → repeat_context s ≡ false
    → s.autoplay_context ≡ some auto
    → s.fill_up_context ≡ default
    → at_end i iteration s ≡ to_autoplay i iteration s
unfolding at_end
at_end-default s i iteration auto np a d = simp (np, a, d)

at_end-done :
    (s : ConnectState) (i iteration : ℕ) (auto : StateContext)
    → repeat_context s ≡ false
    → s.autoplay_context ≡ some auto
    → s.fill_up_context ≡ autoplay
    → get_elem? auto.tracks.vec i ≡ none
    → at_end i iteration s ≡ stop
unfolding at_end
at_end-done s i iteration auto np a u e = simp (np, a, u, e)

-- The end is that of the context the tracks are taken from.
at_end_lem :
    (ctx : StateContext) (s : ConnectState) (i iteration : ℕ)
    → get_context? s.fill_up_context s ≡ some ctx
    → get_elem? ctx.tracks.vec i ≡ none
    → RoundCases ctx i iteration s (at_end i iteration s)
unfolding get_context?
at_end_lem ctx s i iteration c e = elim (Bool-cases (repeat_context s)) [
  | inl p ↦
      rw (at_end-repeat s i iteration p)
        (inr (inr (push_cases s 0 _ (new_delimiter iteration) (ctx, c))))
  | inr np ↦ elim (Option-cases s.autoplay_context) [
    | inl a ↦ rw (at_end-no_autoplay s i iteration np a) (inl (refl, np))
    | inr (auto, a) ↦ elim (ContextType-cases s.fill_up_context) [
      | inl d ↦
          rw (at_end-default s i iteration auto np a d)
            (inr (inr (to_autoplay_lem s i iteration auto (ctx, c) d a)))
      | inr u ↦
          let found : some auto ≡ some ctx =
            sym a ∙ (let c' : s.autoplay_context ≡ some ctx = rw u at c in c') in
          let same : auto ≡ ctx = cc in
          let e' : get_elem? auto.tracks.vec i ≡ none = rw same e in
          rw (at_end-done s i iteration auto np a u e') (inl (refl, np))
    ]
  ]
]

-- A round goes on, unless the context is at its end and is not repeated.
pub fill_up_round_lem :
    (ctx : StateContext) (s : ConnectState) (i iteration : ℕ)
    → get_context? s.fill_up_context s ≡ some ctx
    → RoundCases ctx i iteration s (fill_up_round ctx i iteration s)
unfolding fill_up_round
fill_up_round_lem ctx s i iteration c = elim (Option-cases (get_elem? ctx.tracks.vec i)) [
  | inl e ↦ rw (fill_up_round, e) (at_end_lem ctx s i iteration c e)
  | inr (t, e) ↦ elim (Bool-cases (is_unavailable t || is_skip_track s t (some iteration))) [
    | inl skipped ↦ rw (fill_up_round, e, skipped) (inr (inl (get_elem?-lt _ i t e, refl)))
    | inr taken ↦
        rw (fill_up_round, e, taken) (inr (inr (push_cases s (i + 1) iteration t (ctx, c))))
  ]
]
