-- ===== src/Connect/Fill/Plain.antt =====
-- librespot_src/connect/src/state/tracks.rs: which tracks `fill_up_next_tracks` takes, in the plain case:
-- the default context alone, without repeat and without a shuffle.
use neotune.Common.{
  append-snoc, append_nil, ℕ, zero, suc, ◌+◌, ◌-◌, ◌<◌, ◌≤◌, ◌≡◌, refl, sym, ap, ◌∙◌, inl, inr,
  true, false, Option, none, some, List, [], ◌∷◌, ◌++◌, length, length-append, take, drop,
  get_elem?, arith, Bool-cases, Option-cases, ltb, ltb→lt, if◌then◌else◌,
}
use neotune.Connect.Track.{Track, is_unavailable, initial_track_key, lookup}
use neotune.Connect.State.{max_next_tracks, default, StateContext, ConnectState}
use neotune.Connect.Player.{get_context?, repeat_context, set_next, update_queue_revision}
use neotune.Connect.Exec.{Run, ok}
use neotune.Connect.Context.{is_skip_track}
use neotune.Connect.Fill.{
  stop, continue, at_end, fill_up_round, fill_up_loop, fill_up_fuel, fill_up_next_tracks,
}
use neotune.Connect.Fill.Result.{update_context_index-ok, fill_up_next_tracks-steps}
use neotune.Connect.Fill.Loop.{fill_up_loop-full, fill_up_loop-stop, fill_up_loop-continue}

-- The tracks that can be played.
pub available : List Track → List Track
available [] = []
available (t ∷ ts) = if is_unavailable t then available ts else t ∷ available ts

-- Only the default context is played, once and in its order.
abbrev pub IsPlain : ConnectState → StateContext → Type 0
IsPlain s ctx =
    (s.fill_up_context ≡ default)
    × (s.active_context ≡ default)
    × (s.context ≡ some ctx)
    × (s.autoplay_context ≡ none)
    × (repeat_context s ≡ false)
    × (lookup initial_track_key ctx.metadata ≡ none)

plain-loaded :
    (s : ConnectState) (ctx : StateContext) (ns : List Track)
    → IsPlain s ctx
    → get_context? s.fill_up_context (set_next ns s) ≡ some ctx
unfolding get_context? set_next
plain-loaded s ctx ns (f, a, c, n, r, l) = rw (f, get_context?, c) refl

is_skip_track-plain :
    (s : ConnectState) (ctx : StateContext) (ns : List Track) (t : Track) (it : Option ℕ)
    → IsPlain s ctx
    → is_skip_track (set_next ns s) t it ≡ false
unfolding is_skip_track get_context? set_next
is_skip_track-plain s ctx ns t it (f, a, c, n, r, l) =
    rw (is_skip_track, a, get_context?, c, l) refl

fill_up_round-end :
    (s : ConnectState) (ctx : StateContext) (ns : List Track) (i it : ℕ)
    → IsPlain s ctx
    → get_elem? ctx.tracks.vec i ≡ none
    → fill_up_round ctx i it (set_next ns s) ≡ stop
unfolding fill_up_round at_end repeat_context set_next
fill_up_round-end s ctx ns i it (f, a, c, n, r, l) e =
    simp (fill_up_round, e, at_end, repeat_context, r, n)

fill_up_round-skip :
    (s : ConnectState) (ctx : StateContext) (ns : List Track) (i it : ℕ) (t : Track)
    → get_elem? ctx.tracks.vec i ≡ some t
    → is_unavailable t ≡ true
    → fill_up_round ctx i it (set_next ns s) ≡ continue (i + 1) it (set_next ns s)
unfolding fill_up_round
fill_up_round-skip s ctx ns i it t e u = simp (fill_up_round, e, u)

fill_up_round-take :
    (s : ConnectState) (ctx : StateContext) (ns : List Track) (i it : ℕ) (t : Track)
    → IsPlain s ctx
    → get_elem? ctx.tracks.vec i ≡ some t
    → is_unavailable t ≡ false
    → fill_up_round ctx i it (set_next ns s) ≡ continue (i + 1) it (set_next (ns ++ (t ∷ [])) s)
unfolding fill_up_round set_next
fill_up_round-take s ctx ns i it t p e u =
    simp (fill_up_round, e, u, is_skip_track-plain s ctx ns t (some it) p)

drop-none : (ts : List Track) (i : ℕ) → get_elem? ts i ≡ none → drop i ts ≡ []
drop-none [] zero e = refl
drop-none [] (suc i) e = refl
drop-none (t ∷ ts) zero e = cc
drop-none (t ∷ ts) (suc i) e = drop-none ts i e

drop-some :
    (ts : List Track) (i : ℕ) (t : Track)
    → get_elem? ts i ≡ some t
    → drop i ts ≡ t ∷ drop (suc i) ts
drop-some [] i t e = cc
drop-some (x ∷ ts) zero t e = let same : x ≡ t = cc in ap (λ y. y ∷ ts) same
drop-some (x ∷ ts) (suc i) t e = drop-some ts i t e

-- What is taken in the list of next tracks from the index on.
abbrev pub taken : StateContext → List Track → ℕ → List Track
taken ctx ns i = take (max_next_tracks - length ns) (available (drop i ctx.tracks.vec))

-- A loop that ends with these next tracks, and no other change.
abbrev Leaves : ConnectState → List Track → Run ℕ × ConnectState → Type 0
Leaves s ns r = (i : ℕ) × (r ≡ (ok i, set_next ns s))

length-drop_some : (ts : List Track) (i : ℕ) (t : Track) → get_elem? ts i ≡ some t → i < length ts
length-drop_some [] i t e = cc
length-drop_some (x ∷ ts) zero t e = omega arith
length-drop_some (x ∷ ts) (suc i) t e = let l = length-drop_some ts i t e in omega arith

taken-full :
    (ctx : StateContext) (ns : List Track) (i : ℕ)
    → max_next_tracks ≤ length ns
    → ns ++ taken ctx ns i ≡ ns
taken-full ctx ns i h =
    let z : max_next_tracks - length ns ≡ 0 = omega arith in rw z (append_nil ns)

take_nil : (k : ℕ) → take {A = Track} k [] ≡ []
take_nil zero = refl
take_nil (suc k) = refl

taken-end :
    (ctx : StateContext) (ns : List Track) (i : ℕ)
    → get_elem? ctx.tracks.vec i ≡ none
    → ns ++ taken ctx ns i ≡ ns
unfolding available
taken-end ctx ns i e =
    rw (drop-none ctx.tracks.vec i e, available, take_nil (max_next_tracks - length ns))
      (append_nil ns)

taken-skip :
    (ctx : StateContext) (ns : List Track) (i : ℕ) (t : Track)
    → get_elem? ctx.tracks.vec i ≡ some t
    → is_unavailable t ≡ true
    → taken ctx ns i ≡ taken ctx ns (i + 1)
unfolding available
taken-skip ctx ns i t e u =
    let next : i + 1 ≡ suc i = omega arith in
    rw (drop-some ctx.tracks.vec i t e, available, u, next) refl

taken-take :
    (ctx : StateContext) (ns : List Track) (i : ℕ) (t : Track)
    → get_elem? ctx.tracks.vec i ≡ some t
    → is_unavailable t ≡ false
    → length ns < max_next_tracks
    → ns ++ taken ctx ns i ≡ (ns ++ (t ∷ [])) ++ taken ctx (ns ++ (t ∷ [])) (i + 1)
unfolding available
taken-take ctx ns i t e u h =
    let next : i + 1 ≡ suc i = omega arith in
    let one = length-append ns (t ∷ []) in
    let room : max_next_tracks - length ns ≡ suc (max_next_tracks - length (ns ++ (t ∷ []))) =
      omega arith in
    rw (drop-some ctx.tracks.vec i t e, available, u, room, next)
      (sym (append-snoc ns t (taken ctx (ns ++ (t ∷ [])) (suc i))))

fill_up_loop-plain :
    (fuel i it : ℕ) (ns : List Track) (s : ConnectState) (ctx : StateContext)
    → IsPlain s ctx
    → length ctx.tracks.vec - i < fuel
    → Leaves s (ns ++ taken ctx ns i) (fill_up_loop fuel i it (set_next ns s))
unfolding set_next
fill_up_loop-plain zero i it ns s ctx p h = absurd (omega arith)
fill_up_loop-plain (suc fuel) i it ns s ctx p h =
    let s' = set_next ns s in
    let c = plain-loaded s ctx ns p in
    elim (Bool-cases (ltb (length ns) max_next_tracks)) [
      | inr full ↦
          let big : max_next_tracks ≤ length ns = ground arith in
          rw (taken-full ctx ns i big) (i, fill_up_loop-full fuel i it s' full)
      | inl more ↦ elim (Option-cases (get_elem? ctx.tracks.vec i)) [
        | inl e ↦
            rw (taken-end ctx ns i e)
              (i, fill_up_loop-stop fuel i it s' ctx more c (fill_up_round-end s ctx ns i it p e))
        | inr (t, e) ↦
            let l = length-drop_some ctx.tracks.vec i t e in
            elim (Bool-cases (is_unavailable t)) [
              | inl u ↦
                  rw
                    (
                      taken-skip ctx ns i t e u,
                      fill_up_loop-continue fuel i it s' ctx _ _ _ more c
                          (fill_up_round-skip s ctx ns i it t e u),
                    )
                    (fill_up_loop-plain fuel (i + 1) it ns s ctx p (omega arith))
              | inr u ↦
                  rw
                    (
                      taken-take ctx ns i t e u (ltb→lt _ _ more),
                      fill_up_loop-continue fuel i it s' ctx _ _ _ more c
                          (fill_up_round-take s ctx ns i it t p e u),
                    )
                    (fill_up_loop-plain fuel (i + 1) it (ns ++ (t ∷ [])) s ctx p (omega arith))
            ]
      ]
    ]

plain-fuel :
    (s : ConnectState) (ctx : StateContext) (i : ℕ)
    → s.context ≡ some ctx
    → length ctx.tracks.vec - i < fill_up_fuel s
unfolding fill_up_fuel
plain-fuel s ctx i c = rw (fill_up_fuel, c) (omega arith)

-- In the plain case the next tracks are filled up with the available tracks of the context from its
-- index on, in their order, as many as fit into 80.
pub fill_up_next_tracks-plain :
    (s : ConnectState) (ctx : StateContext)
    → IsPlain s ctx
    → (fill_up_next_tracks s).1.player.next_tracks
      ≡ s.player.next_tracks
        ++ take
            (max_next_tracks - length s.player.next_tracks)
            (available (drop ctx.index.track ctx.tracks.vec))
unfolding update_queue_revision set_next
fill_up_next_tracks-plain s ctx p =
    let (_, _, c, _, _, _) = p in
    let loaded = plain-loaded s ctx s.player.next_tracks p in
    let (i, e1) =
      fill_up_loop-plain (fill_up_fuel s) ctx.index.track ctx.index.page s.player.next_tracks s ctx
        p (plain-fuel s ctx ctx.index.track c) in
    let ns = s.player.next_tracks ++ taken ctx s.player.next_tracks ctx.index.track in
    let (s2, e2, p2, _) =
      update_context_index-ok (set_next ns s) i (ctx, plain-loaded s ctx ns p) in
    ap (λ r. r.1.player.next_tracks)
      (fill_up_next_tracks-steps s (set_next ns s) s2 ctx i loaded e1 e2)
    ∙ ap (λ q. q.next_tracks) p2
