-- ===== src/Connect/Fill/Result.antt =====
-- librespot_src/connect/src/state/tracks.rs: `fill_up_next_tracks` as a whole.
use neotune.Common.{ℕ, ◌≤◌, ◌≡◌, refl, ap, ◌∙◌, inl, inr, none, some, List, ◌++◌, map, length, max}
use neotune.Connect.Track.{Track}
use neotune.Connect.State.{max_next_tracks, StateContext, PlayerState, ConnectState, no_context}
use neotune.Connect.Player.{get_context?, repeat_context, put_context, update_queue_revision}
use neotune.Connect.Exec.{Run, ok, err, get_context}
use neotune.Connect.Context.{update_context_index}
use neotune.Connect.Fill.{fill_up_loop, fill_up_fuel, fill_up_next_tracks}
use neotune.Connect.Fill.Rounds.{IsLoaded, ContextType-cases}
use neotune.Connect.Fill.Loop.{IsFinal, fuel_is_enough, fill_up_loop_lem}

-- An update of the index of the context in use, which is there.
abbrev pub Updates : ConnectState → Run (Unit {0}) × ConnectState → Type 0
Updates s r = (s' : ConnectState) × (r ≡ (ok tt, s')) × (s'.player ≡ s.player) × IsLoaded s'

pub update_context_index-ok :
    (s : ConnectState) (i : ℕ) → IsLoaded s → Updates s (update_context_index s.fill_up_context i s)
unfolding update_context_index get_context? put_context
update_context_index-ok s i (ctx, c) = elim (ContextType-cases s.fill_up_context) [
  | inl d ↦
      let e : s.context ≡ some ctx = rw (d, get_context?) at c in
      rw (d, e) (_, refl, refl, (_, refl))
  | inr u ↦
      let e : s.autoplay_context ≡ some ctx = rw (u, get_context?) at c in
      rw (u, e) (_, refl, refl, (_, refl))
]

-- The player's state after a filling up that appended the tracks.
abbrev pub filled : PlayerState → List Track → PlayerState
filled p added = record p {
  next_tracks = p.next_tracks ++ added;
  queue_revision = map (λ t. t.uri) (p.next_tracks ++ added);
}

abbrev pub FillResult : ConnectState → Run (Unit {0}) × ConnectState → Type 0
FillResult s r =
    (s' : ConnectState) × (added : List Track) × (r ≡ (ok tt, s'))
    × (s'.player ≡ filled s.player added)
    × IsFinal s'
    × (length s'.player.next_tracks ≤ max max_next_tracks (length s.player.next_tracks))

pub fill_up_next_tracks-steps :
    (s s1 s2 : ConnectState) (ctx : StateContext) (i : ℕ)
    → get_context? s.fill_up_context s ≡ some ctx
    → fill_up_loop (fill_up_fuel s) ctx.index.track ctx.index.page s ≡ (ok i, s1)
    → update_context_index s1.fill_up_context i s1 ≡ (ok tt, s2)
    → fill_up_next_tracks s ≡ (ok tt, update_queue_revision s2)
unfolding fill_up_next_tracks get_context
fill_up_next_tracks-steps s s1 s2 ctx i c e1 e2 = simp (c, e1, e2)

-- The revision is set on top of what the loop appended.
revised :
    (p p1 p2 : PlayerState) (added : List Track)
    → p1 ≡ record p { next_tracks = p.next_tracks ++ added }
    → p2 ≡ p1
    → record p2 { queue_revision = map (λ t. t.uri) p2.next_tracks } ≡ filled p added
revised p p1 p2 added e1 e2 =
    ap (λ (q : PlayerState). record q { queue_revision = map (λ t. t.uri) q.next_tracks }) (e2 ∙ e1)

IsFinal-transfer :
    (s s' : ConnectState)
    → length s'.player.next_tracks ≡ length s.player.next_tracks
    → s'.player.options ≡ s.player.options
    → IsFinal s
    → IsFinal s'
unfolding repeat_context
IsFinal-transfer s s' l o final = rw (l, o, repeat_context) final

-- Where the context is there, filling up ends and succeeds. It only appends to the next tracks, and
-- sets the revision. The list has at most 80 tracks behind it, or those it had. If there are fewer
-- than 80, nothing is repeated.
pub fill_up_next_tracks_lem :
    (s : ConnectState) (ctx : StateContext)
    → get_context? s.fill_up_context s ≡ some ctx
    → FillResult s (fill_up_next_tracks s)
unfolding update_queue_revision
fill_up_next_tracks_lem s ctx c =
    let (i, s1, added, e1, (p1, _, _), loaded1, final1, bound1) =
      fill_up_loop_lem (fill_up_fuel s) ctx.index.track ctx.index.page s (ctx, c)
        (fuel_is_enough s ctx.index.track) in
    let (s2, e2, p2, _) = update_context_index-ok s1 i loaded1 in
    let l : length (update_queue_revision s2).player.next_tracks ≡ length s1.player.next_tracks =
      ap (λ p. length p.next_tracks) p2 in
    let o : (update_queue_revision s2).player.options ≡ s1.player.options =
      ap (λ p. p.options) p2 in
    (
      update_queue_revision s2,
      added,
      fill_up_next_tracks-steps s s1 s2 ctx i c e1 e2,
      revised s.player s1.player s2.player added p1 p2,
      IsFinal-transfer s1 _ l o final1,
      rw l bound1,
    )

-- Where it is not there, filling up reports that and changes nothing.
pub fill_up_next_tracks-no_context :
    (s : ConnectState)
    → get_context? s.fill_up_context s ≡ none
    → fill_up_next_tracks s ≡ (err (no_context s.fill_up_context), s)
unfolding fill_up_next_tracks get_context
fill_up_next_tracks-no_context s c = simp c
