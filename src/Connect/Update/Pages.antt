-- ===== src/Connect/Update/Pages.antt =====
-- librespot_src/connect/src/state/context.rs: what `update_context` leaves alone, and where the pages behind
-- the first one go.
use neotune.Common.{
  ℕ, suc, ◌≡◌, refl, ◌∙◌, inl, inr, false, Option, none, some, List, [], ◌∷◌, length, Bool-cases,
  Option-cases, Result,
}
use neotune.Connect.Track.{Track}
use neotune.Connect.State.{ContextType, default, StateContext, ConnectState}
use neotune.Connect.Queue.Bounds.{clear_next_tracks-IsBounded}
use neotune.Connect.Tracks.Bounds.{IsBounded}
use neotune.Connect.Context.{ContextPage}
use neotune.Connect.Resume.{find_last_index_in_new_context}
use neotune.Connect.Convert.{page_tracks, state_context_from_page, push_all, fill_context_from_page}
use neotune.Connect.Update.{
  Context, is_empty_page, has_no_tracks, is_local, split_pages, is_same_context, reload,
  keep_position, continue_context, update_default, update_autoplay, update_first, load_remaining,
  finish_update, update_context,
}

fill_context_from_page-player :
    (uuids : ℕ → List ℕ) (page : ContextPage) (s : ConnectState)
    → (fill_context_from_page uuids page s).1.player ≡ s.player
unfolding fill_context_from_page
fill_context_from_page-player uuids page s = elim (Option-cases s.context) [
  | inl e ↦ simp (fill_context_from_page, e) refl
  | inr (ctx, e) ↦ simp (fill_context_from_page, e) refl
]

load_remaining-player :
    (uuids : ℕ → ℕ → List ℕ) (n : ℕ) (pages : List ContextPage) (s : ConnectState)
    → (load_remaining uuids n pages s).1.player ≡ s.player
unfolding load_remaining
load_remaining-player uuids n [] s = refl
load_remaining-player uuids n (page ∷ pages) s = elim (Bool-cases (is_empty_page page)) [
  | inl e ↦ simp (load_remaining, e) (load_remaining-player uuids (suc n) pages s)
  | inr e ↦
      simp (load_remaining, e)
        (load_remaining-player uuids (suc n) pages (fill_context_from_page (uuids n) page s).1
          ∙ fill_context_from_page-player (uuids n) page s)
]

reload-IsBounded : (s : ConnectState) → IsBounded s → IsBounded (reload s)
unfolding reload
reload-IsBounded s b = elim (Option-cases s.autoplay_context) [
  | inl e ↦ simp (reload, e) (clear_next_tracks-IsBounded s b)
  | inr (ctx, e) ↦ simp (reload, e) (clear_next_tracks-IsBounded _ b)
]

keep_position-IsBounded :
    (ctx : StateContext) (s : ConnectState) → IsBounded s → IsBounded (keep_position ctx s).1
unfolding keep_position
keep_position-IsBounded ctx s b = go (find_last_index_in_new_context s ctx) refl
  where
    go :
        (r : Option (Result ℕ ℕ))
        → find_last_index_in_new_context s ctx ≡ r
        → IsBounded (keep_position ctx s).1
    go none e = simp (keep_position, e) b
    go (some (Result.ok i)) e = simp (keep_position, e) (reload-IsBounded s b)
    go (some (Result.err i)) e = simp (keep_position, e) (reload-IsBounded _ b)

continue_context-IsBounded :
    (uri : Option (List ℕ)) (ctx : StateContext) (s : ConnectState)
    → IsBounded s
    → IsBounded (continue_context uri ctx s).1
unfolding continue_context
continue_context-IsBounded uri ctx s b = elim (Bool-cases (is_same_context uri s)) [
  | inl e ↦ simp (continue_context, e) (keep_position-IsBounded ctx s b)
  | inr e ↦ simp (continue_context, e) b
]

update_first-IsBounded :
    (uuids : ℕ → List ℕ) (context : Context) (ty : ContextType) (page : ContextPage)
    (s : ConnectState)
    → IsBounded s
    → IsBounded (update_first uuids context ty page s)
unfolding update_first update_default update_autoplay
update_first-IsBounded uuids context default page s b = continue_context-IsBounded context.uri _ s b
update_first-IsBounded uuids context ContextType.autoplay page s b = b

finish_update-IsBounded :
    (uuids : ℕ → ℕ → List ℕ) (pages : List ContextPage) (s : ConnectState)
    → IsBounded s
    → IsBounded (finish_update uuids pages s).1
unfolding finish_update
finish_update-IsBounded uuids [] s b = b
finish_update-IsBounded uuids (page ∷ pages) s b =
    rw (load_remaining-player uuids 1 (page ∷ pages) s) b

-- A context that arrives keeps the bounds of the lists, whether it is taken or refused.
pub update_context-IsBounded :
    (uuids : ℕ → ℕ → List ℕ) (context : Context) (ty : ContextType) (s : ConnectState)
    → IsBounded s
    → IsBounded (update_context uuids context ty s).1
unfolding update_context
update_context-IsBounded uuids context ty s b = elim (Bool-cases (has_no_tracks context.pages)) [
  | inl e ↦ simp (update_context, e) b
  | inr e ↦ elim (Bool-cases (is_local context.uri)) [
    | inl f ↦ simp (update_context, e, f) b
    | inr f ↦ elim (Option-cases (split_pages context.pages).0) [
      | inl g ↦ simp (update_context, e, f, g) b
      | inr (page, g) ↦
          simp (update_context, e, f, g)
            (finish_update-IsBounded uuids (split_pages context.pages).1 _
              (update_first-IsBounded (uuids 0) context ty page s b))
    ]
  ]
]

pub fill_context_from_page-IsBounded :
    (uuids : ℕ → List ℕ) (page : ContextPage) (s : ConnectState)
    → IsBounded s
    → IsBounded (fill_context_from_page uuids page s).1
fill_context_from_page-IsBounded uuids page s b = rw (fill_context_from_page-player uuids page s) b

two_pages :
    (page second : ContextPage)
    → is_empty_page page ≡ false
    → has_no_tracks (page ∷ second ∷ []) ≡ false
unfolding has_no_tracks
two_pages page second full = simp (full) refl

first_page :
    (page second : ContextPage)
    → is_empty_page page ≡ false
    → split_pages (page ∷ second ∷ []) ≡ (some page, second ∷ [])
unfolding split_pages
first_page page second full = simp (split_pages, full) refl

load_second :
    (uuids : ℕ → ℕ → List ℕ) (page : ContextPage) (s : ConnectState)
    → is_empty_page page ≡ false
    → load_remaining uuids 1 (page ∷ []) s ≡ ([], (fill_context_from_page (uuids 1) page s).1)
unfolding load_remaining
load_second uuids page s full = simp (load_remaining, full) refl

-- The tracks of a page that is put behind that many.
abbrev pub converted : (uuids : ℕ → List ℕ) → ContextPage → ℕ → ConnectState → List Track
converted uuids page n s =
    page_tracks uuids page.metadata s.player.context_uri (some n) none s 0 page.tracks

fill_context_from_page-context :
    (uuids : ℕ → List ℕ) (page : ContextPage) (s : ConnectState) (ctx : StateContext)
    → s.context ≡ some ctx
    → (fill_context_from_page uuids page s).1.context
      ≡ some (push_all (converted uuids page (length ctx.tracks.vec) s) ctx)
unfolding fill_context_from_page state_context_from_page
fill_context_from_page-context uuids page s ctx e = simp (fill_context_from_page, e) refl

fill_context_from_page-autoplay_context :
    (uuids : ℕ → List ℕ) (page : ContextPage) (s : ConnectState)
    → (fill_context_from_page uuids page s).1.autoplay_context ≡ s.autoplay_context
unfolding fill_context_from_page
fill_context_from_page-autoplay_context uuids page s = elim (Option-cases s.context) [
  | inl e ↦ simp (fill_context_from_page, e) refl
  | inr (ctx, e) ↦ simp (fill_context_from_page, e) refl
]

-- The contexts after two pages of tracks for the context of the autoplay.
pub update_context-contexts :
    (uuids : ℕ → ℕ → List ℕ) (context : Context) (page second : ContextPage) (s : ConnectState)
    (ctx : StateContext)
    → context.pages ≡ page ∷ second ∷ []
    → is_empty_page page ≡ false
    → is_empty_page second ≡ false
    → is_local context.uri ≡ false
    → s.context ≡ some ctx
    → (let s1 = update_autoplay (uuids 0) context page s in
        let s2 = (update_context uuids context ContextType.autoplay s).1 in
        (s2.autoplay_context ≡ s1.autoplay_context)
        × (s2.context
            ≡ some (push_all (converted (uuids 1) second (length ctx.tracks.vec) s1) ctx)))
unfolding update_context finish_update update_first update_autoplay
update_context-contexts uuids context page second s ctx pages full full2 remote has =
    let s1 = update_autoplay (uuids 0) context page s in
    let tracks : has_no_tracks context.pages ≡ false = rw (pages) (two_pages page second full) in
    let parts : split_pages context.pages ≡ (some page, second ∷ []) =
      rw (pages) (first_page page second full) in
    simp (update_context, tracks, remote, parts)
      (simp (load_second uuids second s1 full2) (
        fill_context_from_page-autoplay_context (uuids 1) second s1,
        fill_context_from_page-context (uuids 1) second s1 ctx has,
      ))
