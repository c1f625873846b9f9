-- ===== src/Resolver/Apply.antt =====
-- librespot_src/connect/src/context_resolver.rs: what is done with a context that has arrived.
use neotune.Common.{
  ℕ, ◌≡◌, refl, inl, inr, Option, none, some, List, [], ◌∷◌, map, length, Result, Option-cases,
}
use neotune.Connect.State.{ConnectState, StateError}
use neotune.Connect.Exec.{Run}
use neotune.Connect.Context.{ContextPage, merge_context}
use neotune.Connect.Tracks.Bounds.{IsBounded}
use neotune.Connect.Convert.{fill_context_from_page}
use neotune.Connect.Update.{Context, update_context}
use neotune.Connect.Update.Pages.{update_context-IsBounded, fill_context_from_page-IsBounded}
use neotune.Resolver.{
  Resolve, by_uri, by_context, ContextAction, append, replace, ResolveContext, append_context,
  ContextResolver, find_next,
}

-- `stopped_short` is a loop of the state that was given too little fuel.
pub data ContextResolverError : Type 0 where
  no_next : ContextResolverError
  unexpected_pages_size : ℕ → ContextResolverError
  not_allowed_context : List ℕ → ContextResolverError
  state_error : StateError → ContextResolverError
  stopped_short : ContextResolverError

abbrev pub Applied : Type 0
Applied = Result ContextResolverError (Option (List ResolveContext)) × ConnectState

-- What is still to be resolved is appended.
unfoldable pub remaining_contexts :
    Run (Option (List (List ℕ))) → Result ContextResolverError (Option (List ResolveContext))
remaining_contexts (Run.ok none) = Result.ok none
remaining_contexts (Run.ok (some uris)) = Result.ok (some (map append_context uris))
remaining_contexts (Run.err e) = Result.err (state_error e)
remaining_contexts Run.out_of_fuel = Result.err stopped_short
remaining_contexts Run.panicked = Result.err stopped_short

unfoldable pub nothing_remains :
    Run (Unit {0}) → Result ContextResolverError (Option (List ResolveContext))
nothing_remains (Run.ok u) = Result.ok none
nothing_remains (Run.err e) = Result.err (state_error e)
nothing_remains Run.out_of_fuel = Result.err stopped_short
nothing_remains Run.panicked = Result.err stopped_short

-- `pages.clone().pop()`
unfoldable pub last_page : List ContextPage → Option ContextPage
last_page [] = none
last_page (page ∷ []) = some page
last_page (page ∷ next ∷ pages) = last_page (next ∷ pages)

unfoldable pub merge_resolved : Resolve → ConnectState → ConnectState
merge_resolved (by_uri uri) s = s
merge_resolved (by_context ctx) s = (merge_context (last_page ctx.pages) s).1

unfoldable pub append_pages : (uuids : ℕ → List ℕ) → List ContextPage → ConnectState → Applied
append_pages uuids [] s = (Result.err (unexpected_pages_size 0), s)
append_pages uuids (page ∷ []) s =
    (let (r, s1) = fill_context_from_page uuids page s in (nothing_remains r, s1))
append_pages uuids (page ∷ next ∷ pages) s =
    (Result.err (unexpected_pages_size (length (page ∷ next ∷ pages))), s)

unfoldable pub apply_context :
    (uuids : ℕ → ℕ → List ℕ) → Context → ResolveContext → ConnectState → Applied
apply_context uuids context next s = elim next.action [
  | append ↦ append_pages (uuids 0) context.pages s
  | replace ↦
      (let (r, s1) = update_context uuids context next.update s in
        (remaining_contexts r, merge_resolved next.resolve s1))
]

unfoldable pub apply_next_context :
    (uuids : ℕ → ℕ → List ℕ) → Context → ContextResolver → ConnectState → Applied
apply_next_context uuids context c s = elim (find_next c) [
  | none ↦ (Result.err no_next, s)
  | some (next, uri, idx) ↦ apply_context uuids context next s
]

pub merge_context-player :
    (page : Option ContextPage) (s : ConnectState) → (merge_context page s).1.player ≡ s.player
unfolding merge_context
merge_context-player page s = elim (Option-cases s.context) [
  | inl e ↦ simp (merge_context, e) refl
  | inr (old, e) ↦ elim (Option-cases page) [
    | inl f ↦ simp (merge_context, e, f) refl
    | inr (p, f) ↦ simp (merge_context, e, f) refl
  ]
]

merge_resolved-player : (r : Resolve) (s : ConnectState) → (merge_resolved r s).player ≡ s.player
unfolding merge_resolved
merge_resolved-player (by_uri uri) s = refl
merge_resolved-player (by_context ctx) s = merge_context-player (last_page ctx.pages) s

append_pages-IsBounded :
    (uuids : ℕ → List ℕ) (pages : List ContextPage) (s : ConnectState)
    → IsBounded s
    → IsBounded (append_pages uuids pages s).1
unfolding append_pages
append_pages-IsBounded uuids [] s b = b
append_pages-IsBounded uuids (page ∷ []) s b = fill_context_from_page-IsBounded uuids page s b
append_pages-IsBounded uuids (page ∷ next ∷ pages) s b = b

-- However it ends, what is done with a context that has arrived keeps the bounds of the lists.
pub apply_next_context-IsBounded :
    (uuids : ℕ → ℕ → List ℕ) (context : Context) (c : ContextResolver) (s : ConnectState)
    → IsBounded s
    → IsBounded (apply_next_context uuids context c s).1
unfolding apply_next_context apply_context
apply_next_context-IsBounded uuids context c s b = elim (Option-cases (find_next c)) [
  | inl e ↦ simp (apply_next_context, e) b
  | inr ((next, uri, idx), e) ↦ simp (apply_next_context, e) (go next next.action refl)
]
  where
    go :
        (next : ResolveContext) (a : ContextAction)
        → next.action ≡ a
        → IsBounded (apply_context uuids context next s).1
    go next append e = simp (apply_context, e) (append_pages-IsBounded (uuids 0) context.pages s b)
    go next replace e =
        simp (apply_context, e)
          (simp (merge_resolved-player next.resolve (update_context uuids context next.update s).1)
            (update_context-IsBounded uuids context next.update s b))
