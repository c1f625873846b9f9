-- ===== src/Resolver.antt =====
-- librespot_src/connect/src/context_resolver.rs: the queue of the contexts that are to be resolved. The
-- equality of two entries compares messages and is an argument; a time `now` is in nanoseconds. The requests
-- to the server are left out.
mod Tests
pub mod Queue
pub mod Apply
pub mod Finish
use neotune.Common.{
  ℕ, zero, suc, ◌+◌, ◌-◌, ◌*◌, ◌^◌, Bool, true, false, not, ◌||◌, Option, none, some, List, [], ◌∷◌,
  ◌++◌, ltb, drop, if◌then◌else◌,
}
use neotune.Connect.State.{ContextType, default, autoplay}
use neotune.Connect.Update.{Context}
use neotune.Connect.Context.{ContextPage, valid_resolve_uri, find_valid_uri}

pub data Resolve : Type 0 where
  by_uri : List ℕ → Resolve
  by_context : Context → Resolve

pub data ContextAction : Type 0 where
  append replace : ContextAction

pub record ResolveContext : Type 0 where
  pub resolve : Resolve
  pub fallback : Option (List ℕ)
  pub update : ContextType
  pub action : ContextAction

unfoldable pub append_context : List ℕ → ResolveContext
append_context uri = record {
  resolve = by_uri uri;
  fallback = none;
  update = default;
  action = append;
}

abbrev pub non_empty : List ℕ → Option (List ℕ)
non_empty [] = none
non_empty (b ∷ bs) = some (b ∷ bs)

unfoldable pub resolve_from_uri : List ℕ → List ℕ → ContextType → ContextAction → ResolveContext
resolve_from_uri uri fallback update action = record {
  resolve = by_uri uri;
  fallback = non_empty fallback;
  update = update;
  action = action;
}

unfoldable pub resolve_from_context : Context → ContextType → ContextAction → ResolveContext
resolve_from_context ctx update action = record {
  resolve = by_context ctx;
  fallback = none;
  update = update;
  action = action;
}

abbrev pub or_else : Option (List ℕ) → Option (List ℕ) → Option (List ℕ)
or_else (some uri) other = some uri
or_else none other = other

abbrev pub first : List ContextPage → Option ContextPage
first [] = none
first (p ∷ ps) = some p

unfoldable pub own_uri : Resolve → Option (List ℕ)
own_uri (by_uri uri) = valid_resolve_uri uri
own_uri (by_context ctx) = find_valid_uri ctx.uri (first ctx.pages)

-- "the uri which should be used to resolve the context"
unfoldable pub resolve_uri : ResolveContext → Option (List ℕ)
resolve_uri r = or_else (own_uri r.resolve) r.fallback

abbrev or_empty : Option (List ℕ) → List ℕ
or_empty none = []
or_empty (some uri) = uri

-- "the actual context uri"
unfoldable pub context_uri : ResolveContext → List ℕ
context_uri r = elim r.resolve [ by_uri uri ↦ uri | by_context ctx ↦ or_empty ctx.uri ]

-- `unavailable_contexts` is the list of its entries.
pub record ContextResolver : Type 0 where
  pub queue : List ResolveContext
  pub unavailable_contexts : List (ResolveContext × ℕ)

abbrev pub new_resolver : ContextResolver
new_resolver = record { queue = []; unavailable_contexts = [] }

abbrev pub retry_unavailable : ℕ
retry_unavailable = 3600 * 10 ^ 9

abbrev pub Same : Type 0
Same = ResolveContext → ResolveContext → Bool

unfoldable pub is_queued : Same → ResolveContext → List ResolveContext → Bool
is_queued same r [] = false
is_queued same r (x ∷ xs) = same x r || is_queued same r xs

unfoldable pub tried_at : Same → ResolveContext → List (ResolveContext × ℕ) → Option ℕ
tried_at same r [] = none
tried_at same r ((x, t) ∷ xs) = if same x r then some t else tried_at same r xs

unfoldable pub remove_tried :
    Same → ResolveContext → List (ResolveContext × ℕ) → List (ResolveContext × ℕ)
remove_tried same r [] = []
remove_tried same r ((x, t) ∷ xs) =
    let rest = remove_tried same r xs in if same x r then rest else (x, t) ∷ rest

unfoldable pub push_new : Same → ResolveContext → ContextResolver → ContextResolver
unfolding is_queued
push_new same r c = if is_queued same r c.queue then c else record c { queue = c.queue ++ (r ∷ []) }

unfoldable pub add : Same → ℕ → ResolveContext → ContextResolver → ContextResolver
unfolding push_new tried_at remove_tried
add same now r c = elim (tried_at same r c.unavailable_contexts) [
  | none ↦ push_new same r c
  | some t ↦ elim (ltb retry_unavailable (now - t)) [
    | true ↦
        push_new same r
          (record c { unavailable_contexts = remove_tried same r c.unavailable_contexts })
    | false ↦ c
  ]
]

unfoldable pub add_list : Same → ℕ → List ResolveContext → ContextResolver → ContextResolver
unfolding add
add_list same now [] c = c
add_list same now (r ∷ rs) c = add_list same now rs (add same now r c)

-- The loop of `find_next` from an index on.
unfoldable pub find_from : ℕ → List ResolveContext → Option (ResolveContext × List ℕ × ℕ)
find_from idx [] = none
find_from idx (r ∷ rs) = elim (resolve_uri r) [
  | none ↦ find_from (suc idx) rs
  | some uri ↦ some (r, uri, idx)
]

unfoldable pub find_next : ContextResolver → Option (ResolveContext × List ℕ × ℕ)
unfolding find_from
find_next c = find_from 0 c.queue

unfoldable pub has_next : ContextResolver → Bool
unfolding find_next
has_next c = elim (find_next c) [ none ↦ false | some next ↦ true ]

unfoldable pub remove_used_and_invalid : ContextResolver → ContextResolver
unfolding find_next
remove_used_and_invalid c = elim (find_next c) [
  | none ↦ record c { queue = drop 1 c.queue }
  | some next ↦ record c { queue = drop 1 (drop next.2 c.queue) }
]

unfoldable pub clear : ContextResolver → ContextResolver
clear c = record c { queue = [] }

unfoldable pub mark_next_unavailable : Same → ℕ → ContextResolver → ContextResolver
unfolding find_next remove_tried
mark_next_unavailable same now c = elim (find_next c) [
  | none ↦ c
  | some next ↦ record c {
    unavailable_contexts = (next.0, now) ∷ remove_tried same next.0 c.unavailable_contexts;
  }
]
