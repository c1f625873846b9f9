-- ===== src/Resolver/Tests.antt =====
-- A queue of two contexts, the first of them without a uri, and the theorems at it.
use neotune.Common.{◌≡◌, refl, some, [], ◌∷◌, codes, bytes_eq}
use neotune.Resolver.{
  ResolveContext, ContextResolver, Same, append_context, context_uri, resolve_uri, new_resolver,
  add, find_next, find_from, remove_used_and_invalid,
}
use neotune.Resolver.Queue.{AllDiffer, adds, removes, Reaches, here, there, Reaches-AllDiffer}

-- Entries are told apart by their uri.
abbrev same_uri : Same
same_uri r r' = bytes_eq (context_uri r) (context_uri r')

abbrev album : ResolveContext
album = append_context (codes "spotify:album:a")

abbrev two_contexts : ContextResolver
two_contexts = record { queue = append_context [] ∷ album ∷ []; unavailable_contexts = [] }

abbrev after_add : ContextResolver
after_add = add same_uri 100 album new_resolver

abbrev run : Reaches same_uri new_resolver (remove_used_and_invalid after_add)
run =
    there new_resolver after_add (remove_used_and_invalid after_add) (adds 100 album new_resolver) (
      there after_add (remove_used_and_invalid after_add) (remove_used_and_invalid after_add)
        (removes after_add) (here (remove_used_and_invalid after_add)))

Reaches-AllDiffer_example : AllDiffer same_uri (remove_used_and_invalid after_add).queue
Reaches-AllDiffer_example =
    Reaches-AllDiffer same_uri new_resolver (remove_used_and_invalid after_add) run tt

found : find_next two_contexts ≡ some (album, codes "spotify:album:a", 1)
unfolding find_next find_from resolve_uri neotune.Resolver.own_uri append_context
    neotune.Connect.Context.valid_resolve_uri
found = refl
