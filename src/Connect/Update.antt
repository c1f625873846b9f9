-- ===== src/Connect/Update.antt =====
-- librespot_src/connect/src/state/context.rs: `update_context`.
mod Tests
pub mod Pages
pub mod Uris
use neotune.Common.{
  ℕ, suc, Bool, true, false, not, ◌&&◌, ◌||◌, Option, none, some, List, [], ◌∷◌, ◌++◌, codes,
  bytes_eq, starts_with, if◌then◌else◌, Result,
}
use neotune.Connect.Track.{Metadata, autoplay}
use neotune.Connect.State.{
  ContextType, default, StateError, context_has_no_tracks, unsupported_local_playback, Restrictions,
  StateContext, ConnectState, with_player,
}
use neotune.Connect.Exec.{Exec, Run, after, ok, err, out_of_fuel, ◌>>=◌, pure, fail, modify}
use neotune.Connect.Context.{ContextPage, search_identifier}
use neotune.Connect.Resume.{find_last_index_in_new_context}
use neotune.Connect.Queue.{clear_next_tracks}
use neotune.Connect.Convert.{state_context_from_page, fill_context_from_page, page_url_to_uri}

-- The message `Context`.
pub record Context : Type 0 where
  pub uri : Option (List ℕ)
  pub url : Option (List ℕ)
  pub metadata : Metadata
  pub restrictions : Option Restrictions
  pub pages : List ContextPage

abbrev pub local_files_identifier : List ℕ
local_files_identifier = codes "spotify:local-files"

abbrev pub is_empty_page : ContextPage → Bool
is_empty_page page = elim page.tracks [ [] ↦ true | t ∷ ts ↦ false ]

unfoldable pub has_no_tracks : List ContextPage → Bool
has_no_tracks [] = true
has_no_tracks (page ∷ pages) = is_empty_page page && has_no_tracks pages

unfoldable pub is_local : Option (List ℕ) → Bool
is_local none = false
is_local (some uri) = starts_with uri local_files_identifier

-- The first page with tracks, and the other pages in their order.
unfoldable pub split_pages : List ContextPage → Option ContextPage × List ContextPage
split_pages [] = (none, [])
split_pages (page ∷ pages) = elim (is_empty_page page) [
  | true ↦ (let (first, rest) = split_pages pages in (first, page ∷ rest))
  | false ↦ (some page, pages)
]

-- `url.contains(SEARCH_IDENTIFIER)`
unfoldable pub contains_search : List ℕ → Bool
contains_search [] = false
contains_search (c ∷ cs) = starts_with (c ∷ cs) search_identifier || contains_search cs

unfoldable pub url_to_keep : Option (List ℕ) → List ℕ
url_to_keep none = []
url_to_keep (some url) = if contains_search url then [] else url

abbrev or_empty : Option (List ℕ) → List ℕ
or_empty none = []
or_empty (some text) = text

-- "when we update the same context, we should try to preserve the previous position"
unfoldable pub is_same_context : Option (List ℕ) → ConnectState → Bool
is_same_context none s = false
is_same_context (some uri) s =
    not (starts_with s.player.context_uri search_identifier) && bytes_eq uri s.player.context_uri

abbrev at_track : ℕ → StateContext → StateContext
at_track i ctx = record ctx { index = record ctx.index { track = i } }

-- "enforce reloading the context"
unfoldable pub reload : ConnectState → ConnectState
reload s = clear_next_tracks (elim s.autoplay_context [
  | none ↦ s
  | some ctx ↦ record s { autoplay_context = some (at_track 0 ctx) }
])

-- The new context with the track it is continued from, and the state that goes with it.
unfoldable pub keep_position : StateContext → ConnectState → StateContext × ConnectState
keep_position new_context s = elim (find_last_index_in_new_context s new_context) [
  | none ↦ (new_context, s)
  | some (Result.ok i) ↦ (at_track i new_context, reload s)
  | some (Result.err i) ↦
      (at_track i new_context, reload (with_player s (record s.player { index = none })))
]

unfoldable pub continue_context :
    Option (List ℕ) → StateContext → ConnectState → StateContext × ConnectState
continue_context uri new_context s = elim (is_same_context uri s) [
  | true ↦ keep_position new_context s
  | false ↦ (new_context, s)
]

-- The arm for the default context.
unfoldable pub update_default :
    (uuids : ℕ → List ℕ) → Context → ContextPage → ConnectState → ConnectState
update_default uuids context page s =
    let new =
      state_context_from_page uuids page context.metadata context.restrictions context.uri (some 0)
        none s in
    let (ctx, s1) = continue_context context.uri new s in
    record s1 {
      context = some ctx;
      player = record s1.player {
        context_url = url_to_keep context.url;
        context_uri = or_empty context.uri;
      };
    }

-- The arm for the context of the autoplay.
unfoldable pub update_autoplay :
    (uuids : ℕ → List ℕ) → Context → ContextPage → ConnectState → ConnectState
update_autoplay uuids context page s = record s {
  autoplay_context = some (
      state_context_from_page uuids page context.metadata context.restrictions context.uri none
        (some autoplay) s);
}

unfoldable pub update_first :
    (uuids : ℕ → List ℕ) → Context → ContextType → ContextPage → ConnectState → ConnectState
update_first uuids context default page s = update_default uuids context page s
update_first uuids context ContextType.autoplay page s = update_autoplay uuids context page s

abbrev next_uri : ContextPage → List (List ℕ)
next_uri page = elim page.page_url [
  | none ↦ []
  | some [] ↦ []
  | some (c ∷ url) ↦ page_url_to_uri (c ∷ url) ∷ []
]

-- "load remaining contexts": the pages with tracks are filled in, whatever type is updated, and the others
-- leave their uris. `uuids` has the ids of the tracks of each page.
unfoldable pub load_remaining :
    (uuids : ℕ → ℕ → List ℕ) → ℕ → List ContextPage → ConnectState → List (List ℕ) × ConnectState
load_remaining uuids n [] s = ([], s)
load_remaining uuids n (page ∷ pages) s = elim (is_empty_page page) [
  | false ↦ load_remaining uuids (suc n) pages (fill_context_from_page (uuids n) page s).1
  | true ↦ (let (uris, s1) = load_remaining uuids (suc n) pages s in (next_uri page ++ uris, s1))
]

unfoldable pub finish_update :
    (uuids : ℕ → ℕ → List ℕ)
    → List ContextPage
    → ConnectState
    → Run (Option (List (List ℕ))) × ConnectState
finish_update uuids [] s = (ok none, s)
finish_update uuids (page ∷ pages) s =
    let (uris, s1) = load_remaining uuids 1 (page ∷ pages) s in (ok (some uris), s1)

unfoldable pub update_context :
    (uuids : ℕ → ℕ → List ℕ) → Context → ContextType → Exec (Option (List (List ℕ)))
update_context uuids context ty s =
    if has_no_tracks context.pages
    then (err context_has_no_tracks, s)
    else if is_local context.uri
    then (err unsupported_local_playback, s)
    else elim (split_pages context.pages).0 [
      | none ↦ (err context_has_no_tracks, s)
      | some page ↦
          finish_update uuids (split_pages context.pages).1
            (update_first (uuids 0) context ty page s)
    ]
