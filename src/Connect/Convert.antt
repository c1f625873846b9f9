-- ===== src/Connect/Convert.antt =====
-- librespot_src/connect/src/state/context.rs: the tracks of a page as the connect state keeps them, and the
-- uri in the address of a page. The unique ids that the crate `uuid` makes are arguments.
pub mod PageUrl
use neotune.Common.{
  ℕ, zero, suc, ◌+◌, Bool, true, false, ◌||◌, ◌==◌, Option, none, some, List, [], ◌∷◌, ◌++◌, codes,
  bytes_eq, starts_with, drop, take, length, if◌then◌else◌, Result, ok, err,
}
use neotune.ShuffleVec.{from_vec, push}
use neotune.SpotifyId.{SpotifyIdError}
use neotune.SpotifyId.Raw.{from_raw}
use neotune.SpotifyUri.{SpotifyUri, SpotifyUriError, track, from_uri, to_uri, onto_first}
use neotune.Connect.Track.{
  Metadata, insert_all, Provider, context, unavailable, autoplay, provider_text, Track,
  set_entity_uri, set_context_uri, set_context_index, set_from_autoplay,
}
use neotune.Connect.State.{
  StateError, invalid_track_uri, no_context, default, new_index, Restrictions, StateContext,
  ConnectState, or_default,
}
use neotune.Connect.Exec.{Exec, Run}
use neotune.Connect.Context.{ContextTrack, ContextPage}

-- `panicked` is a panic of `to_base62`.
pub data TrackError : Type 0 where
  state_error : StateError → TrackError
  uri_error : SpotifyUriError → TrackError
  id_error : SpotifyIdError → TrackError
  panicked : TrackError

-- `uri.contains(['?'])`
unfoldable pub has_query : List ℕ → Bool
has_query [] = false
has_query (c ∷ cs) = c == b'?' || has_query cs

abbrev from_gid : Option (List ℕ) → Result TrackError SpotifyUri
from_gid none = err (state_error (invalid_track_uri none))
from_gid (some []) = err (state_error (invalid_track_uri none))
from_gid (some (c ∷ gid)) = elim (from_raw (c ∷ gid)) [
  | ok id ↦ ok (track id)
  | err e ↦ err (id_error e)
]

-- The arms of the `match` are tried in order.
unfoldable pub track_id : ContextTrack → Result TrackError SpotifyUri
unfolding has_query
track_id t = elim t.uri [
  | none ↦ from_gid t.gid
  | some uri ↦ elim (has_query uri) [
    | true ↦ err (state_error (invalid_track_uri (some uri)))
    | false ↦ elim uri [
      | [] ↦ from_gid t.gid
      | c ∷ cs ↦ elim (from_uri (c ∷ cs)) [ ok id ↦ ok id | err e ↦ err (uri_error e) ]
    ]
  ]
]

-- `text.replace("unknown", "track")`; the number is what is left of an occurrence.
unfoldable pub replace_unknown : List ℕ → ℕ → List ℕ
replace_unknown [] skip = []
replace_unknown (c ∷ cs) (suc skip) = replace_unknown cs skip
replace_unknown (c ∷ cs) zero = elim (starts_with (c ∷ cs) (codes "unknown")) [
  | true ↦ codes "track" ++ replace_unknown cs 6
  | false ↦ c ∷ replace_unknown cs 0
]

abbrev contains_uri : List (List ℕ) → List ℕ → Bool
contains_uri [] uri = false
contains_uri (u ∷ us) uri = bytes_eq u uri || contains_uri us uri

-- "if no uid is present, resorting doesn't work"
unfoldable pub unique_id : List ℕ → Option (List ℕ) → List ℕ
unique_id uuid none = uuid
unique_id uuid (some []) = uuid
unique_id uuid (some (c ∷ uid)) = c ∷ uid

unfoldable pub with_context_uri : Option (List ℕ) → Track → Track
with_context_uri none t = t
with_context_uri (some uri) t = set_context_uri uri (set_entity_uri uri t)

unfoldable pub with_index : Option ℕ → Track → Track
with_index none t = t
with_index (some i) t = set_context_index i t

unfoldable pub with_autoplay : Provider → Track → Track
with_autoplay autoplay t = set_from_autoplay t
with_autoplay context t = t
with_autoplay Provider.queue t = t
with_autoplay unavailable t = t

-- What is made of a track whose uri is read.
unfoldable pub provided_track :
    (uuid : List ℕ)
    → ContextTrack
    → (uri : List ℕ) → Option (List ℕ)
    → Option ℕ
    → Option Metadata
    → Option Provider
    → ConnectState
    → Track
provided_track uuid t uri context_uri context_index page_metadata provider s =
    let p =
      if contains_uri s.unavailable_uri uri then unavailable else or_default context provider in
    with_autoplay p (
      with_index context_index (
        with_context_uri context_uri (record {
          uri = uri;
          uid = unique_id uuid t.uid;
          metadata = insert_all t.metadata (or_default [] page_metadata);
          provider = provider_text p;
        })))

unfoldable pub context_to_provided_track :
    (uuid : List ℕ)
    → ContextTrack
    → Option (List ℕ)
    → Option ℕ
    → Option Metadata
    → Option Provider
    → ConnectState
    → Result TrackError Track
context_to_provided_track uuid t context_uri context_index page_metadata provider s =
    elim (track_id t) [
      | err e ↦ err e
      | ok id ↦ elim (to_uri id) [
        | none ↦ err panicked
        | some text ↦ ok (
            provided_track uuid t (replace_unknown text 0) context_uri context_index page_metadata
              provider s)
      ]
    ]

abbrev pub plus : Option ℕ → ℕ → Option ℕ
plus none i = none
plus (some l) i = some (l + i)

-- The tracks of a page from the index `i` on; one that cannot be read is only logged. `uuids` gives the
-- id that is made for the track at an index.
unfoldable pub page_tracks :
    (uuids : ℕ → List ℕ) (page_metadata : Metadata) (context_uri : List ℕ)
    → Option ℕ
    → Option Provider
    → ConnectState
    → ℕ
    → List ContextTrack
    → List Track
page_tracks uuids m uri len p s i [] = []
page_tracks uuids m uri len p s i (t ∷ ts) =
    elim (context_to_provided_track (uuids i) t (some uri) (plus len i) (some m) p s) [
      | ok u ↦ u ∷ page_tracks uuids m uri len p s (suc i) ts
      | err e ↦ page_tracks uuids m uri len p s (suc i) ts
    ]

unfoldable pub state_context_from_page :
    (uuids : ℕ → List ℕ)
    → ContextPage
    → Metadata
    → Option Restrictions
    → Option (List ℕ)
    → Option ℕ
    → Option Provider
    → ConnectState
    → StateContext
state_context_from_page uuids page metadata restrictions new_context_uri context_length provider s =
    record {
      tracks = from_vec (
          page_tracks uuids page.metadata (or_default s.player.context_uri new_context_uri)
            context_length provider s 0 page.tracks);
      metadata = metadata;
      restrictions = restrictions;
      index = new_index;
    }

unfoldable pub push_all : List Track → StateContext → StateContext
push_all [] ctx = ctx
push_all (t ∷ ts) ctx = push_all ts (record ctx { tracks = push ctx.tracks t })

-- Without a context the tracks are converted in vain.
unfoldable pub fill_context_from_page : (uuids : ℕ → List ℕ) → ContextPage → Exec (Unit {0})
fill_context_from_page uuids page s = elim s.context [
  | none ↦ (Run.err (no_context default), s)
  | some ctx ↦
      (let n = length ctx.tracks.vec in
        let new = state_context_from_page uuids page [] none none (some n) none s in
        (Run.ok tt, record s { context = some (push_all new.tracks.vec ctx) }))
]

-- `split('/')`
unfoldable pub split_slash : List ℕ → List (List ℕ)
split_slash [] = [] ∷ []
split_slash (c ∷ cs) =
    let rest = split_slash cs in if c == b'/' then [] ∷ rest else onto_first c rest

-- `strip_prefix("hm://")`, or else the whole address.
unfoldable pub strip_hm : List ℕ → List ℕ
strip_hm url = if starts_with url (codes "hm://") then drop 5 url else url

unfoldable pub skip_to_spotify : List (List ℕ) → List (List ℕ)
skip_to_spotify [] = []
skip_to_spotify (part ∷ parts) =
    let rest = skip_to_spotify parts in
    if bytes_eq part (codes "spotify") then part ∷ parts else rest

-- `join(":")`
unfoldable pub join_colon : List (List ℕ) → List ℕ
join_colon [] = []
join_colon (part ∷ []) = part
join_colon (part ∷ next ∷ parts) = part ++ (b':' ∷ join_colon (next ∷ parts))

unfoldable pub page_url_to_uri : List ℕ → List ℕ
page_url_to_uri url = join_colon (take 3 (skip_to_spotify (split_slash (strip_hm url))))
