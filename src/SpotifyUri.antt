-- ===== src/SpotifyUri.antt =====
-- librespot_src/core/src/spotify_uri.rs: the uris of Spotify's items, read and printed.
mod Tests
pub mod Split
pub mod RoundTrip
use neotune.Common.{
  ℕ, Bool, true, false, Option, none, some, List, [], ◌∷◌, ◌++◌, codes, bytes_eq, ◌==◌,
  if◌then◌else◌, Result, ok, err, ◌>>=◌, ok_or, show_u64, parse_u64,
}
use neotune.SpotifyId.{SpotifyId, SpotifyIdError, from_base62, to_base62}

pub data SpotifyUriError : Type 0 where
  invalid_format invalid_root : SpotifyUriError
  invalid_id : SpotifyIdError → SpotifyUriError

-- A duration is read and printed in seconds.
pub data SpotifyUri : Type 0 where
  album : SpotifyId → SpotifyUri
  artist : SpotifyId → SpotifyUri
  episode : SpotifyId → SpotifyUri
  playlist : Option (List ℕ) → SpotifyId → SpotifyUri
  show : SpotifyId → SpotifyUri
  track : SpotifyId → SpotifyUri
  local_file : List ℕ → List ℕ → List ℕ → ℕ → SpotifyUri
  unknown : List ℕ → List ℕ → SpotifyUri

abbrev pub SpotifyUriResult : Type 0
SpotifyUriResult = Result SpotifyUriError SpotifyUri

pub is_playable : SpotifyUri → Bool
is_playable (album id) = false
is_playable (artist id) = false
is_playable (episode id) = true
is_playable (playlist user id) = false
is_playable (show id) = false
is_playable (track id) = true
is_playable (local_file a l t d) = true
is_playable (unknown kind id) = false

unfoldable pub item_type : SpotifyUri → List ℕ
item_type (album id) = codes "album"
item_type (artist id) = codes "artist"
item_type (episode id) = codes "episode"
item_type (playlist user id) = codes "playlist"
item_type (show id) = codes "show"
item_type (track id) = codes "track"
item_type (local_file a l t d) = codes "local"
item_type (unknown kind id) = codes "unknown"

abbrev pub colon : List ℕ
colon = b':' ∷ []

-- `none` is a panic of `to_base62`.
unfoldable pub to_id : SpotifyUri → Option (List ℕ)
to_id (album id) = to_base62 id
to_id (artist id) = to_base62 id
to_id (episode id) = to_base62 id
to_id (playlist user id) = to_base62 id
to_id (show id) = to_base62 id
to_id (track id) = to_base62 id
to_id (local_file a l t d) = some (a ++ colon ++ l ++ colon ++ t ++ colon ++ show_u64 d)
to_id (unknown kind id) = some id

abbrev pub prefixed : List ℕ → Option (List ℕ) → Option (List ℕ)
prefixed p none = none
prefixed p (some text) = some (p ++ text)

unfoldable pub to_uri : SpotifyUri → Option (List ℕ)
unfolding to_id item_type
to_uri (playlist (some user) id) =
    prefixed (codes "spotify:user:" ++ (user ++ (colon ++ (codes "playlist" ++ colon))))
      (to_base62 id)
to_uri u = prefixed (codes "spotify:" ++ item_type u ++ colon) (to_id u)

-- `src.split(':')`
abbrev pub onto_first : ℕ → List (List ℕ) → List (List ℕ)
onto_first c [] = (c ∷ []) ∷ []
onto_first c (part ∷ parts) = (c ∷ part) ∷ parts

unfoldable pub split : List ℕ → List (List ℕ)
split [] = [] ∷ []
split (c ∷ cs) = let rest = split cs in if c == b':' then [] ∷ rest else onto_first c rest

-- `parts.next().ok_or(SpotifyUriError::InvalidFormat)?`
abbrev pub next_part : List (List ℕ) → Result SpotifyUriError (List ℕ × List (List ℕ))
next_part [] = err invalid_format
next_part (part ∷ parts) = ok (part, parts)

-- `SpotifyId::from_base62(name)?` in a constructor
unfoldable pub with_id : (SpotifyId → SpotifyUri) → List ℕ → SpotifyUriResult
with_id make name = elim (from_base62 name) [ ok id ↦ ok (make id) | err e ↦ err (invalid_id e) ]

unfoldable pub parse_local : List ℕ → List (List ℕ) → SpotifyUriResult
parse_local name parts = do
  (album_title, parts1) ← next_part parts
  (track_title, parts2) ← next_part parts1
  (duration, parts3) ← next_part parts2
  secs ← ok_or (parse_u64 duration) invalid_format
  ok (local_file name album_title track_title secs)

-- The `match item_type`, whose arms are tried in order.
unfoldable pub parse_item : Option (List ℕ) → List ℕ → List ℕ → List (List ℕ) → SpotifyUriResult
unfolding with_id parse_local
parse_item user kind name parts =
    if bytes_eq kind (codes "album")
    then with_id album name
    else if bytes_eq kind (codes "artist")
    then with_id artist name
    else if bytes_eq kind (codes "episode")
    then with_id episode name
    else if bytes_eq kind (codes "playlist")
    then with_id (playlist user) name
    else if bytes_eq kind (codes "show")
    then with_id show name
    else if bytes_eq kind (codes "track")
    then with_id track name
    else if bytes_eq kind (codes "local")
    then parse_local name parts
    else ok (unknown kind name)

-- The type of the item, with the user that may stand before it.
unfoldable pub parse_type :
    List (List ℕ) → Result SpotifyUriError (Option (List ℕ) × List ℕ × List (List ℕ))
parse_type parts = do
  (first, parts1) ← next_part parts
  if bytes_eq first (codes "user")
      then (do
        (user, parts2) ← next_part parts1
        (kind, parts3) ← next_part parts2
        ok (some user, kind, parts3))
      else ok (none, first, parts1)

unfoldable pub from_uri : List ℕ → SpotifyUriResult
unfolding split parse_type parse_item
from_uri src = do
  (scheme, parts) ← next_part (split src)
  if bytes_eq scheme (codes "spotify")
      then (do
        (user, kind, parts1) ← parse_type parts
        (name, parts2) ← next_part parts1
        parse_item user kind name parts2)
      else err invalid_root
