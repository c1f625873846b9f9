-- ===== src/Player/Uri.antt =====
-- librespot_src/core/src/spotify_uri.rs: the derived equality of uris.
use neotune.Common.{ℕ, Bool, true, false, ◌&&◌, Option, none, some, List, bytes_eq, ◌==◌}
use neotune.SpotifyUri.{
  SpotifyUri, album, artist, episode, playlist, show, track, local_file, unknown,
}

abbrev pub user_eq : Option (List ℕ) → Option (List ℕ) → Bool
user_eq none none = true
user_eq none (some v) = false
user_eq (some u) none = false
user_eq (some u) (some v) = bytes_eq u v

unfoldable pub uri_eq : SpotifyUri → SpotifyUri → Bool
uri_eq (album i) (album j) = i.id == j.id
uri_eq (artist i) (artist j) = i.id == j.id
uri_eq (episode i) (episode j) = i.id == j.id
uri_eq (playlist u i) (playlist v j) = user_eq u v && i.id == j.id
uri_eq (show i) (show j) = i.id == j.id
uri_eq (track i) (track j) = i.id == j.id
uri_eq (local_file a l t d) (local_file b m s e) =
    bytes_eq a b && (bytes_eq l m && (bytes_eq t s && d == e))
uri_eq (unknown k i) (unknown m j) = bytes_eq k m && bytes_eq i j
uri_eq u v = false
