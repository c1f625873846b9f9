-- ===== src/SpotifyUri/RoundTrip.antt =====
-- librespot_src/core/src/spotify_uri.rs: reading back what is printed.
use mathlib.Core.List.{append_assoc}
use neotune.Common.{
  ℕ, ◌<◌, ◌≡◌, refl, sym, ap, ◌∙◌, false, none, some, List, [], ◌∷◌, ◌++◌, codes, ok, u128_mod,
  bytes_eq,
}
use neotune.SpotifyId.{SpotifyId, from_base62, to_base62}
use neotune.SpotifyId.Base62.{from_base62-to_base62}
use neotune.SpotifyUri.{
  SpotifyUri, album, artist, episode, playlist, show, track, local_file, unknown, split, to_id,
  to_uri, item_type, from_uri, parse_type, parse_item, with_id, colon, prefixed,
}
use neotune.SpotifyUri.Split.{has_colon, split_plain, split-append, from_base62-has_colon}

abbrev FitsU128 : SpotifyId → Type 0
FitsU128 s = s.id < u128_mod

-- The uris that are printed in a form that can be read: an identifier has 128 bits and no text has
-- a colon in it; the type of an unknown item is printed as `unknown`.
abbrev pub IsReadable : SpotifyUri → Type 0
IsReadable (album id) = FitsU128 id
IsReadable (artist id) = FitsU128 id
IsReadable (episode id) = FitsU128 id
IsReadable (playlist none id) = FitsU128 id
IsReadable (playlist (some user) id) = (has_colon user ≡ false) × FitsU128 id
IsReadable (show id) = FitsU128 id
IsReadable (track id) = FitsU128 id
IsReadable (local_file a l t d) = ⊥
IsReadable (unknown kind id) = (kind ≡ codes "unknown") × (has_colon id ≡ false)

abbrev pub ReadsBack : SpotifyUri → Type 0
ReadsBack u = (text : List ℕ) × (to_uri u ≡ some text) × (from_uri text ≡ ok u)

-- A uri of three parts.
from_uri-parts :
    (kind text : List ℕ)
    → has_colon kind ≡ false
    → has_colon text ≡ false
    → bytes_eq kind (codes "user") ≡ false
    → from_uri (codes "spotify:" ++ kind ++ (b':' ∷ text)) ≡ parse_item none kind text []
unfolding from_uri split parse_type
from_uri-parts kind text k t u =
    rw (split-append kind text k, split_plain text t, parse_type, u) refl

-- A uri of five parts, with a user in front of the type.
from_uri-user :
    (user kind text : List ℕ)
    → has_colon user ≡ false
    → has_colon kind ≡ false
    → has_colon text ≡ false
    → from_uri (codes "spotify:user:" ++ (user ++ (b':' ∷ (kind ++ (b':' ∷ text)))))
      ≡ parse_item (some user) kind text []
unfolding from_uri split parse_type
from_uri-user user kind text s k t =
    rw (split-append user (kind ++ (b':' ∷ text)) s, split-append kind text k, split_plain text t)
      refl

with_id-ok :
    (make : SpotifyId → SpotifyUri) (text : List ℕ) (id : SpotifyId)
    → from_base62 text ≡ ok id
    → with_id make text ≡ ok (make id)
unfolding with_id
with_id-ok make text id h = rw (with_id, h) refl

-- What is common to the items with an identifier and no user.
ReadsBack-id :
    (u : SpotifyUri) (make : SpotifyId → SpotifyUri) (kind : List ℕ) (id : SpotifyId)
    → u ≡ make id
    → to_uri u ≡ prefixed (codes "spotify:" ++ kind ++ colon) (to_base62 id)
    → has_colon kind ≡ false
    → bytes_eq kind (codes "user") ≡ false
    → ((text : List ℕ) → parse_item none kind text [] ≡ with_id make text)
    → FitsU128 id
    → ReadsBack u
ReadsBack-id u make kind id same printed plain not_user parsed h =
    let (text, e, back) = from_base62-to_base62 id h in
    (
      codes "spotify:" ++ kind ++ (b':' ∷ text),
      printed
          ∙ ap (prefixed (codes "spotify:" ++ kind ++ colon)) e
          ∙ ap (λ l. some (codes "spotify:" ++ l)) (append_assoc kind colon text),
      from_uri-parts kind text plain (from_base62-has_colon text id back) not_user
          ∙ parsed text
          ∙ with_id-ok make text id back
          ∙ ap ok (sym same),
    )

-- Every uri that is readable is printed, without a panic, as text that is read back as the same uri.
pub from_uri-to_uri : (u : SpotifyUri) → IsReadable u → ReadsBack u
unfolding to_uri to_id item_type parse_item
from_uri-to_uri (album id) h =
    ReadsBack-id (album id) album (codes "album") id refl refl refl refl (λ text. refl) h
from_uri-to_uri (artist id) h =
    ReadsBack-id (artist id) artist (codes "artist") id refl refl refl refl (λ text. refl) h
from_uri-to_uri (episode id) h =
    ReadsBack-id (episode id) episode (codes "episode") id refl refl refl refl (λ text. refl) h
from_uri-to_uri (playlist none id) h =
    ReadsBack-id (playlist none id) (playlist none) (codes "playlist") id refl refl refl refl
      (λ text. refl) h
from_uri-to_uri (playlist (some user) id) (plain, h) =
    let (text, e, back) = from_base62-to_base62 id h in
    let tail = codes "playlist:" in
    (
      codes "spotify:user:" ++ (user ++ (b':' ∷ (tail ++ text))),
      ap (prefixed (codes "spotify:user:" ++ (user ++ (b':' ∷ tail)))) e
          ∙ ap (λ l. some (codes "spotify:user:" ++ l)) (append_assoc user (b':' ∷ tail) text),
      from_uri-user user (codes "playlist") text plain refl (from_base62-has_colon text id back)
          ∙ with_id-ok (playlist (some user)) text id back,
    )
from_uri-to_uri (show id) h =
    ReadsBack-id (show id) show (codes "show") id refl refl refl refl (λ text. refl) h
from_uri-to_uri (track id) h =
    ReadsBack-id (track id) track (codes "track") id refl refl refl refl (λ text. refl) h
from_uri-to_uri (local_file a l t d) h = elim h [ ]
from_uri-to_uri (unknown kind id) (same, plain) = (
  codes "spotify:unknown:" ++ id,
  refl,
  from_uri-parts (codes "unknown") id refl plain refl ∙ ap (λ k. ok (unknown k id)) (sym same),
)
