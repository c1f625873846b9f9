-- ===== src/Connect/Update/Tests.antt =====
-- A context of the autoplay of two pages that arrives while an album is played, and the theorems at it.
use neotune.Common.{ℕ, ◌≡◌, refl, none, some, List, [], ◌∷◌, ◌++◌, codes}
use neotune.Connect.State.{ContextType}
use neotune.Connect.Context.{ContextPage}
use neotune.Connect.Convert.{page_url_to_uri}
use neotune.Connect.Convert.PageUrl.{page_url_to_uri_lem}
use neotune.Connect.Update.{Context, is_local, update_context}
use neotune.Connect.Update.Uris.{readable_uris, uris, HasUris, update_context-autoplay}
use neotune.Connect.Tests.{playing_album, three_tracks}

abbrev page_with : List ℕ → ContextPage
page_with uri = record {
  page_url = none;
  metadata = [];
  tracks = record { uri = some uri; uid = none; gid = none; metadata = [] } ∷ [];
}

abbrev first_page : ContextPage
first_page = page_with (codes "spotify:track:6rqhFgbbKwnb9MLmUQDhG6")

abbrev second_page : ContextPage
second_page = page_with (codes "spotify:track:4uLU6hMCjMI75M1A2tKUQC")

abbrev two_pages : Context
two_pages = record {
  uri = some (codes "spotify:station:x");
  url = none;
  metadata = [];
  restrictions = none;
  pages = first_page ∷ second_page ∷ [];
}

abbrev uuids : ℕ → ℕ → List ℕ
uuids page i = codes "uuid"

update_context-autoplay_example :
    (let s2 = (update_context uuids two_pages ContextType.autoplay playing_album).1 in
      HasUris s2.autoplay_context (readable_uris first_page.tracks)
      × HasUris s2.context (uris three_tracks.tracks.vec ++ readable_uris second_page.tracks))
unfolding is_local
update_context-autoplay_example =
    update_context-autoplay uuids two_pages first_page second_page playing_album three_tracks refl
      refl refl refl refl

page_url_to_uri_lem_example :
    page_url_to_uri
      (codes "hm://artistplaycontext/v1/page/spotify/album/5LFzwirfFwBKXJQGfwmiMY/km_artist")
    ≡ codes "spotify:" ++ (codes "album" ++ (codes ":" ++ codes "5LFzwirfFwBKXJQGfwmiMY"))
page_url_to_uri_lem_example =
    page_url_to_uri_lem (codes "artistplaycontext") (codes "v1" ∷ codes "page" ∷ []) (codes "album")
      (codes "5LFzwirfFwBKXJQGfwmiMY") (codes "km_artist" ∷ []) (refl, (refl, (refl, tt)))
      (refl, (refl, (refl, (refl, (refl, (refl, (refl, tt)))))))
