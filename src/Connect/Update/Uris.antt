-- ===== src/Connect/Update/Uris.antt =====
-- librespot_src/connect/src/state/context.rs: the uris of the tracks that `update_context` takes from pages.
use neotune.Common.{
  ℕ, suc, ◌≡◌, refl, sym, ap, ◌∙◌, inl, inr, false, Option, none, some, List, [], ◌∷◌, ◌++◌, map,
  Option-cases, Result, Result-cases, ok, err, length,
}
use mathlib.Core.List.{append_assoc, append-nil, map-append}
use neotune.ShuffleVec.{push}
use neotune.SpotifyUri.{SpotifyUri, to_uri}
use neotune.Connect.Track.{
  Metadata, Track, Provider, autoplay, unavailable, set_entity_uri, set_context_uri,
  set_context_index, set_from_autoplay,
}
use neotune.Connect.State.{ContextType, StateContext, ConnectState}
use neotune.Connect.Context.{ContextTrack, ContextPage}
use neotune.Connect.Convert.{
  track_id, replace_unknown, with_context_uri, with_index, with_autoplay, TrackError, plus,
  provided_track, context_to_provided_track, page_tracks, state_context_from_page, push_all,
}
use neotune.Connect.Update.{Context, is_empty_page, is_local, update_autoplay, update_context}
use neotune.Connect.Update.Pages.{converted, update_context-contexts}

abbrev printed : Option (List ℕ) → Option (List ℕ)
printed none = none
printed (some text) = some (replace_unknown text 0)

abbrev read_uri : Result TrackError SpotifyUri → Option (List ℕ)
read_uri (err e) = none
read_uri (ok id) = printed (to_uri id)

-- The uri of a track that can be read.
abbrev readable_uri : ContextTrack → Option (List ℕ)
readable_uri t = read_uri (track_id t)

abbrev keep : Option (List ℕ) → List (List ℕ) → List (List ℕ)
keep none us = us
keep (some u) us = u ∷ us

-- Those of a list of tracks, in their order.
abbrev pub readable_uris : List ContextTrack → List (List ℕ)
readable_uris [] = []
readable_uris (t ∷ ts) = keep (readable_uri t) (readable_uris ts)

abbrev pub uris : List Track → List (List ℕ)
uris = map (λ t. t.uri)

with_autoplay-uri : (p : Provider) (t : Track) → (with_autoplay p t).uri ≡ t.uri
unfolding with_autoplay set_from_autoplay
with_autoplay-uri autoplay t = refl
with_autoplay-uri Provider.context t = refl
with_autoplay-uri Provider.queue t = refl
with_autoplay-uri unavailable t = refl

with_index-uri : (i : Option ℕ) (t : Track) → (with_index i t).uri ≡ t.uri
unfolding with_index set_context_index
with_index-uri none t = refl
with_index-uri (some i) t = refl

with_context_uri-uri : (u : Option (List ℕ)) (t : Track) → (with_context_uri u t).uri ≡ t.uri
unfolding with_context_uri set_context_uri set_entity_uri
with_context_uri-uri none t = refl
with_context_uri-uri (some u) t = refl

-- A track that is converted has the uri that is read from it, and one that is not has none.
abbrev HasUri : ContextTrack → Result TrackError Track → Type 0
HasUri t (ok u) = readable_uri t ≡ some u.uri
HasUri t (err e) = readable_uri t ≡ none

module _ (uuid : List ℕ) (t : ContextTrack) (context_uri : Option (List ℕ)) (i : Option ℕ)
    (m : Option Metadata) (p : Option Provider) (s : ConnectState) where
  provided_track-uri : (uri : List ℕ) → (provided_track uuid t uri context_uri i m p s).uri ≡ uri
  unfolding provided_track
  provided_track-uri uri =
      with_autoplay-uri _ _ ∙ (with_index-uri i _ ∙ with_context_uri-uri context_uri _)

  context_to_provided_track-HasUri : HasUri t (context_to_provided_track uuid t context_uri i m p s)
  unfolding context_to_provided_track
  context_to_provided_track-HasUri = elim (Result-cases (track_id t)) [
    | inl (e, h) ↦ simp (context_to_provided_track, h) refl
    | inr (id, h) ↦ elim (Option-cases (to_uri id)) [
      | inl k ↦ simp (context_to_provided_track, h, k) refl
      | inr (text, k) ↦
          simp (context_to_provided_track, h, k)
            (ap some (sym (provided_track-uri (replace_unknown text 0))))
    ]
  ]

add_track-uris :
    (t : ContextTrack) (r : Result TrackError Track) (rest : List Track)
    → HasUri t r
    → uris (elim r [ ok u ↦ u ∷ rest | err e ↦ rest ]) ≡ keep (readable_uri t) (uris rest)
add_track-uris t (ok u) rest h = rw (h) refl
add_track-uris t (err e) rest h = rw (h) refl

page_tracks-uris :
    (uuids : ℕ → List ℕ) (m : Metadata) (uri : List ℕ) (len : Option ℕ) (p : Option Provider)
    (s : ConnectState) (i : ℕ) (ts : List ContextTrack)
    → uris (page_tracks uuids m uri len p s i ts) ≡ readable_uris ts
unfolding page_tracks
page_tracks-uris uuids m uri len p s i [] = refl
page_tracks-uris uuids m uri len p s i (t ∷ ts) =
    let r = context_to_provided_track (uuids i) t (some uri) (plus len i) (some m) p s in
    add_track-uris t r (page_tracks uuids m uri len p s (suc i) ts)
      (context_to_provided_track-HasUri (uuids i) t (some uri) (plus len i) (some m) p s)
    ∙ ap (keep (readable_uri t)) (page_tracks-uris uuids m uri len p s (suc i) ts)

push_all-uris :
    (ts : List Track) (ctx : StateContext)
    → uris (push_all ts ctx).tracks.vec ≡ uris ctx.tracks.vec ++ uris ts
unfolding push_all push
push_all-uris [] ctx = sym (append-nil (uris ctx.tracks.vec))
push_all-uris (t ∷ ts) ctx =
    push_all-uris ts (record ctx { tracks = push ctx.tracks t })
    ∙ (ap (λ us. us ++ uris ts) (map-append (λ u. u.uri) ctx.tracks.vec (t ∷ []))
        ∙ append_assoc (uris ctx.tracks.vec) (t.uri ∷ []) (uris ts))

-- A context that is there, with tracks of those uris.
abbrev pub HasUris : Option StateContext → List (List ℕ) → Type 0
HasUris c us = (ctx : StateContext) × ((c ≡ some ctx) × (uris ctx.tracks.vec ≡ us))

-- When the context of the autoplay arrives with two pages of tracks and its uri is none of local files, it
-- gets the tracks of the first page, and those of the second page are put behind the default context, which
-- is there: the uris are those of the tracks that can be read, in their order.
pub update_context-autoplay :
    (uuids : ℕ → ℕ → List ℕ) (context : Context) (page second : ContextPage) (s : ConnectState)
    (ctx : StateContext)
    → context.pages ≡ page ∷ second ∷ []
    → is_empty_page page ≡ false
    → is_empty_page second ≡ false
    → is_local context.uri ≡ false
    → s.context ≡ some ctx
    → (let s2 = (update_context uuids context ContextType.autoplay s).1 in
        HasUris s2.autoplay_context (readable_uris page.tracks)
        × HasUris s2.context (uris ctx.tracks.vec ++ readable_uris second.tracks))
unfolding update_autoplay state_context_from_page
update_context-autoplay uuids context page second s ctx pages full full2 remote has =
    let s1 = update_autoplay (uuids 0) context page s in
    let (first, rest) =
      update_context-contexts uuids context page second s ctx pages full full2 remote has in
    let tracks = converted (uuids 1) second (length ctx.tracks.vec) s1 in
    (
      (_, (first, page_tracks-uris (uuids 0) page.metadata _ none (some autoplay) s 0 page.tracks)),
      (
        push_all tracks ctx,
        (
          rest,
          push_all-uris tracks ctx
              ∙ ap (λ us. uris ctx.tracks.vec ++ us)
                  (page_tracks-uris (uuids 1) second.metadata s1.player.context_uri _ none s1 0
                    second.tracks),
        ),
      ),
    )
