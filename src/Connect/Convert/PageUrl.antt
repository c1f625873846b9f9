-- ===== src/Connect/Convert/PageUrl.antt =====
-- librespot_src/connect/src/state/context.rs: the uri in the address of a page.
use neotune.Common.{
  ℕ, ◌≡◌, refl, ap, ◌∙◌, inl, inr, Bool, true, false, List, [], ◌∷◌, ◌++◌, ◌==◌, codes, bytes_eq,
  if◌then◌else◌, Bool-cases,
}
use neotune.Connect.Convert.{split_slash, strip_hm, skip_to_spotify, join_colon, page_url_to_uri}

abbrev pub has_slash : List ℕ → Bool
has_slash [] = false
has_slash (c ∷ cs) = if c == b'/' then true else has_slash cs

-- The parts of an address with slashes between them.
abbrev pub slashed : List ℕ → List (List ℕ) → List ℕ
slashed part [] = part
slashed part (next ∷ parts) = part ++ (b'/' ∷ slashed next parts)

-- The parts have no slash.
abbrev pub AllPlain : List (List ℕ) → Type 0
AllPlain [] = Unit {0}
AllPlain (part ∷ parts) = (has_slash part ≡ false) × AllPlain parts

-- The parts are not "spotify".
abbrev pub AllOther : List (List ℕ) → Type 0
AllOther [] = Unit {0}
AllOther (part ∷ parts) = (bytes_eq part (codes "spotify") ≡ false) × AllOther parts

split_slash_plain : (text : List ℕ) → has_slash text ≡ false → split_slash text ≡ text ∷ []
unfolding split_slash
split_slash_plain [] h = refl
split_slash_plain (c ∷ cs) h = elim (Bool-cases (c == b'/')) [
  | inl e ↦ absurd (cc (rw e at h))
  | inr e ↦ rw (split_slash, e, split_slash_plain cs (rw e at h)) refl
]

split_slash-append :
    (part rest : List ℕ)
    → has_slash part ≡ false
    → split_slash (part ++ (b'/' ∷ rest)) ≡ part ∷ split_slash rest
unfolding split_slash
split_slash-append [] rest h = refl
split_slash-append (c ∷ cs) rest h = elim (Bool-cases (c == b'/')) [
  | inl e ↦ absurd (cc (rw e at h))
  | inr e ↦ rw (split_slash, e, split_slash-append cs rest (rw e at h)) refl
]

split_slash-slashed :
    (part : List ℕ) (parts : List (List ℕ))
    → AllPlain (part ∷ parts)
    → split_slash (slashed part parts) ≡ part ∷ parts
split_slash-slashed part [] (h, t) = split_slash_plain part h
split_slash-slashed part (next ∷ parts) (h, t) =
    split_slash-append part (slashed next parts) h
    ∙ ap (λ l. part ∷ l) (split_slash-slashed next parts t)

skip_to_spotify-append :
    (parts rest : List (List ℕ))
    → AllOther parts
    → skip_to_spotify (parts ++ (codes "spotify" ∷ rest)) ≡ codes "spotify" ∷ rest
unfolding skip_to_spotify
skip_to_spotify-append [] rest h = refl
skip_to_spotify-append (part ∷ parts) rest (other, h) =
    rw (skip_to_spotify, other) (skip_to_spotify-append parts rest h)

-- In an address of the form that the documentation gives, with any parts without a slash in front of
-- "spotify", none of them "spotify" itself, and any behind the kind and the id, the uri is made of the three.
pub page_url_to_uri_lem :
    (first : List ℕ) (others : List (List ℕ)) (kind id : List ℕ) (rest : List (List ℕ))
    → AllOther (first ∷ others)
    → AllPlain (first ∷ others ++ (codes "spotify" ∷ kind ∷ id ∷ rest))
    → page_url_to_uri
        (codes "hm://" ++ slashed first (others ++ (codes "spotify" ∷ kind ∷ id ∷ rest)))
      ≡ codes "spotify:" ++ (kind ++ (codes ":" ++ id))
unfolding page_url_to_uri strip_hm join_colon
page_url_to_uri_lem first others kind id rest other plain =
    let parts = split_slash-slashed first (others ++ (codes "spotify" ∷ kind ∷ id ∷ rest)) plain in
    let found = skip_to_spotify-append (first ∷ others) (kind ∷ id ∷ rest) other in
    rw (parts, found) refl
