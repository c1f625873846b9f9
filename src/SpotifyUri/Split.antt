-- ===== src/SpotifyUri/Split.antt =====
-- Splitting at the colons, on text with and without them.
use neotune.Common.{
  ℕ, ◌≡◌, refl, inl, inr, Bool, true, false, List, [], ◌∷◌, ◌++◌, ◌==◌, if◌then◌else◌, Bool-cases,
  Result-cases, ok, err, arith, length,
}
use neotune.SpotifyId.{SpotifyId, decode_step, decode_loop, from_base62, base62_digit, invalid_id}
use neotune.SpotifyUri.{split}

abbrev pub has_colon : List ℕ → Bool
has_colon [] = false
has_colon (c ∷ cs) = if c == b':' then true else has_colon cs

pub split_plain : (text : List ℕ) → has_colon text ≡ false → split text ≡ text ∷ []
unfolding split
split_plain [] h = refl
split_plain (c ∷ cs) h = elim (Bool-cases (c == b':')) [
  | inl e ↦ absurd (cc (rw e at h))
  | inr e ↦ rw (split, e, split_plain cs (rw e at h)) refl
]

-- The first part of a text is what stands in front of its first colon.
pub split-append :
    (part rest : List ℕ)
    → has_colon part ≡ false
    → split (part ++ (b':' ∷ rest)) ≡ part ∷ split rest
unfolding split
split-append [] rest h = refl
split-append (c ∷ cs) rest h = elim (Bool-cases (c == b':')) [
  | inl e ↦ absurd (cc (rw e at h))
  | inr e ↦ rw (split, e, split-append cs rest (rw e at h)) refl
]

-- What `from_base62` accepts has no colon in it.
decode_loop-has_colon :
    (d : ℕ) (cs : List ℕ) (n : ℕ) → decode_loop d cs ≡ ok n → has_colon cs ≡ false
unfolding decode_loop decode_step base62_digit
decode_loop-has_colon d [] n h = refl
decode_loop-has_colon d (c ∷ cs) n h = elim (Bool-cases (c == b':')) [
  | inl e ↦
      let same : c ≡ b':' = ground arith in
      let refused : decode_step d c ≡ err invalid_id = rw same refl in
      absurd (cc (rw (refused, decode_loop) at h))
  | inr e ↦ elim (Result-cases (decode_step d c)) [
    | inl (x, f) ↦ cc (rw (f, decode_loop) at h)
    | inr (d', f) ↦ rw e (decode_loop-has_colon d' cs n (rw (f, decode_loop) at h))
  ]
]

pub from_base62-has_colon :
    (text : List ℕ) (s : SpotifyId) → from_base62 text ≡ ok s → has_colon text ≡ false
unfolding from_base62
from_base62-has_colon text s h = elim (Result-cases (decode_loop 0 text)) [
  | inl (e, f) ↦ elim (Bool-cases (length text == 22)) [
    | inl l ↦ absurd (cc (rw (from_base62, l, f) at h))
    | inr l ↦ absurd (cc (rw (from_base62, l) at h))
  ]
  | inr (n, f) ↦ decode_loop-has_colon 0 text n f
]
