-- ===== src/Fetch/Stream/Read.antt =====
-- librespot_src/audio/src/fetch/mod.rs: what `AudioFileStreaming::read` reads.
pub mod Whole
use neotune.Common.{
  ℕ, zero, suc, ◌+◌, ◌-◌, ◌≤◌, ◌<◌, ◌≡◌, refl, sym, ap, ap₂, ◌∙◌, ◌⊎◌, inl, inr, Bool, true, false,
  min, Option, none, some, List, [], ◌∷◌, length, take, drop, get_elem?, arith, leb, ◌==◌,
  Bool-cases, Option-cases, length-take, usize_mod, add_usize, sub_usize, add_usize-eq-add,
  sub_usize-eq-sub, Result, Result-cases, ok, err,
}
use neotune.RangeSet.{Range, RangeSet, contains, contained_length_from_value}
use neotune.RangeSet.Valid.{IsValid, contains-contained_length}
use neotune.Fetch.{AudioFileShared}
use neotune.Fetch.Receive.Content.{SameByte, IsCopy, le-cases}
use neotune.Fetch.Stream.{
  AudioFileStreaming, IoError, timed_out, Wake, woken, ranges_to_request, send_commands, wait_for,
  read_available, read,
}

-- What is noted as downloaded agrees with the file at the server.
abbrev pub IsMirror : List ℕ → AudioFileShared → List ℕ → Type 0
IsMirror remote s file =
    (length remote < usize_mod)
    × (s.file_size ≡ length remote)
    × IsValid s.downloaded
    × IsCopy remote s.downloaded (some file)

abbrev pub AllMirror : List ℕ → List Wake → Type 0
AllMirror remote [] = Unit
AllMirror remote (w ∷ ws) = IsMirror remote w.state w.file × AllMirror remote ws

nothing_dropped : (offset : ℕ) → drop {A = ℕ} offset [] ≡ []
nothing_dropped zero = refl
nothing_dropped (suc offset) = refl

-- Files that agree on a part have the same part.
pub part_ext :
    (offset n : ℕ) (xs ys : List ℕ)
    → length xs ≡ length ys
    → ((i : ℕ) → (i < offset) ⊎ (offset + n ≤ i) ⊎ (get_elem? xs i ≡ get_elem? ys i))
    → take n (drop offset xs) ≡ take n (drop offset ys)
part_ext offset n [] [] l h = refl
part_ext offset n [] (y ∷ ys) l h = absurd (omega arith)
part_ext offset n (x ∷ xs) [] l h = absurd (omega arith)
part_ext zero zero (x ∷ xs) (y ∷ ys) l h = refl
part_ext zero (suc n) (x ∷ xs) (y ∷ ys) l h =
    let head : x ≡ y = elim (h 0) [
      | inl e ↦ absurd (omega arith)
      | inr (inl e) ↦ absurd (omega arith)
      | inr (inr e) ↦ cc
    ] in
    ap₂ (λ a as'. a ∷ as') head
      (part_ext zero n xs ys (omega arith) (λ i. elim (h (suc i)) [
        | inl e ↦ inl (omega arith)
        | inr (inl e) ↦ inr (inl (omega arith))
        | inr (inr e) ↦ inr (inr e)
      ]))
part_ext (suc offset) n (x ∷ xs) (y ∷ ys) l h = part_ext offset n xs ys (omega arith) (λ i.
    elim (h (suc i)) [
      | inl e ↦ inl (omega arith)
      | inr (inl e) ↦ inr (inl (omega arith))
      | inr (inr e) ↦ inr (inr e)
    ])

pub length-drop : (k : ℕ) (xs : List ℕ) → length (drop k xs) ≡ length xs - k
length-drop zero xs = omega arith
length-drop (suc k) [] = omega arith
length-drop (suc k) (x ∷ xs) = omega (arith, length-drop k xs)

-- A part whose bytes are all there is that of the file at the server.
pub downloaded_part :
    (remote file : List ℕ) (s : AudioFileShared) (offset n : ℕ)
    → IsMirror remote s file
    → n ≤ contained_length_from_value s.downloaded offset
    → take n (drop offset file) ≡ take n (drop offset remote)
downloaded_part remote file s offset n (small, size, valid, (l, same)) enough =
    part_ext offset n file remote l (λ i. elim (le-cases offset i) [
      | inr before ↦ inl before
      | inl above ↦ elim (le-cases (offset + n) i) [
        | inl behind ↦ inr (inl behind)
        | inr inside ↦
            let k = i - offset in
            let c = contains-contained_length s.downloaded offset k valid (omega arith) in
            let at_k : offset + k ≡ i = omega arith in
            let there : contains s.downloaded i ≡ true = rw (sym at_k, c) (ground arith) in
            elim (same i) [ inl missing ↦ absurd (cc (missing, there)) | inr byte ↦ inr (inr byte) ]
      ]
    ])

-- The wait ends with the byte at the offset.
pub wait_for-IsMirror :
    (remote : List ℕ) (offset : ℕ) (ws : List Wake) (f f' : AudioFileStreaming)
    → AllMirror remote ws
    → IsMirror remote f.shared f.read_file
    → wait_for offset ws f ≡ some (ok f')
    → IsMirror remote f'.shared f'.read_file × (contains f'.shared.downloaded offset ≡ true)
unfolding wait_for
wait_for-IsMirror remote offset [] f f' all h e =
    elim (Bool-cases (contains f.shared.downloaded offset)) [
      | inl there ↦ let same : f ≡ f' = cc (rw (wait_for, there) at e) in rw (sym same) (h, there)
      | inr missing ↦ absurd (cc (rw (wait_for, missing) at e))
    ]
wait_for-IsMirror remote offset (w ∷ ws) f f' (here, all) h e =
    elim (Bool-cases (contains f.shared.downloaded offset)) [
      | inl there ↦ let same : f ≡ f' = cc (rw (wait_for, there) at e) in rw (sym same) (h, there)
      | inr missing ↦ elim (Bool-cases w.timeout) [
        | inl late ↦ absurd (cc (rw (wait_for, missing, late) at e))
        | inr woke ↦
            wait_for-IsMirror remote offset ws (woken w f) f' all here
              (rw (wait_for, missing, woke) at e)
      ]
    ]

add_zero : (n : ℕ) → n + 0 ≡ n
add_zero n = omega arith

-- What `read` takes from the file once its first byte is there.
pub read_available-IsMirror :
    (remote : List ℕ) (offset wanted : ℕ) (f : AudioFileStreaming)
    → IsMirror remote f.shared f.read_file
    → contains f.shared.downloaded offset ≡ true
    → offset + wanted ≤ length remote
    → 0 < wanted
    → ((read_available offset wanted f).0
        ≡ take (length (read_available offset wanted f).0) (drop offset remote))
      × (0 < length (read_available offset wanted f).0)
      × (length (read_available offset wanted f).0 ≤ wanted)
      × ((read_available offset wanted f).1.position
          ≡ offset + length (read_available offset wanted f).0)
unfolding read_available
read_available-IsMirror remote offset wanted f h there fits positive =
    let run = contained_length_from_value f.shared.downloaded offset in
    let n = min wanted run in
    let (small, size, valid, (l, same)) = h in
    let c = contains-contained_length f.shared.downloaded offset 0 valid (omega arith) in
    let first : contains f.shared.downloaded (offset + 0) ≡ true = rw (add_zero offset) there in
    let some_run : 0 < run = ground arith in
    let len =
      length-take n (drop offset f.read_file) ∙ ap (min n) (length-drop offset f.read_file) in
    let exact : length (take n (drop offset f.read_file)) ≡ n = omega arith in
    let part = downloaded_part remote f.read_file f.shared offset n h (omega arith) in
    rw exact (part, omega arith, omega arith, add_usize-eq-add offset n (omega arith))
