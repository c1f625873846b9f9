-- ===== src/Fetch/Receive/Content.antt =====
-- librespot_src/audio/src/fetch/receive.rs: the content of the file against that of the file at the
-- server, from the first data to the hand-over.
use neotune.Common.{
  ℕ, zero, suc, ◌+◌, ◌-◌, ◌≤◌, ◌<◌, ◌≡◌, refl, sym, ap, ap₂, ◌∙◌, ◌⊎◌, inl, inr, true, false, ◌||◌,
  Option, none, some, List, [], ◌∷◌, length, length-take, take, get_elem?, arith, Bool-cases,
  usize_mod,
}
use neotune.RangeSet.{Range, RangeSet, new_range, contains, add_range, contained_length_from_value}
use neotune.RangeSet.Valid.{IsValid, Fits, covers, contains-contained_length}
use neotune.RangeSet.Add.{add_range-IsValid, contains-add_range}
use neotune.Fetch.Download.{AudioFileFetch}
use neotune.Fetch.Receive.Write.{length-write_at, write_at-inside, write_at-before, write_at-behind}
use neotune.Fetch.Receive.{Disk, write_at, finish, store_data}

list_ext :
    (xs ys : List ℕ)
    → length xs ≡ length ys
    → ((i : ℕ) → (length ys ≤ i) ⊎ (get_elem? xs i ≡ get_elem? ys i))
    → xs ≡ ys
list_ext [] [] l h = refl
list_ext [] (y ∷ ys) l h = absurd (omega arith)
list_ext (x ∷ xs) [] l h = absurd (omega arith)
list_ext (x ∷ xs) (y ∷ ys) l h =
    let head : x ≡ y = elim (h 0) [ inl e ↦ absurd (omega arith) | inr e ↦ cc ] in
    ap₂ (λ a as'. a ∷ as') head
      (list_ext xs ys (omega arith)
        (λ i. elim (h (suc i)) [ inl e ↦ inl (omega arith) | inr e ↦ inr e ]))

-- Bytes of the file at the server, from an offset on.
abbrev pub Delivers : List ℕ → ℕ → List ℕ → Type 0
Delivers remote offset bytes =
    (offset + length bytes ≤ length remote)
    × ((i : ℕ) → (length bytes ≤ i) ⊎ (get_elem? bytes i ≡ get_elem? remote (offset + i)))

-- A byte of the file is not there yet, or is the one at the server.
abbrev pub SameByte : List ℕ → RangeSet → List ℕ → ℕ → Type 0
SameByte remote downloaded file i =
    (contains downloaded i ≡ false) ⊎ (get_elem? file i ≡ get_elem? remote i)

abbrev pub IsCopy : List ℕ → RangeSet → Option (List ℕ) → Type 0
IsCopy remote downloaded none = Unit
IsCopy remote downloaded (some file) =
    (length file ≡ length remote) × ((i : ℕ) → SameByte remote downloaded file i)

pub le-cases : (m n : ℕ) → (m ≤ n) ⊎ (n < m)
le-cases m n = ground arith

-- What is downloaded agrees with the file at the server, and so does what has been handed over.
abbrev pub IsFaithful : List ℕ → AudioFileFetch → Type 0
IsFaithful remote f =
    (length remote < usize_mod)
    × (f.shared.file_size ≡ length remote)
    × IsValid f.shared.downloaded
    × IsCopy remote f.shared.downloaded f.output
    × ((f.completed ≡ none) ⊎ (f.completed ≡ some remote))

covers-cases :
    (r : Range) (v : ℕ)
    → (v < r.start)
      ⊎ (r.start + r.length ≤ v)
      ⊎ ((covers r v ≡ true) × (v < r.start + r.length) × (r.start ≤ v))
covers-cases r v = ground arith

outside_write :
    (remote file file' : List ℕ) (downloaded downloaded' : RangeSet) (r : Range) (i : ℕ)
    → covers r i ≡ false
    → contains downloaded' i ≡ (covers r i || contains downloaded i)
    → get_elem? file' i ≡ get_elem? file i
    → SameByte remote downloaded file i
    → SameByte remote downloaded' file' i
outside_write remote file file' downloaded downloaded' r i out c same (inl missing) =
    inl (c ∙ rw (out, missing) refl)
outside_write remote file file' downloaded downloaded' r i out c same (inr byte) = inr (same ∙ byte)

-- After a write, every byte that is noted as downloaded is the one at the server.
store-SameByte :
    (remote bytes file : List ℕ) (downloaded : RangeSet) (offset i : ℕ)
    → Delivers remote offset bytes
    → length remote < usize_mod
    → IsValid downloaded
    → length file ≡ length remote
    → SameByte remote downloaded file i
    → SameByte remote
        (add_range downloaded (new_range offset (length bytes)))
        (write_at offset bytes file)
        i
unfolding new_range
store-SameByte remote bytes file downloaded offset i (fits, same) small valid l old =
    let r = new_range offset (length bytes) in
    let f : Fits r = omega arith in
    let c = contains-add_range downloaded r i f valid in
    elim (covers-cases r i) [
      | inl before ↦
          let same_file = write_at-before offset bytes file i before (omega arith) in
          let out : covers r i ≡ false = ground arith in
          outside_write remote file _ downloaded _ r i out c same_file old
      | inr (inl behind) ↦
          let same_file = write_at-behind offset bytes file i behind (omega arith) in
          let out : covers r i ≡ false = ground arith in
          outside_write remote file _ downloaded _ r i out c same_file old
      | inr (inr (inside, below, above)) ↦
          let k = i - offset in
          let at_k : i ≡ offset + k = omega arith in
          let written = write_at-inside offset bytes file i k at_k (omega arith) in
          elim (same k) [
            | inl beyond ↦ absurd (omega arith)
            | inr byte ↦ inr (written ∙ byte ∙ ap (get_elem? remote) (sym at_k))
          ]
    ]

-- The whole file is there.
pub complete_lem :
    (remote file : List ℕ) (downloaded : RangeSet)
    → IsValid downloaded
    → IsCopy remote downloaded (some file)
    → length remote ≤ contained_length_from_value downloaded 0
    → file ≡ remote
complete_lem remote file downloaded valid (l, same) full = list_ext file remote l (λ i.
    elim (le-cases (length remote) i) [
      | inl beyond ↦ inl beyond
      | inr inside ↦
          let c = contains-contained_length downloaded 0 i valid (omega arith) in
          elim (same i) [ inr byte ↦ inr byte | inl missing ↦ absurd (ground arith) ]
    ])

pub finish-IsFaithful :
    (remote file : List ℕ) (disk : Disk) (f : AudioFileFetch)
    → IsFaithful remote f
    → f.output ≡ some file
    → file ≡ remote
    → IsFaithful remote (finish disk f).1
unfolding finish
finish-IsFaithful remote file disk f (small, size, valid, copy, done) o same =
    elim (Bool-cases disk.rewinds) [
      | inr r ↦ rw (finish, o, r) (small, size, valid, tt, done)
      | inl r ↦ elim (Bool-cases f.complete_tx) [
        | inr t ↦ rw (finish, o, r, t) (small, size, valid, tt, done)
        | inl t ↦ elim (Bool-cases disk.receives) [
          | inl c ↦ rw (finish, o, r, t, c, same) (small, size, valid, tt, inr refl)
          | inr c ↦ rw (finish, o, r, t, c) (small, size, valid, tt, done)
        ]
      ]
    ]

pub store_data-IsFaithful :
    (remote bytes file : List ℕ) (offset : ℕ) (f : AudioFileFetch)
    → Delivers remote offset bytes
    → f.output ≡ some file
    → IsFaithful remote f
    → IsFaithful remote (store_data offset bytes file f)
unfolding store_data new_range
store_data-IsFaithful remote bytes file offset f (fits, same) o (small, size, valid, copy, done) =
    let (l, old) : IsCopy remote f.shared.downloaded (some file) = rw o at copy in
    let r : Fits (new_range offset (length bytes)) = omega arith in
    (
      small,
      size,
      add_range-IsValid f.shared.downloaded (new_range offset (length bytes)) r valid,
      (
        length-write_at offset bytes file (omega arith) ∙ l,
        λ i.
            store-SameByte remote bytes file f.shared.downloaded offset i (fits, same) small valid l
              (old i),
      ),
      done,
    )

get_elem?-take :
    (n i : ℕ) (bytes : List ℕ)
    → (length (take n bytes) ≤ i) ⊎ (get_elem? (take n bytes) i ≡ get_elem? bytes i)
get_elem?-take zero i bytes = inl (omega arith)
get_elem?-take (suc n) i [] = inl (omega arith)
get_elem?-take (suc n) zero (b ∷ bytes) = inr refl
get_elem?-take (suc n) (suc i) (b ∷ bytes) = elim (get_elem?-take n i bytes) [
  | inl beyond ↦ inl (omega arith)
  | inr same ↦ inr same
]

Delivers-take :
    (remote bytes : List ℕ) (offset n : ℕ)
    → Delivers remote offset bytes
    → Delivers remote offset (take n bytes)
Delivers-take remote bytes offset n (fits, same) =
    let cut = length-take n bytes in
    (
      omega arith,
      λ i. elim (get_elem?-take n i bytes) [
        | inl beyond ↦ inl beyond
        | inr e ↦ elim (same i) [ inl beyond ↦ inl (omega arith) | inr byte ↦ inr (e ∙ byte) ]
      ],
    )

write-SameByte :
    (remote bytes file : List ℕ) (downloaded : RangeSet) (offset i : ℕ)
    → Delivers remote offset bytes
    → length remote < usize_mod
    → IsValid downloaded
    → length file ≡ length remote
    → SameByte remote downloaded file i
    → SameByte remote downloaded (write_at offset bytes file) i
unfolding new_range
write-SameByte remote bytes file downloaded offset i (fits, same) small valid l old =
    let r = new_range offset (length bytes) in
    let f : Fits r = omega arith in
    let c = contains-add_range downloaded r i f valid in
    elim (store-SameByte remote bytes file downloaded offset i (fits, same) small valid l old) [
      | inl missing ↦ inl (ground arith)
      | inr byte ↦ inr byte
    ]

-- What is written before an error are bytes of the server, too.
pub cut_short-IsFaithful :
    (remote bytes file : List ℕ) (offset n : ℕ) (f : AudioFileFetch)
    → Delivers remote offset bytes
    → f.output ≡ some file
    → IsFaithful remote f
    → IsFaithful remote (record f { output = some (write_at offset (take n bytes) file) })
cut_short-IsFaithful remote bytes file offset n f honest o (small, size, valid, copy, done) =
    let (l, old) : IsCopy remote f.shared.downloaded (some file) = rw o at copy in
    let (fits, same) = Delivers-take remote bytes offset n honest in
    (
      small,
      size,
      valid,
      (
        length-write_at offset (take n bytes) file (omega arith) ∙ l,
        λ i.
            write-SameByte remote (take n bytes) file f.shared.downloaded offset i (fits, same)
              small valid l (old i),
      ),
      done,
    )
