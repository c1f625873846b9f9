-- ===== src/Fetch/Download/Request.antt =====
-- librespot_src/audio/src/fetch/receive.rs: what `download_range` asks the server for.
use neotune.Common.{
  ℕ, ◌+◌, ◌≤◌, ◌<◌, ◌≡◌, refl, sym, ap, ◌∙◌, inl, inr, Bool, true, false, not, ◌&&◌, ◌||◌, List, [],
  ◌∷◌, ◌++◌, arith, ltb, Bool-cases, append_nil, append-snoc, usize_mod, add_usize,
  add_usize-eq-add, sub_usize-eq-sub, ok,
}
use neotune.RangeSet.{
  Range, RangeSet, new, new_range, add_range, add_all, add_range_set, union, contains,
  contains_loop, minus,
}
use neotune.RangeSet.Valid.{IsValid, Fits, covers}
use neotune.RangeSet.Add.{add_range-IsValid, contains-add_range, union_lem}
use neotune.RangeSet.Subtract.{minus_lem}
use neotune.Fetch.{AudioFetchParams, AudioFileShared}
use neotune.Fetch.Download.{
  AudioFileFetch, missing_from, wished_length, cut_length, adjusted_length, request, request_ranges,
  download_range,
}

or_new : (v : ℕ) (b : Bool) → (b || contains new v) ≡ b
unfolding contains contains_loop
or_new v true = refl
or_new v false = refl

-- What a wish leaves to be asked for.
pub missing_from_lem :
    (s : AudioFileShared) (range : Range) (v : ℕ)
    → Fits range
    → IsValid s.downloaded
    → IsValid s.requested
    → IsValid (missing_from s range)
      × (contains (missing_from s range) v
          ≡ ((covers range v && not (contains s.downloaded v)) && not (contains s.requested v)))
unfolding missing_from minus
missing_from_lem s range v f d r =
    let w = add_range-IsValid new range f tt in
    let c = contains-add_range new range v f tt in
    let (v1, c1) = minus_lem (add_range new range) s.downloaded v w d in
    let (v2, c2) = minus_lem (minus (add_range new range) s.downloaded) s.requested v v1 r in
    (
      v2,
      c2
          ∙ ap (λ b. b && not (contains s.requested v))
              (c1 ∙ ap (λ b. b && not (contains s.downloaded v)) (c ∙ or_new v (covers range v))),
    )

-- All requests are made: they are noted, in order, and handed on.
request_ranges-ok :
    (stream_from_cdn : Range → Bool) (rs : List Range) (f : AudioFileFetch)
    → (request_ranges stream_from_cdn rs f).0 ≡ ok tt
    → ((request_ranges stream_from_cdn rs f).1.shared.requested ≡ add_all f.shared.requested rs)
      × ((request_ranges stream_from_cdn rs f).1.spawned ≡ f.spawned ++ rs)
unfolding request_ranges request add_all
request_ranges-ok stream_from_cdn [] f h = (refl, sym (append_nil f.spawned))
request_ranges-ok stream_from_cdn (r ∷ rs) f h = elim (Bool-cases (stream_from_cdn r)) [
  | inl e ↦
      let (q, s) =
        request_ranges-ok stream_from_cdn rs (request r f) (rw (e, request_ranges) at h) in
      rw (request_ranges, e) (q, s ∙ append-snoc f.spawned r rs)
  | inr e ↦ absurd (cc (rw (e, request_ranges) at h))
]

abbrev pub wish : ℕ → ℕ → AudioFileFetch → Range
wish offset len f = new_range offset (adjusted_length f.params f.shared offset len)

wished_length-bounds :
    (p : AudioFetchParams) (s : AudioFileShared) (len : ℕ)
    → wished_length p s len ≤ len + p.minimum_download_size + s.throughput
unfolding wished_length
wished_length-bounds p s len = elim (Bool-cases s.download_streaming) [
  | inl e ↦ rw (wished_length, e) (ground arith)
  | inr e ↦ rw (wished_length, e) (ground arith)
]

cut_length-bounds :
    (size offset len : ℕ)
    → offset < size
    → size < usize_mod
    → offset + len < usize_mod
    → offset + cut_length size offset len ≤ size
unfolding cut_length
cut_length-bounds size offset len inside small fits =
    let a = add_usize-eq-add offset len fits in
    let b = sub_usize-eq-sub size offset (omega arith) small in
    elim (Bool-cases (ltb size (add_usize offset len))) [
      | inl e ↦ rw (cut_length, e, b) (omega arith)
      | inr e ↦ rw (cut_length, e) (ground arith)
    ]

-- A wish that starts within the file ends within it.
pub adjusted_length-bounds :
    (p : AudioFetchParams) (s : AudioFileShared) (offset len : ℕ)
    → offset < s.file_size
    → s.file_size < usize_mod
    → offset + len + p.minimum_download_size + s.throughput < usize_mod
    → offset + adjusted_length p s offset len ≤ s.file_size
unfolding adjusted_length
adjusted_length-bounds p s offset len inside size fits =
    let w = wished_length-bounds p s len in
    cut_length-bounds s.file_size offset (wished_length p s len) inside size (omega arith)

-- The requests of a call: what of the wish is not there and not on its way.
abbrev pub Requests : AudioFileFetch → AudioFileFetch → Range → ℕ → RangeSet → Type 0
Requests f f' wish v rs =
    (f'.spawned ≡ f.spawned ++ rs.ranges)
    × IsValid rs
    × (contains rs v ≡ (
        (covers wish v && not (contains f.shared.downloaded v))
        && not (contains f.shared.requested v)))
    × (contains f'.shared.requested v ≡ (contains f.shared.requested v || contains rs v))

-- Where `download_range` succeeds on an offset within the file, the sets are valid and no sum leaves 64 bits,
-- the requests it spawns lie within the
-- file, do not overlap, and ask for exactly those bytes of the wish that are neither downloaded nor
-- requested; they are added to what is requested.
pub download_range_lem :
    (stream_from_cdn : Range → Bool) (offset len v : ℕ) (f : AudioFileFetch)
    → offset < f.shared.file_size
    → f.shared.file_size < usize_mod
    → offset + len + f.params.minimum_download_size + f.shared.throughput < usize_mod
    → IsValid f.shared.downloaded
    → IsValid f.shared.requested
    → (download_range stream_from_cdn offset len f).0 ≡ ok tt
    → (offset + (wish offset len f).length ≤ f.shared.file_size)
      × ((rs : RangeSet) × Requests f
            (download_range stream_from_cdn offset len f).1
            (wish offset len f)
            v
            rs)
unfolding download_range new_range union add_range_set
download_range_lem stream_from_cdn offset len v f inside size fits d r h =
    let bound = adjusted_length-bounds f.params f.shared offset len inside size fits in
    let w = wish offset len f in
    let rs = missing_from f.shared w in
    let (valid, exact) = missing_from_lem f.shared w v (omega arith) d r in
    let (noted, handed) = request_ranges-ok stream_from_cdn rs.ranges f h in
    let (_, both) = union_lem f.shared.requested rs v r valid in
    (bound, (rs, (handed, valid, exact, ap (λ q. contains q v) noted ∙ both)))
