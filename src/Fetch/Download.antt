-- ===== src/Fetch/Download.antt =====
-- librespot_src/audio/src/fetch/receive.rs: the choice of what is requested next.
pub mod Request
use neotune.Common.{
  ℕ, ◌+◌, min, max, Bool, true, false, Option, none, some, List, [], ◌∷◌, ◌++◌, ltb, length,
  if◌then◌else◌, add_usize, sub_usize, Result, ok, err,
}
use neotune.RangeSet.{
  Range, RangeSet, new, new_range, add_range, subtract_range_set, intersection, get_range,
}
use neotune.Fetch.{AudioFetchParams, AudioFileError, hyper_error, AudioFileShared}

-- The task that owns the file: `output` is the file's content, `complete_tx` whether the sender is
-- there, `completed` what it has sent, and `spawned` the requests handed to `receive_data`.
pub record AudioFileFetch : Type 0 where
  pub shared : AudioFileShared
  pub output : Option (List ℕ)
  pub complete_tx : Bool
  pub completed : Option (List ℕ)
  pub network_response_times : List ℕ
  pub spawned : List Range
  pub params : AudioFetchParams

-- What is left of a wish after what is there, or on its way.
unfoldable pub missing_from : AudioFileShared → Range → RangeSet
missing_from s range =
    subtract_range_set (subtract_range_set (add_range new range) s.downloaded) s.requested

-- The lower bounds for the length at the head of `download_range`.
unfoldable pub wished_length : AudioFetchParams → AudioFileShared → ℕ → ℕ
wished_length p s len =
    let least = if ltb len p.minimum_download_size then p.minimum_download_size else len in
    if s.download_streaming then max least s.throughput else least

-- "if offset + length > self.shared.file_size"
unfoldable pub cut_length : ℕ → ℕ → ℕ → ℕ
cut_length file_size offset len =
    if ltb file_size (add_usize offset len) then sub_usize file_size offset else len

unfoldable pub adjusted_length : AudioFetchParams → AudioFileShared → ℕ → ℕ → ℕ
unfolding wished_length cut_length
adjusted_length p s offset len = cut_length s.file_size offset (wished_length p s len)

unfoldable pub request : Range → AudioFileFetch → AudioFileFetch
request r f = record f {
  shared = record f.shared { requested = add_range f.shared.requested r };
  spawned = f.spawned ++ (r ∷ []);
}

-- The loop over the ranges. `stream_from_cdn` is whether the HTTP library takes the request.
unfoldable pub request_ranges :
    (Range → Bool) → List Range → AudioFileFetch → Result AudioFileError (Unit {0}) × AudioFileFetch
unfolding request
request_ranges stream_from_cdn [] f = (ok tt, f)
request_ranges stream_from_cdn (r ∷ rs) f = elim (stream_from_cdn r) [
  | false ↦ (err hyper_error, f)
  | true ↦ request_ranges stream_from_cdn rs (request r f)
]

unfoldable pub download_range :
    (Range → Bool) → ℕ → ℕ → AudioFileFetch → Result AudioFileError (Unit {0}) × AudioFileFetch
unfolding request_ranges missing_from adjusted_length
download_range stream_from_cdn offset len f =
    let range = new_range offset (adjusted_length f.params f.shared offset len) in
    request_ranges stream_from_cdn (missing_from f.shared range).ranges f

-- "download data from after the current read position first"
unfoldable pub missing_tail : AudioFileShared → RangeSet
unfolding missing_from
missing_tail s =
    let read_position = s.read_position in
    intersection (add_range new (new_range read_position (sub_usize s.file_size read_position)))
      (missing_from s (new_range 0 s.file_size))

unfoldable pub pre_fetch_more_data :
    (Range → Bool) → ℕ → AudioFileFetch → Result AudioFileError (Unit {0}) × AudioFileFetch
unfolding missing_tail missing_from download_range
pre_fetch_more_data stream_from_cdn bytes f = elim (get_range (missing_tail f.shared) 0) [
  | some r ↦ download_range stream_from_cdn r.start (min r.length bytes) f
  | none ↦ elim (get_range (missing_from f.shared (new_range 0 f.shared.file_size)) 0) [
    | some r ↦ download_range stream_from_cdn r.start (min r.length bytes) f
    | none ↦ (ok tt, f)
  ]
]
