-- ===== src/Fetch/Main/Faithful.antt =====
-- librespot_src/audio/src/fetch/receive.rs: what the task hands over, against the file at the server.
use neotune.Common.{
  ℕ, ◌<◌, ◌≡◌, refl, ◌⊎◌, inl, inr, Bool, ◌&&◌, none, some, List, [], ◌∷◌, length, min, ltb,
  usize_mod, Bool-cases, Option-cases, sub_usize, Result-cases, ok, err,
}
use neotune.RangeSet.{Range, new, new_range, contains, contains_loop, get_range}
use neotune.Fetch.{AudioFetchParams, AudioFileShared, StreamLoaderCommand, fetch, close}
use neotune.Fetch.Download.{
  AudioFileFetch, request, request_ranges, download_range, missing_tail, missing_from,
  pre_fetch_more_data,
}
use neotune.Fetch.Receive.{break, continue, handle_stream_loader_command}
use neotune.Fetch.Receive.Content.{IsCopy, IsFaithful}
use neotune.Fetch.Receive.Complete.{IsHonest, handle_file_data-IsFaithful}
use neotune.Fetch.Main.{
  Event, command, file_data, closed, Turn, round, give_back, set_read_position,
  set_download_streaming, Outcome, handle_event, bytes_pending, pre_fetch, continue_with,
  fetch_round, set_shared, take_turn, fetch_loop, opened, audio_file_fetch,
}

-- The data that arrives in a round is what the server has.
abbrev HonestEvent : List ℕ → Event → Type 0
HonestEvent remote (file_data disk d) = IsHonest remote d
HonestEvent remote (command c) = Unit
HonestEvent remote closed = Unit

abbrev HonestTurn : List ℕ → Turn → Type 0
HonestTurn remote (round e has_slots desired) = HonestEvent remote e
HonestTurn remote (give_back r) = Unit
HonestTurn remote (set_read_position p) = Unit
HonestTurn remote (set_download_streaming on) = Unit

abbrev pub HonestTurns : List ℕ → List Turn → Type 0
HonestTurns remote [] = Unit
HonestTurns remote (t ∷ ts) = HonestTurn remote t × HonestTurns remote ts

module _ (stream_from_cdn : Range → Bool) (remote : List ℕ) where
  request_ranges-IsFaithful :
      (rs : List Range) (f : AudioFileFetch)
      → IsFaithful remote f
      → IsFaithful remote (request_ranges stream_from_cdn rs f).1
  unfolding request_ranges request
  request_ranges-IsFaithful [] f h = h
  request_ranges-IsFaithful (r ∷ rs) f h = elim (Bool-cases (stream_from_cdn r)) [
    | inl e ↦ rw (request_ranges, e) (request_ranges-IsFaithful rs (request r f) h)
    | inr e ↦ rw (request_ranges, e) h
  ]

  download_range-IsFaithful :
      (offset len : ℕ) (f : AudioFileFetch)
      → IsFaithful remote f
      → IsFaithful remote (download_range stream_from_cdn offset len f).1
  unfolding download_range
  download_range-IsFaithful offset len f h = request_ranges-IsFaithful _ f h

  pre_fetch_more_data-IsFaithful :
      (bytes : ℕ) (f : AudioFileFetch)
      → IsFaithful remote f
      → IsFaithful remote (pre_fetch_more_data stream_from_cdn bytes f).1
  unfolding pre_fetch_more_data
  pre_fetch_more_data-IsFaithful bytes f h =
      elim (Option-cases (get_range (missing_tail f.shared) 0)) [
        | inr (r, e) ↦
            rw (pre_fetch_more_data, e) (download_range-IsFaithful r.start (min r.length bytes) f h)
        | inl e ↦
            elim (Option-cases
              (get_range (missing_from f.shared (new_range 0 f.shared.file_size)) 0)) [
                | inr (r, e') ↦
                    rw (pre_fetch_more_data, e, e')
                      (download_range-IsFaithful r.start (min r.length bytes) f h)
                | inl e' ↦ rw (pre_fetch_more_data, e, e') h
              ]
      ]

  handle_stream_loader_command-IsFaithful :
      (c : StreamLoaderCommand) (f : AudioFileFetch)
      → IsFaithful remote f
      → IsFaithful remote (handle_stream_loader_command stream_from_cdn c f).1
  unfolding handle_stream_loader_command
  handle_stream_loader_command-IsFaithful close f h = h
  handle_stream_loader_command-IsFaithful (fetch r) f h =
      let kept = download_range-IsFaithful r.start r.length f h in
      elim (Result-cases (download_range stream_from_cdn r.start r.length f).0) [
        | inl (x, e) ↦ simp (handle_stream_loader_command, e) kept
        | inr (x, e) ↦ simp (handle_stream_loader_command, e) kept
      ]

  handle_event-IsFaithful :
      (e : Event) (f : AudioFileFetch)
      → HonestEvent remote e
      → IsFaithful remote f
      → IsFaithful remote (handle_event stream_from_cdn e f).1
  unfolding handle_event
  handle_event-IsFaithful (command c) f honest h = handle_stream_loader_command-IsFaithful c f h
  handle_event-IsFaithful (file_data disk d) f honest h =
      handle_file_data-IsFaithful remote disk d f honest h
  handle_event-IsFaithful closed f honest h = h

  pre_fetch-IsFaithful :
      (has_slots : Bool) (desired : ℕ) (f : AudioFileFetch)
      → IsFaithful remote f
      → IsFaithful remote (pre_fetch stream_from_cdn has_slots desired f).1
  unfolding pre_fetch
  pre_fetch-IsFaithful has_slots desired f h =
      let bytes = sub_usize desired (bytes_pending f.shared) in
      let more = pre_fetch_more_data-IsFaithful bytes f h in
      elim (Bool-cases
        (f.shared.download_streaming && (has_slots && ltb (bytes_pending f.shared) desired))) [
          | inr enough ↦ simp (pre_fetch, enough) h
          | inl more_wanted ↦ elim (Result-cases (pre_fetch_more_data stream_from_cdn bytes f).0) [
            | inl (x, e) ↦ simp (pre_fetch, more_wanted, e) more
            | inr (x, e) ↦ simp (pre_fetch, more_wanted, e) more
          ]
        ]

  continue_with-IsFaithful :
      (rest : AudioFileFetch → Outcome) (o : Outcome)
      → ((f : AudioFileFetch) → IsFaithful remote f → IsFaithful remote (rest f).1)
      → IsFaithful remote o.1
      → IsFaithful remote (continue_with rest o).1
  unfolding continue_with
  continue_with-IsFaithful rest (err e, f) keeps h = h
  continue_with-IsFaithful rest (ok break, f) keeps h = h
  continue_with-IsFaithful rest (ok continue, f) keeps h = keeps f h

  take_turn-IsFaithful :
      (t : Turn) (f : AudioFileFetch)
      → HonestTurn remote t
      → IsFaithful remote f
      → IsFaithful remote (take_turn stream_from_cdn t f).1
  unfolding take_turn fetch_round set_shared
  take_turn-IsFaithful (round e has_slots desired) f honest h =
      continue_with-IsFaithful _ _ (pre_fetch-IsFaithful has_slots desired)
        (handle_event-IsFaithful e f honest h)
  take_turn-IsFaithful (give_back r) f honest h = h
  take_turn-IsFaithful (set_read_position p) f honest h = h
  take_turn-IsFaithful (set_download_streaming on) f honest h = h

  fetch_loop-IsFaithful :
      (ts : List Turn) (f : AudioFileFetch)
      → HonestTurns remote ts
      → IsFaithful remote f
      → IsFaithful remote (fetch_loop stream_from_cdn ts f).1
  unfolding fetch_loop
  fetch_loop-IsFaithful [] f honest h = h
  fetch_loop-IsFaithful (t ∷ ts) f (here, later) h =
      continue_with-IsFaithful _ _ (λ f'. fetch_loop-IsFaithful ts f' later)
        (take_turn-IsFaithful t f here h)

-- From a file of the right length of which nothing is downloaded, whatever the commands, the requests and
-- the order of the turns are and whichever writes fail: as long as the data that arrives is what the server has, every byte that is
-- noted as downloaded is the one at the server, and if a file is handed over, it is the one at the server.
pub audio_file_fetch-IsCopy :
    (stream_from_cdn : Range → Bool) (remote file : List ℕ) (p : AudioFetchParams)
    (s : AudioFileShared) (offset len : ℕ) (ts : List Turn)
    → length remote < usize_mod
    → s.file_size ≡ length remote
    → s.downloaded ≡ new
    → length file ≡ length remote
    → HonestTurns remote ts
    → IsCopy remote
        (audio_file_fetch stream_from_cdn p s offset len file ts).1.shared.downloaded
        (audio_file_fetch stream_from_cdn p s offset len file ts).1.output
      × (((audio_file_fetch stream_from_cdn p s offset len file ts).1.completed ≡ none)
          ⊎ ((audio_file_fetch stream_from_cdn p s offset len file ts).1.completed ≡ some remote))
unfolding audio_file_fetch opened contains contains_loop
audio_file_fetch-IsCopy stream_from_cdn remote file p s offset len ts small size empty l honest =
    let start : IsFaithful remote (opened p s offset len file) =
      (small, size, rw empty tt, (l, λ i. inl (rw empty refl)), inl refl) in
    let (_, _, _, copy, done) =
      fetch_loop-IsFaithful stream_from_cdn remote ts (opened p s offset len file) honest start in
    (copy, done)
