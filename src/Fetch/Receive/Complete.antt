-- ===== src/Fetch/Receive/Complete.antt =====
-- librespot_src/audio/src/fetch/receive.rs: `handle_file_data` and the hand-over of the whole file.
use neotune.Common.{
  ℕ, ◌≤◌, ◌≡◌, refl, ◌⊎◌, inl, inr, Bool, true, false, none, some, List, length, arith, leb,
  Bool-cases, Option-cases, Result, ok, err,
}
use neotune.RangeSet.{RangeSet, new_range, contains, add_range, contained_length_from_value}
use neotune.RangeSet.Valid.{contains-contained_length, IsValid}
use neotune.Fetch.{AudioFileError, output}
use neotune.Fetch.Download.{AudioFileFetch}
use neotune.Fetch.Receive.{
  ReceivedData, throughput, response_time, partial_file, break, continue, finish, store_data,
  WriteResult, Disk, no_seek, cut_short, written, break_after, receive_bytes, handle_throughput,
  handle_response_time, handle_file_data, write_at,
}
use neotune.Fetch.Receive.Content.{
  Delivers, IsFaithful, complete_lem, finish-IsFaithful, store_data-IsFaithful,
  cut_short-IsFaithful,
}

-- The data of a response is what the server has; the measurements are whatever they are.
abbrev pub IsHonest : List ℕ → ReceivedData → Type 0
IsHonest remote (throughput t) = Unit
IsHonest remote (response_time t) = Unit
IsHonest remote (partial_file offset bytes) = Delivers remote offset bytes

abbrev is_full : AudioFileFetch → Bool
is_full f = leb f.shared.file_size (contained_length_from_value f.shared.downloaded 0)

handle_file_data-closed :
    (disk : Disk) (offset : ℕ) (bytes : List ℕ) (f : AudioFileFetch)
    → f.output ≡ none
    → handle_file_data disk (partial_file offset bytes) f ≡ (err output, f)
unfolding handle_file_data
handle_file_data-closed disk offset bytes f o = simp (handle_file_data, o)

handle_file_data-open :
    (disk : Disk) (offset : ℕ) (bytes file : List ℕ) (f : AudioFileFetch)
    → f.output ≡ some file
    → handle_file_data disk (partial_file offset bytes) f
      ≡ receive_bytes disk disk.write offset bytes file f
unfolding handle_file_data
handle_file_data-open disk offset bytes file f o = simp (handle_file_data, o) refl

receive_bytes-full :
    (disk : Disk) (w : WriteResult) (offset : ℕ) (bytes file : List ℕ) (f : AudioFileFetch)
    → w ≡ written
    → is_full (store_data offset bytes file f) ≡ true
    → receive_bytes disk w offset bytes file f
      ≡ break_after (finish disk (store_data offset bytes file f))
unfolding receive_bytes
receive_bytes-full disk w offset bytes file f writes full =
    rw (writes) (simp (receive_bytes, full) refl)

receive_bytes-more :
    (disk : Disk) (offset : ℕ) (bytes file : List ℕ) (f : AudioFileFetch)
    → is_full (store_data offset bytes file f) ≡ false
    → receive_bytes disk written offset bytes file f ≡ (ok continue, store_data offset bytes file f)
unfolding receive_bytes
receive_bytes-more disk offset bytes file f more = simp (receive_bytes, more) refl

break_after-state :
    (r : Result AudioFileError (Unit {0}) × AudioFileFetch) → (break_after r).1 ≡ r.1
break_after-state (ok _, f) = refl
break_after-state (err e, f) = refl

full-copy :
    (remote bytes file : List ℕ) (offset : ℕ) (f : AudioFileFetch)
    → IsFaithful remote (store_data offset bytes file f)
    → is_full (store_data offset bytes file f) ≡ true
    → write_at offset bytes file ≡ remote
unfolding store_data
full-copy remote bytes file offset f (small, size, valid, copy, done) full =
    complete_lem remote _ _ valid copy (ground arith)

receive_bytes-IsFaithful :
    (remote bytes file : List ℕ) (disk : Disk) (w : WriteResult) (offset : ℕ) (f : AudioFileFetch)
    → Delivers remote offset bytes
    → f.output ≡ some file
    → IsFaithful remote f
    → IsFaithful remote (receive_bytes disk w offset bytes file f).1
unfolding receive_bytes
receive_bytes-IsFaithful remote bytes file disk no_seek offset f h o faithful = faithful
receive_bytes-IsFaithful remote bytes file disk (cut_short n) offset f h o faithful =
    cut_short-IsFaithful remote bytes file offset n f h o faithful
receive_bytes-IsFaithful remote bytes file disk written offset f h o faithful =
    let g = store_data offset bytes file f in
    let stored = store_data-IsFaithful remote bytes file offset f h o faithful in
    elim (Bool-cases (is_full g)) [
      | inl full ↦
          rw
            (
              receive_bytes-full disk written offset bytes file f refl full,
              break_after-state (finish disk g),
            )
            (finish-IsFaithful remote _ disk _ stored refl
              (full-copy remote bytes file offset f stored full))
      | inr more ↦ rw (receive_bytes-more disk offset bytes file f more) stored
    ]

-- What is received keeps the copy faithful, also where the file or the channel fails.
pub handle_file_data-IsFaithful :
    (remote : List ℕ) (disk : Disk) (d : ReceivedData) (f : AudioFileFetch)
    → IsHonest remote d
    → IsFaithful remote f
    → IsFaithful remote (handle_file_data disk d f).1
unfolding handle_file_data handle_throughput handle_response_time
handle_file_data-IsFaithful remote disk (throughput t) f h faithful = faithful
handle_file_data-IsFaithful remote disk (response_time t) f h faithful = faithful
handle_file_data-IsFaithful remote disk (partial_file offset bytes) f h faithful =
    elim (Option-cases f.output) [
      | inl o ↦ rw (handle_file_data-closed disk offset bytes f o) faithful
      | inr (file, o) ↦
          rw (handle_file_data-open disk offset bytes file f o)
            (receive_bytes-IsFaithful remote bytes file disk disk.write offset f h o faithful)
    ]

-- All bytes are noted as downloaded, as long as there is a byte.
all_downloaded-full :
    (downloaded : RangeSet) (size : ℕ)
    → IsValid downloaded
    → ((i : ℕ) → (size ≤ i) ⊎ (contains downloaded i ≡ true))
    → size ≤ contained_length_from_value downloaded 0
all_downloaded-full downloaded size valid all =
    let run = contained_length_from_value downloaded 0 in
    let c = contains-contained_length downloaded 0 run valid (omega arith) in
    elim (all run) [ inl enough ↦ enough | inr there ↦ absurd (ground arith) ]

-- Where the file can be written and rewound and the receiver of the file is there, the data with which the
-- last byte arrives ends the loop, and the file at the server is handed over, if the data and what is noted
-- as downloaded before are what the server has.
pub handle_file_data_complete :
    (remote bytes file : List ℕ) (disk : Disk) (offset : ℕ) (f : AudioFileFetch)
    → disk.write ≡ written
    → disk.rewinds ≡ true
    → disk.receives ≡ true
    → IsFaithful remote f
    → Delivers remote offset bytes
    → f.output ≡ some file
    → f.complete_tx ≡ true
    → ((i : ℕ)
        → (length remote ≤ i)
          ⊎ (contains (add_range f.shared.downloaded (new_range offset (length bytes))) i ≡ true))
    → ((handle_file_data disk (partial_file offset bytes) f).0 ≡ ok break)
      × ((handle_file_data disk (partial_file offset bytes) f).1.completed ≡ some remote)
unfolding store_data finish
handle_file_data_complete remote bytes file disk offset f writes rewinds receives faithful h o tx
      all =
    let stored = store_data-IsFaithful remote bytes file offset f h o faithful in
    let (small, size, valid, _, _) = stored in
    let enough =
      all_downloaded-full (store_data offset bytes file f).shared.downloaded (length remote) valid
        all in
    let full : is_full (store_data offset bytes file f) ≡ true = ground arith in
    let same = full-copy remote bytes file offset f stored full in
    rw
      (
        handle_file_data-open disk offset bytes file f o,
        receive_bytes-full disk disk.write offset bytes file f writes full,
        finish,
        rewinds,
        tx,
        receives,
        same,
      )
      (refl, refl)
