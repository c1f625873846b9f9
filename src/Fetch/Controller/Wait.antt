-- ===== src/Fetch/Controller/Wait.antt =====
-- librespot_src/audio/src/fetch/mod.rs: what `fetch_blocking` has waited for.
use neotune.Common.{
  ℕ, ◌+◌, ◌-◌, ◌≤◌, ◌<◌, ◌≡◌, refl, sym, ap, ◌∙◌, inl, inr, true, false, none, some, List, [], ◌∷◌,
  arith, Bool-cases, Option-cases, usize_mod, sub_usize-eq-sub, ok,
}
use neotune.RangeSet.{Range, contains, contained_length_from_value, union}
use neotune.RangeSet.Valid.{IsValid, Fits, contains-contained_length, range_end-eq-add}
use neotune.Fetch.{AudioFileShared}
use neotune.Fetch.Controller.{
  StreamLoaderController, Notice, send_stream_loader_command, fetch_range, cut_range, is_missing,
  notified, request_again, wait_for_range, fetch_blocking,
}

-- Sending leaves the shared state as it is.
fetch_range-stream_shared :
    (r : Range) (c : StreamLoaderController) → (fetch_range r c).stream_shared ≡ c.stream_shared
unfolding fetch_range send_stream_loader_command
fetch_range-stream_shared r c = elim (Option-cases c.channel) [
  | inl e ↦ rw (send_stream_loader_command, e) refl
  | inr (commands, e) ↦ rw (send_stream_loader_command, e) refl
]

request_again-stream_shared :
    (r : Range) (s : AudioFileShared) (c : StreamLoaderController)
    → (request_again r s c).stream_shared ≡ c.stream_shared
unfolding request_again
request_again-stream_shared r s c =
    elim (Bool-cases (is_missing r (union s.downloaded s.requested))) [
      | inl e ↦ rw (request_again, e) (fetch_range-stream_shared r c)
      | inr e ↦ rw (request_again, e) refl
    ]

-- The loop ends without an error only when the range is there.
wait_for_range-ok :
    (r : Range) (ns : List Notice) (s : AudioFileShared) (c c' : StreamLoaderController)
    → c.stream_shared ≡ some s
    → wait_for_range r ns s c ≡ some (ok tt, c')
    → (s' : AudioFileShared) × ((c'.stream_shared ≡ some s') × (is_missing r s'.downloaded ≡ false))
unfolding wait_for_range
wait_for_range-ok r [] s c c' e h = elim (Bool-cases (is_missing r s.downloaded)) [
  | inl missing ↦ absurd (cc (rw (wait_for_range, missing) at h))
  | inr there ↦
      let same : c ≡ c' = cc (rw (wait_for_range, there) at h) in (s, (rw (sym same) e, there))
]
wait_for_range-ok r (n ∷ ns) s c c' e h = elim (Bool-cases (is_missing r s.downloaded)) [
  | inr there ↦
      let same : c ≡ c' = cc (rw (wait_for_range, there) at h) in (s, (rw (sym same) e, there))
  | inl missing ↦ elim (Bool-cases n.timeout) [
    | inl late ↦ absurd (cc (rw (wait_for_range, missing, late) at h))
    | inr woke ↦
        wait_for_range-ok r ns n.state (request_again r n.state (notified n c)) c'
          (request_again-stream_shared r n.state (notified n c))
          (rw (wait_for_range, missing, woke) at h)
  ]
]

-- What is cut off lies behind the end of the file.
cut_range-keeps :
    (file_size v : ℕ) (r : Range)
    → file_size < usize_mod
    → Fits r
    → r.start ≤ v
    → v < r.start + r.length
    → v < file_size
    → ((cut_range file_size r).start ≡ r.start) × (v - r.start < (cut_range file_size r).length)
unfolding cut_range
cut_range-keeps file_size v r small fits above below inside =
    ground (arith, range_end-eq-add r fits, sub_usize-eq-sub file_size r.start)

fetch_blocking-some :
    (r : Range) (ns : List Notice) (c : StreamLoaderController) (s : AudioFileShared)
    → c.stream_shared ≡ some s
    → fetch_blocking r ns c
      ≡ wait_for_range (cut_range c.file_size r) ns s (fetch_range (cut_range c.file_size r) c)
unfolding fetch_blocking
fetch_blocking-some r ns c s e = simp (fetch_blocking, e)

fetch_blocking-none :
    (r : Range) (ns : List Notice) (c : StreamLoaderController)
    → c.stream_shared ≡ none
    → fetch_blocking r ns c ≡ some (ok tt, fetch_range (cut_range c.file_size r) c)
unfolding fetch_blocking
fetch_blocking-none r ns c e = simp (fetch_blocking, e)

-- When `fetch_blocking` returns without an error, every byte of the range that is within the file is
-- downloaded, whatever it was notified of on the way.
pub fetch_blocking-contains :
    (r : Range) (ns : List Notice) (c c' : StreamLoaderController) (s' : AudioFileShared) (v : ℕ)
    → c.file_size < usize_mod
    → Fits r
    → fetch_blocking r ns c ≡ some (ok tt, c')
    → c'.stream_shared ≡ some s'
    → IsValid s'.downloaded
    → r.start ≤ v
    → v < r.start + r.length
    → v < c.file_size
    → contains s'.downloaded v ≡ true
unfolding is_missing
fetch_blocking-contains r ns c c' s' v small fits h e valid above below inside =
    let cut = cut_range c.file_size r in
    let same = fetch_range-stream_shared cut c in
    elim (Option-cases c.stream_shared) [
      | inl local ↦
          let end : fetch_range cut c ≡ c' = cc (h, fetch_blocking-none r ns c local) in
          absurd (cc (ap (λ d. d.stream_shared) end, same, local, e))
      | inr (s, streamed) ↦
          let (s'', (e', there)) =
            wait_for_range-ok cut ns s (fetch_range cut c) c' (same ∙ streamed)
              (sym (fetch_blocking-some r ns c s streamed) ∙ h) in
          let same_state : s'' ≡ s' = cc (e, e') in
          let found : is_missing cut s'.downloaded ≡ false = rw same_state at there in
          let (start, reach) = cut_range-keeps c.file_size v r small fits above below inside in
          let all : cut.length ≤ contained_length_from_value s'.downloaded r.start =
            rw (sym start) (ground arith) in
          let k =
            contains-contained_length s'.downloaded r.start (v - r.start) valid (omega arith) in
          let at_v : r.start + (v - r.start) ≡ v = omega arith in rw (sym at_v, k) (ground arith)
    ]
