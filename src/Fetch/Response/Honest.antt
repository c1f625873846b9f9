-- ===== src/Fetch/Response/Honest.antt =====
-- librespot_src/audio/src/fetch/receive.rs: what `receive_data` sends to the task that owns the file.
use neotune.Common.{
  ℕ, ◌+◌, ◌/◌, ◌<◌, ◌≡◌, refl, sym, ap, ◌∙◌, ◌⊎◌, inl, inr, Bool, true, false, ◌&&◌, Option, none,
  some, List, [], ◌∷◌, ◌++◌, length, arith, ltb, ◌==◌, Bool-cases, Option-cases, usize_mod,
  add_usize-eq-add, ok, err,
}
use neotune.Fetch.{status_code}
use neotune.Fetch.Receive.{ReceivedData, throughput, response_time, partial_file}
use neotune.Fetch.Receive.Content.{Delivers}
use neotune.Fetch.Receive.Complete.{IsHonest}
use neotune.Fetch.Response.{
  Response, Arrival, StreamingRequest, ReceiveError, audio_file, collect, Receiving, measure_ping,
  send_data, take_response, receive_loop,
}

-- The bytes of an answer with the status of a part.
abbrev part : Bool → Option (List ℕ) → List ℕ
part true (some bytes) = bytes
part true none = []
part false body = []

abbrev pub bytes_of : Option Response → List ℕ
bytes_of none = []
bytes_of (some r) = part (r.status == 206) r.body

-- The parts that arrive are bytes of the file at the server, one after the other from an offset on.
abbrev pub IsServed : List ℕ → ℕ → List Arrival → Type 0
IsServed remote offset [] = Unit
IsServed remote offset (a ∷ as') =
    Delivers remote offset (bytes_of a.response)
    × IsServed remote (offset + length (bytes_of a.response)) as'

abbrev pub arrivals : StreamingRequest → List Arrival
arrivals q = elim q.initial_response [
  | none ↦ q.streamer
  | some r ↦ record { elapsed = 0; response = some r } ∷ q.streamer
]

abbrev pub AllHonest : List ℕ → List ReceivedData → Type 0
AllHonest remote [] = Unit
AllHonest remote (d ∷ ds) = IsHonest remote d × AllHonest remote ds

pub AllHonest-snoc :
    (remote : List ℕ) (ds : List ReceivedData) (d : ReceivedData)
    → AllHonest remote ds
    → IsHonest remote d
    → AllHonest remote (ds ++ (d ∷ []))
AllHonest-snoc remote [] d h k = (k, tt)
AllHonest-snoc remote (e ∷ ds) d (h, hs) k = (h, AllHonest-snoc remote ds d hs k)

-- How many bytes have been sent.
abbrev pub sent_length : List ReceivedData → ℕ
sent_length [] = 0
sent_length (partial_file offset bytes ∷ ds) = length bytes + sent_length ds
sent_length (throughput t ∷ ds) = sent_length ds
sent_length (response_time t ∷ ds) = sent_length ds

pub sent_length-append :
    (ds es : List ReceivedData) → sent_length (ds ++ es) ≡ sent_length ds + sent_length es
sent_length-append [] es = omega arith
sent_length-append (partial_file offset bytes ∷ ds) es = omega (arith, sent_length-append ds es)
sent_length-append (throughput t ∷ ds) es = sent_length-append ds es
sent_length-append (response_time t ∷ ds) es = sent_length-append ds es

-- The variables agree with what has been sent.
abbrev pub IsSound : List ℕ → ℕ → Receiving → Type 0
IsSound remote start r =
    AllHonest remote r.sent
    × (r.offset ≡ start + r.actual_length)
    × (r.actual_length ≡ sent_length r.sent)

send_response_time-IsSound :
    (remote : List ℕ) (start elapsed : ℕ) (r : Receiving)
    → IsSound remote start r
    → IsSound remote start
        (record r { sent = r.sent ++ (response_time elapsed ∷ []); measure_ping_time = false })
send_response_time-IsSound remote start elapsed r (h, o, l) =
    let n = sent_length-append r.sent (response_time elapsed ∷ []) in
    (AllHonest-snoc remote r.sent (response_time elapsed) h tt, o, omega arith)

measure_ping-IsSound :
    (remote : List ℕ) (start elapsed : ℕ) (r : Receiving)
    → IsSound remote start r
    → IsSound remote start (measure_ping elapsed r)
unfolding measure_ping
measure_ping-IsSound remote start elapsed r h =
    elim (Bool-cases (r.measure_ping_time && ltb 0 (elapsed / 1000000))) [
      | inl e ↦ rw (measure_ping, e) (send_response_time-IsSound remote start elapsed r h)
      | inr e ↦ rw (measure_ping, e) h
    ]

measure_ping-offset : (elapsed : ℕ) (r : Receiving) → (measure_ping elapsed r).offset ≡ r.offset
unfolding measure_ping
measure_ping-offset elapsed r =
    elim (Bool-cases (r.measure_ping_time && ltb 0 (elapsed / 1000000))) [
      | inl e ↦ rw (measure_ping, e) refl
      | inr e ↦ rw (measure_ping, e) refl
    ]

-- A part that is sent comes from the file at the server.
send_data-IsSound :
    (remote bytes : List ℕ) (start : ℕ) (r : Receiving)
    → length remote < usize_mod
    → Delivers remote r.offset bytes
    → IsSound remote start r
    → IsSound remote start (send_data bytes r)
      × ((send_data bytes r).offset ≡ r.offset + length bytes)
unfolding send_data
send_data-IsSound remote bytes start r small (fits, same) (h, o, l) =
    let n = sent_length-append r.sent (partial_file r.offset bytes ∷ []) in
    let a = add_usize-eq-add r.offset (length bytes) (omega arith) in
    let b = add_usize-eq-add r.actual_length (length bytes) (omega arith) in
    (
      (
        AllHonest-snoc remote r.sent (partial_file r.offset bytes) h (fits, same),
        omega arith,
        omega arith,
      ),
      a,
    )

-- What `take_response` may do: it fails and sends nothing, or sends the part.
pub take_response-cases :
    (response : Response) (r : Receiving)
    → ((e : ReceiveError) × (take_response response r ≡ (err e, r)))
      ⊎ ((bytes : List ℕ) × ((take_response response r ≡ (ok tt, send_data bytes r))
            × (bytes_of (some response) ≡ bytes)))
unfolding take_response
take_response-cases response r = elim (Bool-cases (response.status == 206)) [
  | inr other ↦ inl (audio_file (status_code response.status), rw (take_response, other) refl)
  | inl same ↦ elim (Option-cases response.body) [
    | inl nothing ↦ inl (collect, rw (take_response, same, nothing) refl)
    | inr (bytes, b) ↦ inr (bytes, (rw (take_response, same, b) refl, rw (same, b) refl))
  ]
]

loop-none :
    (wanted : ℕ) (a : Arrival) (as' : List Arrival) (r : Receiving)
    → a.response ≡ none
    → (receive_loop wanted (a ∷ as') r).1 ≡ r
unfolding receive_loop
loop-none wanted a as' r h = rw (receive_loop, h) refl

loop-err :
    (wanted : ℕ) (a : Arrival) (as' : List Arrival) (r : Receiving) (response : Response)
    (e : ReceiveError)
    → a.response ≡ some response
    → take_response response (measure_ping a.elapsed r) ≡ (err e, measure_ping a.elapsed r)
    → (receive_loop wanted (a ∷ as') r).1 ≡ measure_ping a.elapsed r
unfolding receive_loop
loop-err wanted a as' r response e h k = simp (receive_loop, h, k)

loop-ok :
    (wanted : ℕ) (a : Arrival) (as' : List Arrival) (r r' : Receiving) (response : Response)
    → a.response ≡ some response
    → take_response response (measure_ping a.elapsed r) ≡ (ok tt, r')
    → receive_loop wanted (a ∷ as') r ≡ receive_loop wanted as' r'
unfolding receive_loop
loop-ok wanted a as' r r' response h k = simp (receive_loop, h, k)

loop-nil : (wanted : ℕ) (r : Receiving) → (receive_loop wanted [] r).1 ≡ r
unfolding receive_loop
loop-nil wanted r = elim (Bool-cases (r.actual_length == wanted)) [
  | inl e ↦ rw (receive_loop, e) refl
  | inr e ↦ rw (receive_loop, e) refl
]

-- A round that takes a part.
pub taken-IsSound :
    (remote bytes : List ℕ) (start offset : ℕ) (a : Option Response) (r : Receiving)
    → length remote < usize_mod
    → r.offset ≡ offset
    → bytes_of a ≡ bytes
    → Delivers remote offset (bytes_of a)
    → IsSound remote start r
    → IsSound remote start (send_data bytes r)
      × ((send_data bytes r).offset ≡ offset + length (bytes_of a))
taken-IsSound remote bytes start offset a r small o is_part here h =
    let now : Delivers remote r.offset bytes = rw (o, sym is_part) here in
    let (sound, next) = send_data-IsSound remote bytes start r small now h in
    (sound, rw (is_part, sym o) next)

pub receive_loop-IsSound :
    (remote : List ℕ) (wanted start : ℕ) (as' : List Arrival) (offset : ℕ) (r : Receiving)
    → length remote < usize_mod
    → r.offset ≡ offset
    → IsServed remote offset as'
    → IsSound remote start r
    → IsSound remote start (receive_loop wanted as' r).1
receive_loop-IsSound remote wanted start [] offset r small o served h = rw (loop-nil wanted r) h
receive_loop-IsSound remote wanted start (a ∷ as') offset r small o (here, served) h =
    let m = measure_ping a.elapsed r in
    let sound = measure_ping-IsSound remote start a.elapsed r h in
    let at_offset = measure_ping-offset a.elapsed r ∙ o in
    elim (Option-cases a.response) [
      | inl nothing ↦ rw (loop-none wanted a as' r nothing) h
      | inr (response, some_response) ↦ elim (take_response-cases response m) [
        | inl (e, failed) ↦ rw (loop-err wanted a as' r response e some_response failed) sound
        | inr (bytes, (taken, is_part)) ↦
            let (sent, next) =
              taken-IsSound remote bytes start offset a.response m small at_offset
                (ap bytes_of some_response ∙ is_part) here sound in
            rw (loop-ok wanted a as' r (send_data bytes m) response some_response taken) (
              receive_loop-IsSound remote wanted start as' (offset + length (bytes_of a.response))
                (send_data bytes m) small next served sent)
      ]
    ]
