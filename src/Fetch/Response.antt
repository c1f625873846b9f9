-- ===== src/Fetch/Response.antt =====
-- librespot_src/audio/src/fetch/receive.rs: `receive_data`, which hands on the bytes of one request.
pub mod Honest
pub mod GiveBack
use neotune.Common.{
  ℕ, zero, suc, ◌+◌, ◌*◌, ◌/◌, Bool, true, false, ◌&&◌, not, Option, none, some, List, [], ◌∷◌,
  ◌++◌, ltb, leb, ◌==◌, length, add_usize, sub_usize, Result, ok, err, if◌then◌else◌,
}
use neotune.RangeSet.{Range, new_range, subtract_range}
use neotune.Fetch.{AudioFileError, hyper_error, status_code, AudioFileShared, second, millisecond}
use neotune.Fetch.Receive.{ReceivedData, throughput, response_time, partial_file}

-- An answer of the server: `body` is `none` where it cannot be collected.
pub record Response : Type 0 where
  pub status : ℕ
  pub body : Option (List ℕ)

-- What the streamer gives, and the time since the request: `none` is an error of the connection.
pub record Arrival : Type 0 where
  pub elapsed : ℕ
  pub response : Option Response

pub record StreamingRequest : Type 0 where
  pub streamer : List Arrival
  pub initial_response : Option Response
  pub offset : ℕ
  pub length : ℕ

-- `data_loss` holds the length of the body, `collect` the error of a body.
pub data ReceiveError : Type 0 where
  audio_file : AudioFileError → ReceiveError
  collect : ReceiveError
  data_loss : ℕ → ReceiveError

-- The state of the loop: what it has sent, and its variables.
pub record Receiving : Type 0 where
  pub sent : List ReceivedData
  pub offset : ℕ
  pub actual_length : ℕ
  pub measure_ping_time : Bool

abbrev partial_content : ℕ
partial_content = 206

unfoldable pub measure_ping : ℕ → Receiving → Receiving
measure_ping elapsed r =
    if r.measure_ping_time && ltb 0 (elapsed / millisecond)
    then record r { sent = r.sent ++ (response_time elapsed ∷ []); measure_ping_time = false }
    else r

unfoldable pub send_data : List ℕ → Receiving → Receiving
send_data bytes r = record r {
  sent = r.sent ++ (partial_file r.offset bytes ∷ []);
  actual_length = add_usize r.actual_length (length bytes);
  offset = add_usize r.offset (length bytes);
}

-- A round of the loop from the check of the status on. The wait before a retry has no effect here.
unfoldable pub take_response : Response → Receiving → Result ReceiveError (Unit {0}) × Receiving
unfolding send_data
take_response response r = elim (response.status == partial_content) [
  | false ↦ (err (audio_file (status_code response.status)), r)
  | true ↦ elim response.body [ none ↦ (err collect, r) | some bytes ↦ (ok tt, send_data bytes r) ]
]

unfoldable pub receive_loop :
    ℕ → List Arrival → Receiving → Result ReceiveError (Unit {0}) × Receiving
receive_loop wanted [] r = elim (r.actual_length == wanted) [
  | true ↦ (ok tt, r)
  | false ↦ (err (data_loss r.actual_length), r)
]
receive_loop wanted (a ∷ as') r = elim a.response [
  | none ↦ (err (audio_file hyper_error), r)
  | some response ↦
      (let (res, r') = take_response response (measure_ping a.elapsed r) in
        elim res [ err e ↦ (err e, r') | ok _ ↦ receive_loop wanted as' r' ])
]

-- The variables before the loop.
abbrev pub start_receiving : StreamingRequest → Bool → Receiving
start_receiving q measure = record {
  sent = [];
  offset = q.offset;
  actual_length = 0;
  measure_ping_time = measure;
}

-- "the request was already made outside of this function": then nothing is measured.
unfoldable pub receive : StreamingRequest → Result ReceiveError (Unit {0}) × Receiving
receive q = elim q.initial_response [
  | none ↦ receive_loop q.length q.streamer (start_receiving q true)
  | some response ↦
      (let (res, r') = take_response response (start_receiving q false) in
        elim res [ err e ↦ (err e, r') | ok _ ↦ receive_loop q.length q.streamer r' ])
]

abbrev is_none : Option Response → Bool
is_none none = true
is_none (some r) = false

-- `duration` is the time from the request to the end of the loop.
unfoldable pub send_throughput : StreamingRequest → ℕ → Receiving → List ReceivedData
send_throughput q duration r =
    let ms = duration / millisecond in
    if is_none q.initial_response && (ltb 0 r.actual_length && ltb 0 ms)
    then r.sent ++ (throughput ((second / millisecond) * r.actual_length / ms) ∷ [])
    else r.sent

-- What is missing of the request is no longer requested.
unfoldable pub give_back : StreamingRequest → Receiving → AudioFileShared → AudioFileShared
give_back q r s =
    let bytes_remaining = sub_usize q.length r.actual_length in
    if ltb 0 bytes_remaining
    then record s { requested = subtract_range s.requested (new_range r.offset bytes_remaining) }
    else s

-- The data that is sent, the shared state and the result. A data can be sent as long as the task that
-- owns the file is there; the model has it there.
unfoldable pub receive_data :
    StreamingRequest
    → ℕ
    → AudioFileShared
    → List ReceivedData × AudioFileShared × Result ReceiveError (Unit {0})
receive_data q duration s =
    let (res, r) = receive q in (send_throughput q duration r, give_back q r s, res)
