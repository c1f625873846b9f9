-- ===== src/Fetch/Stream/Read/Whole.antt =====
-- librespot_src/audio/src/fetch/mod.rs: `AudioFileStreaming::read` as a whole.
use neotune.Common.{
  ℕ, ◌+◌, ◌≤◌, ◌<◌, ◌≡◌, refl, sym, ap, ◌∙◌, ◌⊎◌, inl, inr, Bool, true, false, min, Option, none,
  some, List, [], ◌∷◌, length, take, drop, arith, leb, ◌==◌, Bool-cases, Option-cases, sub_usize,
  sub_usize-eq-sub, Result, Result-cases, ok, err,
}
use neotune.RangeSet.{Range}
use neotune.Fetch.Stream.{
  AudioFileStreaming, IoError, Wake, ranges_to_request, send_commands, wait_for, read_available,
  read,
}
use neotune.Fetch.Stream.Read.{IsMirror, AllMirror, wait_for-IsMirror, read_available-IsMirror}

send_commands-ok :
    (is_open : Bool) (rs : List Range) (f f' : AudioFileStreaming)
    → send_commands is_open rs f ≡ ok f'
    → (f'.shared ≡ f.shared) × (f'.read_file ≡ f.read_file)
unfolding send_commands
send_commands-ok is_open [] f f' h = let same : f ≡ f' = cc h in rw (sym same) (refl, refl)
send_commands-ok false (r ∷ rs) f f' h = absurd (cc h)
send_commands-ok true (r ∷ rs) f f' h = send_commands-ok true rs _ f' h

abbrev wanted_length : ℕ → AudioFileStreaming → ℕ
wanted_length output_len f = min output_len (sub_usize f.shared.file_size f.position)

module _ (read_ahead : ℕ) (is_open : Bool) (ws : List Wake) (output_len : ℕ)
    (f : AudioFileStreaming) where
  read-end :
      leb f.shared.file_size f.position ≡ true
      → read read_ahead is_open ws output_len f ≡ some (ok ([], f))
  unfolding read
  read-end h = rw (read, h) refl

  read-nothing :
      leb f.shared.file_size f.position ≡ false
      → (wanted_length output_len f == 0) ≡ true
      → read read_ahead is_open ws output_len f ≡ some (ok ([], f))
  unfolding read
  read-nothing h k = rw (read, h, k) refl

  abbrev pub sent : Result IoError AudioFileStreaming
  sent =
      send_commands is_open
        (ranges_to_request read_ahead f.shared f.position (wanted_length output_len f)) f

  read-broken :
      (e : IoError)
      → leb f.shared.file_size f.position ≡ false
      → (wanted_length output_len f == 0) ≡ false
      → sent ≡ err e
      → read read_ahead is_open ws output_len f ≡ some (err e)
  unfolding read
  read-broken e h k s = rw (read, h, k, s) refl

  read-waits :
      (f' : AudioFileStreaming)
      → leb f.shared.file_size f.position ≡ false
      → (wanted_length output_len f == 0) ≡ false
      → sent ≡ ok f'
      → wait_for f.position ws f' ≡ none
      → read read_ahead is_open ws output_len f ≡ none
  unfolding read
  read-waits f' h k s w = rw (read, h, k, s, w) refl

  read-late :
      (f' : AudioFileStreaming) (e : IoError)
      → leb f.shared.file_size f.position ≡ false
      → (wanted_length output_len f == 0) ≡ false
      → sent ≡ ok f'
      → wait_for f.position ws f' ≡ some (err e)
      → read read_ahead is_open ws output_len f ≡ some (err e)
  unfolding read
  read-late f' e h k s w = rw (read, h, k, s, w) refl

  read-there :
      (f' f'' : AudioFileStreaming)
      → leb f.shared.file_size f.position ≡ false
      → (wanted_length output_len f == 0) ≡ false
      → sent ≡ ok f'
      → wait_for f.position ws f' ≡ some (ok f'')
      → read read_ahead is_open ws output_len f
        ≡ some (ok (read_available f.position (wanted_length output_len f) f''))
  unfolding read
  read-there f' f'' h k s w = rw (read, h, k, s, w) refl

-- What a reader of the file at the server would read at the same position: at most as much as is asked
-- for, and nothing only at the end or if nothing is asked for.
abbrev pub ReadsFrom : List ℕ → ℕ → AudioFileStreaming → List ℕ → AudioFileStreaming → Type 0
ReadsFrom remote output_len f bytes f' =
    (bytes ≡ take (length bytes) (drop f.position remote))
    × (length bytes ≤ output_len)
    × ((output_len ≡ 0) ⊎ (length remote ≤ f.position) ⊎ (0 < length bytes))
    × (f'.position ≡ f.position + length bytes)

ReadsFrom-nothing :
    (remote : List ℕ) (output_len : ℕ) (f : AudioFileStreaming)
    → (output_len ≡ 0) ⊎ (length remote ≤ f.position)
    → ReadsFrom remote output_len f [] f
ReadsFrom-nothing remote output_len f (inl h) = (refl, omega arith, inl h, omega arith)
ReadsFrom-nothing remote output_len f (inr h) = (refl, omega arith, inr (inl h), omega arith)

ReadsFrom-eq :
    (remote : List ℕ) (output_len : ℕ) (f : AudioFileStreaming) (bytes bytes' : List ℕ)
    (f' f'' : AudioFileStreaming)
    → bytes ≡ bytes'
    → f' ≡ f''
    → ReadsFrom remote output_len f bytes f'
    → ReadsFrom remote output_len f bytes' f''
ReadsFrom-eq remote output_len f bytes bytes' f' f'' b s h = rw (sym b, sym s) h

result-eq :
    (bytes : List ℕ) (f' : AudioFileStreaming) (x : List ℕ × AudioFileStreaming)
    → (r : Option (Result IoError (List ℕ × AudioFileStreaming))) → r ≡ some (ok x)
    → r ≡ some (ok (bytes, f'))
    → (x.0 ≡ bytes) × (x.1 ≡ f')
result-eq bytes f' x r h k =
    (let same : x ≡ (bytes, f') = cc in (ap (λ p. p.0) same, ap (λ p. p.1) same))

-- A read that succeeds has waited until the byte at the position was there.
read-inversion :
    (bytes : List ℕ) (read_ahead : ℕ) (is_open : Bool) (ws : List Wake) (output_len : ℕ)
    (f f' g : AudioFileStreaming)
    → leb f.shared.file_size f.position ≡ false
    → (wanted_length output_len f == 0) ≡ false
    → sent read_ahead is_open ws output_len f ≡ ok g
    → read read_ahead is_open ws output_len f ≡ some (ok (bytes, f'))
    → (f'' : AudioFileStreaming) × (wait_for f.position ws g ≡ some (ok f''))
read-inversion bytes read_ahead is_open ws output_len f f' g inside something asked e =
    elim (Option-cases (wait_for f.position ws g)) [
      | inl waits ↦
          absurd
            (cc (e, read-waits read_ahead is_open ws output_len f g inside something asked waits))
      | inr (r, woke) ↦ elim (Result-cases r) [
        | inl (x, late) ↦ absurd (
            cc (
              e,
              read-late read_ahead is_open ws output_len f g x inside something asked
                  (woke ∙ ap some late),
            ))
        | inr (f'', there) ↦ (f'', woke ∙ ap some there)
      ]
    ]

-- Where the bytes that are noted as downloaded are those of the file at the server, at the start and whenever
-- the reader is woken, a read that succeeds while the file is downloaded reads what it would read from the
-- file at the server.
pub read-IsMirror :
    (remote bytes : List ℕ) (read_ahead : ℕ) (is_open : Bool) (ws : List Wake) (output_len : ℕ)
    (f f' : AudioFileStreaming)
    → IsMirror remote f.shared f.read_file
    → AllMirror remote ws
    → read read_ahead is_open ws output_len f ≡ some (ok (bytes, f'))
    → ReadsFrom remote output_len f bytes f'
read-IsMirror remote bytes read_ahead is_open ws output_len f f' h all e =
    let (small, size, _, _) = h in
    elim (Bool-cases (leb f.shared.file_size f.position)) [
      | inl end ↦
          let (b, s) =
            result-eq bytes f' ([], f) _ (read-end read_ahead is_open ws output_len f end) e in
          ReadsFrom-eq remote output_len f _ _ _ _ b s
            (ReadsFrom-nothing remote output_len f (inr (ground arith)))
      | inr inside ↦
          let below : f.position < length remote = ground arith in
          let rest = sub_usize-eq-sub f.shared.file_size f.position (omega arith) (omega arith) in
          elim (Bool-cases (wanted_length output_len f == 0)) [
            | inl nothing ↦
                let (b, s) =
                  result-eq bytes f' ([], f) _
                    (read-nothing read_ahead is_open ws output_len f inside nothing) e in
                ReadsFrom-eq remote output_len f _ _ _ _ b s
                  (ReadsFrom-nothing remote output_len f (inl (ground arith)))
            | inr something ↦ elim (Result-cases (sent read_ahead is_open ws output_len f)) [
              | inl (x, broken) ↦
                  absurd (
                    cc
                      (e, read-broken read_ahead is_open ws output_len f x inside something broken))
              | inr (g, asked) ↦
                  let (f'', waited) =
                    read-inversion bytes read_ahead is_open ws output_len f f' g inside something
                      asked e in
                  let (b, s) =
                    result-eq bytes f' _ _
                      (read-there read_ahead is_open ws output_len f g f'' inside something asked
                        waited)
                      e in
                  let (same, file) = send_commands-ok is_open _ f g asked in
                  let (mirror, first) =
                    wait_for-IsMirror remote f.position ws g f'' all (rw (same, file) h) waited in
                  let (part, positive, bound, position) =
                    read_available-IsMirror remote f.position (wanted_length output_len f) f''
                      mirror first (omega arith) (ground arith) in
                  ReadsFrom-eq remote output_len f _ _ _ _ b s
                    (part, omega arith, inr (inr positive), position)
            ]
          ]
    ]
