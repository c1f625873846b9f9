-- ===== src/Player/Poll/Position.antt =====
-- librespot_src/playback/src/player.rs: the position that the listeners are told, and the suggestion of
-- the next track.
use neotune.Common.{
  ℕ, ◌+◌, ◌-◌, ◌*◌, ◌^◌, ◌<◌, ◌≡◌, refl, Bool, true, false, Option, none, some, leb, ltb, arith,
  inl, inr, Bool-cases,
}
use neotune.Player.{
  Current, PlayerState, stopped, loading, paused, playing, end_of_track, invalid, PlayerInternal,
  World, ok, packet, send_event, set_state, start_time,
}
use neotune.Player.Command.{at_position}
use neotune.Player.Poll.{
  notify_about_position, correct_position, report_progress, note_packet, write_packet, take_packet,
  wants_next_track, suggest_next,
}

-- What the listeners take for the position at a time, in nanoseconds, is less than a second ahead of a
-- position.
abbrev pub IsTold : (now position_ms : ℕ) → Option ℕ → Type 0
IsTold now position_ms none = Unit {0}
IsTold now position_ms (some start) = now < start + position_ms * 10 ^ 6 + 10 ^ 9

quiet-IsTold :
    (now : ℕ) (t : Option ℕ) (expected_ms position_ms : ℕ) (skipped : Bool)
    → notify_about_position now t expected_ms position_ms skipped ≡ false
    → IsTold now position_ms t
unfolding notify_about_position
quiet-IsTold now none expected_ms position_ms skipped h = tt
quiet-IsTold now (some start) expected_ms position_ms skipped h = ground arith

start_time-IsTold : (now position_ms : ℕ) → IsTold now position_ms (start_time now position_ms)
unfolding start_time
start_time-IsTold now position_ms = elim (Bool-cases (leb (position_ms * 10 ^ 6) now)) [
  | inl long ↦ rw (start_time, long) (ground arith)
  | inr short ↦ rw (start_time, short) tt
]

-- The track plays on at a position, and the listeners are told.
abbrev pub PlaysAt : World → Current → (position_ms : ℕ) → PlayerState → Type 0
PlaysAt w c position_ms s =
    (t : Option ℕ) × ((s ≡ playing (at_position position_ms c) t) × IsTold w.now position_ms t)

correct_position-IsTold :
    (w : World) (c : Current) (t : Option ℕ) (position_ms : ℕ) (skipped : Bool) (p : PlayerInternal)
    → PlaysAt w c position_ms (correct_position w c t position_ms skipped p).state
unfolding correct_position send_event set_state
correct_position-IsTold w c t position_ms skipped p =
    elim (Bool-cases
      (notify_about_position w.now t c.loaded_track.stream_position_ms position_ms skipped)) [
        | inl told ↦
            simp (correct_position, told)
              (start_time w.now position_ms, (refl, start_time-IsTold w.now position_ms))
        | inr untold ↦
            simp (correct_position, untold)
              (
                t,
                (
                  refl,
                  quiet-IsTold w.now t c.loaded_track.stream_position_ms position_ms skipped untold,
                ),
              )
      ]

report_progress-state :
    (w : World) (c : Current) (position_ms : ℕ) (interval : Option ℕ) (p : PlayerInternal)
    → (report_progress w c position_ms interval p).state ≡ p.state
unfolding report_progress send_event
report_progress-state w c position_ms none p = refl
report_progress-state w c position_ms (some interval) p =
    elim (Bool-cases (ltb interval (w.now - p.last_progress_update))) [
      | inl late ↦ simp (report_progress, late) refl
      | inr early ↦ simp (report_progress, early) refl
    ]

note_packet-eq :
    (w : World) (c : Current) (t : Option ℕ) (position_ms : ℕ) (skipped : Bool) (p : PlayerInternal)
    → p.passthrough ≡ false
    → note_packet w c t position_ms skipped true p
      ≡ report_progress w c position_ms p.position_update_interval
          (correct_position w c t position_ms skipped p)
unfolding note_packet
note_packet-eq w c t position_ms skipped p decodes = simp (note_packet, decodes) refl

write_packet-written :
    (w : World) (is_empty : Bool) (p : PlayerInternal)
    → w.sink_writes ≡ true
    → write_packet w is_empty p ≡ ok p
unfolding write_packet
write_packet-written w true p writes = refl
write_packet-written w false p writes = simp (write_packet, writes) refl

-- Without passthrough, after a packet with samples that the device takes, the track plays on at the position
-- of the packet, and if the listeners have been told a start, the position that it gives is less than a
-- second ahead of that of the packet.
pub take_packet-IsTold :
    (w : World) (c : Current) (t : Option ℕ) (position_ms : ℕ) (skipped is_empty : Bool)
    (p : PlayerInternal)
    → p.passthrough ≡ false
    → w.sink_writes ≡ true
    → (p' : PlayerInternal) × ((take_packet w c t (packet position_ms skipped true is_empty) p
          ≡ ok p')
        × PlaysAt w c position_ms p'.state)
unfolding take_packet
take_packet-IsTold w c t position_ms skipped is_empty p decodes writes =
    let noted = correct_position w c t position_ms skipped p in
    let p' = report_progress w c position_ms p.position_update_interval noted in
    (
      p',
      (
        rw (note_packet-eq w c t position_ms skipped p decodes)
            (write_packet-written w is_empty p' writes),
        rw (report_progress-state w c position_ms p.position_update_interval noted)
            (correct_position-IsTold w c t position_ms skipped p),
      ),
    )

-- The next track is suggested at most once for the current one.
pub suggest_next-suggest_next :
    (p : PlayerInternal) → (let q = suggest_next p.state p in suggest_next q.state q ≡ q)
unfolding suggest_next set_state send_event wants_next_track
suggest_next-suggest_next p = go p.state refl
  where
    go : (s : PlayerState) → p.state ≡ s → (let q = suggest_next s p in suggest_next q.state q ≡ q)
    go stopped e = rw (e) refl
    go (loading uri id start loader) e = rw (e) refl
    go (end_of_track uri id t) e = rw (e) refl
    go invalid e = rw (e) refl
    go (paused c) e = elim (Bool-cases (wants_next_track c)) [
      | inl wants ↦ simp (suggest_next, wants) refl
      | inr does_not ↦ simp (suggest_next, does_not, e) refl
    ]
    go (playing c t) e = elim (Bool-cases (wants_next_track c)) [
      | inl wants ↦ simp (suggest_next, wants) refl
      | inr does_not ↦ simp (suggest_next, does_not, e) refl
    ]
