-- ===== src/Player/Poll/Survives.antt =====
-- librespot_src/playback/src/player.rs: `poll` round after round, from the command to the preload of the
-- next track.
use neotune.Common.{
  ℕ, ◌≡◌, ◌≢◌, refl, Bool, true, false, not, Option, none, some, List, [], ◌∷◌, ltb, ◌-◌, ◌⊎◌, inl,
  inr, Bool-cases, Option-cases,
}
use neotune.Player.{
  Current, PlayerState, stopped, loading, paused, playing, end_of_track, invalid, PlayerInternal,
  Run, Decoded, decode_error, end_of_stream, packet, World, ok, err, exits, waits, send_event,
  set_state, is_playing, playing_to_end_of_track,
}
use neotune.Player.Sink.{handle_pause, ensure_sink_running}
use neotune.Player.Sink.Safe.{
  IsSound, IsFaulty, IsReady, is_sound, handle_pause-Keeps, ensure_sink_running-Settles,
}
use neotune.Player.Command.{PlayerCommand}
use neotune.Player.Poll.{
  run_command, load_turn, preload_turn, notify_about_position, correct_position, report_progress,
  note_packet, write_packet, finish_track, take_packet, decode_from, play_turn, wants_next_track,
  suggest_next, is_pending, end_turn, Turn, poll, poll_all,
}
use neotune.Player.Poll.Safe.{
  Stays, widen-Stays, faulty-Stays, bind-Stays, settled-Stays, run_command-Stays, load_turn-Stays,
  preload_turn-IsSound, Keeps-Stays,
}

correct_position-IsSound :
    (w : World) (c : Current) (t : Option ℕ) (position_ms : ℕ) (skipped : Bool) (p : PlayerInternal)
    → IsSound (correct_position w c t position_ms skipped p)
unfolding correct_position send_event set_state
correct_position-IsSound w c t position_ms skipped p =
    elim (Bool-cases
      (notify_about_position w.now t c.loaded_track.stream_position_ms position_ms skipped)) [
        | inl told ↦ simp (correct_position, told) refl
        | inr untold ↦ simp (correct_position, untold) refl
      ]

report_progress-IsSound :
    (w : World) (c : Current) (position_ms : ℕ) (interval : Option ℕ) (p : PlayerInternal)
    → IsSound p
    → IsSound (report_progress w c position_ms interval p)
unfolding report_progress send_event
report_progress-IsSound w c position_ms none p sound = sound
report_progress-IsSound w c position_ms (some interval) p sound =
    elim (Bool-cases (ltb interval (w.now - p.last_progress_update))) [
      | inl due ↦ simp (report_progress, due) sound
      | inr early ↦ simp (report_progress, early) sound
    ]

note_packet-IsSound :
    (w : World) (c : Current) (t : Option ℕ) (position_ms : ℕ) (skipped has_samples : Bool)
    (p : PlayerInternal)
    → IsSound (note_packet w c t position_ms skipped has_samples p)
unfolding note_packet set_state send_event
note_packet-IsSound w c t position_ms skipped has_samples p = elim (Bool-cases p.passthrough) [
  | inl on ↦ simp (note_packet, on) refl
  | inr off ↦ elim (Bool-cases has_samples) [
    | inl has ↦
        simp (note_packet, off, has)
          (report_progress-IsSound w c position_ms p.position_update_interval _
            (correct_position-IsSound w c t position_ms skipped p))
    | inr lacks ↦ simp (note_packet, off, lacks) refl
  ]
]

write_packet-Stays :
    (w : World) (is_empty : Bool) (p : PlayerInternal)
    → IsSound p
    → Stays (IsFaulty w) (write_packet w is_empty p)
unfolding write_packet
write_packet-Stays w true p sound = inl sound
write_packet-Stays w false p sound = elim (Bool-cases w.sink_writes) [
  | inl writes ↦ simp (write_packet, writes) (inl sound)
  | inr stuck ↦
      simp (write_packet, stuck) (Keeps-Stays w p (handle_pause w p) sound (handle_pause-Keeps w p))
]

take_packet-Stays :
    (w : World) (c : Current) (t : Option ℕ) (o : Decoded) (p : PlayerInternal)
    → p.state ≡ playing c t
    → Stays (IsFaulty w) (take_packet w c t o p)
unfolding take_packet finish_track playing_to_end_of_track send_event set_state
take_packet-Stays w c t decode_error p e = inl (rw (e) refl)
take_packet-Stays w c t end_of_stream p e = rw (e) (inl refl)
take_packet-Stays w c t (packet position_ms skipped has_samples is_empty) p e =
    write_packet-Stays w is_empty _ (note_packet-IsSound w c t position_ms skipped has_samples p)

decode_from-Stays :
    (w : World) (p : PlayerInternal)
    → is_playing p.state ≡ some true
    → Stays (IsFaulty w) (decode_from w p.state p)
unfolding decode_from is_playing
decode_from-Stays w p = go p.state refl
  where
    go :
        (s : PlayerState)
        → p.state ≡ s
        → is_playing s ≡ some true
        → Stays (IsFaulty w) (decode_from w s p)
    go (playing c t) e h = take_packet-Stays w c t w.next_packet p e
    go stopped e h = cc
    go (paused c) e h = cc
    go (loading uri id start loader) e h = cc
    go (end_of_track uri id t) e h = cc
    go invalid e h = cc

sound-is_playing : (p : PlayerInternal) → IsSound p → is_playing p.state ≢ none
unfolding is_playing
sound-is_playing p = go p.state
  where
    go : (s : PlayerState) → is_sound s p.sink_status ≡ true → is_playing s ≢ none
    go (playing c t) h e = cc
    go stopped h e = cc
    go (paused c) h e = cc
    go (loading uri id start loader) h e = cc
    go (end_of_track uri id t) h e = cc
    go invalid h e = cc

play_turn-Stays : (w : World) (p : PlayerInternal) → IsSound p → Stays (IsFaulty w) (play_turn w p)
unfolding play_turn
play_turn-Stays w p sound = elim (Option-cases (is_playing p.state)) [
  | inl e ↦ absurd (sound-is_playing p sound e)
  | inr (b, e) ↦ go b e
]
  where
    go : (b : Bool) → is_playing p.state ≡ some b → Stays (IsFaulty w) (play_turn w p)
    go false e = simp (play_turn, e) (inl sound)
    go true e =
        simp (play_turn, e)
          (settled-Stays (IsFaulty w) (IsReady w p) (ensure_sink_running w p)
            (λ q. decode_from w q.state q)
            (λ q ready. elim ((ready e).1) [
              | inl same ↦ decode_from-Stays w q (rw (same) e)
              | inr fault ↦ faulty-Stays (IsFaulty w) (decode_from w q.state q) fault
            ])
            (ensure_sink_running-Settles w p))

suggest_next-IsSound : (p : PlayerInternal) → IsSound p → IsSound (suggest_next p.state p)
unfolding suggest_next set_state send_event
suggest_next-IsSound p sound = go p.state refl
  where
    go : (s : PlayerState) → p.state ≡ s → IsSound (suggest_next s p)
    go stopped e = sound
    go (loading uri id start loader) e = sound
    go (end_of_track uri id t) e = sound
    go invalid e = sound
    go (paused c) e = elim (Bool-cases (wants_next_track c)) [
      | inl wants ↦ simp (suggest_next, wants) (let h = simp (e) at sound in h)
      | inr does_not ↦ simp (suggest_next, does_not) sound
    ]
    go (playing c t) e = elim (Bool-cases (wants_next_track c)) [
      | inl wants ↦ simp (suggest_next, wants) refl
      | inr does_not ↦ simp (suggest_next, does_not) sound
    ]

is_pending-some :
    (cmd : Option PlayerCommand) (s : PlayerState) (b : Bool)
    → is_playing s ≡ some b
    → (o : Bool) × (is_pending cmd s ≡ some o)
unfolding is_pending
is_pending-some none s b e = (not b, simp (is_pending, e) refl)
is_pending-some (some x) s b e = (false, simp (is_pending, e) refl)

end_turn-Stays :
    (F : Type 0) (cmd : Option PlayerCommand) (p : PlayerInternal)
    → IsSound p
    → Stays F (end_turn cmd p)
unfolding end_turn
end_turn-Stays F cmd p sound = elim (Option-cases (is_playing p.state)) [
  | inl e ↦ absurd (sound-is_playing p sound e)
  | inr (b, e) ↦ (let (o, f) = is_pending-some cmd p.state b e in simp (end_turn, f) (inl sound))
]

-- A fault in one of the parts of a round.
abbrev FaultIn : Turn → Type 0
FaultIn u = IsFaulty u.to_command ⊎ (IsFaulty u.to_loading ⊎ IsFaulty u.to_playing)

poll-Stays : (u : Turn) (p : PlayerInternal) → IsSound p → Stays (FaultIn u) (poll u p)
unfolding poll
poll-Stays u p sound =
    bind-Stays (FaultIn u) (run_command u.to_command u.command p) _
      (λ p1 sound1.
        bind-Stays (FaultIn u) (load_turn u.to_loading p1.state p1) _
          (λ p2 sound2.
            let p3 = preload_turn u.to_loading.preload_loader p2.preload p2 in
            bind-Stays (FaultIn u) (play_turn u.to_playing p3) _
              (λ p4 sound4.
                end_turn-Stays (FaultIn u) u.command (suggest_next p4.state p4)
                  (suggest_next-IsSound p4 sound4))
              (widen-Stays (IsFaulty u.to_playing) (FaultIn u) (play_turn u.to_playing p3)
                (λ f. inr (inr f))
                (play_turn-Stays u.to_playing p3
                  (preload_turn-IsSound u.to_loading.preload_loader p2.preload p2 sound2))))
          (widen-Stays (IsFaulty u.to_loading) (FaultIn u) (load_turn u.to_loading p1.state p1)
            (λ f. inr (inl f)) (load_turn-Stays u.to_loading p1 sound1)))
      (widen-Stays (IsFaulty u.to_command) (FaultIn u) (run_command u.to_command u.command p)
        (λ f. inl f) (run_command-Stays u.to_command u.command p sound))

-- The device starts and stops, and the decoder can be moved everywhere.
abbrev pub IsHealthy : World → Type 0
IsHealthy w = (w.sink_starts ≡ true) × ((w.sink_stops ≡ true) × ((q : ℕ) → w.seek q ≢ none))

abbrev pub AllHealthy : List Turn → Type 0
AllHealthy [] = Unit {0}
AllHealthy (u ∷ us) =
    (IsHealthy u.to_command × (IsHealthy u.to_loading × IsHealthy u.to_playing)) × AllHealthy us

healthy-faultless : (w : World) → IsHealthy w → IsFaulty w → ⊥
unfolding IsFaulty
healthy-faultless w (starts, (stops, moves)) (inl e) = cc
healthy-faultless w (starts, (stops, moves)) (inr (inl e)) = cc
healthy-faultless w (starts, (stops, moves)) (inr (inr (q, e))) = moves q e

faultless :
    (u : Turn)
    → IsHealthy u.to_command
    → IsHealthy u.to_loading
    → IsHealthy u.to_playing
    → FaultIn u
    → ⊥
faultless u c l p (inl f) = healthy-faultless u.to_command c f
faultless u c l p (inr (inl f)) = healthy-faultless u.to_loading l f
faultless u c l p (inr (inr f)) = healthy-faultless u.to_playing p f

poll_all-Stays :
    (us : List Turn) (p : PlayerInternal) → AllHealthy us → IsSound p → Stays ⊥ (poll_all us p)
unfolding poll_all
poll_all-Stays [] p healthy sound = inl sound
poll_all-Stays (u ∷ us) p ((c, (l, y)), healthy) sound =
    bind-Stays ⊥ (poll u p) (λ p1. poll_all us p1) (λ p1. poll_all-Stays us p1 healthy)
      (widen-Stays (FaultIn u) ⊥ (poll u p) (faultless u c l y) (poll-Stays u p sound))

Stays-IsSound :
    (r : Run) → Stays ⊥ r → (r ≡ waits) ⊎ ((q : PlayerInternal) × ((r ≡ ok q) × IsSound q))
Stays-IsSound (ok q) (inl sound) = inr (q, (refl, sound))
Stays-IsSound (ok q) (inr fault) = elim fault [ ]
Stays-IsSound (err q) h = elim h [ ]
Stays-IsSound exits h = elim h [ ]
Stays-IsSound waits h = inl refl

-- Whatever commands come in, whatever is loaded, decoded and fetched, over any number of rounds: as long
-- as the device starts and stops and the decoder can be moved, the process is not exited; unless it waits
-- for data, the state is not `Invalid`, and a stopped or paused player does not keep the device running.
pub poll_all-IsSound :
    (us : List Turn) (p : PlayerInternal)
    → AllHealthy us
    → IsSound p
    → (poll_all us p ≡ waits) ⊎ ((q : PlayerInternal) × ((poll_all us p ≡ ok q) × IsSound q))
poll_all-IsSound us p healthy sound =
    Stays-IsSound (poll_all us p) (poll_all-Stays us p healthy sound)
