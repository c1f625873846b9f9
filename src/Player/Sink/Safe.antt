-- ===== src/Player/Sink/Safe.antt =====
-- librespot_src/playback/src/player.rs: what the parts of the player that use the audio device lead to.
use neotune.Common.{ℕ, ◌≡◌, refl, Bool, true, false, not, none, some, ◌⊎◌, inl, inr, Bool-cases}
use neotune.SpotifyUri.{SpotifyUri}
use neotune.Player.{
  SinkStatus, running, closed, temporarily_closed, PlayerLoadedTrackData, PlayerState, stopped,
  loading, paused, playing, end_of_track, invalid, PlayerInternal, World, Run, ok, err, exits,
  waits, ◌>>=◌, send_event, set_state, is_playing, paused_to_playing, playing_to_paused,
  stopped_event,
}
use neotune.Player.Sink.{
  report_sink, closing_status, ensure_sink_stopped, is_running, pause_from, handle_pause,
  ensure_sink_running, play_from, handle_play, stop_from, handle_player_stop, start_playback,
}

-- The state is not `Invalid`, and while the player is stopped or paused the device is not running.
abbrev pub is_sound : PlayerState → SinkStatus → Bool
is_sound stopped s = not (is_running s)
is_sound (paused c) s = not (is_running s)
is_sound (loading uri id start loader) s = true
is_sound (playing c t) s = true
is_sound (end_of_track uri id t) s = true
is_sound invalid s = false

abbrev pub IsSound : PlayerInternal → Type 0
IsSound p = is_sound p.state p.sink_status ≡ true

-- The device does not start or stop, or the decoder cannot be moved to some position.
unfoldable pub IsFaulty : World → Type 0
IsFaulty w = (w.sink_starts ≡ false) ⊎ ((w.sink_stops ≡ false) ⊎ ((q : ℕ) × (w.seek q ≡ none)))

cannot_start : (w : World) → w.sink_starts ≡ false → IsFaulty w
unfolding IsFaulty
cannot_start w stuck = inl stuck

cannot_stop : (w : World) → w.sink_stops ≡ false → IsFaulty w
unfolding IsFaulty
cannot_stop w stuck = inr (inl stuck)

pub cannot_move : (w : World) (q : ℕ) → w.seek q ≡ none → IsFaulty w
unfolding IsFaulty
cannot_move w q fails = inr (inr (q, fails))

-- A method that returns, without an error, what has the property, or else exits by a fault.
abbrev pub Settles : (F : Type 0) (P : PlayerInternal → Type 0) → Run → Type 0
Settles F P (ok p) = P p
Settles F P (err p) = ⊥
Settles F P exits = F
Settles F P waits = ⊥

pub bind-Settles :
    (F : Type 0) (P Q : PlayerInternal → Type 0) (r : Run) (f : PlayerInternal → Run)
    → ((p : PlayerInternal) → P p → Settles F Q (f p))
    → Settles F P r
    → Settles F Q (r >>= f)
bind-Settles F P Q (ok p) f keeps h = keeps p h
bind-Settles F P Q (err p) f keeps h = elim h [ ]
bind-Settles F P Q exits f keeps h = h
bind-Settles F P Q waits f keeps h = elim h [ ]

pub weaken-Settles :
    (F : Type 0) (P Q : PlayerInternal → Type 0) (r : Run)
    → ((p : PlayerInternal) → P p → Q p)
    → Settles F P r
    → Settles F Q r
weaken-Settles F P Q (ok p) keeps h = keeps p h
weaken-Settles F P Q (err p) keeps h = h
weaken-Settles F P Q exits keeps h = h
weaken-Settles F P Q waits keeps h = h

-- The device is not running, in the state that was there.
abbrev pub IsQuiet : PlayerInternal → PlayerInternal → Type 0
IsQuiet p q = (q.state ≡ p.state) × (is_running q.sink_status ≡ false)

not_running : (temporarily : Bool) → is_running (closing_status temporarily) ≡ false
unfolding closing_status
not_running true = refl
not_running false = refl

pub ensure_sink_stopped-Settles :
    (w : World) (temporarily : Bool) (p : PlayerInternal)
    → Settles (IsFaulty w) (IsQuiet p) (ensure_sink_stopped w temporarily p)
unfolding ensure_sink_stopped report_sink closing_status
ensure_sink_stopped-Settles w temporarily p = go p.sink_status refl temporarily
  where
    go :
        (s : SinkStatus)
        → p.sink_status ≡ s
        → (t : Bool) → Settles (IsFaulty w) (IsQuiet p) (ensure_sink_stopped w t p)
    go running e t = elim (Bool-cases w.sink_stops) [
      | inl stops ↦ simp (ensure_sink_stopped, e, stops) (refl, not_running t)
      | inr stuck ↦ simp (ensure_sink_stopped, e, stuck) (cannot_stop w stuck)
    ]
    go temporarily_closed e true = simp (ensure_sink_stopped, e) (refl, refl)
    go temporarily_closed e false = simp (ensure_sink_stopped, e) (refl, refl)
    go closed e t = simp (ensure_sink_stopped, e) (refl, refl)

-- A method that keeps what it is given sound.
abbrev pub Keeps : World → PlayerInternal → Run → Type 0
Keeps w p r = Settles (IsFaulty w) (λ q. IsSound p → IsSound q) r

is_sound-quiet :
    (s : PlayerState) (a b : SinkStatus)
    → is_running b ≡ false
    → is_sound s a ≡ true
    → is_sound s b ≡ true
is_sound-quiet stopped a b q h = rw (q) refl
is_sound-quiet (paused c) a b q h = rw (q) refl
is_sound-quiet (loading uri id start loader) a b q h = refl
is_sound-quiet (playing c t) a b q h = refl
is_sound-quiet (end_of_track uri id t) a b q h = refl
is_sound-quiet invalid a b q h = h

pub quiet-IsSound : (p q : PlayerInternal) → IsQuiet p q → IsSound p → IsSound q
quiet-IsSound p q (e, off) h = rw (e) (is_sound-quiet p.state p.sink_status q.sink_status off h)

pause_from-Keeps :
    (w : World) (s : PlayerState) (p : PlayerInternal) → p.state ≡ s → Keeps w p (pause_from w s p)
unfolding pause_from playing_to_paused set_state send_event
pause_from-Keeps w stopped p e = λ h. h
pause_from-Keeps w (end_of_track uri id t) p e = λ h. h
pause_from-Keeps w invalid p e = λ h. h
pause_from-Keeps w (loading uri id start loader) p e = λ h. refl
pause_from-Keeps w (paused c) p e =
    weaken-Settles (IsFaulty w) (IsQuiet p) (λ q. IsSound p → IsSound q)
      (ensure_sink_stopped w false p) (λ q quiet. quiet-IsSound p q quiet)
      (ensure_sink_stopped-Settles w false p)
pause_from-Keeps w (playing c t) p e =
    bind-Settles (IsFaulty w) (IsQuiet (set_state (paused c) p)) (λ q. IsSound p → IsSound q)
      (ensure_sink_stopped w false (set_state (paused c) p)) _ (λ q (s, off) h. rw (s, off) refl)
      (ensure_sink_stopped-Settles w false (set_state (paused c) p))

pub handle_pause-Keeps : (w : World) (p : PlayerInternal) → Keeps w p (handle_pause w p)
unfolding handle_pause
handle_pause-Keeps w p = pause_from-Keeps w p.state p refl

playing_sound : (s : PlayerState) (a : SinkStatus) → is_playing s ≡ some true → is_sound s a ≡ true
unfolding is_playing
playing_sound stopped a h = cc
playing_sound (paused c) a h = cc
playing_sound (loading uri id start loader) a h = refl
playing_sound (playing c t) a h = refl
playing_sound (end_of_track uri id t) a h = refl
playing_sound invalid a h = cc

-- Where a track is playing, it goes on, unless the device does not start.
abbrev pub IsReady : World → PlayerInternal → PlayerInternal → Type 0
IsReady w p q = is_playing p.state ≡ some true → IsSound q × ((q.state ≡ p.state) ⊎ IsFaulty w)

pub ensure_sink_running-Settles :
    (w : World) (p : PlayerInternal) → Settles (IsFaulty w) (IsReady w p) (ensure_sink_running w p)
unfolding ensure_sink_running report_sink
ensure_sink_running-Settles w p = elim (Bool-cases (is_running p.sink_status)) [
  | inl on ↦ simp (ensure_sink_running, on) (λ h. (playing_sound p.state p.sink_status h, inl refl))
  | inr off ↦ elim (Bool-cases w.sink_starts) [
    | inl starts ↦
        simp (ensure_sink_running, off, starts) (λ h. (playing_sound p.state running h, inl refl))
    | inr stuck ↦
        simp (ensure_sink_running, off, stuck)
          (weaken-Settles (IsFaulty w) _ (IsReady w p) _
            (λ q keeps h.
              (keeps (playing_sound p.state p.sink_status h), inr (cannot_start w stuck)))
            (handle_pause-Keeps w _))
  ]
]

pub handle_play-Keeps : (w : World) (p : PlayerInternal) → Keeps w p (handle_play w p)
unfolding handle_play play_from paused_to_playing set_state send_event is_playing
handle_play-Keeps w p = go p.state refl
  where
    go : (s : PlayerState) → p.state ≡ s → Keeps w p (play_from w s p)
    go stopped e = λ h. h
    go (playing c t) e = λ h. h
    go (end_of_track uri id t) e = λ h. h
    go invalid e = λ h. h
    go (loading uri id start loader) e = λ h. refl
    go (paused c) e =
        weaken-Settles (IsFaulty w) _ (λ q. IsSound p → IsSound q) _ (λ q ready h. (ready refl).0)
          (ensure_sink_running-Settles w _)

pub handle_player_stop-Settles :
    (w : World) (p : PlayerInternal)
    → IsSound p
    → Settles (IsFaulty w) IsSound (handle_player_stop w p)
unfolding handle_player_stop stop_from set_state send_event
handle_player_stop-Settles w p sound = go p.state sound
  where
    stops :
        (uri : SpotifyUri) (id : ℕ)
        → Settles (IsFaulty w) IsSound (
            ensure_sink_stopped w false p >>= λ p1.
            ok (set_state stopped (send_event (stopped_event id uri) p1)))
    stops uri id =
        bind-Settles (IsFaulty w) (IsQuiet p) IsSound (ensure_sink_stopped w false p) _
          (λ q quiet. rw (quiet.1) refl) (ensure_sink_stopped-Settles w false p)

    go :
        (s : PlayerState)
        → is_sound s p.sink_status ≡ true
        → Settles (IsFaulty w) IsSound (stop_from w s p)
    go stopped h = sound
    go (playing c t) h = stops _ _
    go (paused c) h = stops _ _
    go (loading uri id start loader) h = stops _ _
    go (end_of_track uri id t) h = stops _ _
    go invalid h = cc

abbrev pub is_loading : PlayerState → Bool
is_loading (loading uri id start loader) = true
is_loading stopped = false
is_loading (paused c) = false
is_loading (playing c t) = false
is_loading (end_of_track uri id t) = false
is_loading invalid = false

abbrev pub IsStarted : PlayerInternal → Type 0
IsStarted q = IsSound q × (is_loading q.state ≡ false)

pub start_playback-Settles :
    (w : World) (uri : SpotifyUri) (id : ℕ) (t : PlayerLoadedTrackData) (starts : Bool)
    (p : PlayerInternal)
    → Settles (IsFaulty w) IsStarted (start_playback w uri id t starts p)
unfolding start_playback set_state send_event
start_playback-Settles w uri id t true p =
    bind-Settles (IsFaulty w) _ IsStarted (ensure_sink_running w _) _ (λ q h. (refl, refl))
      (ensure_sink_running-Settles w _)
start_playback-Settles w uri id t false p =
    bind-Settles (IsFaulty w) _ IsStarted (ensure_sink_stopped w false _) _
      (λ q quiet. (rw (quiet.1) refl, refl)) (ensure_sink_stopped-Settles w false _)
