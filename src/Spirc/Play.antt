-- ===== src/Spirc/Play.antt =====
-- librespot_src/connect/src/spirc.rs: playing, pausing and seeking.
use neotune.Common.{
  ℕ, ◌%◌, ◌^◌, ◌<◌, ◌≤◌, ◌≡◌, refl, ◌⊎◌, inl, inr, not, ◌||◌, ◌==◌, ltb, arith, Bool-cases, sub_u64,
  if◌then◌else◌,
}
use neotune.Connect.Handle.Status.{
  SpircPlayStatus, stopped, loading_play, loading_pause, playing, paused, shows_paused,
}
use neotune.Spirc.{SpircTask, play, pause, seek, tell, set_play_status, update_position, set_volume}

-- The position of a status at a time.
unfoldable pub position_of : SpircPlayStatus → ℕ → ℕ
position_of stopped now = 0
position_of (loading_play p) now = p
position_of (loading_pause p) now = p
position_of (paused p b) now = p
position_of (playing start b) now = sub_u64 now start % 2 ^ 32

unfoldable pub get_position : ℕ → SpircTask → ℕ
unfolding position_of
get_position now f = position_of f.play_status now

-- "Synchronize the volume from the mixer."
unfoldable pub sync_volume : SpircTask → SpircTask
sync_volume f = set_volume f.mixer_volume f

unfoldable pub handle_play : ℕ → SpircTask → SpircTask
unfolding set_play_status update_position tell sync_volume
handle_play now f = elim f.play_status [
  | paused p b ↦
      sync_volume
        (set_play_status (playing (sub_u64 now p) b) (update_position p now (tell play f)))
  | loading_pause p ↦ sync_volume (set_play_status (loading_play p) (tell play f))
  | _ ↦ f
]

unfoldable pub handle_pause : ℕ → SpircTask → SpircTask
unfolding set_play_status update_position tell
handle_pause now f = elim f.play_status [
  | playing start b ↦
      (let p = sub_u64 now start % 2 ^ 32 in
        set_play_status (paused p b) (update_position p now (tell pause f)))
  | loading_play p ↦ set_play_status (loading_pause p) (tell pause f)
  | _ ↦ f
]

unfoldable pub handle_play_pause : ℕ → SpircTask → SpircTask
unfolding handle_play handle_pause
handle_play_pause now f = elim f.play_status [
  | paused p b ↦ handle_play now f
  | loading_pause p ↦ handle_play now f
  | playing start b ↦ handle_pause now f
  | loading_play p ↦ handle_pause now f
  | stopped ↦ f
]

-- The status after a seek.
unfoldable pub seek_status : ℕ → ℕ → SpircPlayStatus → SpircPlayStatus
seek_status now q stopped = stopped
seek_status now q (loading_pause p) = loading_pause q
seek_status now q (loading_play p) = loading_play q
seek_status now q (paused p b) = paused q b
seek_status now q (playing start b) = playing (sub_u64 now q) b

unfoldable pub handle_seek : ℕ → ℕ → SpircTask → SpircTask
unfolding seek_status set_play_status update_position tell
handle_seek now q f =
    if ltb f.duration q
    then f
    else set_play_status (seek_status now q f.play_status) (tell (seek q) (update_position q now f))

set_volume-play_status : (v : ℕ) (f : SpircTask) → (set_volume v f).play_status ≡ f.play_status
unfolding set_volume tell
set_volume-play_status v f = elim (Bool-cases (not (f.volume == v) || not (f.mixer_volume == v))) [
  | inr same ↦ rw (set_volume, same) refl
  | inl differs ↦ elim (Bool-cases f.is_active) [
    | inl on ↦ rw (set_volume, differs, on) refl
    | inr off ↦ rw (set_volume, differs, off) refl
  ]
]

-- The position of a status that holds one is a `u32`.
abbrev pub IsU32 : SpircPlayStatus → Type 0
IsU32 stopped = Unit
IsU32 (loading_play p) = p < 2 ^ 32
IsU32 (loading_pause p) = p < 2 ^ 32
IsU32 (playing start b) = Unit
IsU32 (paused p b) = p < 2 ^ 32

play_status_of : ℕ → SpircPlayStatus → SpircPlayStatus
play_status_of now stopped = stopped
play_status_of now (loading_play p) = loading_play p
play_status_of now (loading_pause p) = loading_play p
play_status_of now (playing start b) = playing start b
play_status_of now (paused p b) = playing (sub_u64 now p) b

pause_status_of : ℕ → SpircPlayStatus → SpircPlayStatus
pause_status_of now stopped = stopped
pause_status_of now (loading_play p) = loading_pause p
pause_status_of now (loading_pause p) = loading_pause p
pause_status_of now (playing start b) = paused (sub_u64 now start % 2 ^ 32) b
pause_status_of now (paused p b) = paused p b

handle_play-play_status :
    (now : ℕ) (f : SpircTask) → (handle_play now f).play_status ≡ play_status_of now f.play_status
unfolding handle_play sync_volume set_play_status update_position tell play_status_of
handle_play-play_status now f = go f.play_status refl
  where
    go :
        (p : SpircPlayStatus)
        → f.play_status ≡ p
        → (handle_play now f).play_status ≡ play_status_of now p
    go stopped e = rw (handle_play, e) e
    go (loading_play p) e = rw (handle_play, e) e
    go (loading_pause p) e = rw (handle_play, e) (set_volume-play_status _ _)
    go (playing start b) e = rw (handle_play, e) e
    go (paused p b) e = rw (handle_play, e) (set_volume-play_status _ _)

handle_pause-play_status :
    (now : ℕ) (f : SpircTask) → (handle_pause now f).play_status ≡ pause_status_of now f.play_status
unfolding handle_pause set_play_status pause_status_of
handle_pause-play_status now f = go f.play_status refl
  where
    go :
        (p : SpircPlayStatus)
        → f.play_status ≡ p
        → (handle_pause now f).play_status ≡ pause_status_of now p
    go stopped e = rw (handle_pause, e) e
    go (loading_play p) e = rw (handle_pause, e) refl
    go (loading_pause p) e = rw (handle_pause, e) e
    go (playing start b) e = rw (handle_pause, e) refl
    go (paused p b) e = rw (handle_pause, e) e

play-pause_position :
    (now later : ℕ) (p : SpircPlayStatus)
    → IsU32 p
    → later < 2 ^ 64
    → position_of (play_status_of later (pause_status_of now p)) later ≡ position_of p now
unfolding position_of play_status_of pause_status_of sub_u64
play-pause_position now later stopped h l = refl
play-pause_position now later (loading_play p) h l = refl
play-pause_position now later (loading_pause p) h l = refl
play-pause_position now later (playing start b) h l = omega arith
play-pause_position now later (paused p b) h l = omega arith

-- After a pause at one time and a play at a later or any other one, the position is that of the pause.
pub handle_play-handle_pause :
    (now later : ℕ) (f : SpircTask)
    → IsU32 f.play_status
    → later < 2 ^ 64
    → get_position later (handle_play later (handle_pause now f)) ≡ get_position now f
unfolding get_position
handle_play-handle_pause now later f h l =
    rw (handle_play-play_status later (handle_pause now f), handle_pause-play_status now f)
      (play-pause_position now later f.play_status h l)

-- A seek within the track leads to the position, except for a stopped player, and neither pauses nor
-- resumes; a seek behind the end of the track changes nothing.
pub handle_seek_lem :
    (now q : ℕ) (f : SpircTask)
    → now < 2 ^ 64
    → q < 2 ^ 32
    → ((q ≤ f.duration)
        × (shows_paused (handle_seek now q f).play_status ≡ shows_paused f.play_status)
        × ((f.play_status ≡ stopped) ⊎ (get_position now (handle_seek now q f) ≡ q)))
      ⊎ ((f.duration < q) × (handle_seek now q f ≡ f))
unfolding handle_seek get_position set_play_status shows_paused seek_status position_of sub_u64
handle_seek_lem now q f n small = elim (Bool-cases (ltb f.duration q)) [
  | inl behind ↦ inr (ground arith, simp (handle_seek, behind))
  | inr within ↦
      inl (ground arith, rw within (shown f.play_status), rw within (sought f.play_status))
]
  where
    shown : (p : SpircPlayStatus) → shows_paused (seek_status now q p) ≡ shows_paused p
    shown stopped = refl
    shown (loading_play p) = refl
    shown (loading_pause p) = refl
    shown (playing start b) = refl
    shown (paused p b) = refl

    sought : (p : SpircPlayStatus) → (p ≡ stopped) ⊎ (position_of (seek_status now q p) now ≡ q)
    sought stopped = inl refl
    sought (loading_play p) = inr refl
    sought (loading_pause p) = inr refl
    sought (playing start b) = inr (omega arith)
    sought (paused p b) = inr refl
