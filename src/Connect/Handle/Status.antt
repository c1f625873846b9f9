-- ===== src/Connect/Handle/Status.antt =====
-- librespot_src/connect/src/state.rs: `set_status`; librespot_src/connect/src/model.rs: the play status.
use neotune.Common.{ℕ, ◌≡◌, refl, Bool, true, false, not, ◌||◌, some, List, [], ◌∷◌, codes}
use neotune.ShuffleVec.{Rng}
use neotune.Connect.Track.{is_autoplay}
use neotune.Connect.State.{
  Restrictions, ConnectState, with_player, currently_disallowed, new_restrictions, or_default,
}
use neotune.Connect.Player.{
  is_playing, is_pause, current_track, update_restrictions, status_restrictions, track_restrictions,
  set_shuffle,
}
use neotune.Connect.Exec.{err}
use neotune.Connect.Handle.{validate_shuffle_allowed, shuffle_new, handle_shuffle}

pub data SpircPlayStatus : Type 0 where
  stopped : SpircPlayStatus
  loading_play : ℕ → SpircPlayStatus
  loading_pause : ℕ → SpircPlayStatus
  playing : ℕ → Bool → SpircPlayStatus
  paused : ℕ → Bool → SpircPlayStatus

-- The three `matches!`.
unfoldable pub shows_paused : SpircPlayStatus → Bool
shows_paused stopped = true
shows_paused (loading_play p) = false
shows_paused (loading_pause p) = true
shows_paused (playing t b) = false
shows_paused (paused p b) = true

shows_loading : SpircPlayStatus → Bool
shows_loading stopped = false
shows_loading (loading_play p) = true
shows_loading (loading_pause p) = true
shows_loading (playing t b) = false
shows_loading (paused p b) = false

shows_playing : SpircPlayStatus → Bool
shows_playing stopped = false
shows_playing (loading_play p) = true
shows_playing (loading_pause p) = false
shows_playing (playing t b) = true
shows_playing (paused p b) = false

unfoldable pub set_status : SpircPlayStatus → ConnectState → ConnectState
unfolding shows_paused shows_loading shows_playing
set_status status s = update_restrictions (
    with_player s (record s.player {
      is_paused = shows_paused status;
      is_buffering = shows_paused status || shows_loading status;
      is_playing = shows_paused status || shows_playing status;
    }))

-- Other devices see a paused player exactly for the paused statuses, and a playing one otherwise.
pub set_status-shown :
    (status : SpircPlayStatus) (s : ConnectState)
    → (is_pause (set_status status s) ≡ shows_paused status)
      × (is_playing (set_status status s) ≡ not (shows_paused status))
unfolding set_status shows_paused shows_loading shows_playing is_pause is_playing
    update_restrictions
set_status-shown stopped s = (refl, refl)
set_status-shown (loading_play p) s = (refl, refl)
set_status-shown (loading_pause p) s = (refl, refl)
set_status-shown (playing t b) s = (refl, refl)
set_status-shown (paused p b) s = (refl, refl)

abbrev reasons_of : ConnectState → Restrictions
reasons_of s = or_default new_restrictions s.player.restrictions

abbrev pub resuming : ConnectState → List (List ℕ)
resuming s = (reasons_of s).disallow_resuming_reasons

abbrev pub pausing : ConnectState → List (List ℕ)
pausing s = (reasons_of s).disallow_pausing_reasons

abbrev pub resume_reasons : Bool → List (List ℕ)
resume_reasons true = []
resume_reasons false = codes "not_paused" ∷ []

abbrev pub pause_reasons : Bool → List (List ℕ)
pause_reasons true = codes "not_playing" ∷ []
pause_reasons false = []

-- Where there are restrictions, a status allows exactly one of pausing and resuming.
pub set_status-restrictions :
    (status : SpircPlayStatus) (s : ConnectState) (r : Restrictions)
    → s.player.restrictions ≡ some r
    → (resuming (set_status status s) ≡ resume_reasons (shows_paused status))
      × (pausing (set_status status s) ≡ pause_reasons (shows_paused status))
unfolding set_status shows_paused shows_loading shows_playing is_pause is_playing
    update_restrictions status_restrictions track_restrictions
set_status-restrictions stopped s r e = rw e (refl, refl)
set_status-restrictions (loading_play p) s r e = rw e (refl, refl)
set_status-restrictions (loading_pause p) s r e = rw e (refl, refl)
set_status-restrictions (playing t b) s r e = rw e (refl, refl)
set_status-restrictions (paused p b) s r e = rw e (refl, refl)

-- During autoplay the update of the restrictions refuses a shuffle, and names the reason. The state
-- differs by the shuffle option alone, which is set in spite of the refusal.
pub handle_shuffle-disallowed :
    (g : Rng) (seed : ℕ) (s : ConnectState)
    → is_autoplay (current_track s) ≡ true
    → handle_shuffle g seed true (update_restrictions s) ≡ (
      err (currently_disallowed (codes "shuffle") (codes "autoplay")),
      set_shuffle true (update_restrictions s),
    )
unfolding handle_shuffle shuffle_new validate_shuffle_allowed update_restrictions track_restrictions
    set_shuffle
handle_shuffle-disallowed g seed s a = rw a refl
