-- ===== src/Spirc/Skip/Hangs.antt =====
-- librespot_src/connect/src/spirc.rs: the loop of `handle_next` for a track that is not there.
use neotune.Common.{
  ℕ, zero, suc, ◌≡◌, refl, ◌∙◌, false, Option, none, some, List, [], ◌∷◌, bytes_eq, Option-cases,
  Bool-cases, inl, inr,
}
use neotune.Connect.State.{ConnectState}
use neotune.Connect.Player.{
  current_track, is_playing, set_next, set_prev, repeat_track, set_repeat_track,
}
use neotune.Connect.Exec.{Run}
use neotune.Connect.Tracks.{next_track, leave_track, retire_track, advance, start_track}
use neotune.Spirc.{SpircTask, out_of_fuel, set_connect_state}
use neotune.Spirc.Skip.{
  skip_from, skip_to, handle_next, current_uri, on_state, play_next, try, Skipped, Handled,
}

retire_track_lem :
    (s : ConnectState)
    → ((retire_track s).player.track ≡ none)
      × ((retire_track s).player.next_tracks ≡ s.player.next_tracks)
unfolding retire_track
retire_track_lem s = elim (Option-cases s.player.track) [
  | inl e ↦ rw (retire_track, e) (e, refl)
  | inr (t, e) ↦ rw (retire_track, e) (refl, refl)
]

leave_track-ended :
    (s : ConnectState)
    → s.player.next_tracks ≡ []
    → ((leave_track s).player.track ≡ none) × ((leave_track s).player.next_tracks ≡ [])
unfolding leave_track repeat_track set_repeat_track
leave_track-ended s n = elim (Bool-cases (repeat_track s)) [
  | inl e ↦
      let (t, m) = retire_track_lem (set_repeat_track false s) in rw (leave_track, e) (t, m ∙ n)
  | inr e ↦ let (t, m) = retire_track_lem s in rw (leave_track, e) (t, m ∙ n)
]

next_track-ended :
    (s : ConnectState)
    → s.player.next_tracks ≡ []
    → ((next_track s).0 ≡ Run.ok none)
      × ((next_track s).1.player.track ≡ none)
      × ((next_track s).1.player.next_tracks ≡ [])
unfolding next_track advance start_track set_next set_prev
next_track-ended s n = (let (t, m) = leave_track-ended s n in rw (next_track, m) (refl, t, refl))

-- A round that ends without a track.
skip_from-gone :
    (b : ℕ) (bs : List ℕ) (more : SpircTask → Skipped) (o : Skipped)
    → o.0 ≡ Run.ok none
    → o.1.connect_state.player.track ≡ none
    → skip_from (some (b ∷ bs)) more o ≡ more o.1
unfolding skip_from current_track
skip_from-gone b bs more (Run.ok i, f) r t = rw t refl
skip_from-gone b bs more (Run.err e, f) r t = absurd (cc r)
skip_from-gone b bs more (Run.out_of_fuel, f) r t = absurd (cc r)
skip_from-gone b bs more (Run.panicked, f) r t = absurd (cc r)

-- Once there are no next tracks, a track that is asked for is never found.
skip_to-ended :
    (b : ℕ) (bs : List ℕ) (fuel : ℕ) (f : SpircTask)
    → f.connect_state.player.next_tracks ≡ []
    → (skip_to (some (b ∷ bs)) fuel f).0 ≡ Run.out_of_fuel
unfolding skip_to set_connect_state
skip_to-ended b bs zero f n = refl
skip_to-ended b bs (suc fuel) f n =
    let (r, t, m) = next_track-ended f.connect_state n in
    let later = skip_to-ended b bs fuel (on_state next_track f).1 m in
    rw (skip_from-gone b bs (skip_to (some (b ∷ bs)) fuel) (on_state next_track f) r t) later

try-out_of_fuel :
    (o : Skipped) (rest : Option ℕ → SpircTask → Handled)
    → o.0 ≡ Run.out_of_fuel
    → (try o rest).0 ≡ out_of_fuel
try-out_of_fuel (Run.ok i, f) rest e = absurd (cc e)
try-out_of_fuel (Run.err x, f) rest e = absurd (cc e)
try-out_of_fuel (Run.out_of_fuel, f) rest e = refl
try-out_of_fuel (Run.panicked, f) rest e = absurd (cc e)

-- With an empty list of next tracks, a request to skip to another track than the current one does not
-- end: no number of rounds of the loop is enough.
pub handle_next-out_of_fuel :
    (b : ℕ) (bs : List ℕ) (fuel now : ℕ) (f : SpircTask)
    → f.connect_state.player.next_tracks ≡ []
    → bytes_eq (current_uri f) (b ∷ bs) ≡ false
    → (handle_next fuel now (some (b ∷ bs)) f).0 ≡ out_of_fuel
unfolding handle_next
handle_next-out_of_fuel b bs fuel now f n other =
    rw (handle_next, other)
      (try-out_of_fuel (skip_to (some (b ∷ bs)) fuel f) (play_next now (is_playing f.connect_state))
        (skip_to-ended b bs fuel f n))
