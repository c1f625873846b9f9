-- ===== src/Spirc.antt =====
-- librespot_src/connect/src/spirc.rs: the task between the connect state and the player. A time `now` is
-- an argument; an `i64` is its word of 64 bits.
mod Tests
pub mod Play
pub mod Skip
pub mod Load
pub mod Command
pub mod Request
use neotune.Common.{
  ℕ, ◌+◌, ◌-◌, ◌^◌, ◌%◌, min, Bool, true, false, ◌||◌, not, Option, List, [], ◌∷◌, ◌++◌, ◌==◌,
  if◌then◌else◌,
}
use neotune.SpotifyUri.{SpotifyUri, SpotifyUriError}
use neotune.Connect.State.{ConnectState, StateError}
use neotune.Resolver.{ResolveContext}
use neotune.Connect.Handle.Status.{SpircPlayStatus, set_status}

-- What the task tells the player.
pub data PlayerCommand : Type 0 where
  load : SpotifyUri → Bool → ℕ → PlayerCommand
  preload : SpotifyUri → PlayerCommand
  play pause stop : PlayerCommand
  seek : ℕ → PlayerCommand
  volume_changed : ℕ → PlayerCommand
  shuffle_changed : Bool → PlayerCommand
  repeat_changed : Bool → Bool → PlayerCommand

-- `position`, `timestamp`, `duration` and `volume` are fields of the message in the source; `player` is
-- what has been sent to the player, `mixer_volume` the volume of the mixer, `autoplay` the setting of the
-- session, and `resolves` what the context resolver was asked for.
pub record SpircTask : Type 0 where
  pub connect_state : ConnectState
  pub is_active : Bool
  pub position : ℕ
  pub timestamp : ℕ
  pub duration : ℕ
  pub volume : ℕ
  pub volume_step_size : ℕ
  pub mixer_volume : ℕ
  pub play_request_id : Option ℕ
  pub play_status : SpircPlayStatus
  pub update_volume : Bool
  pub update_state : Bool
  pub autoplay : Bool
  pub player : List PlayerCommand
  pub resolves : List ResolveContext

-- How a handler ends: `state_error` and `uri_error` are what `?` returns.
pub data Ended : Type 0 where
  done : Ended
  state_error : StateError → Ended
  uri_error : SpotifyUriError → Ended
  out_of_fuel panicked : Ended

unfoldable pub tell : PlayerCommand → SpircTask → SpircTask
tell c f = record f { player = f.player ++ (c ∷ []) }

unfoldable pub set_play_status : SpircPlayStatus → SpircTask → SpircTask
set_play_status p f = record f { play_status = p }

unfoldable pub set_connect_state : ConnectState → SpircTask → SpircTask
set_connect_state s f = record f { connect_state = s }

unfoldable pub update_position : ℕ → ℕ → SpircTask → SpircTask
update_position position_ms now f = record f { position = position_ms; timestamp = now }

-- The write to the cache is left out.
unfoldable pub set_volume : ℕ → SpircTask → SpircTask
unfolding tell
set_volume volume f =
    let f' = record f { update_volume = true; volume = volume; mixer_volume = volume } in
    if not (f.volume == volume) || not (f.mixer_volume == volume)
    then (if f.is_active then tell (volume_changed volume) f' else f')
    else f

-- `saturating_add` and `saturating_sub` of a `u16`
unfoldable pub handle_volume_up : SpircTask → SpircTask
unfolding set_volume
handle_volume_up f = set_volume (min (f.volume % 2 ^ 16 + f.volume_step_size) (2 ^ 16 - 1)) f

unfoldable pub handle_volume_down : SpircTask → SpircTask
unfolding set_volume
handle_volume_down f = set_volume (f.volume % 2 ^ 16 - f.volume_step_size) f

-- What is sent to the server before it is sent.
unfoldable pub notify_status : SpircTask → SpircTask
unfolding set_connect_state
notify_status f = set_connect_state (set_status f.play_status f.connect_state) f
