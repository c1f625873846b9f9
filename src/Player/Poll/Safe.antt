-- ===== src/Player/Poll/Safe.antt =====
-- librespot_src/playback/src/player.rs: what the rounds of `poll` lead to.
use neotune.Common.{ℕ, ◌≡◌, refl, Bool, false, Option, none, some, ◌⊎◌, inl, inr, Bool-cases}
use neotune.SpotifyUri.{SpotifyUri}
use neotune.Player.{
  Loader, PlayerPreload, no_preload, preloading, ready, PlayerState, stopped, loading, paused,
  playing, end_of_track, invalid, PlayerInternal, Polled, pending, failed, loaded, World, Run, ok,
  err, exits, waits, ◌>>=◌, send_event, set_state, set_preload,
}
use neotune.Player.Sink.{start_playback}
use neotune.Player.Sink.Safe.{
  IsSound, IsFaulty, Settles, Keeps, IsStarted, is_loading, start_playback-Settles,
}
use neotune.Player.Load.Safe.{Ends}
use neotune.Player.Command.{PlayerCommand, handle_command}
use neotune.Player.Command.Safe.{handle_command-Ends}
use neotune.Player.Poll.{
  logged, run_command, check_started, take_loaded, load_turn, report_unavailable, preload_turn,
}

-- Like `Ends`, without errors.
abbrev pub Stays : Type 0 → Run → Type 0
Stays F (ok p) = IsSound p ⊎ F
Stays F (err p) = F
Stays F exits = F
Stays F waits = Unit {0}

pub faulty-Stays : (F : Type 0) (r : Run) → F → Stays F r
faulty-Stays F (ok p) fault = inr fault
faulty-Stays F (err p) fault = fault
faulty-Stays F exits fault = fault
faulty-Stays F waits fault = tt

pub widen-Stays : (F G : Type 0) (r : Run) → (F → G) → Stays F r → Stays G r
widen-Stays F G (ok p) widen h = elim h [ inl sound ↦ inl sound | inr fault ↦ inr (widen fault) ]
widen-Stays F G (err p) widen h = widen h
widen-Stays F G exits widen h = widen h
widen-Stays F G waits widen h = h

pub bind-Stays :
    (F : Type 0) (r : Run) (f : PlayerInternal → Run)
    → ((p : PlayerInternal) → IsSound p → Stays F (f p))
    → Stays F r
    → Stays F (r >>= f)
bind-Stays F (ok p) f keeps h = elim h [
  | inl sound ↦ keeps p sound
  | inr fault ↦ faulty-Stays F (f p) fault
]
bind-Stays F (err p) f keeps h = h
bind-Stays F exits f keeps h = h
bind-Stays F waits f keeps h = h

pub settled-Stays :
    (F : Type 0) (P : PlayerInternal → Type 0) (r : Run) (f : PlayerInternal → Run)
    → ((p : PlayerInternal) → P p → Stays F (f p))
    → Settles F P r
    → Stays F (r >>= f)
settled-Stays F P (ok p) f keeps h = keeps p h
settled-Stays F P (err p) f keeps h = elim h [ ]
settled-Stays F P exits f keeps h = h
settled-Stays F P waits f keeps h = tt

logged-Stays : (F : Type 0) (r : Run) → Ends F r → Stays F (logged r)
unfolding logged
logged-Stays F (ok p) h = h
logged-Stays F (err p) h = h
logged-Stays F exits h = h
logged-Stays F waits h = h

pub run_command-Stays :
    (w : World) (cmd : Option PlayerCommand) (p : PlayerInternal)
    → IsSound p
    → Stays (IsFaulty w) (run_command w cmd p)
unfolding run_command
run_command-Stays w none p sound = inl sound
run_command-Stays w (some cmd) p sound =
    logged-Stays (IsFaulty w) (handle_command w cmd p) (handle_command-Ends w cmd p sound)

check_started-Stays :
    (F : Type 0) (s : PlayerState) (p : PlayerInternal)
    → IsSound p
    → is_loading s ≡ false
    → Stays F (check_started s p)
unfolding check_started
check_started-Stays F (loading uri id start loader) p sound h = cc
check_started-Stays F stopped p sound h = inl sound
check_started-Stays F (paused c) p sound h = inl sound
check_started-Stays F (playing c t) p sound h = inl sound
check_started-Stays F (end_of_track uri id t) p sound h = inl sound
check_started-Stays F invalid p sound h = inl sound

take_loaded-Stays :
    (w : World) (o : Polled) (uri : SpotifyUri) (id : ℕ) (start : Bool) (loader : Loader)
    (p : PlayerInternal)
    → IsSound p
    → Stays (IsFaulty w) (take_loaded w o uri id start loader p)
unfolding take_loaded set_state send_event
take_loaded-Stays w pending uri id start loader p sound = inl sound
take_loaded-Stays w failed uri id start loader p sound = inl refl
take_loaded-Stays w (loaded t) uri id start loader p sound =
    settled-Stays (IsFaulty w) IsStarted (start_playback w uri id t start p)
      (λ q. check_started q.state q) (λ q (s, l). check_started-Stays (IsFaulty w) q.state q s l)
      (start_playback-Settles w uri id t start p)

pub load_turn-Stays :
    (w : World) (p : PlayerInternal) → IsSound p → Stays (IsFaulty w) (load_turn w p.state p)
unfolding load_turn
load_turn-Stays w p sound = go p.state
  where
    go : (s : PlayerState) → Stays (IsFaulty w) (load_turn w s p)
    go stopped = inl sound
    go (paused c) = inl sound
    go (playing c t) = inl sound
    go (end_of_track uri id t) = inl sound
    go invalid = inl sound
    go (loading uri id start loader) = elim (Bool-cases loader.is_terminated) [
      | inl over ↦ simp (load_turn, over) (inl sound)
      | inr runs ↦ simp (load_turn, runs) (take_loaded-Stays w w.loader uri id start loader p sound)
    ]

report_unavailable-IsSound :
    (uri : SpotifyUri) (s : PlayerState) (p : PlayerInternal)
    → IsSound p
    → IsSound (report_unavailable uri s p)
unfolding report_unavailable send_event
report_unavailable-IsSound uri stopped p sound = sound
report_unavailable-IsSound uri (paused c) p sound = sound
report_unavailable-IsSound uri (playing c t) p sound = sound
report_unavailable-IsSound uri (loading uri' id start loader) p sound = sound
report_unavailable-IsSound uri (end_of_track uri' id t) p sound = sound
report_unavailable-IsSound uri invalid p sound = sound

pub preload_turn-IsSound :
    (o : Polled) (s : PlayerPreload) (p : PlayerInternal) → IsSound p → IsSound (preload_turn o s p)
unfolding preload_turn send_event set_preload
preload_turn-IsSound o no_preload p sound = sound
preload_turn-IsSound o (ready uri t) p sound = sound
preload_turn-IsSound pending (preloading uri loader) p sound = sound
preload_turn-IsSound failed (preloading uri loader) p sound =
    report_unavailable-IsSound uri p.state _ sound
preload_turn-IsSound (loaded t) (preloading uri loader) p sound = sound

pub Keeps-Stays :
    (w : World) (p : PlayerInternal) (r : Run) → IsSound p → Keeps w p r → Stays (IsFaulty w) r
Keeps-Stays w p (ok q) sound h = inl (h sound)
Keeps-Stays w p (err q) sound h = elim h [ ]
Keeps-Stays w p exits sound h = h
Keeps-Stays w p waits sound h = tt
