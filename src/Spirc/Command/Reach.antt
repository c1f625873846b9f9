-- ===== src/Spirc/Command/Reach.antt =====
-- librespot_src/connect/src/spirc.rs: the states that the commands, the events of the player, the requests and
-- the loads lead to.
use neotune.Common.{ℕ, Bool, Option, List}
use neotune.ShuffleVec.{Rng}
use neotune.Spirc.{SpircTask}
use neotune.Spirc.Skip.Bounds.{IsTaskBounded}
use neotune.Spirc.Skip.Events.{PlayerEvent, handle_player_event}
use neotune.Spirc.Skip.Events.Lists.{handle_player_event-IsTaskBounded}
use neotune.Connect.Context.{ContextPage, completely}
use neotune.Spirc.Load.{LoadRequestOptions, load_context_from_tracks, handle_load}
use neotune.Spirc.Load.Bounds.{handle_load-IsTaskBounded, load_context_from_tracks-IsTaskBounded}
use neotune.Spirc.Command.{SpircCommand, handle_command}
use neotune.Spirc.Command.Bounds.{handle_command-IsTaskBounded}
use neotune.Spirc.Request.{Request, handle_request}
use neotune.Spirc.Request.Bounds.{RequestFits, handle_request-IsTaskBounded}

-- A command, an event of the player, a request of another device or a load of tracks, at any time and with
-- any numbers drawn.
pub data Step (g : Rng) : SpircTask → SpircTask → Type 1 where
  command :
      (seed fuel now : ℕ) (c : SpircCommand) (f : SpircTask)
      → Step g f (handle_command g seed fuel now c f).1
  event :
      (fuel now : ℕ) (e : PlayerEvent) (f : SpircTask)
      → Step g f (handle_player_event fuel now e f).1
  request :
      (seed fuel now : ℕ) (r : Request) (f : SpircTask)
      → Step g f (handle_request g seed fuel now r f).1
  load :
      (seed now random : ℕ) (has_next : Bool) (uuids : ℕ → ℕ → List ℕ) (tracks : ContextPage)
      (o : LoadRequestOptions) (page : Option ContextPage) (fallback : Option ℕ) (f : SpircTask)
      → Step g f
          (handle_load g seed now random has_next completely
            (load_context_from_tracks uuids tracks)
            o
            page
            fallback
            f).1

pub data Reaches (g : Rng) : SpircTask → SpircTask → Type 1 where
  here : (f : SpircTask) → Reaches g f f
  there : (f f' f'' : SpircTask) → Step g f f' → Reaches g f' f'' → Reaches g f f''

-- The lists of the requests that set the queue are within the bounds.
abbrev pub StepFits : {g : Rng} {f f' : SpircTask} → Step g f f' → Type 0
StepFits (command seed fuel now c f) = Unit
StepFits (event fuel now e f) = Unit
StepFits (request seed fuel now r f) = RequestFits r
StepFits (load seed now random has_next uuids tracks o page fallback f) = Unit

abbrev pub AllFit : {g : Rng} {f f' : SpircTask} → Reaches g f f' → Type 0
AllFit (here f) = Unit
AllFit (there f f' f'' step rest) = StepFits step × AllFit rest

Step-IsTaskBounded :
    (g : Rng) (f f' : SpircTask) (step : Step g f f')
    → StepFits step
    → IsTaskBounded f
    → IsTaskBounded f'
Step-IsTaskBounded g _ _ (command seed fuel now c f) fits b =
    handle_command-IsTaskBounded g seed fuel now c f b
Step-IsTaskBounded g _ _ (event fuel now e f) fits b =
    handle_player_event-IsTaskBounded fuel now e f b
Step-IsTaskBounded g _ _ (request seed fuel now r f) fits b =
    handle_request-IsTaskBounded g seed fuel now r f fits b
Step-IsTaskBounded g _ _ (load seed now random has_next uuids tracks o page fallback f) fits b =
    handle_load-IsTaskBounded g seed now random has_next o page fallback completely
      (load_context_from_tracks uuids tracks) (load_context_from_tracks-IsTaskBounded uuids tracks)
      f b

-- Commands of the user (play, pause, previous, next, volume, shuffle, repeat, position, queueing), events of
-- the player, requests of another device (pause, resume, seek, skip, shuffle, repeat, options, queueing,
-- setting the queue) and loads of tracks, in whatever order, and however each ends: where the lists of the
-- requests that set the queue are within the bounds, there are never more than 80 next or 10 previous
-- tracks, from a state where that holds.
pub Reaches-IsTaskBounded :
    (g : Rng) (f f' : SpircTask) (run : Reaches g f f')
    → AllFit run
    → IsTaskBounded f
    → IsTaskBounded f'
Reaches-IsTaskBounded g _ _ (here f) fit b = b
Reaches-IsTaskBounded g _ _ (there f f' f'' step rest) (fits, fit) b =
    Reaches-IsTaskBounded g f' f'' rest fit (Step-IsTaskBounded g f f' step fits b)
