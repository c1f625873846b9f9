-- ===== src/Connect/Reach.antt =====
-- The states that the connect state goes through: each step is one of the methods of
-- librespot_src/connect/src/state/ that librespot_src/connect/src/spirc.rs calls itself or through the context
-- resolver, and may have failed.
use neotune.Common.{ℕ, Bool, Option, List}
use neotune.ShuffleVec.{Rng}
use neotune.Connect.Track.{Track}
use neotune.Connect.State.{ConnectState, ContextType}
use neotune.Connect.Context.{ContextPage}
use neotune.Connect.Player.{update_restrictions}
use neotune.Connect.Tracks.{next_track, prev_track}
use neotune.Connect.Tracks.Bounds.{IsBounded, next_track-IsBounded}
use neotune.Connect.Tracks.PrevBounds.{prev_track-IsBounded}
use neotune.Connect.Queue.{add_to_queue, mark_unavailable, reset_playback_to_position}
use neotune.Connect.Queue.Order.{add_to_queue-IsBounded}
use neotune.Connect.Queue.Bounds.{mark_unavailable-IsBounded, reset_playback_to_position-IsBounded}
use neotune.Connect.Convert.{fill_context_from_page}
use neotune.Connect.Update.{Context, update_context}
use neotune.Connect.Update.Pages.{update_context-IsBounded, fill_context_from_page-IsBounded}
use neotune.Connect.Transfer.{TransferState, handle_initial_transfer, finish_transfer}
use neotune.Connect.Transfer.Bounds.{handle_initial_transfer-IsBounded, finish_transfer-IsBounded}
use neotune.Resolver.{ContextResolver}
use neotune.Resolver.Apply.{apply_next_context, apply_next_context-IsBounded}
use neotune.Resolver.Finish.{Setup, try_finish, try_finish-IsBounded}
use neotune.Connect.Handle.{ShuffleState, handle_shuffle}
use neotune.Connect.Handle.Bounds.{handle_shuffle-IsBounded}
use neotune.Connect.Handle.Status.{SpircPlayStatus, set_status}

-- One step of the state; the generator and its seed are whatever the crate `rand` gives.
pub data Step (g : Rng) : ConnectState → ConnectState → Type 1 where
  next : (s : ConnectState) → Step g s (next_track s).1
  prev : (s : ConnectState) → Step g s (prev_track s).1
  add : (t : Track) (rev_update : Bool) (s : ConnectState) → Step g s (add_to_queue t rev_update s)
  mark : (uri : List ℕ) (s : ConnectState) → Step g s (mark_unavailable uri s).1
  reset : (i : Option ℕ) (s : ConnectState) → Step g s (reset_playback_to_position i s).1
  shuffle : (seed : ℕ) (on : Bool) (s : ConnectState) → Step g s (handle_shuffle g seed on s).1
  status : (p : SpircPlayStatus) (s : ConnectState) → Step g s (set_status p s)
  update :
      (uuids : ℕ → ℕ → List ℕ) (context : Context) (ty : ContextType) (s : ConnectState)
      → Step g s (update_context uuids context ty s).1
  transfer :
      (t : TransferState) (uri : Option (List ℕ)) (s : ConnectState)
      → Step g s (handle_initial_transfer t uri s).1
  finish :
      (uuid : List ℕ) (uuids : ℕ → List ℕ) (seed : ℕ) (t : TransferState) (o : Option ShuffleState)
      (s : ConnectState)
      → Step g s (finish_transfer uuid uuids g seed t o s).1
  apply :
      (uuids : ℕ → ℕ → List ℕ) (context : Context) (c : ContextResolver) (s : ConnectState)
      → Step g s (apply_next_context uuids context c s).1
  try :
      (x : Setup g) (c : ContextResolver) (t : Option TransferState) (s : ConnectState)
      → Step g s (try_finish g x c t s).1
  fill :
      (uuids : ℕ → List ℕ) (page : ContextPage) (s : ConnectState)
      → Step g s (fill_context_from_page uuids page s).1

pub data Reaches (g : Rng) : ConnectState → ConnectState → Type 1 where
  here : (s : ConnectState) → Reaches g s s
  there : (s s' s'' : ConnectState) → Step g s s' → Reaches g s' s'' → Reaches g s s''

pub set_status-IsBounded :
    (p : SpircPlayStatus) (s : ConnectState) → IsBounded s → IsBounded (set_status p s)
unfolding set_status update_restrictions
set_status-IsBounded p s b = b

Step-IsBounded : (g : Rng) (s s' : ConnectState) → Step g s s' → IsBounded s → IsBounded s'
Step-IsBounded g _ _ (next s) b = next_track-IsBounded s b
Step-IsBounded g _ _ (prev s) b = prev_track-IsBounded s b
Step-IsBounded g _ _ (add t rev_update s) b = add_to_queue-IsBounded t rev_update s b
Step-IsBounded g _ _ (mark uri s) b = mark_unavailable-IsBounded uri s b
Step-IsBounded g _ _ (reset i s) b = reset_playback_to_position-IsBounded i s b
Step-IsBounded g _ _ (shuffle seed on s) b = handle_shuffle-IsBounded g seed on s b
Step-IsBounded g _ _ (status p s) b = set_status-IsBounded p s b
Step-IsBounded g _ _ (update uuids context ty s) b = update_context-IsBounded uuids context ty s b
Step-IsBounded g _ _ (transfer t uri s) b = handle_initial_transfer-IsBounded t uri s b
Step-IsBounded g _ _ (finish uuid uuids seed t o s) b =
    finish_transfer-IsBounded uuid uuids g seed t o s b
Step-IsBounded g _ _ (apply uuids context c s) b = apply_next_context-IsBounded uuids context c s b
Step-IsBounded g _ _ (try x c t s) b = try_finish-IsBounded g x c t s b
Step-IsBounded g _ _ (fill uuids page s) b = fill_context_from_page-IsBounded uuids page s b

-- From a state within the bounds, no sequence of these steps, failed ones included, leads to more than
-- 80 next or 10 previous tracks.
pub Reaches-IsBounded :
    (g : Rng) (s s' : ConnectState) → Reaches g s s' → IsBounded s → IsBounded s'
Reaches-IsBounded g _ _ (here s) b = b
Reaches-IsBounded g _ _ (there s s' s'' step rest) b =
    Reaches-IsBounded g s' s'' rest (Step-IsBounded g s s' step b)
