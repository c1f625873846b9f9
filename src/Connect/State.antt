-- ===== src/Connect/State.antt =====
-- librespot_src/connect/src/state.rs and state/context.rs: the records, without what they do. Of the
-- message `PutStateRequest` the model has the player state, and of that what the code reads and writes,
-- without time stamps and the playback speed. `queue_revision` is a hash of the uris of the next tracks
-- in the source; here it is those uris.
use neotune.Common.{ℕ, Bool, false, Option, none, some, List, []}
use neotune.ShuffleVec.{ShuffleVec}
use neotune.Connect.Track.{Track, Metadata}

abbrev pub max_prev_tracks : ℕ
max_prev_tracks = 10

abbrev pub max_next_tracks : ℕ
max_next_tracks = 80

pub data ContextType : Type 0 where
  default autoplay : ContextType

pub data StateError : Type 0 where
  could_not_resolve_track_from_transfer : StateError
  no_context : ContextType → StateError
  can_not_find_track_in_context : Option ℕ → ℕ → StateError
  currently_disallowed : List ℕ → List ℕ → StateError
  context_has_no_tracks : StateError
  unsupported_local_playback : StateError
  invalid_track_uri : Option (List ℕ) → StateError

pub record ContextIndex : Type 0 where
  pub page : ℕ
  pub track : ℕ

abbrev pub new_index : ContextIndex
new_index = record { page = 0; track = 0 }

-- The reasons that the code sets or reads; an action is disallowed while it has one.
pub record Restrictions : Type 0 where
  pub disallow_pausing_reasons : List (List ℕ)
  pub disallow_resuming_reasons : List (List ℕ)
  pub disallow_peeking_prev_reasons : List (List ℕ)
  pub disallow_skipping_prev_reasons : List (List ℕ)
  pub disallow_toggling_shuffle_reasons : List (List ℕ)
  pub disallow_toggling_repeat_context_reasons : List (List ℕ)
  pub disallow_toggling_repeat_track_reasons : List (List ℕ)

abbrev pub new_restrictions : Restrictions
new_restrictions = record {
  disallow_pausing_reasons = [];
  disallow_resuming_reasons = [];
  disallow_peeking_prev_reasons = [];
  disallow_skipping_prev_reasons = [];
  disallow_toggling_shuffle_reasons = [];
  disallow_toggling_repeat_context_reasons = [];
  disallow_toggling_repeat_track_reasons = [];
}

pub record ContextPlayerOptions : Type 0 where
  pub shuffling_context : Bool
  pub repeating_context : Bool
  pub repeating_track : Bool

abbrev pub new_options : ContextPlayerOptions
new_options = record {
  shuffling_context = false;
  repeating_context = false;
  repeating_track = false;
}

pub record PlayerState : Type 0 where
  pub context_uri : List ℕ
  pub context_url : List ℕ
  pub context_metadata : Metadata
  pub context_restrictions : Option Restrictions
  pub restrictions : Option Restrictions
  pub options : Option ContextPlayerOptions
  pub index : Option ContextIndex
  pub track : Option Track
  pub prev_tracks : List Track
  pub next_tracks : List Track
  pub is_playing : Bool
  pub is_paused : Bool
  pub is_buffering : Bool
  pub queue_revision : List (List ℕ)

pub record StateContext : Type 0 where
  pub tracks : ShuffleVec Track
  pub metadata : Metadata
  pub restrictions : Option Restrictions
  pub index : ContextIndex

pub record ConnectState : Type 0 where
  pub player : PlayerState
  pub unavailable_uri : List (List ℕ)
  pub queue_count : ℕ
  pub active_context : ContextType
  pub fill_up_context : ContextType
  pub context : Option StateContext
  pub autoplay_context : Option StateContext

abbrev pub with_player : ConnectState → PlayerState → ConnectState
with_player s p = record s { player = p }

-- `MessageField<T>` reads as the default value where it is unset.
abbrev pub or_default {ℓ} : {A : Type ℓ} → A → Option A → A
or_default d none = d
or_default d (some a) = a
