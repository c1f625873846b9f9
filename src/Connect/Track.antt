-- ===== src/Connect/Track.antt =====
-- A track as the connect state keeps it: state/metadata.rs, state/provider.rs, and what of the
-- message `ProvidedTrack` the code reads. A map is an association list.
use neotune.Common.{
  ℕ, Bool, false, Option, none, some, List, [], ◌∷◌, codes, bytes_eq, show_u64, parse_u64,
  if◌then◌else◌,
}

abbrev pub Metadata : Type 0
Metadata = List (List ℕ × List ℕ)

-- `HashMap::{get, insert, remove}`
unfoldable pub lookup : List ℕ → Metadata → Option (List ℕ)
lookup k [] = none
lookup k ((j, v) ∷ rest) = if bytes_eq j k then some v else lookup k rest

unfoldable pub insert : List ℕ → List ℕ → Metadata → Metadata
insert k v [] = (k, v) ∷ []
insert k v ((j, w) ∷ rest) = if bytes_eq j k then (j, v) ∷ rest else (j, w) ∷ insert k v rest

unfoldable pub remove : List ℕ → Metadata → Metadata
remove k [] = []
remove k ((j, w) ∷ rest) = if bytes_eq j k then rest else (j, w) ∷ remove k rest

-- `for (key, value) in new { map.insert(key, value) }`
unfoldable pub insert_all : Metadata → Metadata → Metadata
insert_all [] m = m
insert_all ((k, v) ∷ new) m = insert_all new (insert k v m)

abbrev pub context_uri_key : List ℕ
context_uri_key = codes "context_uri"

abbrev pub entity_uri_key : List ℕ
entity_uri_key = codes "entity_uri"

abbrev pub is_queued_key : List ℕ
is_queued_key = codes "is_queued"

abbrev pub is_autoplay_key : List ℕ
is_autoplay_key = codes "autoplay.is_autoplay"

abbrev pub hidden_key : List ℕ
hidden_key = codes "hidden"

abbrev pub iteration_key : List ℕ
iteration_key = codes "iteration"

abbrev pub context_index_key : List ℕ
context_index_key = codes "context_index"

abbrev pub shuffle_seed_key : List ℕ
shuffle_seed_key = codes "shuffle_seed"

abbrev pub initial_track_key : List ℕ
initial_track_key = codes "initial_track"

-- `Metadata::get_bool` and `get_usize`
unfoldable pub get_bool : List ℕ → Metadata → Bool
get_bool entry m = elim (lookup entry m) [ none ↦ false | some v ↦ bytes_eq v (codes "true") ]

unfoldable pub get_usize : List ℕ → Metadata → Option ℕ
get_usize entry m = elim (lookup entry m) [ none ↦ none | some v ↦ parse_u64 v ]

pub data Provider : Type 0 where
  context queue autoplay unavailable : Provider

abbrev pub provider_text : Provider → List ℕ
provider_text context = codes "context"
provider_text queue = codes "queue"
provider_text autoplay = codes "autoplay"
provider_text unavailable = codes "unavailable"

pub record Track : Type 0 where
  pub uri : List ℕ
  pub uid : List ℕ
  pub metadata : Metadata
  pub provider : List ℕ

-- `ProvidedTrack::default()`, which an unset `track` reads as
abbrev pub default_track : Track
default_track = record { uri = []; uid = []; metadata = []; provider = [] }

-- `IsProvider`
unfoldable pub is_autoplay : Track → Bool
is_autoplay t = bytes_eq t.provider (provider_text autoplay)

unfoldable pub is_context : Track → Bool
is_context t = bytes_eq t.provider (provider_text context)

unfoldable pub is_queue : Track → Bool
is_queue t = bytes_eq t.provider (provider_text queue)

unfoldable pub is_unavailable : Track → Bool
is_unavailable t = bytes_eq t.provider (provider_text unavailable)

unfoldable pub set_provider : Provider → Track → Track
set_provider p t = record t { provider = provider_text p }

unfoldable pub is_from_queue : Track → Bool
is_from_queue t = get_bool is_queued_key t.metadata

unfoldable pub is_from_autoplay : Track → Bool
is_from_autoplay t = get_bool is_autoplay_key t.metadata

unfoldable pub get_context_index : Track → Option ℕ
get_context_index t = get_usize context_index_key t.metadata

abbrev pub set_entry : List ℕ → List ℕ → Track → Track
set_entry k v t = record t { metadata = insert k v t.metadata }

unfoldable pub set_from_queue : Track → Track
set_from_queue = set_entry is_queued_key (codes "true")

unfoldable pub set_hidden : Track → Track
set_hidden = set_entry hidden_key (codes "true")

unfoldable pub set_from_autoplay : Track → Track
set_from_autoplay = set_entry is_autoplay_key (codes "true")

unfoldable pub set_iteration : ℕ → Track → Track
set_iteration i = set_entry iteration_key (show_u64 i)

unfoldable pub set_context_index : ℕ → Track → Track
set_context_index i = set_entry context_index_key (show_u64 i)

unfoldable pub set_context_uri : List ℕ → Track → Track
set_context_uri = set_entry context_uri_key

unfoldable pub set_entity_uri : List ℕ → Track → Track
set_entity_uri = set_entry entity_uri_key
