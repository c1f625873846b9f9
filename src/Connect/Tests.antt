-- ===== src/Connect/Tests.antt =====
-- A context of three tracks that is played from its first one, with a track queued, and the theorems
-- at it.
use neotune.Common.{
  ℕ, ◌≡◌, refl, ◌+◌, ◌%◌, ◌<◌, true, false, none, some, List, [], ◌∷◌, ◌++◌, codes, take, add_u64,
  drop, ◌-◌, arith, map,
}
use neotune.ShuffleVec.{Rng, from_vec}
use neotune.Connect.Track.{
  is_unavailable, lookup, Track, Provider, context, queue, autoplay, provider_text, is_autoplay,
}
use neotune.Connect.State.{
  max_prev_tracks, max_next_tracks, default, new_restrictions, new_options, PlayerState,
  StateContext, ConnectState, currently_disallowed,
}
use neotune.Connect.Player.{
  put_context, update_queue_revision, repeat_context, get_context?, current_track,
  update_restrictions, set_shuffle,
}
use neotune.Connect.Exec.{err}
use neotune.Connect.Exec.{get_context}
use neotune.Connect.Context.{update_context_index, is_skip_track}
use neotune.Connect.Fill.{fill_up_next_tracks, fill_up_loop, fill_up_round, fill_up_fuel, at_end}
use neotune.Connect.Fill.Plain.{available, fill_up_next_tracks-plain}
use neotune.Connect.Queue.Before.{tracks_before_lem}
use neotune.Connect.Fill.Result.{FillResult, fill_up_next_tracks_lem}
use neotune.Connect.Tracks.{next_track}
use neotune.Connect.Tracks.Bounds.{IsBounded}
use neotune.Connect.Queue.{queued, queued_front, add_to_queue, tracks_before}
use neotune.Connect.Reach.{Step, Reaches, Reaches-IsBounded}
use neotune.Connect.Queue.Order.{behind_queue, add_to_queue-add_to_queue}
use neotune.Connect.Handle.{handle_shuffle}
use neotune.Connect.Handle.Status.{handle_shuffle-disallowed}

abbrev pub track_of : Provider → List ℕ → Track
track_of p name = record {
  uri = codes "spotify:track:" ++ name;
  uid = name;
  metadata = (codes "context_index", codes "0") ∷ [];
  provider = provider_text p;
}

abbrev pub three_tracks : StateContext
three_tracks = record {
  tracks = from_vec (
      track_of context (codes "a")
      ∷ track_of context (codes "b")
      ∷ track_of context (codes "c")
      ∷ []);
  metadata = [];
  restrictions = none;
  index = record { page = 0; track = 1 };
}

abbrev playing_first : PlayerState
playing_first = record {
  context_uri = codes "spotify:album:x";
  context_url = [];
  context_metadata = [];
  context_restrictions = none;
  restrictions = some new_restrictions;
  options = some new_options;
  index = none;
  track = some (track_of context (codes "a"));
  prev_tracks = [];
  next_tracks = track_of queue (codes "q") ∷ [];
  is_playing = true;
  is_paused = false;
  is_buffering = false;
  queue_revision = [];
}

abbrev pub playing_album : ConnectState
playing_album = record {
  player = playing_first;
  unavailable_uri = [];
  queue_count = 1;
  active_context = default;
  fill_up_context = default;
  context = some three_tracks;
  autoplay_context = none;
}

abbrev playing_autoplay : ConnectState
playing_autoplay = record playing_album {
  player = record playing_first { track = some (track_of autoplay (codes "r")) };
}

pub counting_lt : (s n : ℕ) → 0 < n → s % n < n
counting_lt s n h = grind arith

abbrev pub counting : Rng
counting = record {
  State = ℕ;
  seed_from_u64 = λ seed. seed;
  random_range = λ s n. (s % n, s + 7);
  random_range_lt = counting_lt;
}

fill_up_next_tracks_lem_example : FillResult playing_album (fill_up_next_tracks playing_album)
unfolding get_context?
fill_up_next_tracks_lem_example = fill_up_next_tracks_lem playing_album three_tracks refl

add_to_queue-add_to_queue_example :
    (add_to_queue
      (track_of context (codes "c"))
      false
      (add_to_queue (track_of context (codes "b")) false playing_album)).player.next_tracks
    ≡ queued_front playing_album.player.next_tracks
      ++ (queued 1 (track_of context (codes "b"))
          ∷ queued 2 (track_of context (codes "c"))
          ∷ behind_queue playing_album.player.next_tracks)
unfolding add_u64
add_to_queue-add_to_queue_example =
    add_to_queue-add_to_queue (track_of context (codes "b")) (track_of context (codes "c")) false
      playing_album (omega arith)

handle_shuffle-disallowed_example :
    handle_shuffle counting 5 true (update_restrictions playing_autoplay) ≡ (
      err (currently_disallowed (codes "shuffle") (codes "autoplay")),
      set_shuffle true (update_restrictions playing_autoplay),
    )
unfolding current_track is_autoplay
handle_shuffle-disallowed_example = handle_shuffle-disallowed counting 5 playing_autoplay refl

fill_up_next_tracks-plain_example :
    (fill_up_next_tracks playing_album).1.player.next_tracks
    ≡ playing_album.player.next_tracks
      ++ take (max_next_tracks - 1) (available (drop 1 three_tracks.tracks.vec))
unfolding repeat_context lookup
fill_up_next_tracks-plain_example =
    fill_up_next_tracks-plain playing_album three_tracks (refl, refl, refl, refl, refl, refl)

tracks_before_lem_example :
    tracks_before 2 three_tracks.tracks.vec
    ≡ drop (2 - max_prev_tracks) (take 2 three_tracks.tracks.vec)
tracks_before_lem_example = tracks_before_lem 2 three_tracks.tracks.vec (omega arith) (omega arith)

-- Filling up by evaluation: the tracks of the context behind the first one, and the index behind them.
fill_up_next_tracks_runs :
    map (λ t. t.uid) (fill_up_next_tracks playing_album).1.player.next_tracks
    ≡ codes "q" ∷ codes "b" ∷ codes "c" ∷ []
unfolding fill_up_next_tracks fill_up_loop fill_up_round fill_up_fuel at_end get_context
    get_context? update_context_index put_context update_queue_revision repeat_context
    is_unavailable is_skip_track lookup
fill_up_next_tracks_runs = refl

-- Two tracks on, and one queued.
three_steps :
    Reaches counting playing_album
      (add_to_queue (track_of context (codes "b")) true (next_track (next_track playing_album).1).1)
three_steps = Reaches.there _ _ _ (Step.next playing_album) (
    Reaches.there _ _ _ (Step.next (next_track playing_album).1) (
      Reaches.there _ _ _
        (Step.add (track_of context (codes "b")) true (next_track (next_track playing_album).1).1)
        (Reaches.here _)))

Reaches-IsBounded_example :
    IsBounded
      (add_to_queue (track_of context (codes "b")) true (next_track (next_track playing_album).1).1)
Reaches-IsBounded_example =
    Reaches-IsBounded counting playing_album
      (add_to_queue (track_of context (codes "b")) true (next_track (next_track playing_album).1).1)
      three_steps (omega arith, omega arith)
