-- ===== src/Connect/Queue.antt =====
-- librespot_src/connect/src/state/tracks.rs: the queue and the lists of tracks as a whole; of
-- state.rs, `reset_playback_to_position`, which sets all of them from the context.
pub mod Order
pub mod Before
pub mod Bounds
use neotune.Common.{
  ℕ, zero, suc, ◌+◌, ◌%◌, ◌^◌, Bool, true, false, not, ◌&&◌, ◌||◌, Option, none, some, List, [],
  ◌∷◌, ◌++◌, map, codes, bytes_eq, show_u64, leb, ltb, ◌==◌, length, take, drop, get_elem?, add_u64,
  sub_usize, reverse, if◌then◌else◌,
}
use neotune.Connect.Track.{
  Track, Provider, queue, unavailable, is_queue, set_provider, is_from_queue, set_from_queue,
}
use neotune.Connect.State.{
  max_prev_tracks, max_next_tracks, ContextType, StateError, StateContext, ConnectState,
  PlayerState, with_player, or_default,
}
use neotune.Connect.Player.{
  current_track, set_next, set_prev, set_index_track, update_queue_revision, update_restrictions,
}
use neotune.Connect.Exec.{Run, ok, err, Exec, ◌>>=◌, ◌>>◌, pure, gets, modify, get_context}
use neotune.Connect.Context.{is_skip_track, update_context_index}
use neotune.Connect.Fill.{fill_up_next_tracks}
use neotune.Connect.Tracks.{set_current_track}

-- `format!("q{}", self.queue_count)`
unfoldable pub queue_uid : ℕ → List ℕ
unfolding show_u64
queue_uid n = codes "q" ++ show_u64 n

unfoldable pub queued : ℕ → Track → Track
unfolding queue_uid set_provider is_from_queue set_from_queue
queued n t =
    let t' = record (set_provider queue t) { uid = queue_uid n } in
    if is_from_queue t' then t' else set_from_queue t'

-- A track is put in front of the first one that is not queued, or at the end.
unfoldable pub insert_queued : Track → List Track → List Track
unfolding is_queue
insert_queued t [] = t ∷ []
insert_queued t (n ∷ ns) =
    let rest = insert_queued t ns in if is_queue n then n ∷ rest else t ∷ n ∷ ns

unfoldable pub add_to_queue : Track → Bool → ConnectState → ConnectState
unfolding queued insert_queued update_queue_revision update_restrictions
add_to_queue t rev_update s =
    let next = take max_next_tracks (insert_queued (queued s.queue_count t) s.player.next_tracks) in
    let s1 = record s {
      queue_count = add_u64 s.queue_count 1;
      player = record s.player { next_tracks = next };
    } in
    update_restrictions (if rev_update then update_queue_revision s1 else s1)

unfoldable pub clear_prev_track : ConnectState → ConnectState
unfolding set_prev
clear_prev_track s = set_prev [] s

-- The queued tracks at the front stay.
unfoldable pub queued_front : List Track → List Track
unfolding is_queue
queued_front [] = []
queued_front (t ∷ ts) = let rest = queued_front ts in if is_queue t then t ∷ rest else []

unfoldable pub clear_next_tracks : ConnectState → ConnectState
unfolding queued_front set_next
clear_next_tracks s = set_next (queued_front s.player.next_tracks) s

-- The first pass of `set_next_tracks`: what is marked as queued gets the provider and a new uid.
unfoldable pub requeue : ℕ → List Track → ℕ × List Track
unfolding is_from_queue set_provider queue_uid
requeue n [] = (n, [])
requeue n (t ∷ ts) = elim (is_from_queue t) [
  | true ↦
      (let (n', ts') = requeue (add_u64 n 1) ts in
        (n', record (set_provider queue t) { uid = queue_uid n } ∷ ts'))
  | false ↦ (let (n', ts') = requeue n ts in (n', t ∷ ts'))
]

-- The second pass: an empty uri stands for the current track.
unfoldable pub fill_in_uri : List ℕ → Track → Track
fill_in_uri uri t = elim t.uri [ [] ↦ record t { uri = uri } | _ ↦ t ]

unfoldable pub set_next_tracks : List Track → ConnectState → ConnectState
unfolding requeue fill_in_uri current_track
set_next_tracks ts s =
    let (n, ts') = requeue s.queue_count ts in
    record s {
      queue_count = n;
      player = record s.player { next_tracks = map (fill_in_uri (current_track s).uri) ts' };
    }

-- `set_prev_tracks`
unfoldable pub handle_set_queue : List Track → List Track → ConnectState → ConnectState
unfolding set_next_tracks set_prev update_queue_revision
handle_set_queue next prev s = update_queue_revision (set_prev prev (set_next_tracks next s))

unfoldable pub has_next_tracks : Option ℕ → ConnectState → Bool
has_next_tracks (some n) s = leb n (length s.player.next_tracks)
has_next_tracks none s = not (length s.player.next_tracks == 0)

unfoldable pub recent_track_uris : ConnectState → List (List ℕ)
unfolding current_track
recent_track_uris s = map (λ t. t.uri) s.player.prev_tracks ++ ((current_track s).uri ∷ [])

-- `while let Some(pos) = tracks.iter().position(...) { tracks.remove(pos) }`
unfoldable pub remove_uri : List ℕ → List Track → List Track
remove_uri uri [] = []
remove_uri uri (t ∷ ts) =
    let rest = remove_uri uri ts in if bytes_eq t.uri uri then rest else t ∷ rest

unfoldable pub mark_as_unavailable_for_match : List ℕ → Track → Track
unfolding set_provider
mark_as_unavailable_for_match uri t = if bytes_eq t.uri uri then set_provider unavailable t else t

-- `mark_unavailable`, from the uri of the id on.
unfoldable pub mark_unavailable : List ℕ → Exec (Unit {0})
unfolding remove_uri mark_as_unavailable_for_match fill_up_next_tracks update_queue_revision
mark_unavailable uri = do
  modify (λ s. record s {
    unavailable_uri = s.unavailable_uri ++ (uri ∷ []);
    player = record s.player {
      next_tracks = map (mark_as_unavailable_for_match uri) (remove_uri uri s.player.next_tracks);
      prev_tracks = map (mark_as_unavailable_for_match uri) (remove_uri uri s.player.prev_tracks);
    };
  })
  fill_up_next_tracks
  modify update_queue_revision

-- `.rev().skip(len - new_index).take(10).rev()`
unfoldable pub tracks_before : ℕ → List Track → List Track
tracks_before i ts = reverse (take max_prev_tracks (drop (sub_usize (length ts) i) (reverse ts)))

unfoldable pub prev_from_context : ℕ → Exec (Unit {0})
unfolding tracks_before get_context set_prev
prev_from_context zero = pure tt
prev_from_context (suc i) = do
  ty ← gets (λ s. s.active_context)
  ctx ← get_context ty
  modify (set_prev (tracks_before (suc i) ctx.tracks.vec))

-- The test on the current track: a queued one, or the one that a shuffle began with, stays.
unfoldable pub keeps_current : ConnectState → Bool
unfolding current_track is_queue is_skip_track
keeps_current s = is_queue (current_track s) || is_skip_track s (current_track s) none

unfoldable pub reset_playback_to_position : Option ℕ → Exec (Unit {0})
unfolding set_index_track update_context_index keeps_current set_current_track clear_prev_track
    prev_from_context clear_next_tracks fill_up_next_tracks update_restrictions
reset_playback_to_position new = do
  let i = or_default 0 new
  modify (set_index_track i)
  ty ← gets (λ s. s.active_context)
  update_context_index ty (i + 1)
  modify (λ s. record s { fill_up_context = s.active_context })
  kept ← gets keeps_current
  if kept then pure tt else set_current_track i
  modify clear_prev_track
  prev_from_context i
  modify clear_next_tracks
  fill_up_next_tracks
  modify update_restrictions
