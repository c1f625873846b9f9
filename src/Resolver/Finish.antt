-- ===== src/Resolver/Finish.antt =====
-- librespot_src/connect/src/context_resolver.rs: `try_finish`, which sets up the state with the last context.
-- Errors of the state are only logged.
use neotune.Common.{
  ℕ, ◌+◌, inl, inr, Bool, true, false, ◌&&◌, ◌==◌, Option, none, some, List, [], ◌∷◌, bytes_eq,
  to_option, if◌then◌else◌, Bool-cases, Option-cases,
}
use neotune.ShuffleVec.{Rng}
use neotune.Connect.State.{ContextType, default, autoplay, ConnectState}
use neotune.Connect.Player.{
  current_track, shuffling_context, get_context?, update_restrictions, update_queue_revision,
}
use neotune.Connect.Context.{find_index_in_context}
use neotune.Connect.Fill.{fill_up_next_tracks}
use neotune.Connect.Tracks.Bounds.{
  IsBounded, SameLists-IsBounded, update_restrictions-SameLists, fill_up_next_tracks-IsBounded,
}
use neotune.Connect.Queue.{reset_playback_to_position}
use neotune.Connect.Queue.Bounds.{reset_playback_to_position-IsBounded}
use neotune.Connect.Handle.{ShuffleState, shuffle_new}
use neotune.Connect.Handle.Bounds.{Keeps-shuffle_new}
use neotune.Connect.Transfer.{TransferState, finish_transfer}
use neotune.Connect.Transfer.Bounds.{finish_transfer-IsBounded}
use neotune.Resolver.{ResolveContext, ContextResolver, find_next}

abbrev pub same_type : ContextType → ContextType → Bool
same_type default default = true
same_type autoplay autoplay = true
same_type default autoplay = false
same_type autoplay default = false

unfoldable pub count_type : ContextType → List ResolveContext → ℕ
count_type ty [] = 0
count_type ty (r ∷ rs) = (if same_type r.update ty then 1 else 0) + count_type ty rs

-- "skipped finishing default, because it isn't the active context"
unfoldable pub finishes : ContextType → ContextType → Bool
finishes autoplay active = true
finishes default default = true
finishes default autoplay = false

-- What the transfer brings: the ids that are made for its tracks, and the shuffle that it came with.
pub record Setup (g : Rng) : Type 0 where
  pub uuid : List ℕ
  pub uuids : ℕ → List ℕ
  pub new_seed : ℕ
  pub transfer_shuffle : Option ShuffleState

-- "has context, and context is not touched"
unfoldable pub resume_in : ConnectState → ConnectState
resume_in s = elim (get_context? s.active_context s) [
  | none ↦ (fill_up_next_tracks s).1
  | some ctx ↦ elim (ctx.index.track == 0) [
    | true ↦
        (reset_playback_to_position
          (to_option (find_index_in_context ctx (λ t. bytes_eq t.uri (current_track s).uri))) s).1
    | false ↦ (fill_up_next_tracks s).1
  ]
]

unfoldable pub set_up_state :
    (g : Rng) → Setup g → ContextType → Option TransferState → ConnectState → ConnectState
set_up_state g x ty (some transfer) s =
    (finish_transfer x.uuid x.uuids g x.new_seed transfer x.transfer_shuffle s).1
set_up_state g x ty none s = elim (shuffling_context s && same_type ty default) [
  | true ↦ (shuffle_new g x.new_seed s).1
  | false ↦ resume_in s
]

-- Whether it has finished, the state, and the transfer that is left.
unfoldable pub try_finish :
    (g : Rng)
    → Setup g
    → ContextResolver
    → Option TransferState
    → ConnectState
    → Bool × ConnectState × Option TransferState
try_finish g x c transfer s = elim (find_next c) [
  | none ↦ (false, s, transfer)
  | some (next, uri, idx) ↦
      elim (count_type next.update c.queue == 1 && finishes next.update s.active_context) [
        | true ↦ (
          true,
          update_queue_revision (update_restrictions (set_up_state g x next.update transfer s)),
          none,
        )
        | false ↦ (false, s, transfer)
      ]
]

resume_in-IsBounded : (s : ConnectState) → IsBounded s → IsBounded (resume_in s)
unfolding resume_in
resume_in-IsBounded s b = elim (Option-cases (get_context? s.active_context s)) [
  | inl e ↦ simp (resume_in, e) (fill_up_next_tracks-IsBounded s b)
  | inr (ctx, e) ↦ elim (Bool-cases (ctx.index.track == 0)) [
    | inl f ↦ simp (resume_in, e, f) (reset_playback_to_position-IsBounded _ s b)
    | inr f ↦ simp (resume_in, e, f) (fill_up_next_tracks-IsBounded s b)
  ]
]

set_up_state-IsBounded :
    (g : Rng) (x : Setup g) (ty : ContextType) (transfer : Option TransferState) (s : ConnectState)
    → IsBounded s
    → IsBounded (set_up_state g x ty transfer s)
unfolding set_up_state
set_up_state-IsBounded g x ty (some transfer) s b =
    finish_transfer-IsBounded x.uuid x.uuids g x.new_seed transfer x.transfer_shuffle s b
set_up_state-IsBounded g x ty none s b =
    elim (Bool-cases (shuffling_context s && same_type ty default)) [
      | inl e ↦ simp (set_up_state, e) (Keeps-shuffle_new g x.new_seed s b)
      | inr e ↦ simp (set_up_state, e) (resume_in-IsBounded s b)
    ]

-- Setting up the state with the last context keeps the bounds of the lists, whether it is done or not.
pub try_finish-IsBounded :
    (g : Rng) (x : Setup g) (c : ContextResolver) (transfer : Option TransferState)
    (s : ConnectState)
    → IsBounded s
    → IsBounded (try_finish g x c transfer s).1
unfolding try_finish update_queue_revision
try_finish-IsBounded g x c transfer s b = elim (Option-cases (find_next c)) [
  | inl e ↦ simp (try_finish, e) b
  | inr ((next, uri, idx), e) ↦
      elim (Bool-cases
        (count_type next.update c.queue == 1 && finishes next.update s.active_context)) [
          | inl f ↦
              simp (try_finish, e, f)
                (let s1 = set_up_state g x next.update transfer s in
                  SameLists-IsBounded s1 (update_restrictions s1) (update_restrictions-SameLists s1)
                    (set_up_state-IsBounded g x next.update transfer s b))
          | inr f ↦ simp (try_finish, e, f) b
        ]
]
