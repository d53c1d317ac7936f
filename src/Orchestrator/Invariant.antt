-- ===== src/Orchestrator/Invariant.antt =====
-- The invariant of the orchestrator's state: an issue that a worker runs for, or that waits for a
-- retry, is claimed, and it never does both.
pub mod Launches
pub mod Ends
pub mod Settles
pub mod Retries
pub mod Awaits
pub mod Polls
pub mod Steps
use risoluto.Prelude.{
  ℕ, Bool, true, false, ◌≡◌, ◌||◌, ◌&&◌, List, [], ◌∷◌, Option, none, some, Dict, get, put, delete,
  has, includes, Text, text_eq, arith, if◌then◌else◌, ◌==◌, ==_iff, get-put, get-delete,
  includes-add, includes-remove,
}
use risoluto.Core.Types.{Issue}
use risoluto.Orchestrator.State.{
  LifecycleState, create_lifecycle_state, claim_issue_in_state, release_issue_claim_in_state,
}
use risoluto.Orchestrator.Retry.{queue_retry, queued_entry, cancel}

-- What an issue is in, as the three collections say.
abbrev pub is_running : LifecycleState → Text → Bool
is_running s id = has s.running_entries id

abbrev pub is_retrying : LifecycleState → Text → Bool
is_retrying s id = has s.retry_entries id

abbrev pub is_claimed : LifecycleState → Text → Bool
is_claimed s id = includes s.claimed_issue_ids id

abbrev pub IsSoundAt : LifecycleState → Text → Type 0
IsSoundAt s id =
    (is_running s id ≡ true → (is_claimed s id ≡ true) × (is_retrying s id ≡ false))
    × (is_retrying s id ≡ true → is_claimed s id ≡ true)

abbrev pub IsSound : LifecycleState → Type 0
IsSound s = (id : Text) → IsSoundAt s id

pub cancel_lem :
    (s : LifecycleState) (issue_id id : Text)
    → (is_running (cancel s issue_id) id ≡ is_running s id)
      × (is_retrying (cancel s issue_id) id ≡ (if issue_id == id then false else is_retrying s id))
      × (is_claimed (cancel s issue_id) id
          ≡ (if issue_id == id then is_running s id && is_claimed s id else is_claimed s id))
unfolding cancel release_issue_claim_in_state
cancel_lem s issue_id id = ground (
  arith,
  get-delete s.retry_entries issue_id id,
  includes-remove s.claimed_issue_ids issue_id id,
  ==_iff issue_id id,
)

pub cancel-IsSound :
    (s : LifecycleState) (issue_id : Text) → IsSound s → IsSound (cancel s issue_id)
cancel-IsSound s issue_id h id = ground (arith, cancel_lem s issue_id id, h id)

pub queue_retry_lem :
    (now_ms : ℕ) (s : LifecycleState) (issue : Issue) (attempt delay_ms : ℕ)
    (error thread_id : Option Text) (id : Text)
    → let s' = queue_retry now_ms s issue attempt delay_ms error thread_id in
      let here = s.running && issue.id == id in
      (is_running s' id ≡ is_running s id)
      × (is_retrying s' id ≡ (here || is_retrying s id))
      × (is_claimed s' id ≡ (here || is_claimed s id))
      × (s'.running ≡ s.running)
unfolding queue_retry claim_issue_in_state
queue_retry_lem now_ms s issue attempt delay_ms error thread_id id = ground (
  arith,
  get-put s.retry_entries issue.id id (
      queued_entry now_ms (claim_issue_in_state s issue.id) issue attempt delay_ms error thread_id),
  includes-add s.claimed_issue_ids issue.id id,
)

pub queue_retry-IsSound :
    (now_ms : ℕ) (s : LifecycleState) (issue : Issue) (attempt delay_ms : ℕ)
    (error thread_id : Option Text)
    → is_running s issue.id ≡ false
    → IsSound s
    → IsSound (queue_retry now_ms s issue attempt delay_ms error thread_id)
queue_retry-IsSound now_ms s issue attempt delay_ms error thread_id free h id = ground (
  arith,
  queue_retry_lem now_ms s issue attempt delay_ms error thread_id id,
  h id,
  ==_iff issue.id id,
)
