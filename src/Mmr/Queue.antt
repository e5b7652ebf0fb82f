-- ===== src/Mmr/Queue.antt =====
-- src/network/mmr/MmrRequestQueue.{hpp,cpp}. A method is a function on the queue's fields; each
-- holds the mutex for its whole body, but for `schedule_retry`, which takes it twice.
--
-- Not on the state: `m_runningCheck`, whose answer `schedule_retry` and `requeue_forbidden` take as
-- an argument (true if none is set), and the log lines. A call of `m_trackedRetryCallback` is an
-- entry of the list of events that a method returns.
mod State
mod Failure
mod Drain
pub mod Pop
mod Loops
pub mod Batch
pub mod Flow
pub mod Lifecycle
pub mod Retry
mod Examples
pub use State.{
  word64, MmrRequestQueue, RetryEvent, push_back, is_generation, is_tracked_current, is_current,
  is_rate_limited,
}
unfoldable pub use State.{new_queue}
pub use Failure.{is_retryable, next_strike, next_lockout, locked_out}
unfoldable pub use Failure.{
  commit_retry, schedule_retry, requeue_forbidden, reset_forbidden, finish, clear,
}
pub use Drain.{is_batched}
unfoldable pub use Drain.{
  drain_loop, drain_batch, drain_reason_loop, drain_batch_for_reason, has_ready, next_batch_reason,
  first_ready_playlist, ready_count,
}
use omni_stats.Prelude.{
  ℕ, zero, suc, ◌+◌, ◌^◌, ◌%◌, String, Bool, true, false, ◌&&◌, ◌||◌, not, List, [], ◌∷◌, ◌++◌,
  Option, none, some, leb, ltb, ◌==◌, str_eq, if◌then◌else◌, is_empty, any_of, find_if, erase_first,
  erase_if, count_if, length,
}
use omni_stats.Prelude.Int.{pos, ◌-ℤ◌, leb_ℤ}
use omni_stats.Prelude.Maps.{member, insert_key, erase_key, lookup, insert, erase}
use omni_stats.Mmr.{
  MmrRequest, MmrRequestReason, roster, post_match, tracked_account, reason_eq, blank_request,
  TrackedEnqueueResult, queued, already_queued, invalid_identity, MmrTimings, AssembledBatch,
  empty_batch, custom_api_playlist_id_for_name, forbidden_lockout_for_strike, is_ready,
}

abbrev pub roster_request : ℕ → String → String → ℕ → MmrRequest
roster_request now primary_id name session_gen = record blank_request {
  primary_id = primary_id;
  name = name;
  reason = roster;
  session_generation = session_gen;
  not_before = now;
}

unfoldable pub enqueue_roster : ℕ → String → String → ℕ → MmrRequestQueue → MmrRequestQueue × Bool
enqueue_roster now primary_id name session_gen q =
    if str_eq primary_id ""
    then (q, false)
    else if member primary_id q.roster_queued_or_in_flight
    then (q, false)
    else (
      push_back (roster_request now primary_id name session_gen) (record q {
        roster_queued_or_in_flight = insert_key primary_id q.roster_queued_or_in_flight;
      }),
      true,
    )

unfoldable pub enqueue_post_match : MmrRequest → MmrRequestQueue → MmrRequestQueue × Bool
enqueue_post_match req q =
    if str_eq req.match_guid ""
    then (q, false)
    else if member req.match_guid q.pending_post_match_guids
    then (q, false)
    else (
      push_back (record req { reason = post_match })
          (record q {
            pending_post_match_guids = insert_key req.match_guid q.pending_post_match_guids;
          }),
      true,
    )

abbrev pub tracked_request : ℕ → String → String → ℕ → MmrRequest
tracked_request now primary_id name generation = record blank_request {
  primary_id = primary_id;
  name = name;
  reason = tracked_account;
  tracked_generation = generation;
  not_before = now;
}

-- `++m_nextTrackedGeneration`.
abbrev pub next_generation : MmrRequestQueue → ℕ
next_generation q = word64 (q.next_tracked_generation + 1)

-- The last part is what is written through `generationOut`, if anything.
unfoldable pub enqueue_tracked_account :
    ℕ → String → String → MmrRequestQueue → MmrRequestQueue × TrackedEnqueueResult × Option ℕ
enqueue_tracked_account now primary_id name q =
    if str_eq primary_id ""
    then (q, invalid_identity, none)
    else elim (lookup primary_id q.tracked_queued_or_in_flight) [
      | some g ↦ (q, already_queued, none)
      | none ↦ (
        push_back (tracked_request now primary_id name (next_generation q)) (record q {
          next_tracked_generation = next_generation q;
          tracked_queued_or_in_flight =
              insert primary_id (next_generation q) q.tracked_queued_or_in_flight;
        }),
        queued,
        some (next_generation q),
      )
    ]

abbrev pub is_tracked_for : String → MmrRequest → Bool
is_tracked_for primary_id r = reason_eq r.reason tracked_account && str_eq r.primary_id primary_id

unfoldable pub cancel_tracked_account : String → MmrRequestQueue → MmrRequestQueue
cancel_tracked_account primary_id q = record q {
  queue = erase_if (is_tracked_for primary_id) q.queue;
  tracked_queued_or_in_flight = erase primary_id q.tracked_queued_or_in_flight;
}

abbrev pub take_first : (MmrRequest → Bool) → MmrRequestQueue → MmrRequestQueue × Option MmrRequest
take_first p q = elim (find_if p q.queue) [
  | none ↦ (q, none)
  | some r ↦ (record q { queue = erase_first p q.queue }, some r)
]

unfoldable pub take_tracked_account :
    String → ℕ → MmrRequestQueue → MmrRequestQueue × Option MmrRequest
take_tracked_account primary_id generation = take_first (λ r.
    reason_eq r.reason tracked_account
    && str_eq r.primary_id primary_id
    && r.tracked_generation == generation)

unfoldable pub set_rate_limited_until : ℕ → MmrRequestQueue → MmrRequestQueue
set_rate_limited_until until q = record q { rate_limited_until = until }

abbrev pub pending_count : MmrRequestQueue → ℕ
pending_count q = length q.queue

abbrev pub empty : MmrRequestQueue → Bool
empty q = is_empty q.queue

abbrev pub has_pending_post_match : String → MmrRequestQueue → Bool
has_pending_post_match match_guid q = member match_guid q.pending_post_match_guids

unfoldable pub pop_next_post_match : ℕ → MmrRequestQueue → MmrRequestQueue × Option MmrRequest
pop_next_post_match now q =
    if ltb now q.rate_limited_until then (q, none) else take_first (is_ready post_match now) q

-- The inner loop of `PopNext`: `best` is an index with the request that stands there, and `i` the
-- index of the next element.
abbrev better : ℕ → MmrRequest → Option (ℕ × MmrRequest) → Option (ℕ × MmrRequest)
better i r none = some (i, r)
better i r (some (j, b)) = if ltb r.not_before b.not_before then some (i, r) else some (j, b)

scan_best :
    MmrRequestReason → ℕ → ℕ → Option (ℕ × MmrRequest) → List MmrRequest → Option (ℕ × MmrRequest)
scan_best reason now i best [] = best
scan_best reason now i best (r ∷ rs) =
    scan_best reason now (suc i) (if is_ready reason now r then better i r best else best) rs

abbrev erase_at : ℕ → List MmrRequest → List MmrRequest
erase_at i [] = []
erase_at zero (r ∷ rs) = rs
erase_at (suc i) (r ∷ rs) = r ∷ erase_at i rs

pop_best : MmrRequestReason → ℕ → MmrRequestQueue → Option (MmrRequestQueue × MmrRequest)
unfolding scan_best
pop_best reason now q = elim (scan_best reason now 0 none q.queue) [
  | none ↦ none
  | some (i, r) ↦ some (record q { queue = erase_at i q.queue }, r)
]

unfoldable pub pop_next : ℕ → MmrRequestQueue → MmrRequestQueue × Option MmrRequest
unfolding pop_best
pop_next now q = if ltb now q.rate_limited_until then (q, none) else elim (pop_best roster now q) [
  | some (q', r) ↦ (q', some r)
  | none ↦ elim (pop_best tracked_account now q) [ some (q', r) ↦ (q', some r) | none ↦ (q, none) ]
]
