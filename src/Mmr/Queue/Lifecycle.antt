-- ===== src/Mmr/Queue/Lifecycle.antt =====
-- The queue with the requests that its worker has taken and not yet finished: each transition is
-- one critical section of MmrRequestQueue.cpp, so an execution is any interleaving of the threads.
-- A request that is in flight goes back by `commit_retry` or `requeue_forbidden`, or is finished;
-- `finish` is called for requests in flight only, and `clear` when none is.
pub mod Enqueue
pub mod Release
pub mod Safety
use omni_stats.Prelude.{
  ℕ, ◌+◌, ◌^◌, ◌≤◌, ◌<◌, ◌≡◌, refl, sym, ap, subst, inl, inr, ◌⊎◌, String, Bool, true, false, ◌&&◌,
  not, List, [], ◌∷◌, ◌++◌, Option, none, some, arith, ltb, str_eq, eq_iff, if◌then◌else◌, count_if,
  count_if-append, Bool-cases, Option-cases, is_some,
}
use omni_stats.Prelude.Int.{ℤ}
use omni_stats.Prelude.Maps.{member, insert_key, insert, lookup, member-insert_key, lookup-insert}
use omni_stats.Mmr.{
  MmrRequest, MmrRequestReason, AssembledBatch, roster, post_match, tracked_account, reason_eq,
}
use omni_stats.Mmr.Queue.{
  push_back, roster_request, tracked_request, next_generation, MmrRequestQueue, enqueue_roster,
  enqueue_post_match, enqueue_tracked_account, cancel_tracked_account, take_tracked_account,
  set_rate_limited_until, pop_next_post_match, pop_next, drain_batch, commit_retry,
  requeue_forbidden, reset_forbidden, finish, clear, is_tracked_for, is_tracked_current, is_current,
}
use omni_stats.Mmr.Queue.Flow.{Moved, returned}

pub record System : Type 0 where
  pub queue : MmrRequestQueue
  pub in_flight : List MmrRequest

-- The requests of one kind and key.
abbrev pub roster_for : String → MmrRequest → Bool
roster_for k r = reason_eq r.reason roster && str_eq r.primary_id k

abbrev pub post_match_for : String → MmrRequest → Bool
post_match_for k r = reason_eq r.reason post_match && str_eq r.match_guid k

-- A tracked account's request that `IsCurrent` accepts.
abbrev pub current_for : String → MmrRequestQueue → MmrRequest → Bool
current_for k q r = is_tracked_for k r && is_tracked_current k r.tracked_generation q

abbrev pub outstanding : (MmrRequest → Bool) → System → ℕ
outstanding p s = count_if p s.queue.queue + count_if p s.in_flight

-- Tests that have to fail on every request.
abbrev pub is_stale : MmrRequestQueue → MmrRequest → Bool
is_stale q r = not (is_current r q)

abbrev pub is_ahead : ℕ → MmrRequest → Bool
is_ahead next r = reason_eq r.reason tracked_account && ltb next r.tracked_generation

abbrev pub AtMost : Option ℕ → ℕ → Type 0
AtMost none n = Unit {0}
AtMost (some g) n = g ≤ n

abbrev pub one_if : Bool → ℕ
one_if true = 1
one_if false = 0

abbrev pub received : System → MmrRequestQueue × Option MmrRequest → System
received s (q, r) = record { queue = q; in_flight = returned r ++ s.in_flight }

abbrev pub batch_received : System → MmrRequestQueue × AssembledBatch → System
batch_received s (q, batch) = record { queue = q; in_flight = batch.requests ++ s.in_flight }

-- A request that the queue took back is no longer in flight.
abbrev pub given_back : System → List MmrRequest → MmrRequestQueue × Bool → System
given_back s others (q, done) = record {
  queue = q;
  in_flight = if done then others else s.in_flight;
}

pub data Step (s : System) : System → Type 0 where
  enqueues_roster :
      (now : ℕ) (primary_id name : String) (session_gen : ℕ)
      → Step s (record s { queue = (enqueue_roster now primary_id name session_gen s.queue).0 })
  enqueues_post_match :
      (req : MmrRequest) → Step s (record s { queue = (enqueue_post_match req s.queue).0 })
  enqueues_tracked_account :
      (now : ℕ) (primary_id name : String)
      → s.queue.next_tracked_generation + 1 < 2 ^ 64
      → Step s (record s { queue = (enqueue_tracked_account now primary_id name s.queue).0 })
  cancels_tracked_account :
      (primary_id : String)
      → Step s (record s { queue = cancel_tracked_account primary_id s.queue })
  sets_rate_limit : (until : ℕ) → Step s (record s { queue = set_rate_limited_until until s.queue })
  takes_tracked_account :
      (primary_id : String) (generation : ℕ)
      → Step s (received s (take_tracked_account primary_id generation s.queue))
  pops_post_match : (now : ℕ) → Step s (received s (pop_next_post_match now s.queue))
  pops_next : (now : ℕ) → Step s (received s (pop_next now s.queue))
  drains_batch :
      (reason : MmrRequestReason) (playlist : String) (now session_gen max_batch : ℕ)
      → Step s (batch_received s (drain_batch reason playlist now session_gen max_batch s.queue))
  commits_retry :
      (xs ys : List MmrRequest) (r : MmrRequest) (retries_remaining : ℤ) (not_before : ℕ)
      → s.in_flight ≡ xs ++ r ∷ ys
      → Step s (
          given_back s (xs ++ ys) (
            commit_retry
              (record r { retries_remaining = retries_remaining; not_before = not_before })
              s.queue))
  requeues_forbidden :
      (now : ℕ) (xs ys : List MmrRequest) (r : MmrRequest)
      → s.in_flight ≡ xs ++ r ∷ ys
      → Step s (
          given_back s (xs ++ ys) (
            (requeue_forbidden true now r s.queue).0,
            is_some (requeue_forbidden true now r s.queue).2,
          ))
  resets_forbidden : Step s (record s { queue = (reset_forbidden s.queue).0 })
  finishes :
      (xs ys : List MmrRequest) (r : MmrRequest)
      → s.in_flight ≡ xs ++ r ∷ ys
      → Step s (record { queue = finish r s.queue; in_flight = xs ++ ys })
  clears : s.in_flight ≡ [] → Step s (record s { queue = clear s.queue })

pub data Reach (s : System) : System → Type 0 where
  here : Reach s s
  next : {t u : System} → Reach s t → Step t u → Reach s u

-- No two requests for one thing are outstanding: at most one roster request for a player and at
-- most one post-match request for a match, and only while it is registered; at most one current
-- request for a tracked account. Every queued tracked request is current, and no generation in use
-- is ahead of the counter.
pub record Inv (s : System) : Type 0 where
  pub one_roster :
      (k : String)
      → outstanding (roster_for k) s ≤ one_if (member k s.queue.roster_queued_or_in_flight)
  pub one_post_match :
      (k : String)
      → outstanding (post_match_for k) s ≤ one_if (member k s.queue.pending_post_match_guids)
  pub one_tracked : (k : String) → outstanding (current_for k s.queue) s ≤ 1
  pub none_stale : count_if (is_stale s.queue) s.queue.queue ≡ 0
  pub none_ahead : outstanding (is_ahead s.queue.next_tracked_generation) s ≡ 0
  pub map_behind :
      (k : String)
      → AtMost (lookup k s.queue.tracked_queued_or_in_flight) s.queue.next_tracked_generation
