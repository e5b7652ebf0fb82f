-- ===== src/Mmr/Queue/Lifecycle/Safety.antt =====
-- The invariant along every execution of MmrRequestQueue.cpp, and what it excludes.
use omni_stats.Prelude.{◌≤◌, refl, String, Bool, true, false, [], arith}
use omni_stats.Prelude.Maps.{member}
use omni_stats.Mmr.{MmrTimings}
use omni_stats.Mmr.Queue.{new_queue, set_rate_limited_until, reset_forbidden}
use omni_stats.Mmr.Queue.Flow.{
  pop_next-Moved, pop_next_post_match-Moved, take_tracked_account-Moved, drain_batch-Moved,
}
use omni_stats.Mmr.Queue.Lifecycle.{
  System, Step, enqueues_roster, enqueues_post_match, enqueues_tracked_account,
  cancels_tracked_account, sets_rate_limit, takes_tracked_account, pops_post_match, pops_next,
  drains_batch, commits_retry, requeues_forbidden, resets_forbidden, finishes, clears, Reach, here,
  next, Inv, roster_for, post_match_for, current_for, outstanding, one_if,
}
use omni_stats.Mmr.Queue.Lifecycle.Enqueue.{
  received-Inv, enqueue_roster-Inv, enqueue_post_match-Inv, enqueue_tracked_account-Inv,
}
use omni_stats.Mmr.Queue.Lifecycle.Release.{
  cancel_tracked_account-Inv, relocked-Inv, commit_retry-Inv, requeue_forbidden-Inv, finish-Inv,
  clear-Inv,
}

-- Nothing queued and nothing in flight.
abbrev pub initial : MmrTimings → System
initial timings = record { queue = new_queue timings; in_flight = [] }

pub initial-Inv : (timings : MmrTimings) → Inv (initial timings)
unfolding new_queue
initial-Inv timings = record {
  one_roster = λ k. omega arith;
  one_post_match = λ k. omega arith;
  one_tracked = λ k. omega arith;
  none_stale = refl;
  none_ahead = refl;
  map_behind = λ k. tt;
}

-- Every transition of the queue preserves the invariant: the counting of outstanding requests, the
-- currency of every queued tracked request, and the generations' order below the counter.
pub Step-Inv : {s t : System} → Step s t → Inv s → Inv t
unfolding set_rate_limited_until reset_forbidden
Step-Inv {s} (enqueues_roster now i n g) v = enqueue_roster-Inv s now i n g v
Step-Inv {s} (enqueues_post_match req) v = enqueue_post_match-Inv s req v
Step-Inv {s} (enqueues_tracked_account now i n h) v = enqueue_tracked_account-Inv s now i n h v
Step-Inv {s} (cancels_tracked_account i) v = cancel_tracked_account-Inv s i v
Step-Inv {s} (sets_rate_limit until) v = relocked-Inv s s.queue.forbidden_strike_count until v
Step-Inv {s} (takes_tracked_account i g) v =
    received-Inv s _ _ (take_tracked_account-Moved i g s.queue) v
Step-Inv {s} (pops_post_match now) v = received-Inv s _ _ (pop_next_post_match-Moved now s.queue) v
Step-Inv {s} (pops_next now) v = received-Inv s _ _ (pop_next-Moved now s.queue) v
Step-Inv {s} (drains_batch reason playlist now g m) v =
    received-Inv s _ _ (drain_batch-Moved reason playlist now g m s.queue) v
Step-Inv {s} (commits_retry xs ys r n t e) v = commit_retry-Inv s xs ys r e v n t
Step-Inv {s} (requeues_forbidden now xs ys r e) v = requeue_forbidden-Inv s xs ys r e v now
Step-Inv {s} resets_forbidden v = relocked-Inv s 0 0 v
Step-Inv {s} (finishes xs ys r e) v = finish-Inv s xs ys r e v
Step-Inv {s} (clears e) v = clear-Inv s e v

Reach-Inv : {s t : System} → Reach s t → Inv s → Inv t
Reach-Inv here v = v
Reach-Inv (next r st) v = Step-Inv st (Reach-Inv r v)

one_if-le : (b : Bool) → one_if b ≤ 1
one_if-le true = omega arith
one_if-le false = omega arith

-- After any interleaving of the queue's critical sections from the empty queue, with the
-- generation counter below its range and with only requests in flight finished or given back, at
-- most one roster request for each player, at most one post-match request for each match and at
-- most one current request for each tracked account are queued or in flight.
pub Reach-at_most_one :
    (timings : MmrTimings) (t : System) (k : String)
    → Reach (initial timings) t
    → (outstanding (roster_for k) t ≤ 1)
      × (outstanding (post_match_for k) t ≤ 1)
      × (outstanding (current_for k t.queue) t ≤ 1)
Reach-at_most_one timings t k r =
    let v = Reach-Inv r (initial-Inv timings) in
    (
      omega (arith, v.one_roster k, one_if-le (member k t.queue.roster_queued_or_in_flight)),
      omega (arith, v.one_post_match k, one_if-le (member k t.queue.pending_post_match_guids)),
      v.one_tracked k,
    )
