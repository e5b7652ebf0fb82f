-- ===== src/Mmr/Queue/Examples.antt =====
-- The queue's theorems at concrete queues, and runs of its operations.
use omni_stats.Prelude.{
  ◌+◌, ◌≤◌, ◌<◌, min, ◌≡◌, refl, ◌⊎◌, true, false, [], ◌∷◌, none, some, map, arith, length, take,
  drop, keep_if, erase_if, if◌then◌else◌,
}
use omni_stats.Prelude.Int.{pos, ◌≤ℤ◌, ◌-ℤ◌}
use omni_stats.Mmr.{
  MmrRequest, roster, tracked_account, post_match, blank_request, default_timings, empty_batch,
  custom_api_playlist_id_for_name, assemble_custom_api_batch, forbidden_lockout_for_strike,
}
use omni_stats.Mmr.Queue.{
  MmrRequestQueue, new_queue, enqueue_roster, enqueue_tracked_account, pop_next,
  pop_next_post_match, drain_batch, drain_batch_for_reason, next_batch_reason, first_ready_playlist,
  ready_count, schedule_retry, requeue_forbidden, reset_forbidden, commit_retry, finish,
  cancel_tracked_account, is_batched, push_back, is_rate_limited, next_lockout, is_retryable,
}
use omni_stats.Mmr.Queue.Pop.{
  PopsNext, PopsPostMatch, pop_next-PopsNext, pop_next_post_match-PopsPostMatch,
}
use omni_stats.Mmr.Queue.Batch.{
  stamp, stamp_batch, drain_batch_lem, length-drain_batch, drain_batch_for_reason_lem,
  assemble_custom_api_batch-drain, next_batch_reason-drain,
}
use omni_stats.Mmr.Queue.Lifecycle.{
  System, here, next, Inv, enqueues_roster, outstanding, roster_for, post_match_for, current_for,
}
use omni_stats.Mmr.Queue.Lifecycle.Safety.{initial, initial-Inv, Step-Inv, Reach-at_most_one}
use omni_stats.Mmr.Queue.Retry.{
  retried, retry_accepted, schedule_retry_lem, requeue_forbidden_locks, requeue_forbidden_lem,
  lockout_ladder, cancel_tracked_account_lem,
}

abbrev roster_early : MmrRequest
roster_early = record blank_request { primary_id = "Steam|1"; playlist = "2v2"; not_before = 5 }

abbrev roster_late : MmrRequest
roster_late = record roster_early { primary_id = "Steam|2"; not_before = 9 }

abbrev tracked : MmrRequest
tracked = record roster_early {
  primary_id = "Steam|3";
  reason = tracked_account;
  tracked_generation = 1;
}

abbrev finished_match : MmrRequest
finished_match = record roster_early { match_guid = "A"; reason = post_match }

abbrev busy : MmrRequestQueue
busy = record {
  timings = default_timings;
  queue = tracked ∷ roster_late ∷ finished_match ∷ roster_early ∷ [];
  roster_queued_or_in_flight = "Steam|1" ∷ "Steam|2" ∷ [];
  tracked_queued_or_in_flight = ("Steam|3", 1) ∷ [];
  next_tracked_generation = 1;
  pending_post_match_guids = "A" ∷ [];
  forbidden_strike_count = 0;
  rate_limited_until = 0;
  has_tracked_retry_callback = true;
}

pops_earliest :
    pop_next 10 busy
    ≡ (record busy { queue = tracked ∷ roster_late ∷ finished_match ∷ [] }, some roster_early)
unfolding pop_next
pops_earliest = refl

batch_of_two :
    (drain_batch roster "2v2" 10 7 8 busy).1.requests
    ≡ stamp 7 roster_late ∷ stamp 7 roster_early ∷ []
unfolding drain_batch
batch_of_two = refl

pop_next-PopsNext_example : PopsNext 10 busy (pop_next 10 busy)
pop_next-PopsNext_example = pop_next-PopsNext 10 busy

pop_next_post_match-PopsPostMatch_example : PopsPostMatch 10 busy (pop_next_post_match 10 busy)
pop_next_post_match-PopsPostMatch_example = pop_next_post_match-PopsPostMatch 10 busy

drain_batch_example :
    let (q', batch) = drain_batch roster "2v2" 10 7 1 busy in
    let is_wanted = is_batched roster "2v2" 10 in
    (batch.requests ≡ map (stamp 7) (take 1 (keep_if is_wanted busy.queue)))
    × (keep_if is_wanted q'.queue ≡ drop 1 (keep_if is_wanted busy.queue))
    × (erase_if is_wanted q'.queue ≡ erase_if is_wanted busy.queue)
    × (batch.playlist ≡ "2v2")
    × (batch.playlist_id ≡ custom_api_playlist_id_for_name "2v2")
    × (record q' { queue = busy.queue } ≡ busy)
drain_batch_example = drain_batch_lem roster "2v2" 10 7 1 busy

length-drain_batch_example :
    length (drain_batch roster "2v2" 10 7 1 busy).1.requests
    ≡ min 1 (ready_count roster "2v2" 10 busy)
length-drain_batch_example = length-drain_batch roster "2v2" 10 7 1 busy

drain_batch_for_reason_example :
    drain_batch_for_reason roster 10 7 8 busy ≡ (elim (first_ready_playlist roster 10 busy) [
      | none ↦ (busy, empty_batch)
      | some playlist ↦ drain_batch roster playlist 10 7 8 busy
    ])
drain_batch_for_reason_example = drain_batch_for_reason_lem roster 10 7 8 busy

assemble_custom_api_batch-drain_example :
    stamp_batch 7 (assemble_custom_api_batch busy.queue 10 8) ≡ (elim (next_batch_reason 10 busy) [
      | none ↦ empty_batch
      | some reason ↦ (drain_batch_for_reason reason 10 7 8 busy).1
    ])
assemble_custom_api_batch-drain_example = assemble_custom_api_batch-drain 10 7 8 busy (omega arith)

next_batch_reason-drain_example : 0 < length (drain_batch_for_reason roster 10 7 8 busy).1.requests
unfolding next_batch_reason
next_batch_reason-drain_example = next_batch_reason-drain 10 7 8 busy roster (omega arith) refl

schedule_retry_example :
    let result = schedule_retry true 10 (λ q. q) roster_early 3000 busy in
    (result.2 ≡ retry_accepted true (λ q. q) roster_early busy)
    × (((result.2 ≡ true)
          × (result.0 ≡ push_back (retried 3010 roster_early) busy)
          × (pos 0 ≤ℤ (roster_early.retries_remaining -ℤ pos 1)))
        ⊎ ((result.2 ≡ false) × ((result.0 ≡ busy) ⊎ (result.0 ≡ busy))))
schedule_retry_example = schedule_retry_lem true 10 (λ q. q) roster_early 3000 busy

requeue_forbidden_locks_example :
    let locked = (requeue_forbidden true 10 tracked busy).0 in
    (is_rate_limited 20 locked ≡ true)
    × (pop_next 20 locked ≡ (locked, none))
    × (pop_next_post_match 20 locked ≡ (locked, none))
unfolding forbidden_lockout_for_strike
requeue_forbidden_locks_example = requeue_forbidden_locks 10 20 tracked busy (omega arith)

requeue_forbidden_example :
    let lockout = lockout_ladder default_timings 0 in
    let result = requeue_forbidden true 10 tracked busy in
    (result.2 ≡ (if is_retryable tracked busy then some (1, lockout) else none))
    × (result.0.queue ≡ (
        if is_retryable tracked busy
        then record tracked { not_before = 10 + lockout } ∷ busy.queue
        else busy.queue))
    × (result.0.rate_limited_until ≡ 10 + lockout)
    × (next_lockout (reset_forbidden result.0).0 ≡ default_timings.forbidden_lockout_first)
    × (is_rate_limited 10 (reset_forbidden result.0).0 ≡ false)
    × ((reset_forbidden result.0).1 ≡ true)
    × ((reset_forbidden (reset_forbidden result.0).0).1 ≡ false)
requeue_forbidden_example = requeue_forbidden_lem 10 tracked busy (omega arith)

cancel_tracked_account_example :
    let gone = cancel_tracked_account "Steam|3" busy in
    let anew = (enqueue_tracked_account 10 "Steam|3" "Alt" gone).0 in
    (commit_retry tracked gone ≡ (gone, false))
    × (finish tracked gone ≡ gone)
    × (commit_retry tracked anew ≡ (anew, false))
    × (finish tracked anew ≡ anew)
cancel_tracked_account_example =
    cancel_tracked_account_lem 10 "Alt" tracked busy refl (omega arith) (omega arith)

-- A roster request that is queued and popped.
abbrev queued_once : System
queued_once = record {
  queue = (enqueue_roster 0 "Steam|1" "Me" 0 (new_queue default_timings)).0;
  in_flight = [];
}

Step-Inv_example : Inv queued_once
Step-Inv_example =
    Step-Inv {s = initial default_timings} (enqueues_roster 0 "Steam|1" "Me" 0)
      (initial-Inv default_timings)

Reach-at_most_one_example :
    (outstanding (roster_for "Steam|1") queued_once ≤ 1)
    × (outstanding (post_match_for "Steam|1") queued_once ≤ 1)
    × (outstanding (current_for "Steam|1" queued_once.queue) queued_once ≤ 1)
Reach-at_most_one_example =
    Reach-at_most_one default_timings queued_once "Steam|1"
      (next here (enqueues_roster 0 "Steam|1" "Me" 0))
