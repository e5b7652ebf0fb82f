-- ===== src/Mmr/Queue/Retry.antt =====
-- `ScheduleRetry`, `RequeueForbidden` and `CancelTrackedAccount`: what becomes of a request that
-- failed, and of one whose account was cancelled meanwhile.
use omni_stats.Prelude.{
  ℕ, zero, suc, ◌+◌, ◌^◌, ◌≤◌, ◌<◌, ◌≡◌, refl, inl, inr, ◌⊎◌, String, Bool, true, false, ◌&&◌, not,
  ◌∷◌, none, some, arith, str_eq, eq_iff, if◌then◌else◌, lt→ltb, add-one, Bool-cases, Option-cases,
}
use omni_stats.Prelude.Int.{pos, ◌-ℤ◌, ◌≤ℤ◌, leb_ℤ, -ℤ_parts}
use omni_stats.Prelude.Maps.{lookup, lookup-insert, lookup-erase}
use omni_stats.Mmr.{MmrRequest, MmrTimings, tracked_account, forbidden_lockout_for_strike}
use omni_stats.Mmr.Queue.{
  MmrRequestQueue, push_back, is_retryable, is_tracked_current, is_rate_limited, commit_retry,
  schedule_retry, requeue_forbidden, next_strike, next_lockout, pop_next, pop_next_post_match,
  reset_forbidden, cancel_tracked_account, finish, enqueue_tracked_account, next_generation,
}

-- The request as `ScheduleRetry` puts it back.
abbrev pub retried : ℕ → MmrRequest → MmrRequest
retried not_before r = record r {
  retries_remaining = r.retries_remaining -ℤ pos 1;
  not_before = not_before;
}

-- Whether the retry is accepted: the service runs, retries are left, and a tracked request is
-- current in both critical sections.
abbrev pub retry_accepted :
    Bool → (MmrRequestQueue → MmrRequestQueue) → MmrRequest → MmrRequestQueue → Bool
retry_accepted running between r q =
    running
    && not (leb_ℤ r.retries_remaining (pos 0))
    && is_retryable r q
    && is_retryable r (between q)

-- `ScheduleRetry` succeeds exactly when the retry is accepted. Then the request goes to the end of
-- the queue with one retry less, still not negative, and its new time; whatever happened between
-- the two critical sections is kept. A refused retry puts nothing into the queue: it leaves it as
-- it was, or as it was left between the two sections.
pub schedule_retry_lem :
    (running : Bool) (now : ℕ) (between : MmrRequestQueue → MmrRequestQueue) (r : MmrRequest)
    (delay : ℕ) (q : MmrRequestQueue)
    → let result = schedule_retry running now between r delay q in
      (result.2 ≡ retry_accepted running between r q)
      × (((result.2 ≡ true)
            × (result.0 ≡ push_back (retried (now + delay) r) (between q))
            × (pos 0 ≤ℤ (r.retries_remaining -ℤ pos 1)))
          ⊎ ((result.2 ≡ false) × ((result.0 ≡ q) ⊎ (result.0 ≡ between q))))
unfolding schedule_retry
schedule_retry_lem running now between r delay q =
    ground (arith, -ℤ_parts r.retries_remaining (pos 1))

-- While the service runs, a forbidden answer locks the queue out for the next strike's lockout,
-- whatever becomes of the request: until that time no request of any reason leaves by `PopNext` or
-- `PopNextPostMatch`.
pub requeue_forbidden_locks :
    (now later : ℕ) (r : MmrRequest) (q : MmrRequestQueue)
    → later < now + next_lockout q
    → let locked = (requeue_forbidden true now r q).0 in
      (is_rate_limited later locked ≡ true)
      × (pop_next later locked ≡ (locked, none))
      × (pop_next_post_match later locked ≡ (locked, none))
unfolding requeue_forbidden pop_next pop_next_post_match
requeue_forbidden_locks now later r q h =
    let limit = lt→ltb later (now + next_lockout q) h in
    elim (Bool-cases (is_retryable r q)) [
      | inl e ↦ rw (e, limit) (refl, refl, refl)
      | inr e ↦ rw (e, limit) (refl, refl, refl)
    ]

-- The lockout for the first strike, the second, and from the third on.
abbrev pub lockout_ladder : MmrTimings → ℕ → ℕ
lockout_ladder timings zero = timings.forbidden_lockout_first
lockout_ladder timings (suc zero) = timings.forbidden_lockout_second
lockout_ladder timings (suc (suc n)) = timings.forbidden_lockout_maximum

ladder-lockout :
    (timings : MmrTimings) (n : ℕ)
    → forbidden_lockout_for_strike (suc n) timings ≡ lockout_ladder timings n
unfolding forbidden_lockout_for_strike
ladder-lockout timings zero = refl
ladder-lockout timings (suc zero) = refl
ladder-lockout timings (suc (suc n)) = ground arith

-- While the service runs, the answer to `RequeueForbidden` after n earlier strikes climbs the ladder
-- of lockouts, if the counter does not wrap: a retryable request is told strike n + 1 and its
-- lockout and goes to the front of the queue, not to be tried before the lockout ends; any other is
-- dropped with no answer. `ResetForbidden` takes the ladder back to its first rung, lifts the limit
-- and answers true, and answers false when it is called again with no strike in between.
pub requeue_forbidden_lem :
    (now : ℕ) (r : MmrRequest) (q : MmrRequestQueue)
    → q.forbidden_strike_count + 1 < 2 ^ 64
    → let lockout = lockout_ladder q.timings q.forbidden_strike_count in
      let result = requeue_forbidden true now r q in
      (result.2 ≡ (if is_retryable r q then some (q.forbidden_strike_count + 1, lockout) else none))
      × (result.0.queue ≡ (
          if is_retryable r q then record r { not_before = now + lockout } ∷ q.queue else q.queue))
      × (result.0.rate_limited_until ≡ now + lockout)
      × (next_lockout (reset_forbidden result.0).0 ≡ q.timings.forbidden_lockout_first)
      × (is_rate_limited now (reset_forbidden result.0).0 ≡ false)
      × ((reset_forbidden result.0).1 ≡ true)
      × ((reset_forbidden (reset_forbidden result.0).0).1 ≡ false)
unfolding requeue_forbidden reset_forbidden
requeue_forbidden_lem now r q h =
    let n = q.forbidden_strike_count in
    let strike : next_strike q ≡ n + 1 = omega arith in
    let rung : forbidden_lockout_for_strike (n + 1) q.timings ≡ lockout_ladder q.timings n =
      rw add-one (ladder-lockout q.timings n) in
    elim (Bool-cases (is_retryable r q)) [
      | inl e ↦
          rw (e, strike, rung)
            (refl, refl, refl, ladder-lockout q.timings 0, ground arith, ground arith, refl)
      | inr e ↦
          rw (e, strike, rung)
            (refl, refl, refl, ladder-lockout q.timings 0, ground arith, ground arith, refl)
    ]

cancelled :
    (q : MmrRequestQueue) (k : String) (g : ℕ)
    → is_tracked_current k g (cancel_tracked_account k q) ≡ false
unfolding cancel_tracked_account
cancelled q k g = rw (lookup-erase k k q.tracked_queued_or_in_flight, (eq_iff k k).1 refl)

not_current_dead :
    (r : MmrRequest) (q : MmrRequestQueue)
    → r.reason ≡ tracked_account
    → is_tracked_current r.primary_id r.tracked_generation q ≡ false
    → (commit_retry r q ≡ (q, false)) × (finish r q ≡ q)
unfolding commit_retry finish
not_current_dead r q e h = (rw e (rw h), rw (e, finish) (rw h))

-- A new registration is of another generation.
renewed :
    (now : ℕ) (k name : String) (g : ℕ) (q : MmrRequestQueue)
    → g ≤ q.next_tracked_generation
    → q.next_tracked_generation + 1 < 2 ^ 64
    → is_tracked_current k g q ≡ false
    → is_tracked_current k g (enqueue_tracked_account now k name q).0 ≡ false
unfolding enqueue_tracked_account
renewed now k name g q fresh range h = elim (Bool-cases (str_eq k "")) [
  | inl e ↦ rw e h
  | inr e ↦ rw e (elim (Option-cases (lookup k q.tracked_queued_or_in_flight)) [
    | inr (g', m) ↦ rw m h
    | inl m ↦ rw m (
        rw
          (lookup-insert k k (next_generation q) q.tracked_queued_or_in_flight, (eq_iff k k).1 refl)
          (ground arith))
  ])
]

-- A tracked request whose account was cancelled is dead: no retry of it is accepted and finishing it
-- changes nothing. So it is still after the account was queued anew, if the request is no newer than
-- the counter was and the counter does not wrap: the new request keeps its registration.
pub cancel_tracked_account_lem :
    (now : ℕ) (name : String) (r : MmrRequest) (q : MmrRequestQueue)
    → r.reason ≡ tracked_account
    → r.tracked_generation ≤ q.next_tracked_generation
    → q.next_tracked_generation + 1 < 2 ^ 64
    → let gone = cancel_tracked_account r.primary_id q in
      let anew = (enqueue_tracked_account now r.primary_id name gone).0 in
      (commit_retry r gone ≡ (gone, false))
      × (finish r gone ≡ gone)
      × (commit_retry r anew ≡ (anew, false))
      × (finish r anew ≡ anew)
unfolding cancel_tracked_account
cancel_tracked_account_lem now name r q e fresh range =
    let gone = cancel_tracked_account r.primary_id q in
    let dead = cancelled q r.primary_id r.tracked_generation in
    let old = not_current_dead r gone e dead in
    let new =
      not_current_dead r (enqueue_tracked_account now r.primary_id name gone).0 e
        (renewed now r.primary_id name r.tracked_generation gone fresh range dead) in
    (old.0, old.1, new.0, new.1)
