-- ===== src/Mmr/Queue/Failure.antt =====
-- `ScheduleRetry`, `RequeueForbidden`, `ResetForbidden`, `Finish` and `Clear` of
-- MmrRequestQueue.cpp.
use omni_stats.Prelude.{
  ℕ, ◌+◌, Bool, true, false, ◌&&◌, not, List, [], ◌∷◌, Option, none, some, ltb, if◌then◌else◌,
}
use omni_stats.Prelude.Int.{pos, ◌-ℤ◌, leb_ℤ}
use omni_stats.Prelude.Maps.{erase_key, erase}
use omni_stats.Mmr.{
  MmrRequest, roster, post_match, tracked_account, reason_eq, forbidden_lockout_for_strike,
}
use omni_stats.Mmr.Queue.State.{
  word64, MmrRequestQueue, RetryEvent, push_back, is_tracked_current, is_rate_limited,
}

-- The check that both critical sections of `ScheduleRetry` make.
abbrev pub is_retryable : MmrRequest → MmrRequestQueue → Bool
is_retryable req q =
    if reason_eq req.reason tracked_account
    then is_tracked_current req.primary_id req.tracked_generation q
    else true

-- The second critical section.
unfoldable pub commit_retry : MmrRequest → MmrRequestQueue → MmrRequestQueue × Bool
commit_retry req q = if is_retryable req q then (push_back req q, true) else (q, false)

-- `between` is what other threads and the callback do to the queue between the two critical
-- sections.
unfoldable pub schedule_retry :
    Bool
    → ℕ
    → (MmrRequestQueue → MmrRequestQueue)
    → MmrRequest
    → ℕ
    → MmrRequestQueue
    → MmrRequestQueue × List RetryEvent × Bool
unfolding commit_retry
schedule_retry running now between request delay q =
    if not running
    then (q, [], false)
    else if leb_ℤ request.retries_remaining (pos 0)
    then (q, [], false)
    else if not (is_retryable req q)
    then (q, [], false)
    else let (q', done) = commit_retry req (between q) in (q', events, done)
  where
    req : MmrRequest
    req = record request {
      retries_remaining = request.retries_remaining -ℤ pos 1;
      not_before = now + delay;
    }

    events : List RetryEvent
    events =
        if q.has_tracked_retry_callback && reason_eq request.reason tracked_account
        then record { request = req; delay = delay; rate_limited = is_rate_limited now q } ∷ []
        else []

-- `++m_forbiddenStrikeCount`, and the lockout for it.
abbrev pub next_strike : MmrRequestQueue → ℕ
next_strike q = word64 (q.forbidden_strike_count + 1)

abbrev pub next_lockout : MmrRequestQueue → ℕ
next_lockout q = forbidden_lockout_for_strike (next_strike q) q.timings

abbrev pub locked_out : ℕ → MmrRequestQueue → MmrRequestQueue
locked_out now q = record q {
  forbidden_strike_count = next_strike q;
  rate_limited_until = now + next_lockout q;
}

unfoldable pub requeue_forbidden :
    Bool → ℕ → MmrRequest → MmrRequestQueue → MmrRequestQueue × List RetryEvent × Option (ℕ × ℕ)
requeue_forbidden running now request q =
    if not running
    then (q, [], none)
    else if not (is_retryable request q)
    then (locked_out now q, [], none)
    else (
      record (locked_out now q) { queue = req ∷ q.queue },
      events,
      some (next_strike q, next_lockout q),
    )
  where
    req : MmrRequest
    req = record request { not_before = now + next_lockout q }

    events : List RetryEvent
    events =
        if reason_eq request.reason tracked_account && q.has_tracked_retry_callback
        then record { request = req; delay = next_lockout q; rate_limited = true } ∷ []
        else []

unfoldable pub reset_forbidden : MmrRequestQueue → MmrRequestQueue × Bool
reset_forbidden q = (
  record q { forbidden_strike_count = 0; rate_limited_until = 0 },
  ltb 0 q.forbidden_strike_count,
)

unfoldable pub finish : MmrRequest → MmrRequestQueue → MmrRequestQueue
finish req q = elim req.reason [
  | post_match ↦ record q {
    pending_post_match_guids = erase_key req.match_guid q.pending_post_match_guids;
  }
  | tracked_account ↦
      if is_tracked_current req.primary_id req.tracked_generation q
      then record q {
        tracked_queued_or_in_flight = erase req.primary_id q.tracked_queued_or_in_flight;
      }
      else q
  | roster ↦ record q {
    roster_queued_or_in_flight = erase_key req.primary_id q.roster_queued_or_in_flight;
  }
]

unfoldable pub clear : MmrRequestQueue → MmrRequestQueue
clear q = record q {
  queue = [];
  roster_queued_or_in_flight = [];
  tracked_queued_or_in_flight = [];
  pending_post_match_guids = [];
}
