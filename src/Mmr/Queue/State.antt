-- ===== src/Mmr/Queue/State.antt =====
-- The fields of MmrRequestQueue.hpp and what is read of them.
use omni_stats.Prelude.{
  ℕ, ◌^◌, ◌%◌, String, Bool, false, ◌||◌, not, List, [], ◌∷◌, ◌++◌, Option, none, some, ltb, ◌==◌,
}
use omni_stats.Prelude.Maps.{lookup}
use omni_stats.Mmr.{MmrRequest, tracked_account, reason_eq, MmrTimings}

-- `uint64_t` and `size_t`.
abbrev pub word64 : ℕ → ℕ
word64 n = n % 2 ^ 64

pub record MmrRequestQueue : Type 0 where
  pub timings : MmrTimings
  pub queue : List MmrRequest
  pub roster_queued_or_in_flight : List String
  pub tracked_queued_or_in_flight : List (String × ℕ)
  pub next_tracked_generation : ℕ
  pub pending_post_match_guids : List String
  pub forbidden_strike_count : ℕ
  pub rate_limited_until : ℕ
  pub has_tracked_retry_callback : Bool

-- What `m_trackedRetryCallback` is called with.
pub record RetryEvent : Type 0 where
  pub request : MmrRequest
  pub delay : ℕ
  pub rate_limited : Bool

unfoldable pub new_queue : MmrTimings → MmrRequestQueue
new_queue timings = record {
  timings = timings;
  queue = [];
  roster_queued_or_in_flight = [];
  tracked_queued_or_in_flight = [];
  next_tracked_generation = 0;
  pending_post_match_guids = [];
  forbidden_strike_count = 0;
  rate_limited_until = 0;
  has_tracked_retry_callback = false;
}

abbrev pub push_back : MmrRequest → MmrRequestQueue → MmrRequestQueue
push_back r q = record q { queue = q.queue ++ r ∷ [] }

-- `it != end() && it->second == generation`.
abbrev pub is_generation : Option ℕ → ℕ → Bool
is_generation none generation = false
is_generation (some g) generation = g == generation

abbrev pub is_tracked_current : String → ℕ → MmrRequestQueue → Bool
is_tracked_current primary_id generation q =
    is_generation (lookup primary_id q.tracked_queued_or_in_flight) generation

abbrev pub is_current : MmrRequest → MmrRequestQueue → Bool
is_current req q =
    not (reason_eq req.reason tracked_account)
    || is_tracked_current req.primary_id req.tracked_generation q

abbrev pub is_rate_limited : ℕ → MmrRequestQueue → Bool
is_rate_limited now q = ltb now q.rate_limited_until
