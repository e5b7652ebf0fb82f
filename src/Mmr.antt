-- ===== src/Mmr.antt =====
-- src/network/mmr: the requests for ratings, the queue that holds them and the batches made of
-- them. Names follow MmrTypes.hpp, MmrTimings.hpp and MmrServiceDetail.hpp.
--
-- A `steady_clock` time point is its number of ticks since the clock's epoch, and a duration is a
-- number of ticks; the readings of a monotonic clock are not negative.
pub mod Queue
pub mod Path
use omni_stats.Prelude.{
  ℕ, zero, suc, ◌+◌, ◌^◌, ◌%◌, String, Bool, true, false, ◌&&◌, ◌||◌, not, List, [], ◌∷◌, Option,
  none, some, leb, ltb, ◌==◌, str_eq, if◌then◌else◌, is_empty, any_of, length, ◌++◌,
}
use omni_stats.Prelude.Int.{ℤ, pos, negsuc}

pub data MmrRequestReason : Type 0 where
  roster post_match tracked_account : MmrRequestReason

abbrev pub reason_eq : MmrRequestReason → MmrRequestReason → Bool
reason_eq roster roster = true
reason_eq post_match post_match = true
reason_eq tracked_account tracked_account = true
reason_eq _ _ = false

pub record MmrRequest : Type 0 where
  pub primary_id : String
  pub name : String
  pub reason : MmrRequestReason
  pub match_guid : String
  pub playlist : String
  pub previous_mmr : ℤ
  pub previous_matches : ℤ
  pub previous_mmr_is_playlist_specific : Bool
  pub won : Bool
  pub result_known : Bool
  pub retries_remaining : ℤ
  pub not_before : ℕ
  pub session_generation : ℕ
  pub tracked_generation : ℕ

-- A request with the initial values of the struct.
abbrev pub blank_request : MmrRequest
blank_request = record {
  primary_id = "";
  name = "";
  reason = roster;
  match_guid = "";
  playlist = "";
  previous_mmr = pos 0;
  previous_matches = negsuc 0;
  previous_mmr_is_playlist_specific = false;
  won = false;
  result_known = true;
  retries_remaining = pos 2;
  not_before = 0;
  session_generation = 0;
  tracked_generation = 0;
}

pub data TrackedEnqueueResult : Type 0 where
  queued already_queued provider_unavailable invalid_identity : TrackedEnqueueResult

pub record MmrTimings : Type 0 where
  pub post_match_initial_delay : ℕ
  pub stale_post_match_retry_delay : ℕ
  pub transient_retry_delay : ℕ
  pub queue_spacing : ℕ
  pub rate_limit_lockout_minimum : ℕ
  pub forbidden_lockout_first : ℕ
  pub forbidden_lockout_second : ℕ
  pub forbidden_lockout_maximum : ℕ
  pub forbidden_attempt_delay : ℕ
  pub batch_coalesce_window : ℕ

-- The defaults, in milliseconds.
abbrev pub default_timings : MmrTimings
default_timings = record {
  post_match_initial_delay = 2500;
  stale_post_match_retry_delay = 3000;
  transient_retry_delay = 3000;
  queue_spacing = 1500;
  rate_limit_lockout_minimum = 120000;
  forbidden_lockout_first = 300000;
  forbidden_lockout_second = 900000;
  forbidden_lockout_maximum = 1800000;
  forbidden_attempt_delay = 500;
  batch_coalesce_window = 300;
}

unfoldable pub forbidden_lockout_for_strike : ℕ → MmrTimings → ℕ
forbidden_lockout_for_strike strike timings =
    if leb strike 1
    then timings.forbidden_lockout_first
    else if strike == 2
    then timings.forbidden_lockout_second
    else timings.forbidden_lockout_maximum

unfoldable pub custom_api_playlist_id_for_name : String → ℕ
custom_api_playlist_id_for_name playlist =
    if str_eq playlist "1v1"
    then 10
    else if str_eq playlist "2v2"
    then 11
    else if str_eq playlist "3v3"
    then 13
    else if str_eq playlist "hoops"
    then 27
    else if str_eq playlist "rumble"
    then 28
    else if str_eq playlist "dropshot"
    then 29
    else if str_eq playlist "snowday"
    then 30
    else if str_eq playlist "t"
    then 34
    else if str_eq playlist "heatseeker"
    then 63
    else 0

pub record AssembledBatch : Type 0 where
  pub requests : List MmrRequest
  pub playlist : String
  pub playlist_id : ℕ

abbrev pub empty_batch : AssembledBatch
empty_batch = record { requests = []; playlist = ""; playlist_id = 0 }

-- `r.reason == reason && r.notBefore <= now`, the test of most scans of the queue.
abbrev pub is_ready : MmrRequestReason → ℕ → MmrRequest → Bool
is_ready reason now r = reason_eq r.reason reason && leb r.not_before now

-- The loop of `AssembleCustomApiBatch` once the first request gave the playlist: `room` is what
-- `maxBatchSize` leaves, and not 0.
assemble_rest : MmrRequestReason → String → ℕ → ℕ → List MmrRequest → List MmrRequest
assemble_rest reason playlist now room [] = []
assemble_rest reason playlist now zero (r ∷ rs) = []
assemble_rest reason playlist now (suc room) (r ∷ rs) =
    let taken = assemble_rest reason playlist now room rs in
    let skipped = assemble_rest reason playlist now (suc room) rs in
    if is_ready reason now r && str_eq r.playlist playlist then r ∷ taken else skipped

-- The loop up to the first request of the target reason that is ready.
assemble_first : MmrRequestReason → ℕ → ℕ → List MmrRequest → AssembledBatch
unfolding assemble_rest
assemble_first reason now room [] = empty_batch
assemble_first reason now room (r ∷ rs) =
    let later = assemble_first reason now room rs in
    if is_ready reason now r
    then record {
      requests = assemble_rest reason r.playlist now room (r ∷ rs);
      playlist = r.playlist;
      playlist_id = custom_api_playlist_id_for_name r.playlist;
    }
    else later

unfoldable pub assemble_custom_api_batch : List MmrRequest → ℕ → ℕ → AssembledBatch
unfolding assemble_first
assemble_custom_api_batch candidates now max_size =
    if is_empty candidates || max_size == 0
    then empty_batch
    else assemble_first
        (if any_of (is_ready roster now) candidates then roster else tracked_account) now max_size
        candidates
