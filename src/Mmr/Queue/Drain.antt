-- ===== src/Mmr/Queue/Drain.antt =====
-- The batches of MmrRequestQueue.cpp, from `DrainBatch` to `HasReady`.
use omni_stats.Prelude.{
  ℕ, zero, suc, String, Bool, ◌&&◌, List, [], ◌∷◌, ◌++◌, Option, none, some, leb, ltb, str_eq,
  if◌then◌else◌, any_of, find_if, count_if, length,
}
use omni_stats.Mmr.{
  MmrRequest, MmrRequestReason, roster, tracked_account, reason_eq, AssembledBatch, empty_batch,
  custom_api_playlist_id_for_name, is_ready,
}
use omni_stats.Mmr.Queue.State.{MmrRequestQueue}

abbrev pub is_batched : MmrRequestReason → String → ℕ → MmrRequest → Bool
is_batched reason playlist now r =
    reason_eq r.reason reason && str_eq r.playlist playlist && leb r.not_before now

-- The loop of `DrainBatch`, `room` being what `maxBatch` leaves: the requests taken, stamped with
-- the session, and those that stay.
unfoldable pub drain_loop :
    MmrRequestReason → String → ℕ → ℕ → ℕ → List MmrRequest → List MmrRequest × List MmrRequest
drain_loop reason playlist now session_gen room [] = ([], [])
drain_loop reason playlist now session_gen zero (r ∷ rs) = ([], r ∷ rs)
drain_loop reason playlist now session_gen (suc room) (r ∷ rs) =
    let taken = drain_loop reason playlist now session_gen room rs in
    let kept = drain_loop reason playlist now session_gen (suc room) rs in
    if is_batched reason playlist now r
    then (record r { session_generation = session_gen } ∷ taken.0, taken.1)
    else (kept.0, r ∷ kept.1)

unfoldable pub drain_batch :
    MmrRequestReason → String → ℕ → ℕ → ℕ → MmrRequestQueue → MmrRequestQueue × AssembledBatch
unfolding drain_loop
drain_batch reason playlist now session_gen max_batch q =
    let (taken, rest) = drain_loop reason playlist now session_gen max_batch q.queue in
    (
      record q { queue = rest },
      record {
        requests = taken;
        playlist = playlist;
        playlist_id = custom_api_playlist_id_for_name playlist;
      },
    )

-- The loop of `DrainBatchForReason`, from the requests taken and those passed so far: it ends where
-- the batch is full, and else takes the next request or passes it.
unfoldable pub drain_reason_loop :
    MmrRequestReason
    → String
    → ℕ
    → ℕ
    → ℕ
    → List MmrRequest
    → List MmrRequest
    → List MmrRequest
    → List MmrRequest × List MmrRequest
drain_reason_loop reason playlist now session_gen max_batch taken passed [] = (taken, passed)
drain_reason_loop reason playlist now session_gen max_batch taken passed (r ∷ rs) =
    let fits = reason_eq r.reason reason && str_eq r.playlist playlist && leb r.not_before now in
    let item = record r { session_generation = session_gen } in
    let rest =
      drain_reason_loop reason playlist now session_gen max_batch
        (if fits then taken ++ item ∷ [] else taken) (if fits then passed else passed ++ r ∷ [])
        rs in
    if ltb (length taken) max_batch then rest else (taken, passed ++ r ∷ rs)

unfoldable pub drain_batch_for_reason :
    MmrRequestReason → ℕ → ℕ → ℕ → MmrRequestQueue → MmrRequestQueue × AssembledBatch
unfolding drain_reason_loop
drain_batch_for_reason reason now session_gen max_batch q =
    elim (find_if (is_ready reason now) q.queue) [
      | none ↦ (q, empty_batch)
      | some first ↦
          drained first.playlist
            (drain_reason_loop reason first.playlist now session_gen max_batch [] [] q.queue)
    ]
  where
    drained : String → List MmrRequest × List MmrRequest → MmrRequestQueue × AssembledBatch
    drained playlist (taken, rest) = (
      record q { queue = rest },
      record {
        requests = taken;
        playlist = playlist;
        playlist_id = custom_api_playlist_id_for_name playlist;
      },
    )

unfoldable pub has_ready : MmrRequestReason → ℕ → MmrRequestQueue → Bool
has_ready reason now q = any_of (is_ready reason now) q.queue

unfoldable pub next_batch_reason : ℕ → MmrRequestQueue → Option MmrRequestReason
next_batch_reason now q =
    if any_of (is_ready roster now) q.queue
    then some roster
    else if any_of (is_ready tracked_account now) q.queue
    then some tracked_account
    else none

unfoldable pub first_ready_playlist : MmrRequestReason → ℕ → MmrRequestQueue → Option String
first_ready_playlist reason now q = elim (find_if (is_ready reason now) q.queue) [
  | none ↦ none
  | some r ↦ some r.playlist
]

unfoldable pub ready_count : MmrRequestReason → String → ℕ → MmrRequestQueue → ℕ
ready_count reason playlist now q = count_if (is_batched reason playlist now) q.queue
