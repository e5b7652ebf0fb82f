-- ===== src/Mmr/Queue/Loops.antt =====
-- The two loops of src/network/mmr/MmrRequestQueue.cpp that take a batch.
use mathlib.Core.List.{append_assoc, append-nil}
use omni_stats.Prelude.{
  ℕ, zero, suc, ◌+◌, ◌≡◌, ap, ◌∙◌, true, false, List, [], ◌∷◌, ◌++◌, arith, ltb, length,
  length-append, inl, inr, Bool-cases, String,
}
use omni_stats.Mmr.{MmrRequest, MmrRequestReason}
use omni_stats.Mmr.Queue.{is_batched, drain_loop, drain_reason_loop}

-- From what is taken and passed so far, the loop of `DrainBatchForReason` goes on like the one of
-- `DrainBatch` with the room that is left.
go_on :
    (reason : MmrRequestReason) (playlist : String) (now session_gen max_batch room : ℕ)
    (taken passed l : List MmrRequest)
    → room + length taken ≡ max_batch
    → let r = drain_loop reason playlist now session_gen room l in
      drain_reason_loop reason playlist now session_gen max_batch taken passed l
      ≡ (taken ++ r.0, passed ++ r.1)
unfolding drain_reason_loop drain_loop
go_on reason playlist now session_gen max_batch zero taken passed [] h =
    rw (append-nil taken, append-nil passed)
go_on reason playlist now session_gen max_batch (suc room) taken passed [] h =
    rw (append-nil taken, append-nil passed)
go_on reason playlist now session_gen max_batch zero taken passed (x ∷ l) h =
    let full : ltb (length taken) max_batch ≡ false = ground arith in rw (full, append-nil taken)
go_on reason playlist now session_gen max_batch (suc room) taken passed (x ∷ l) h =
    let more : ltb (length taken) max_batch ≡ true = ground arith in
    let item = record x { session_generation = session_gen } in
    elim (Bool-cases (is_batched reason playlist now x)) [
      | inl e ↦
          rw (more, e)
            (go_on reason playlist now session_gen max_batch room (taken ++ item ∷ []) passed l
                (omega (arith, h, length-append taken (item ∷ [])))
              ∙ ap (λ t. (t, passed ++ (drain_loop reason playlist now session_gen room l).1))
                  (append_assoc taken (item ∷ []) _))
      | inr e ↦
          rw (more, e)
            (go_on reason playlist now session_gen max_batch (suc room) taken (passed ++ x ∷ []) l h
              ∙ ap (λ t. (taken ++ (drain_loop reason playlist now session_gen (suc room) l).0, t))
                  (append_assoc passed (x ∷ []) _))
    ]

-- From the start the two loops are the same.
pub drain_reason_loop-drain_loop :
    (reason : MmrRequestReason) (playlist : String) (now session_gen max_batch : ℕ)
    (l : List MmrRequest)
    → drain_reason_loop reason playlist now session_gen max_batch [] [] l
      ≡ drain_loop reason playlist now session_gen max_batch l
drain_reason_loop-drain_loop reason playlist now session_gen max_batch l =
    go_on reason playlist now session_gen max_batch max_batch [] [] l (omega arith)
