-- ===== src/Mmr/Queue/Batch.antt =====
-- `DrainBatch`, `DrainBatchForReason`, `NextBatchReason` and `ReadyCount`, and how they agree with
-- `AssembleCustomApiBatch`.
use omni_stats.Prelude.{
  ℕ, zero, suc, ◌<◌, min, String, ◌≡◌, refl, sym, ap, ◌∙◌, inl, inr, Bool, true, false, ◌&&◌, List,
  [], ◌∷◌, Option, none, some, map, arith, ◌==◌, str_eq, if◌then◌else◌, any_of, find_if,
  any_of-find_if, FirstOf, find_if-FirstOf, subst, eq_iff, count_if-append, length, take, drop,
  keep_if, erase_if, count_if, length-keep_if, length-take, length-map, Bool-cases, Option-cases,
}
use omni_stats.Mmr.{
  MmrRequest, MmrRequestReason, AssembledBatch, roster, tracked_account, is_ready, empty_batch,
  custom_api_playlist_id_for_name, assemble_rest, assemble_first, assemble_custom_api_batch,
}
use omni_stats.Mmr.Queue.Loops.{drain_reason_loop-drain_loop}
use omni_stats.Mmr.Queue.{
  MmrRequestQueue, is_batched, drain_loop, drain_batch, drain_batch_for_reason, next_batch_reason,
  first_ready_playlist, ready_count,
}

-- The session that a request is stamped with when it leaves the queue.
abbrev pub stamp : ℕ → MmrRequest → MmrRequest
stamp session_gen r = record r { session_generation = session_gen }

module _ (reason : MmrRequestReason) (playlist : String) (now session_gen : ℕ) where
  abbrev wanted : MmrRequest → Bool
  wanted = is_batched reason playlist now

  record Drained (room : ℕ) (l : List MmrRequest) (r : List MmrRequest × List MmrRequest)
      : Type 0 where
    taken : r.0 ≡ map (stamp session_gen) (take room (keep_if wanted l))
    left : keep_if wanted r.1 ≡ drop room (keep_if wanted l)
    others : erase_if wanted r.1 ≡ erase_if wanted l

  drain_loop-Drained :
      (room : ℕ) (l : List MmrRequest)
      → Drained room l (drain_loop reason playlist now session_gen room l)
  unfolding drain_loop
  drain_loop-Drained zero [] = record { taken = refl; left = refl; others = refl }
  drain_loop-Drained (suc room) [] = record { taken = refl; left = refl; others = refl }
  drain_loop-Drained zero (x ∷ l) = record { taken = refl; left = refl; others = refl }
  drain_loop-Drained (suc room) (x ∷ l) = elim (Bool-cases (wanted x)) [
    | inl e ↦
        let ih = drain_loop-Drained room l in
        record {
          taken = rw e (ap (◌∷◌ (stamp session_gen x)) ih.taken);
          left = rw e ih.left;
          others = rw e ih.others;
        }
    | inr e ↦
        let ih = drain_loop-Drained (suc room) l in
        record {
          taken = rw e ih.taken;
          left = rw (e, e) ih.left;
          others = rw (e, e) (ap (◌∷◌ x) ih.others);
        }
  ]

-- `DrainBatch` takes the first `maxBatch` requests of the reason and playlist that are ready, in
-- queue order and stamped with the session; the further ones and all other requests stay, each in
-- order. The batch names the playlist and its id, and no other field of the queue changes.
pub drain_batch_lem :
    (reason : MmrRequestReason) (playlist : String) (now session_gen max_batch : ℕ)
    (q : MmrRequestQueue)
    → let (q', batch) = drain_batch reason playlist now session_gen max_batch q in
      let is_wanted = is_batched reason playlist now in
      (batch.requests ≡ map (stamp session_gen) (take max_batch (keep_if is_wanted q.queue)))
      × (keep_if is_wanted q'.queue ≡ drop max_batch (keep_if is_wanted q.queue))
      × (erase_if is_wanted q'.queue ≡ erase_if is_wanted q.queue)
      × (batch.playlist ≡ playlist)
      × (batch.playlist_id ≡ custom_api_playlist_id_for_name playlist)
      × (record q' { queue = q.queue } ≡ q)
unfolding drain_batch
drain_batch_lem reason playlist now session_gen max_batch q =
    let d = drain_loop-Drained reason playlist now session_gen max_batch q.queue in
    (d.taken, d.left, d.others, refl, refl, refl)

-- A batch is as large as `ReadyCount` and `maxBatch` allow.
pub length-drain_batch :
    (reason : MmrRequestReason) (playlist : String) (now session_gen max_batch : ℕ)
    (q : MmrRequestQueue)
    → length (drain_batch reason playlist now session_gen max_batch q).1.requests
      ≡ min max_batch (ready_count reason playlist now q)
unfolding ready_count
length-drain_batch reason playlist now session_gen max_batch q =
    let is_wanted = is_batched reason playlist now in
    rw (
      (drain_batch_lem reason playlist now session_gen max_batch q).0,
      length-map (stamp session_gen) (take max_batch (keep_if is_wanted q.queue)),
      length-take max_batch (keep_if is_wanted q.queue),
      length-keep_if is_wanted q.queue,
    )

-- `DrainBatchForReason`, with a search and a loop of its own, leaves the queue and the batch that
-- `DrainBatch` leaves for the playlist of `FirstReadyPlaylist`, and takes nothing when there is none.
pub drain_batch_for_reason_lem :
    (reason : MmrRequestReason) (now session_gen max_batch : ℕ) (q : MmrRequestQueue)
    → drain_batch_for_reason reason now session_gen max_batch q
      ≡ (elim (first_ready_playlist reason now q) [
        | none ↦ (q, empty_batch)
        | some playlist ↦ drain_batch reason playlist now session_gen max_batch q
      ])
unfolding drain_batch_for_reason first_ready_playlist drain_batch
drain_batch_for_reason_lem reason now session_gen max_batch q =
    elim (Option-cases (find_if (is_ready reason now) q.queue)) [
      | inl e ↦ rw (e, drain_batch_for_reason)
      | inr (r, e) ↦ rw (
        e,
        drain_batch_for_reason,
        drain_reason_loop-drain_loop reason r.playlist now session_gen max_batch q.queue,
      )
    ]

assemble_rest-take :
    (reason : MmrRequestReason) (playlist : String) (now room : ℕ) (l : List MmrRequest)
    → assemble_rest reason playlist now room l
      ≡ take room (keep_if (is_batched reason playlist now) l)
unfolding assemble_rest
assemble_rest-take reason playlist now zero [] = refl
assemble_rest-take reason playlist now (suc room) [] = refl
assemble_rest-take reason playlist now zero (x ∷ l) = refl
assemble_rest-take reason playlist now (suc room) (x ∷ l) =
    elim (Bool-cases (is_batched reason playlist now x)) [
      | inl e ↦ rw (e, reorder x, e) (ap (◌∷◌ x) (assemble_rest-take reason playlist now room l))
      | inr e ↦ rw (e, reorder x, e) (assemble_rest-take reason playlist now (suc room) l)
    ]
  where
    reorder :
        (r : MmrRequest)
        → (is_ready reason now r && str_eq r.playlist playlist) ≡ is_batched reason playlist now r
    reorder r = ground arith

-- The batch that starts at the first ready request, if there is one.
abbrev first_batch : MmrRequestReason → ℕ → ℕ → List MmrRequest → Option MmrRequest → AssembledBatch
first_batch reason now room l none = empty_batch
first_batch reason now room l (some r) = record {
  requests = take room (keep_if (is_batched reason r.playlist now) l);
  playlist = r.playlist;
  playlist_id = custom_api_playlist_id_for_name r.playlist;
}

first_batch-cons :
    (reason : MmrRequestReason) (now room : ℕ) (x : MmrRequest) (l : List MmrRequest)
    (o : Option MmrRequest)
    → is_ready reason now x ≡ false
    → first_batch reason now room l o ≡ first_batch reason now room (x ∷ l) o
first_batch-cons reason now room x l none e = refl
first_batch-cons reason now room x l (some r) e =
    let skip : is_batched reason r.playlist now x ≡ false = ground arith in rw skip

assemble_first-first_batch :
    (reason : MmrRequestReason) (now room : ℕ) (l : List MmrRequest)
    → assemble_first reason now room l
      ≡ first_batch reason now room l (find_if (is_ready reason now) l)
unfolding assemble_first
assemble_first-first_batch reason now room [] = refl
assemble_first-first_batch reason now room (x ∷ l) = elim (Bool-cases (is_ready reason now x)) [
  | inl e ↦ rw e (
      ap
        (λ taken. record {
          requests = taken;
          playlist = x.playlist;
          playlist_id = custom_api_playlist_id_for_name x.playlist;
        })
        (assemble_rest-take reason x.playlist now room (x ∷ l)))
  | inr e ↦ rw e (
      assemble_first-first_batch reason now room l
      ∙ first_batch-cons reason now room x l (find_if (is_ready reason now) l) e)
]

abbrev pub stamp_batch : ℕ → AssembledBatch → AssembledBatch
stamp_batch session_gen batch = record batch { requests = map (stamp session_gen) batch.requests }

drain_first_batch :
    (reason : MmrRequestReason) (now session_gen max_batch : ℕ) (q : MmrRequestQueue)
    → (drain_batch_for_reason reason now session_gen max_batch q).1
      ≡ stamp_batch session_gen
          (first_batch reason now max_batch q.queue (find_if (is_ready reason now) q.queue))
unfolding drain_batch_for_reason
drain_first_batch reason now session_gen max_batch q =
    elim (Option-cases (find_if (is_ready reason now) q.queue)) [
      | inl e ↦ rw (e, drain_batch_for_reason)
      | inr (r, e) ↦
          rw
            (
              e,
              drain_batch_for_reason,
              drain_reason_loop-drain_loop reason r.playlist now session_gen max_batch q.queue,
            )
            (ap
              (λ taken. record {
                requests = taken;
                playlist = r.playlist;
                playlist_id = custom_api_playlist_id_for_name r.playlist;
              })
              (drain_loop-Drained reason r.playlist now session_gen max_batch q.queue).taken)
    ]

assembled :
    (now max_batch : ℕ) (l : List MmrRequest) (reason : MmrRequestReason)
    → 0 < max_batch
    → (if any_of (is_ready roster now) l then roster else tracked_account) ≡ reason
    → assemble_custom_api_batch l now max_batch
      ≡ first_batch reason now max_batch l (find_if (is_ready reason now) l)
unfolding assemble_custom_api_batch
assembled now max_batch [] reason h e = refl
assembled now max_batch (x ∷ l) reason h e =
    let nonzero : (max_batch == 0) ≡ false = ground arith in
    subst
      (λ r.
        assemble_custom_api_batch (x ∷ l) now max_batch
        ≡ first_batch r now max_batch (x ∷ l) (find_if (is_ready r now) (x ∷ l)))
      e (rw nonzero (assemble_first-first_batch _ now max_batch (x ∷ l)))

-- `AssembleCustomApiBatch` on the queue's requests picks what `DrainBatchForReason` would take for
-- the reason of `NextBatchReason`, but for the session that the drain stamps: for a positive batch
-- size the two batches are equal, and both are empty when there is no such reason.
pub assemble_custom_api_batch-drain :
    (now session_gen max_batch : ℕ) (q : MmrRequestQueue)
    → 0 < max_batch
    → stamp_batch session_gen (assemble_custom_api_batch q.queue now max_batch)
      ≡ (elim (next_batch_reason now q) [
        | none ↦ empty_batch
        | some reason ↦ (drain_batch_for_reason reason now session_gen max_batch q).1
      ])
unfolding next_batch_reason
assemble_custom_api_batch-drain now session_gen max_batch q h =
    elim (Bool-cases (any_of (is_ready roster now) q.queue)) [
      | inl e ↦ rw e (drained roster (rw e))
      | inr e ↦ rw e (elim (Bool-cases (any_of (is_ready tracked_account now) q.queue)) [
        | inl t ↦ rw t (drained tracked_account (rw e))
        | inr t ↦ rw t (
            ap (stamp_batch session_gen) (
              assembled now max_batch q.queue tracked_account h (rw e)
              ∙ ap (first_batch tracked_account now max_batch q.queue)
                  (any_of-find_if (is_ready tracked_account now) q.queue t)))
      ])
    ]
  where
    drained :
        (reason : MmrRequestReason)
        → (if any_of (is_ready roster now) q.queue then roster else tracked_account) ≡ reason
        → stamp_batch session_gen (assemble_custom_api_batch q.queue now max_batch)
          ≡ (drain_batch_for_reason reason now session_gen max_batch q).1
    drained reason e =
        ap (stamp_batch session_gen) (assembled now max_batch q.queue reason h e)
        ∙ sym (drain_first_batch reason now session_gen max_batch q)

first_wanted :
    (reason : MmrRequestReason) (now session_gen max_batch : ℕ) (q : MmrRequestQueue)
    (o : Option MmrRequest)
    → 0 < max_batch
    → any_of (is_ready reason now) q.queue ≡ true
    → FirstOf (is_ready reason now) q.queue o
    → 0 < length (first_batch reason now max_batch q.queue o).requests
first_wanted reason now session_gen max_batch q none h t f = cc (f.0)
first_wanted reason now session_gen max_batch q (some r) h t (xs, ys, s, n, p, u) =
    let wanted = is_batched reason r.playlist now in
    let here : wanted r ≡ true = ground (arith, eq_iff r.playlist r.playlist) in
    omega (
      arith,
      length-take max_batch (keep_if wanted q.queue),
      length-keep_if wanted q.queue,
      ap (count_if wanted) s,
      count_if-append wanted xs (r ∷ ys),
      ap (λ (b : Bool). if b then suc (count_if wanted ys) else count_if wanted ys) here,
    )

-- Whenever `NextBatchReason` names a reason, `DrainBatchForReason` takes at least one request for
-- it, if the batch size is positive.
pub next_batch_reason-drain :
    (now session_gen max_batch : ℕ) (q : MmrRequestQueue) (reason : MmrRequestReason)
    → 0 < max_batch
    → next_batch_reason now q ≡ some reason
    → 0 < length (drain_batch_for_reason reason now session_gen max_batch q).1.requests
unfolding next_batch_reason
next_batch_reason-drain now session_gen max_batch q reason h e =
    let batch = first_batch reason now max_batch q.queue (find_if (is_ready reason now) q.queue) in
    let ready : any_of (is_ready reason now) q.queue ≡ true = ground arith in
    rw
      (
        drain_first_batch reason now session_gen max_batch q,
        length-map (stamp session_gen) batch.requests,
      )
      (first_wanted reason now session_gen max_batch q (find_if (is_ready reason now) q.queue) h
        ready (find_if-FirstOf (is_ready reason now) q.queue))
