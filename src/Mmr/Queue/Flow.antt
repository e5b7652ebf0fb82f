-- ===== src/Mmr/Queue/Flow.antt =====
-- Requests neither appear nor vanish when they leave the queue.
use omni_stats.Prelude.{
  ℕ, zero, suc, ◌+◌, ◌≡◌, refl, ap, String, Bool, List, [], ◌∷◌, ◌++◌, Option, none, some, arith,
  find_if, erase_first, FirstOf, find_if-FirstOf, count_if, count_if-append,
}
use omni_stats.Mmr.{MmrRequest, MmrRequestReason}
use omni_stats.Mmr.Queue.{
  MmrRequestQueue, drain_loop, drain_batch, take_first, take_tracked_account, pop_next,
  pop_next_post_match,
}
use omni_stats.Mmr.Queue.Batch.{stamp}
use omni_stats.Mmr.Queue.Pop.{
  PopsNext, limited, idle, pops, PopsPostMatch, pop_next-PopsNext,
  pop_next_post_match-PopsPostMatch,
}

abbrev pub returned : Option MmrRequest → List MmrRequest
returned none = []
returned (some r) = r ∷ []

-- `out` left the queue and nothing else changed. A test may not look at the session, with which a
-- drained request is stamped.
pub record Moved (q q' : MmrRequestQueue) (out : List MmrRequest) : Type 0 where
  pub shape : q' ≡ record q { queue = q'.queue }
  pub conserved :
      (p : MmrRequest → Bool)
      → ((g : ℕ) (r : MmrRequest) → p (stamp g r) ≡ p r)
      → count_if p q'.queue + count_if p out ≡ count_if p q.queue

Moved-none : (q : MmrRequestQueue) → Moved q q []
Moved-none q = record { shape = refl; conserved = λ p h. omega arith }

count_if-middle :
    (p : MmrRequest → Bool) (xs ys l : List MmrRequest) (r : MmrRequest)
    → l ≡ xs ++ r ∷ ys
    → count_if p (xs ++ ys) + count_if p (r ∷ []) ≡ count_if p l
count_if-middle p xs ys l r e =
    ground (arith, ap (count_if p) e, count_if-append p xs ys, count_if-append p xs (r ∷ ys))

Moved-middle :
    (q : MmrRequestQueue) (xs ys : List MmrRequest) (r : MmrRequest)
    → q.queue ≡ xs ++ r ∷ ys
    → Moved q (record q { queue = xs ++ ys }) (r ∷ [])
Moved-middle q xs ys r e = record {
  shape = refl;
  conserved = λ p h. count_if-middle p xs ys q.queue r e;
}

PopsNext-Moved :
    (now : ℕ) (q : MmrRequestQueue) {o : MmrRequestQueue × Option MmrRequest}
    → PopsNext now q o
    → Moved q o.0 (returned o.1)
PopsNext-Moved now q (limited h) = Moved-none q
PopsNext-Moved now q (idle h k t) = Moved-none q
PopsNext-Moved now q (pops reason xs ys r h s o) = Moved-middle q xs ys r o.split

pub pop_next-Moved :
    (now : ℕ) (q : MmrRequestQueue) → Moved q (pop_next now q).0 (returned (pop_next now q).1)
pop_next-Moved now q = PopsNext-Moved now q (pop_next-PopsNext now q)

PopsPostMatch-Moved :
    (now : ℕ) (q : MmrRequestQueue) {o : MmrRequestQueue × Option MmrRequest}
    → PopsPostMatch now q o
    → Moved q o.0 (returned o.1)
PopsPostMatch-Moved now q (limited h) = Moved-none q
PopsPostMatch-Moved now q (idle h k) = Moved-none q
PopsPostMatch-Moved now q (pops xs ys r h s n t) = Moved-middle q xs ys r s

pub pop_next_post_match-Moved :
    (now : ℕ) (q : MmrRequestQueue)
    → Moved q (pop_next_post_match now q).0 (returned (pop_next_post_match now q).1)
pop_next_post_match-Moved now q =
    PopsPostMatch-Moved now q (pop_next_post_match-PopsPostMatch now q)

take_first-Moved :
    (p : MmrRequest → Bool) (q : MmrRequestQueue)
    → Moved q (take_first p q).0 (returned (take_first p q).1)
take_first-Moved p q = taken (find_if p q.queue) (find_if-FirstOf p q.queue)
  where
    taken :
        (o : Option MmrRequest)
        → FirstOf p q.queue o
        → let (q', r) = elim o as (λ _. MmrRequestQueue × Option MmrRequest) [
          | none ↦ (q, none)
          | some r ↦ (record q { queue = erase_first p q.queue }, some r)
        ] in
          Moved q q' (returned r)
    taken none h = Moved-none q
    taken (some r) (xs, ys, s, n, t, u) = rw u (Moved-middle q xs ys r s)

pub take_tracked_account-Moved :
    (primary_id : String) (generation : ℕ) (q : MmrRequestQueue)
    → let (q', r) = take_tracked_account primary_id generation q in Moved q q' (returned r)
unfolding take_tracked_account
take_tracked_account-Moved primary_id generation q = take_first-Moved _ q

module _ (reason : MmrRequestReason) (playlist : String) (now session_gen : ℕ) where
  count_if-drain_loop :
      (p : MmrRequest → Bool)
      → ((r : MmrRequest) → p (stamp session_gen r) ≡ p r)
      → (room : ℕ) (l : List MmrRequest)
      → let r = drain_loop reason playlist now session_gen room l in
        count_if p r.1 + count_if p r.0 ≡ count_if p l
  unfolding drain_loop
  count_if-drain_loop p h zero [] = omega arith
  count_if-drain_loop p h (suc room) [] = omega arith
  count_if-drain_loop p h zero (x ∷ l) = omega arith
  count_if-drain_loop p h (suc room) (x ∷ l) =
      ground (arith, h x, count_if-drain_loop p h room l, count_if-drain_loop p h (suc room) l)

pub drain_batch-Moved :
    (reason : MmrRequestReason) (playlist : String) (now session_gen max_batch : ℕ)
    (q : MmrRequestQueue)
    → let (q', batch) = drain_batch reason playlist now session_gen max_batch q in
      Moved q q' batch.requests
unfolding drain_batch
drain_batch-Moved reason playlist now session_gen max_batch q = record {
  shape = refl;
  conserved = λ p h.
      count_if-drain_loop reason playlist now session_gen p (h session_gen) max_batch q.queue;
}
