-- ===== src/WorkQueue/Stop.antt =====
-- The loop of the worker in src/utils/WorkQueue.cpp once `Stop` was called: it returns when the queue is
-- empty, so `Stop`, which joins the worker, returns too.
use omni_stats.Prelude.{
  ℕ, zero, suc, ◌+◌, ◌<◌, ◌≤◌, ◌≡◌, refl, sym, ap, subst, ◌∙◌, Bool, true, false, List, [], ◌∷◌,
  ◌++◌, Option, none, some, arith,
}
use mathlib.Core.List.{append-nil}
use omni_stats.WorkQueue.{WorkQueue, Wake, enqueue, wake, finish_job}
use omni_stats.WorkQueue.Order.{
  System, Step, Reach, after_enqueue, after_wake, after_finish, new_system, Reach-Inv,
  new_system-Inv,
}

module _ {ℓ} {A : Type ℓ} (enqueues : A → List (A × Bool)) where
  -- The calls of `Enqueue` in a job, each with its `critical`.
  abbrev pub enqueue_all : List (A × Bool) → System A → System A
  enqueue_all [] s = s
  enqueue_all ((job, critical) ∷ rest) s = enqueue_all rest (after_enqueue true job critical s)

  abbrev pub run_job : A → System A → System A
  run_job job s = after_finish (enqueue_all (enqueues job) s)

  -- The loop of the worker, when no other thread takes the mutex in between: `none` where it waits or
  -- the fuel is spent.
  unfoldable pub worker_loop : ℕ → System A → Option (System A)
  worker_loop zero s = none
  worker_loop (suc n) s =
      let woken = after_wake s in
      elim (wake s.queue).1 [
        | Wake.waits ↦ none
        | Wake.ends ↦ some woken
        | Wake.runs job ↦ worker_loop n (run_job job woken)
      ]

  module _ (weight : A → ℕ) where
    abbrev pub total : List A → ℕ
    total [] = 0
    total (job ∷ rest) = weight job + total rest

    abbrev pub total_enqueued : List (A × Bool) → ℕ
    total_enqueued [] = 0
    total_enqueued ((job, critical) ∷ rest) = weight job + total_enqueued rest

    total-append : (l : List A) (job : A) → total (l ++ job ∷ []) ≡ total l + weight job
    total-append [] job = omega arith
    total-append (x ∷ l) job = omega (arith, total-append l job)

    -- What a call of `Enqueue` keeps, and how much it adds.
    enqueue-total :
        (job : A) (critical : Bool) (q : WorkQueue A)
        → let r = enqueue true job critical q in
          (r.0.stop ≡ q.stop) × (total r.0.jobs ≤ total q.jobs + weight job)
    unfolding enqueue
    enqueue-total job critical q = ground (arith, total-append q.jobs job)

    enqueue_all-total :
        (l : List (A × Bool)) (s : System A)
        → let t = enqueue_all l s in
          (t.queue.stop ≡ s.queue.stop)
          × (total t.queue.jobs ≤ total s.queue.jobs + total_enqueued l)
    enqueue_all-total [] s = (refl, omega arith)
    enqueue_all-total ((job, critical) ∷ rest) s =
        let first = enqueue-total job critical s.queue in
        let t = enqueue_all-total rest (after_enqueue true job critical s) in
        (t.0 ∙ first.0, omega (arith, first.1, t.1))

    enqueue_all-running :
        (l : List (A × Bool)) (s : System A) → (enqueue_all l s).running ≡ s.running
    enqueue_all-running [] s = refl
    enqueue_all-running ((job, critical) ∷ rest) s =
        enqueue_all-running rest (after_enqueue true job critical s)

    Reach-enqueued :
        (job : A) (l : List (A × Bool)) (s t : System A)
        → s.running ≡ some job
        → Reach (enqueue_all l s) t
        → Reach s t
    Reach-enqueued job [] s t r h = h
    Reach-enqueued job ((next, critical) ∷ rest) s t r h =
        Reach.next s (after_enqueue true next critical s) t (Step.enqueued_by job next critical s r)
          (Reach-enqueued job rest (after_enqueue true next critical s) t r h)

    Reach-run :
        (job : A) (s t : System A) → s.running ≡ some job → Reach (run_job job s) t → Reach s t
    Reach-run job s t r h =
        let ran = enqueue_all (enqueues job) s in
        Reach-enqueued job (enqueues job) s t r (
          Reach.next ran (run_job job s) t
            (Step.finished job ran (enqueue_all-running (enqueues job) s ∙ r)) h)

    -- Where the loop gets to.
    Ended : System A → Option (System A) → Type ℓ
    Ended s o = (t : System A) × (o ≡ some t) × Reach s t × (t.running ≡ none) × (t.queue.jobs ≡ [])

    run-total :
        (job : A) (rest : List A) (s : System A)
        → total_enqueued (enqueues job) < weight job
        → s.queue.jobs ≡ rest
        → s.queue.stop ≡ true
        → let t = run_job job s in
          (t.queue.stop ≡ true) × (total t.queue.jobs < weight job + total rest)
    unfolding finish_job
    run-total job rest s w e h =
        let k = enqueue_all-total (enqueues job) s in
        let same : total s.queue.jobs ≡ total rest = ap total e in
        (k.0 ∙ h, omega (arith, k.1, same, w))

    abbrev idle_with : List A → Bool → Bool → List A → List A → System A
    idle_with jobs stop active accepted started = record {
      queue = record { jobs = jobs; stop = stop; active = active };
      running = none;
      accepted = accepted;
      started = started;
    }

    loop_ends :
        ((job : A) → total_enqueued (enqueues job) < weight job)
        → (n : ℕ) (jobs : List A) (stop active : Bool) (accepted started : List A) → stop ≡ true
        → total jobs < n
        → let s = idle_with jobs stop active accepted started in Ended s (worker_loop n s)
    unfolding worker_loop wake finish_job Ended
    loop_ends w zero jobs stop active accepted started e h =
        let bad : true ≡ false = ground (arith, h) in cc
    loop_ends w (suc n) [] false active accepted started e h = cc
    loop_ends w (suc n) [] true active accepted started e h =
        let s = idle_with [] true active accepted started in (s, refl, Reach.here s, refl, refl)
    loop_ends w (suc n) (job ∷ rest) stop active accepted started e h =
        let s = idle_with (job ∷ rest) stop active accepted started in
        let woken = after_wake s in
        let t = run_job job woken in
        let k = run-total job rest woken (w job) refl e in
        let (u, loops, reach, idle, empty) =
          loop_ends w n t.queue.jobs t.queue.stop t.queue.active t.accepted t.started k.0
            (omega (arith, k.1, h)) in
        (
          u,
          loops,
          Reach.next s woken u (Step.woken s refl) (Reach-run job woken u refl reach),
          idle,
          empty,
        )

    Ended-at :
        ((job : A) → total_enqueued (enqueues job) < weight job)
        → (s : System A) → s.queue.stop ≡ true
        → s.running ≡ none
        → Ended s (worker_loop (suc (total s.queue.jobs)) s)
    Ended-at w s e r =
        subst
          (λ x.
            let t = record s { running = x } in Ended t (worker_loop (suc (total s.queue.jobs)) t))
          (sym r)
          (loop_ends w (suc (total s.queue.jobs)) s.queue.jobs s.queue.stop s.queue.active
            s.accepted s.started e (omega arith))

    -- After `Stop`, the worker that comes back to its loop leaves it after running what is queued and
    -- what these jobs enqueue, where each job outweighs the jobs that it enqueues together (a job that
    -- enqueues none may weigh 1): as many rounds as the weight of the queue and one more are enough,
    -- none of them waits, and in the end every job that was accepted was started, in order, and nothing
    -- is queued or running.
    pub worker_loop-ends :
        ((job : A) → total_enqueued (enqueues job) < weight job)
        → (s : System A) → Reach new_system s
        → s.queue.stop ≡ true
        → s.running ≡ none
        → (t : System A) × (worker_loop (suc (total s.queue.jobs)) s ≡ some t)
          × (t.started ≡ t.accepted)
          × (t.running ≡ none)
          × (t.queue.jobs ≡ [])
    unfolding Ended
    worker_loop-ends w s run e r =
        let (t, loops, reach, idle, empty) = Ended-at w s e r in
        let inv = Reach-Inv (Reach-Inv new_system-Inv run) reach in
        (t, loops, sym (inv.0 ∙ ap (λ l. t.started ++ l) empty ∙ append-nil t.started), idle, empty)
