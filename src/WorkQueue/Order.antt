-- ===== src/WorkQueue/Order.antt =====
-- The threads around the queue of src/utils/WorkQueue.cpp, and the order in which the jobs are run.
use omni_stats.Prelude.{
  ◌≡◌, refl, sym, ap, ◌∙◌, Bool, true, false, not, ◌&&◌, List, [], ◌∷◌, ◌++◌, Option, none, some,
  arith, if◌then◌else◌, is_empty, is_some,
}
use mathlib.Core.List.{append_assoc, append-nil}
use omni_stats.WorkQueue.{
  WorkQueue, Wake, new_work_queue, enqueue, wake_on, wake, finish_job, is_drained, request_stop,
}

-- The worker holds a job while it runs it. `accepted` and `started` are the jobs that were taken into
-- the queue and out of it so far.
pub record System {ℓ} (A : Type ℓ) : Type ℓ where
  pub queue : WorkQueue A
  pub running : Option A
  pub accepted : List A
  pub started : List A

-- What the queue promises: jobs are accepted one after the other, and the next one that is started is
-- the first of the accepted ones that was not started yet.
pub record Fifo {ℓ} (A : Type ℓ) : Type ℓ where
  pub taken : List A
  pub served : List A

module _ {ℓ} {A : Type ℓ} where
  abbrev accept_if : Bool → A → List A → List A
  accept_if taken job accepted = if taken then accepted ++ job ∷ [] else accepted

  abbrev pub after_enqueue : Bool → A → Bool → System A → System A
  after_enqueue is_worker job critical s =
      let r = enqueue is_worker job critical s.queue in
      record s { queue = r.0; accepted = accept_if r.1 job s.accepted }

  abbrev pub take_up : Wake A → System A → System A
  take_up (Wake.runs job) s = record s { running = some job; started = s.started ++ job ∷ [] }
  take_up w s = s

  abbrev pub after_wake : System A → System A
  after_wake s = let r = wake s.queue in take_up r.1 (record s { queue = r.0 })

  abbrev pub after_finish : System A → System A
  after_finish s = record s { queue = (finish_job s.queue).0; running = none }

  abbrev pub new_system : System A
  new_system = record { queue = new_work_queue; running = none; accepted = []; started = [] }

  -- A critical section of some thread: another thread or the job that runs enqueues, the worker wakes
  -- up while it runs nothing, or ends its job, or a thread asks to stop.
  pub data Step : System A → System A → Type ℓ where
    enqueued :
        (job : A) (critical : Bool) (s : System A) → Step s (after_enqueue false job critical s)
    enqueued_by :
        (running job : A) (critical : Bool) (s : System A)
        → s.running ≡ some running
        → Step s (after_enqueue true job critical s)
    woken : (s : System A) → s.running ≡ none → Step s (after_wake s)
    finished : (job : A) (s : System A) → s.running ≡ some job → Step s (after_finish s)
    stopped : (s : System A) → Step s (record s { queue = request_stop s.queue })

  pub data Reach : System A → System A → Type ℓ where
    here : (s : System A) → Reach s s
    next : (s t u : System A) → Step s t → Reach t u → Reach s u

  pub data FifoStep : Fifo A → Fifo A → Type ℓ where
    accept : (job : A) (f : Fifo A) → FifoStep f (record f { taken = f.taken ++ job ∷ [] })
    serve :
        (job : A) (later : List A) (f : Fifo A)
        → f.taken ≡ f.served ++ job ∷ later
        → FifoStep f (record f { served = f.served ++ job ∷ [] })
    stutter : (f : Fifo A) → FifoStep f f

  abbrev pub fifo_of : System A → Fifo A
  fifo_of s = record { taken = s.accepted; served = s.started }

  -- The queue holds what was accepted and not started, in this order.
  abbrev pub IsOrdered : System A → Type ℓ
  IsOrdered s = s.accepted ≡ s.started ++ s.queue.jobs

  enqueued-IsOrdered :
      (taken : Bool) (job : A) (q r : WorkQueue A) (accepted started : List A)
      → r.jobs ≡ accept_if taken job q.jobs
      → accepted ≡ started ++ q.jobs
      → accept_if taken job accepted ≡ started ++ r.jobs
  enqueued-IsOrdered true job q r accepted started e h =
      rw e (ap (λ l. l ++ job ∷ []) h ∙ append_assoc started q.jobs (job ∷ []))
  enqueued-IsOrdered false job q r accepted started e h = rw e h

  jobs-enqueue :
      (is_worker critical : Bool) (job : A) (q : WorkQueue A)
      → let r = enqueue is_worker job critical q in r.0.jobs ≡ accept_if r.1 job q.jobs
  unfolding enqueue
  jobs-enqueue is_worker critical job q = ground arith

  after_enqueue-IsOrdered :
      (is_worker critical : Bool) (job : A) (s : System A)
      → IsOrdered s
      → IsOrdered (after_enqueue is_worker job critical s)
  after_enqueue-IsOrdered is_worker critical job s h =
      let r = enqueue is_worker job critical s.queue in
      enqueued-IsOrdered r.1 job s.queue r.0 s.accepted s.started
        (jobs-enqueue is_worker critical job s.queue) h

  -- Also, the queue knows whether a job is running.
  abbrev pub Inv : System A → Type ℓ
  Inv s = IsOrdered s × (s.queue.active ≡ is_some s.running)

  active-enqueue :
      (is_worker critical : Bool) (job : A) (q : WorkQueue A)
      → (enqueue is_worker job critical q).0.active ≡ q.active
  unfolding enqueue
  active-enqueue is_worker critical job q = ground arith

  after_enqueue-Inv :
      (is_worker critical : Bool) (job : A) (s : System A)
      → Inv s
      → Inv (after_enqueue is_worker job critical s)
  after_enqueue-Inv is_worker critical job s (h, a) = (
    after_enqueue-IsOrdered is_worker critical job s h,
    active-enqueue is_worker critical job s.queue ∙ a,
  )

  fifo-after_enqueue :
      (taken : Bool) (job : A) (accepted started : List A)
      → FifoStep
          (record { taken = accepted; served = started })
          (record { taken = accept_if taken job accepted; served = started })
  fifo-after_enqueue true job accepted started = FifoStep.accept job _
  fifo-after_enqueue false job accepted started = FifoStep.stutter _

  -- The worker that wakes up to nothing changes nothing; else it starts the first job.
  Woken : List A → System A → System A → Type ℓ
  Woken [] s t = t ≡ s
  Woken (job ∷ rest) s t = t ≡ (record s {
    queue = record s.queue { jobs = rest; active = true };
    running = some job;
    started = s.started ++ job ∷ [];
  })

  idle : (b : Bool) (s : System A) → take_up (if b then Wake.ends else Wake.waits) s ≡ s
  idle true s = refl
  idle false s = refl

  wake_on-Woken :
      (l : List A) (s : System A)
      → let r = wake_on l s.queue in Woken l s (take_up r.1 (record s { queue = r.0 }))
  unfolding Woken
  wake_on-Woken [] s = idle s.queue.stop s
  wake_on-Woken (job ∷ rest) s = refl

  Woken-Inv :
      (l : List A) (s t : System A)
      → s.queue.jobs ≡ l
      → s.running ≡ none
      → Inv s
      → Woken l s t
      → FifoStep (fifo_of s) (fifo_of t) × Inv t
  unfolding Woken
  Woken-Inv [] s t e n h w = rw w (FifoStep.stutter (fifo_of s), h)
  Woken-Inv (job ∷ rest) s t e n (h, a) w =
      let split : s.accepted ≡ s.started ++ job ∷ rest = h ∙ ap (λ l. s.started ++ l) e in
      rw w (
        FifoStep.serve job rest (fifo_of s) split,
        (split ∙ sym (append_assoc s.started (job ∷ []) rest), refl),
      )

  -- The queue refines a plain queue: whatever thread takes the mutex next, what was accepted and what
  -- was started change as one step of `Fifo`, so jobs are started in the order in which they were
  -- accepted, each of them once; and the queue keeps holding exactly the jobs that were accepted and
  -- not started, in order, and is active exactly while a job runs.
  pub Step-FifoStep : {s t : System A} → Inv s → Step s t → FifoStep (fifo_of s) (fifo_of t) × Inv t
  unfolding wake finish_job request_stop
  Step-FifoStep h (Step.enqueued job critical s) = (
    fifo-after_enqueue (enqueue false job critical s.queue).1 job s.accepted s.started,
    after_enqueue-Inv false critical job s h,
  )
  Step-FifoStep h (Step.enqueued_by running job critical s r) = (
    fifo-after_enqueue (enqueue true job critical s.queue).1 job s.accepted s.started,
    after_enqueue-Inv true critical job s h,
  )
  Step-FifoStep h (Step.woken s r) =
      Woken-Inv s.queue.jobs s (after_wake s) refl r h (wake_on-Woken s.queue.jobs s)
  Step-FifoStep h (Step.finished job s r) = (FifoStep.stutter (fifo_of s), (h.0, refl))
  Step-FifoStep h (Step.stopped s) = (FifoStep.stutter (fifo_of s), h)

  pub new_system-Inv : Inv new_system
  new_system-Inv = (refl, refl)

  pub Reach-Inv : {s t : System A} → Inv s → Reach s t → Inv t
  Reach-Inv h (Reach.here s) = h
  Reach-Inv h (Reach.next s u t step rest) = Reach-Inv (Step-FifoStep h step).1 rest

  drained_parts :
      (l : List A) (running : Option A) (active : Bool)
      → is_empty l && not active ≡ true
      → active ≡ is_some running
      → (l ≡ []) × (running ≡ none)
  drained_parts [] none active d a = (refl, refl)
  drained_parts [] (some job) active d a = let bad : false ≡ true = rw a at d in ground (arith, bad)
  drained_parts (job ∷ l) running active d a = ground (arith, d)

  -- When `Drain` returns, every job that was accepted until then has been started, in order, and none
  -- is running any more, so each of them has ended.
  pub drained :
      (s : System A)
      → Reach new_system s
      → is_drained s.queue ≡ true
      → (s.started ≡ s.accepted) × (s.running ≡ none)
  unfolding is_drained
  drained s run d =
      let inv = Reach-Inv new_system-Inv run in
      let p = drained_parts s.queue.jobs s.running s.queue.active d inv.1 in
      (sym (inv.0 ∙ ap (λ l. s.started ++ l) p.0 ∙ append-nil s.started), p.1)
