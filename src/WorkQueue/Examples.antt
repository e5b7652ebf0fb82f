-- ===== src/WorkQueue/Examples.antt =====
-- The lemmas on the work queue, with numbers as jobs: a job enqueues, when it runs, the number below it.
use omni_stats.Prelude.{
  ℕ, zero, suc, ◌<◌, ◌≡◌, refl, Bool, true, false, List, [], ◌∷◌, none, some, arith,
}
use omni_stats.WorkQueue.{enqueue, wake, finish_job, request_stop, is_drained}
use omni_stats.WorkQueue.Order.{
  System, Step, Reach, Inv, FifoStep, fifo_of, new_system, after_enqueue, after_wake, after_finish,
  Step-FifoStep, new_system-Inv, drained,
}
use omni_stats.WorkQueue.Stop.{worker_loop, total, total_enqueued, worker_loop-ends}

abbrev start : System ℕ
start = new_system

abbrev one : System ℕ
one = after_enqueue false 1 false start

abbrev two : System ℕ
two = after_enqueue false 0 true one

abbrev begun : System ℕ
begun = after_wake two

Step-FifoStep_example : FifoStep (fifo_of start) (fifo_of one) × Inv one
Step-FifoStep_example = Step-FifoStep new_system-Inv (Step.enqueued 1 false start)

abbrev begun_one : System ℕ
begun_one = after_wake one

abbrev done : System ℕ
done = after_finish begun_one

runs_one : begun_one.running ≡ some 1
unfolding enqueue wake
runs_one = refl

to_done : Reach start done
to_done = Reach.next start one done (Step.enqueued 1 false start) (
    Reach.next one begun_one done (Step.woken one refl)
      (Reach.next begun_one done done (Step.finished 1 begun_one runs_one) (Reach.here done)))

is_done : is_drained done.queue ≡ true
unfolding enqueue wake finish_job is_drained
is_done = refl

drained_example : (done.started ≡ done.accepted) × (done.running ≡ none)
drained_example = drained done to_done is_done

abbrev below : ℕ → List (ℕ × Bool)
below zero = []
below (suc n) = (n, true) ∷ []

below_lighter : (job : ℕ) → total_enqueued below suc (below job) < suc job
below_lighter zero = omega arith
below_lighter (suc n) = omega arith

abbrev stopping : System ℕ
stopping = record two { queue = request_stop two.queue }

to_stopping : Reach start stopping
to_stopping = Reach.next start one stopping (Step.enqueued 1 false start) (
    Reach.next one two stopping (Step.enqueued 0 true one)
      (Reach.next two stopping stopping (Step.stopped two) (Reach.here stopping)))

is_stopping : stopping.queue.stop ≡ true
unfolding request_stop
is_stopping = refl

worker_loop-ends_example :
    (t : System ℕ) × (worker_loop below (suc (total below suc stopping.queue.jobs)) stopping
      ≡ some t)
    × (t.started ≡ t.accepted)
    × (t.running ≡ none)
    × (t.queue.jobs ≡ [])
worker_loop-ends_example =
    worker_loop-ends below suc below_lighter stopping to_stopping is_stopping refl
