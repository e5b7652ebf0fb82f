-- ===== src/WorkQueue.antt =====
-- src/utils/WorkQueue.{hpp,cpp}: one worker that runs jobs in the order in which they were enqueued.
--
-- A job is a value of any type. Each function is one critical section of the mutex; the wait of the
-- worker is the section in which it wakes up.
pub mod Order
pub mod Stop
mod Examples
use omni_stats.Prelude.{
  ℕ, ◌≡◌, Bool, true, false, not, ◌&&◌, ◌||◌, List, [], ◌∷◌, ◌++◌, Option, none, some, leb, length,
  is_empty, if◌then◌else◌,
}

pub record WorkQueue {ℓ} (A : Type ℓ) : Type ℓ where
  pub jobs : List A
  pub stop : Bool
  pub active : Bool

-- What the worker does when it wakes up.
pub data Wake {ℓ} (A : Type ℓ) : Type ℓ where
  waits ends : Wake A
  runs : A → Wake A

module _ {ℓ} {A : Type ℓ} where
  abbrev pub new_work_queue : WorkQueue A
  new_work_queue = record { jobs = []; stop = false; active = false }

  -- `is_worker` is `std::this_thread::get_id() == m_workerId`. The result tells whether the job was
  -- taken.
  unfoldable pub enqueue : Bool → A → Bool → WorkQueue A → WorkQueue A × Bool
  enqueue is_worker job critical q =
      if q.stop && not is_worker
      then (q, false)
      else if leb 256 (length q.jobs) && not critical
      then (q, false)
      else (record q { jobs = q.jobs ++ job ∷ [] }, true)

  -- The jobs that are left, with what the worker does.
  abbrev pub wake_on : List A → WorkQueue A → WorkQueue A × Wake A
  wake_on [] q = (q, if q.stop then ends else waits)
  wake_on (job ∷ rest) q = (record q { jobs = rest; active = true }, runs job)

  unfoldable pub wake : WorkQueue A → WorkQueue A × Wake A
  wake q = wake_on q.jobs q

  -- The result tells whether `m_drained` is notified.
  unfoldable pub finish_job : WorkQueue A → WorkQueue A × Bool
  finish_job q = (record q { active = false }, is_empty q.jobs)

  -- What `Drain` waits for.
  unfoldable pub is_drained : WorkQueue A → Bool
  is_drained q = is_empty q.jobs && not q.active

  unfoldable pub request_stop : WorkQueue A → WorkQueue A
  request_stop q = record q { stop = true }
