-- ===== src/Jobs/Master/Workers.antt =====
-- How the master answers its workers: the handlers of `Master` for a worker's messages, in
-- gatling-commons/src/main/java/com/alh/gatling/commons/Master.java. Times are milliseconds.
use dist_gatling.Shared.{
  ℕ, ◌+◌, Bool, not, String, Option, none, some, List, [], ◌∷◌, ◌++◌, ltb, if◌then◌else◌,
}
use dist_gatling.Shared.Names.{same_name}
use dist_gatling.Jobs.{Job, Result, job_started, job_completed, job_failed, job_postponed}
use dist_gatling.Jobs.Database.{is_in_progress, is_done, has_job}
use dist_gatling.Jobs.Master.{
  WorkerStatus, idle, busy, WorkerState, work_is_ready, ack, work, Master, Done, returned, threw,
  ◌>>=◌, tell, persist, update, get_worker, put_worker, is_idle, get_deadline, with_status,
  notify_workers,
}

-- The parameter `workTimeout`, and the time at which the handler runs.
module _ (work_timeout now : ℕ) where
  abbrev pub from_now : ℕ
  from_now = now + work_timeout

  -- `extendIdleExpiryTime` and `changeWorkerToIdle`, for what `workers.get` gives: null has no status
  unfoldable pub extend_idle : ℕ → Master → Option WorkerState → Done
  unfolding put_worker
  extend_idle w m none = threw m
  extend_idle w m (some st) = returned (
      if is_idle st.status
      then record m { workers = put_worker w (with_status (idle from_now) st) m.workers }
      else m)

  unfoldable pub change_to_idle : ℕ → Master → Option WorkerState → Done
  unfolding put_worker
  change_to_idle w m none = threw m
  change_to_idle w m (some st) = returned (
      if is_idle st.status
      then m
      else record m { workers = put_worker w (with_status (idle from_now) st) m.workers })

  -- The two branches of `onWorkerRequestsWork` that persist.
  unfoldable pub give : ℕ → ℕ → WorkerState → Job → Master → Done
  unfolding update put_worker
  give sender w st j m =
      update (job_started j.job_id w) (persist (job_started j.job_id w) m) >>= λ m1. returned (
        tell sender (work j) (record m1 {
          workers = put_worker w (with_status (busy j.job_id from_now) st) m1.workers;
        }))

  unfoldable pub put_off : ℕ → Job → Master → Done
  unfolding update extend_idle get_worker
  put_off w j m =
      extend_idle w (persist (job_postponed j.job_id) m) (get_worker w m.workers)
      >>= update (job_postponed j.job_id)

  unfoldable pub offer : ℕ → ℕ → String → Job → Master → Option WorkerState → Done
  unfolding give put_off
  offer sender w role j m none = returned m
  offer sender w role j m (some st) =
      if is_idle st.status
      then (if same_name role j.role_id then give sender w st j m else put_off w j m)
      else returned m

  -- `onWorkerRequestsWork`, for the pending jobs
  unfoldable pub on_worker_requests_work : ℕ → ℕ → String → Master → List Job → Done
  unfolding offer extend_idle get_worker
  on_worker_requests_work sender w role m [] = extend_idle w m (get_worker w m.workers)
  on_worker_requests_work sender w role m (j ∷ js) =
      offer sender w role j m (get_worker w m.workers)

  -- `onWorkInProgress`, for what `workers.get` gives
  unfoldable pub extend_busy : ℕ → Master → Option WorkerState → Master
  unfolding put_worker
  extend_busy w m none = m
  extend_busy w m (some st) = elim st.status [
    | idle until ↦ m
    | busy id until ↦ record m {
      workers = put_worker w (with_status (busy id from_now) st) m.workers;
    }
  ]

  unfoldable pub on_work_in_progress : ℕ → ℕ → Master → Done
  unfolding extend_busy get_worker
  on_work_in_progress w id m =
      returned
        (if is_in_progress id m.job_database then extend_busy w m (get_worker w m.workers) else m)

  -- `onWorkIsDone`
  unfoldable pub on_work_is_done : ℕ → ℕ → ℕ → Result → Master → Done
  unfolding update change_to_idle get_worker
  on_work_is_done sender w id r m =
      if is_done id m.job_database
      then returned (tell sender (ack id) m)
      else if not (is_in_progress id m.job_database)
      then returned m
      else change_to_idle w m (get_worker w m.workers) >>= λ m1.
          update (job_completed id r) (persist (job_completed id r) m1) >>= λ m2.
          returned (tell sender (ack id) m2)

  -- `onWorkFailed`
  unfoldable pub on_work_failed : ℕ → ℕ → Result → Master → Done
  unfolding update change_to_idle get_worker notify_workers
  on_work_failed w id r m =
      if is_in_progress id m.job_database
      then (change_to_idle w m (get_worker w m.workers) >>= λ m1.
          update (job_failed id r) (persist (job_failed id r) m1) >>= λ m2.
          returned (notify_workers m2))
      else returned m

  -- `onRegisterWorker`, for what the map holds
  unfoldable pub on_register_worker : ℕ → ℕ → Master → Option WorkerState → Done
  unfolding put_worker
  on_register_worker sender w m (some st) =
      returned (record m { workers = put_worker w (record st { ref = sender }) m.workers })
  on_register_worker sender w m none =
      let m1 = record m {
        workers = put_worker w (record { ref = sender; status = idle from_now }) m.workers;
      } in
      returned (if has_job m.job_database then tell sender work_is_ready m1 else m1)

  abbrev pub is_overdue : WorkerStatus → Bool
  is_overdue s = ltb (get_deadline s) now

  -- the job of a worker that is busy for too long
  abbrev pub overdue : WorkerStatus → List ℕ
  overdue (idle until) = []
  overdue (busy id until) = if ltb until now then id ∷ [] else []

  -- the jobs that time out, and the workers that are kept
  unfoldable pub timed_out : List (ℕ × WorkerState) → List ℕ
  timed_out [] = []
  timed_out ((w, st) ∷ ws) = overdue st.status ++ timed_out ws

  unfoldable pub kept : List (ℕ × WorkerState) → List (ℕ × WorkerState)
  kept [] = []
  kept ((w, st) ∷ ws) = let rest = kept ws in if is_overdue st.status then rest else (w, st) ∷ rest
