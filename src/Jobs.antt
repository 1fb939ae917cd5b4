-- ===== src/Jobs.antt =====
-- The jobs of the cluster: `Master.Job`, `Worker.Result`, `TaskEvent` and the events of `JobState` in
-- gatling-commons/src/main/java/com/alh/gatling/commons. An identifier is a UUID, written as its
-- number.
pub mod Database
pub mod Summary
pub mod Master
use dist_gatling.Shared.{ℕ, String, Option, List}

-- `JobStatusString`
pub data Status : Type 0 where
  completed started accepted failed timedout postponed pending : Status

-- `Master.Job`, without the addresses that the worker loads from
pub record Job : Type 0 where
  pub job_id : ℕ
  pub role_id : String
  pub tracking_id : ℕ

-- `Worker.Result`, whose job may be null
pub record Result : Type 0 where
  pub job : Option Job
  pub err_path : String
  pub std_path : String

-- `TaskEvent`, without its time stamps
pub record TaskEvent : Type 0 where
  pub task_job_id : ℕ
  pub status : Status
  pub worker_id : Option ℕ
  pub error_log_path : Option String
  pub std_log_path : Option String

-- The events, but `JobPending`, which nothing creates.
pub data JobDomainEvent : Type 0 where
  job_accepted : Job → JobDomainEvent
  job_started : ℕ → ℕ → JobDomainEvent
  job_completed job_failed : ℕ → Result → JobDomainEvent
  job_timed_out job_postponed : ℕ → JobDomainEvent
