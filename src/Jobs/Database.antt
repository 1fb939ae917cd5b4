-- ===== src/Jobs/Database.antt =====
-- The master's record of all jobs: `JobState` in
-- gatling-commons/src/main/java/com/alh/gatling/commons/JobState.java. A constructor of the class
-- either gives the next state or is left by an exception, which is `none` here.
pub mod Tracking
pub mod Conserved
pub mod Updates
pub mod Total
pub mod Places
use dist_gatling.Shared.{
  ℕ, Bool, true, false, not, Option, none, some, List, [], ◌∷◌, ◌++◌, map, ◌==◌, ◌||◌,
  if◌then◌else◌,
}
use dist_gatling.Jobs.{
  Status, started, completed, failed, timedout, postponed, pending, Job, Result, TaskEvent,
  JobDomainEvent, job_accepted, job_started, job_completed, job_failed, job_timed_out,
  job_postponed,
}
use dist_gatling.Jobs.Summary.{contains_work, on_work}

pub record JobState : Type 0 where
  pub jobs_in_progress : List Job
  pub accepted_job_ids : List ℕ
  pub done_job_ids : List ℕ
  pub pending_jobs : List Job
  pub failed_jobs : List Result
  pub completed_jobs : List Result
  pub job_summary : List (ℕ × List TaskEvent)

-- the constructor without arguments
abbrev pub new : JobState
new = record {
  jobs_in_progress = [];
  accepted_job_ids = [];
  done_job_ids = [];
  pending_jobs = [];
  failed_jobs = [];
  completed_jobs = [];
  job_summary = [];
}

-- `contains`, `add` and `remove` of a `HashSet`
unfoldable pub contains : ℕ → List ℕ → Bool
contains a [] = false
contains a (b ∷ bs) = b == a || contains a bs

unfoldable pub add : ℕ → List ℕ → List ℕ
unfolding contains
add a bs = if contains a bs then bs else a ∷ bs

unfoldable pub remove : ℕ → List ℕ → List ℕ
remove a [] = []
remove a (b ∷ bs) = let rest = remove a bs in if b == a then rest else b ∷ rest

-- `get`, `remove` and `put` of the map of jobs
unfoldable pub get_job : ℕ → List Job → Option Job
get_job id [] = none
get_job id (j ∷ js) = let rest = get_job id js in if j.job_id == id then some j else rest

unfoldable pub remove_job : ℕ → List Job → List Job
remove_job id [] = []
remove_job id (j ∷ js) = let rest = remove_job id js in if j.job_id == id then rest else j ∷ rest

unfoldable pub put_job : Job → List Job → List Job
unfolding remove_job
put_job j js = j ∷ remove_job j.job_id js

abbrev pub Summaries : Type 0
Summaries = List (ℕ × List TaskEvent)

unfoldable pub get_summary : ℕ → Summaries → Option (List TaskEvent)
get_summary id [] = none
get_summary id ((i, ts) ∷ m) = let rest = get_summary id m in if i == id then some ts else rest

-- The summary of a number, a new one if there is none, gets one more task.
unfoldable pub add_task : ℕ → TaskEvent → Summaries → Summaries
add_task id t [] = (id, t ∷ []) ∷ []
add_task id t ((i, ts) ∷ m) =
    let rest = add_task id t m in if i == id then (i, ts ++ t ∷ []) ∷ m else (i, ts) ∷ rest

-- The summary of a number is changed where it stands.
unfoldable pub on_summary : ℕ → (List TaskEvent → List TaskEvent) → Summaries → Summaries
on_summary id f [] = []
on_summary id f ((i, ts) ∷ m) =
    let rest = on_summary id f m in if i == id then (i, f ts) ∷ m else (i, ts) ∷ rest

-- `values().stream().filter(containsWork).findFirst()`, and what is done to it
unfoldable pub on_containing : ℕ → (List TaskEvent → List TaskEvent) → Summaries → Summaries
unfolding contains_work
on_containing id f [] = []
on_containing id f ((i, ts) ∷ m) =
    let rest = on_containing id f m in if contains_work id ts then (i, f ts) ∷ m else (i, ts) ∷ rest

abbrev pub with_status : Status → TaskEvent → TaskEvent
with_status s t = record t { status = s }

-- the task of an accepted job
abbrev pub new_task : Job → TaskEvent
new_task j = record {
  task_job_id = j.job_id;
  status = pending;
  worker_id = none;
  error_log_path = none;
  std_log_path = none;
}

abbrev pub ended : Status → Result → TaskEvent → TaskEvent
ended s r t = record t {
  status = s;
  error_log_path = some r.err_path;
  std_log_path = some r.std_path;
}

-- `new JobState(jobState, JobAccepted)`
unfoldable pub accept : Job → JobState → JobState
unfolding add add_task
accept j s = record s {
  pending_jobs = s.pending_jobs ++ j ∷ [];
  accepted_job_ids = add j.job_id s.accepted_job_ids;
  job_summary = add_task j.tracking_id (new_task j) s.job_summary;
}

-- A call of a method on what a map gave throws if it gave null.
abbrev pub if_found {ℓ κ} : {A : Type ℓ} {B : Type κ} → Option A → B → Option B
if_found none b = none
if_found (some a) b = some b

-- `new JobState(jobState, JobStarted)`, for the first pending job and the others
unfoldable pub start_first : ℕ → ℕ → JobState → List Job → Option JobState
unfolding put_job get_summary on_summary on_work
start_first id worker s [] = none
start_first id worker s (j ∷ js) =
    if j.job_id == id
    then if_found (get_summary j.tracking_id s.job_summary) (record s {
      pending_jobs = js;
      jobs_in_progress = put_job j s.jobs_in_progress;
      job_summary =
          on_summary j.tracking_id
            (on_work j.job_id (λ t. record t { status = started; worker_id = some worker }))
            s.job_summary;
    })
    else none

-- What the constructors for `JobCompleted` and for `JobFailed` do with the summary of the result's
-- job.
unfoldable pub close_task : Status → Result → JobState → Option Job → Option JobState
unfolding get_summary on_summary on_work
close_task status r s none = none
close_task status r s (some j) = if_found (get_summary j.tracking_id s.job_summary) (record s {
  job_summary = on_summary j.tracking_id (on_work j.job_id (ended status r)) s.job_summary;
})

unfoldable pub complete : ℕ → Result → JobState → Option JobState
unfolding close_task remove_job add
complete id r s =
    close_task completed r
      (record s {
        jobs_in_progress = remove_job id s.jobs_in_progress;
        done_job_ids = add id s.done_job_ids;
        completed_jobs = s.completed_jobs ++ r ∷ [];
      })
      r.job

unfoldable pub fail : ℕ → Result → JobState → Option JobState
unfolding close_task remove_job remove
fail id r s =
    close_task failed r
      (record s {
        jobs_in_progress = remove_job id s.jobs_in_progress;
        accepted_job_ids = remove id s.accepted_job_ids;
        failed_jobs = s.failed_jobs ++ r ∷ [];
      })
      r.job

-- `new JobState(jobState, JobTimedOut)`, for the job that the map gives: the deque refuses null.
unfoldable pub time_out : ℕ → JobState → Option Job → Option JobState
unfolding remove_job on_containing on_work
time_out id s none = none
time_out id s (some j) = some (record s {
  pending_jobs = s.pending_jobs ++ j ∷ [];
  jobs_in_progress = remove_job id s.jobs_in_progress;
  job_summary = on_containing id (on_work id (with_status timedout)) s.job_summary;
})

-- `new JobState(jobState, JobPostponed)`, for the pending jobs
unfoldable pub postpone : ℕ → JobState → List Job → Option JobState
unfolding on_containing on_work
postpone id s [] = none
postpone id s (j ∷ js) = some (record s {
  pending_jobs = js ++ j ∷ [];
  job_summary = on_containing id (on_work id (with_status postponed)) s.job_summary;
})

-- `updated`
unfoldable pub updated : JobDomainEvent → JobState → Option JobState
unfolding accept start_first complete fail get_job time_out postpone
updated (job_accepted j) s = some (accept j s)
updated (job_started id worker) s = start_first id worker s s.pending_jobs
updated (job_completed id r) s = complete id r s
updated (job_failed id r) s = fail id r s
updated (job_timed_out id) s = time_out id s (get_job id s.jobs_in_progress)
updated (job_postponed id) s = postpone id s s.pending_jobs

abbrev pub job_ids : List Job → List ℕ
job_ids js = map (λ j. j.job_id) js

-- `isAccepted`, `isInProgress` and `isDone`
abbrev pub is_accepted : ℕ → JobState → Bool
is_accepted id s = contains id s.accepted_job_ids

abbrev pub is_in_progress : ℕ → JobState → Bool
is_in_progress id s = contains id (job_ids s.jobs_in_progress)

abbrev pub is_done : ℕ → JobState → Bool
is_done id s = contains id s.done_job_ids

-- `hasJob`
abbrev pub has_job : JobState → Bool
has_job s = elim s.pending_jobs [ [] ↦ false | j ∷ js ↦ true ]
