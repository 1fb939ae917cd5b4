-- ===== src/Jobs/Master.antt =====
-- The master of the cluster: `Master` in
-- gatling-commons/src/main/java/com/alh/gatling/commons/Master.java, as far as it concerns jobs and
-- workers. What its handlers persist is a list, the oldest entry first; times are milliseconds.
pub mod Workers
pub mod Files
pub mod Mailbox
pub mod Journal
pub mod Sound
pub mod Poison
pub mod Restart
pub mod Total
pub mod Scheduling
use dist_gatling.Shared.{
  ℕ, ◌+◌, ◌≤◌, ◌≡◌, length, Bool, true, false, not, String, Option, none, some, List, [], ◌∷◌, ◌++◌,
  map, ltb, ◌==◌, if◌then◌else◌,
}
use dist_gatling.Shared.Names.{same_name}
use dist_gatling.Jobs.{
  Job, Result, JobDomainEvent, job_accepted, job_started, job_completed, job_failed, job_timed_out,
  job_postponed,
}
use dist_gatling.Jobs.Database.Tracking.{TrackingResult}
use dist_gatling.Jobs.Database.{
  contains, JobState, new, updated, is_accepted, is_in_progress, is_done, has_job, contains, add,
}

-- `WorkerStatus`: until a time, or busy with a job until a time
pub data WorkerStatus : Type 0 where
  idle : ℕ → WorkerStatus
  busy : ℕ → ℕ → WorkerStatus

pub record WorkerState : Type 0 where
  pub ref : ℕ
  pub status : WorkerStatus

-- What the master tells an actor.
pub data Reply : Type 0 where
  work_is_ready : Reply
  ack file_job : ℕ → Reply
  work command_line_job_accepted : Job → Reply
  command_line_job_submitted : ℕ → Reply
  tracking_result : TrackingResult → Reply

-- What is persisted: an event, or an uploaded file.
pub data Entry : Type 0 where
  event : JobDomainEvent → Entry
  upload : ℕ → Entry

-- The state of the actor, its journal, and all that it has told.
pub record Master : Type 0 where
  pub workers : List (ℕ × WorkerState)
  pub job_database : JobState
  pub file_database : List ℕ
  pub file_tracker : List (ℕ × ℕ)
  pub cancel_requests : List ℕ
  pub journal : List Entry
  pub told : List (ℕ × Reply)

-- What a handler leaves: the state when it returns, or when an exception leaves it.
pub data Done : Type 0 where
  returned threw : Master → Done

infixl 5 ◌>>=◌
abbrev pub ◌>>=◌ : Done → (Master → Done) → Done
returned m >>= f = f m
threw m >>= f = threw m

-- the master with no worker and no job
abbrev pub started : Master
started = record {
  workers = [];
  job_database = new;
  file_database = [];
  file_tracker = [];
  cancel_requests = [];
  journal = [];
  told = [];
}

abbrev pub tell : ℕ → Reply → Master → Master
tell ref r m = record m { told = m.told ++ (ref, r) ∷ [] }

-- `persist`, whose handler runs before the next message
abbrev pub persist : JobDomainEvent → Master → Master
persist e m = record m { journal = m.journal ++ event e ∷ [] }

abbrev pub stored : Master → Option JobState → Done
stored m none = threw m
stored m (some s) = returned (record m { job_database = s })

-- `jobDatabase = jobDatabase.updated(event)`
unfoldable pub update : JobDomainEvent → Master → Done
update e m = stored m (updated e m.job_database)

-- `workers.get` and `workers.put`
unfoldable pub get_worker : ℕ → List (ℕ × WorkerState) → Option WorkerState
get_worker w [] = none
get_worker w ((v, st) ∷ ws) = let rest = get_worker w ws in if v == w then some st else rest

unfoldable pub put_worker : ℕ → WorkerState → List (ℕ × WorkerState) → List (ℕ × WorkerState)
put_worker w st [] = (w, st) ∷ []
put_worker w st ((v, old) ∷ ws) =
    let rest = put_worker w st ws in if v == w then (w, st) ∷ ws else (v, old) ∷ rest

abbrev pub is_idle : WorkerStatus → Bool
is_idle (idle until) = true
is_idle (busy id until) = false

abbrev pub get_deadline : WorkerStatus → ℕ
get_deadline (idle until) = until
get_deadline (busy id until) = until

abbrev pub with_status : WorkerStatus → WorkerState → WorkerState
with_status s st = record st { status = s }

unfoldable pub ready : List (ℕ × WorkerState) → List (ℕ × Reply)
ready [] = []
ready ((w, st) ∷ ws) =
    let rest = ready ws in if is_idle st.status then (st.ref, work_is_ready) ∷ rest else rest

-- `notifyWorkers`
unfoldable pub notify_workers : Master → Master
unfolding ready
notify_workers m =
    if has_job m.job_database then record m { told = m.told ++ ready m.workers } else m

-- `onUploadFile`
unfoldable pub on_upload_file : ℕ → ℕ → Master → Done
unfolding add
on_upload_file sender tracking m = returned (
    tell sender (ack tracking) (record m {
      journal = m.journal ++ upload tracking ∷ [];
      file_database = add tracking m.file_database;
    }))

-- `onJob`
unfoldable pub on_job : ℕ → Job → Master → Done
unfolding update notify_workers
on_job sender j m =
    if is_accepted j.job_id m.job_database
    then returned (tell sender (ack j.job_id) m)
    else update (job_accepted j) (tell sender (ack j.job_id) (persist (job_accepted j) m)) >>= λ m1.
        returned (notify_workers m1)

abbrev pub make_job : String → ℕ → ℕ → Job
make_job role tracking id = record { job_id = id; role_id = role; tracking_id = tracking }

-- the handlers of the events that `processCmdLineJob` persists
unfoldable pub accept_all : ℕ → List Job → Master → Done
unfolding update notify_workers
accept_all sender [] m = returned m
accept_all sender (j ∷ js) m =
    update (job_accepted j) (tell sender (command_line_job_accepted j) m) >>= λ m1.
    accept_all sender js (notify_workers m1)

-- `processCmdLineJob`, for the UUIDs that are drawn: one of the whole, and one for each task
unfoldable pub process_cmd_line_job : ℕ → ℕ → String → ℕ → List ℕ → Master → Done
unfolding accept_all
process_cmd_line_job sender client role tracking ids m =
    let jobs = map (make_job role tracking) ids in
    accept_all sender jobs (
      tell sender (command_line_job_submitted tracking) (
        tell sender (ack client)
          (record m { journal = m.journal ++ map (λ j. event (job_accepted j)) jobs })))

-- `onTrackingInfo`, for the result that the database gives
unfoldable pub on_tracking_info : ℕ → ℕ → Bool → Master → Option TrackingResult → Done
unfolding contains add
on_tracking_info sender tracking cancel m none = threw m
on_tracking_info sender tracking cancel m (some r) =
    let m1 = if cancel then record m { cancel_requests = add tracking m.cancel_requests } else m in
    returned (
      tell sender (tracking_result (record r { cancelled = contains tracking m1.cancel_requests }))
        m1)
