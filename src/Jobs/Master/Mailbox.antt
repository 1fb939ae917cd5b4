-- ===== src/Jobs/Master/Mailbox.antt =====
-- What the master receives, one message after the other, its clean-up, and its restart: `Master` in
-- gatling-commons/src/main/java/com/alh/gatling/commons/Master.java.
use dist_gatling.Shared.{
  Bool, ℕ, ◌≤◌, ◌≡◌, length, String, Option, none, some, List, [], ◌∷◌, ◌++◌, map,
}
use dist_gatling.Jobs.{Job, Result, job_timed_out}
use dist_gatling.Jobs.Database.{JobState, new, updated}
use dist_gatling.Jobs.Database.Tracking.{get_tracking_info}
use dist_gatling.Jobs.Master.{
  on_tracking_info, Entry, event, upload, Master, Done, returned, ◌>>=◌, update, get_worker,
  notify_workers, on_upload_file, on_job, process_cmd_line_job,
}
use dist_gatling.Jobs.Master.Files.{on_worker_requests_file, on_file_upload_complete}
use dist_gatling.Jobs.Master.Workers.{
  on_worker_requests_work, on_work_in_progress, on_work_is_done, on_work_failed, on_register_worker,
  timed_out, kept,
}

-- the handlers of the events that `onCleanupTick` persists
unfoldable pub time_out_all : List ℕ → Master → Done
unfolding update notify_workers
time_out_all [] m = returned m
time_out_all (id ∷ ids) m =
    update (job_timed_out id) m >>= λ m1. time_out_all ids (notify_workers m1)

-- `onCleanupTick`
unfoldable pub on_cleanup_tick : ℕ → ℕ → Master → Done
unfolding timed_out kept time_out_all
on_cleanup_tick work_timeout now m =
    let ids = timed_out work_timeout now m.workers in
    time_out_all ids (record m {
      workers = kept work_timeout now m.workers;
      journal = m.journal ++ map (λ id. event (job_timed_out id)) ids;
    })

abbrev pub and_then {ℓ κ} : {A : Type ℓ} {B : Type κ} → Option A → (A → Option B) → Option B
and_then none f = none
and_then (some a) f = f a

-- What `createReceiveRecover` does with the entries that are replayed: an uploaded file is logged.
unfoldable pub replay : List Entry → JobState → Option JobState
replay [] s = some s
replay (upload tracking ∷ es) s = replay es s
replay (event e ∷ es) s = and_then (updated e s) (replay es)

-- Akka's recovery: of the entries, those are replayed whose sequence number, counted from 1, is at most
-- the one given.
pub record Recovery : Type 0 where
  pub upto : ℕ → List Entry → List Entry
  pub upto-short : (n : ℕ) (es : List Entry) → length es ≤ n → upto n es ≡ es
  pub upto-long : (es fs : List Entry) → upto (length es) (es ++ fs) ≡ es

-- `Recovery.create(100)` with `createReceiveRecover`: the database after a restart, if there is one
unfoldable pub recover : Recovery → Master → Option JobState
unfolding replay
recover recovery m = replay (recovery.upto 100 m.journal) new

-- The messages of which the model treats.
pub data Message : Type 0 where
  register_worker : ℕ → Message
  worker_requests_work : ℕ → String → Message
  work_in_progress : ℕ → ℕ → Message
  work_is_done work_failed : ℕ → ℕ → Result → Message
  upload_file : ℕ → Message
  worker_requests_file : ℕ → Bool → Message
  file_upload_complete : ℕ → ℕ → Message
  tracking_info : ℕ → Bool → Message
  job : Job → Message
  command_line_job : ℕ → String → ℕ → List ℕ → Message
  cleanup_tick : Message

-- `createReceive`, at a time, for a message of a sender
unfoldable pub receive : ℕ → ℕ → ℕ → Message → Master → Done
unfolding on_register_worker on_worker_requests_work on_work_in_progress on_work_is_done
    on_work_failed on_upload_file on_tracking_info get_tracking_info on_worker_requests_file
    on_file_upload_complete on_job process_cmd_line_job on_cleanup_tick get_worker
receive timeout now sender (register_worker w) m =
    on_register_worker timeout now sender w m (get_worker w m.workers)
receive timeout now sender (worker_requests_work w role) m =
    on_worker_requests_work timeout now sender w role m m.job_database.pending_jobs
receive timeout now sender (work_in_progress w id) m = on_work_in_progress timeout now w id m
receive timeout now sender (work_is_done w id r) m = on_work_is_done timeout now sender w id r m
receive timeout now sender (work_failed w id r) m = on_work_failed timeout now w id r m
receive timeout now sender (upload_file tracking) m = on_upload_file sender tracking m
receive timeout now sender (worker_requests_file host readable) m =
    on_worker_requests_file sender host readable m
receive timeout now sender (file_upload_complete tracking host) m =
    on_file_upload_complete tracking host m
receive timeout now sender (tracking_info tracking cancel) m =
    on_tracking_info sender tracking cancel m (get_tracking_info tracking m.job_database)
receive timeout now sender (job j) m = on_job sender j m
receive timeout now sender (command_line_job client role tracking ids) m =
    process_cmd_line_job sender client role tracking ids m
receive timeout now sender cleanup_tick m = on_cleanup_tick timeout now m

-- A message with its time and its sender.
abbrev pub Envelope : Type 0
Envelope = ℕ × ℕ × Message

-- The messages are received one after the other, until an exception stops the actor.
unfoldable pub run : ℕ → List Envelope → Master → Done
unfolding receive
run timeout [] m = returned m
run timeout ((now, sender, message) ∷ es) m =
    receive timeout now sender message m >>= run timeout es
