-- ===== src/Jobs/Master/Sound/Runs.antt =====
-- The master's jobs and its journal, whatever it receives: all messages.
use dist_gatling.Shared.{sym, ℕ, ◌≡◌, refl, some, List, [], ◌∷◌, map}
use dist_gatling.Jobs.Database.{new}
use dist_gatling.Jobs.Database.Conserved.{IsConserved, new-IsConserved}
use dist_gatling.Jobs.Master.{Master, Done, returned, threw, started, get_worker, make_job}
use dist_gatling.Jobs.Master.Mailbox.{
  replay, Message, register_worker, worker_requests_work, work_in_progress, work_is_done,
  work_failed, upload_file, tracking_info, worker_requests_file, file_upload_complete, job,
  command_line_job, cleanup_tick, receive, Envelope, run,
}
use dist_gatling.Jobs.Database.Places.{new-place}
use dist_gatling.Jobs.Master.Journal.{moves, Holds, Holds-bind}
use dist_gatling.Jobs.Master.Files.{unsent_file, on_worker_requests_file}
use dist_gatling.Jobs.Database.Tracking.{get_tracking_info}
use dist_gatling.Jobs.Master.Sound.{
  tracking_info-IsSound, requests_file-IsSound, file_complete-IsSound, IsSound, AreNew,
  command_line_job-IsSound, on_job-IsSound, on_upload_file-IsSound, cleanup_tick-IsSound,
}
use dist_gatling.Jobs.Master.Sound.Workers.{
  requests_work-IsSound, work_in_progress-IsSound, work_is_done-IsSound, work_failed-IsSound,
  register_worker-IsSound,
}

-- The identifiers that a command-line job draws are new.
abbrev pub DrawsNew : Message → Master → Type 0
DrawsNew (command_line_job client role tracking ids) m =
    AreNew (map (make_job role tracking) ids) m.job_database
DrawsNew _ m = Unit

receive-IsSound :
    (timeout now sender : ℕ) (message : Message) (m : Master)
    → DrawsNew message m
    → IsSound m
    → Holds IsSound (receive timeout now sender message m)
unfolding receive on_worker_requests_file
receive-IsSound timeout now sender (register_worker w) m n h =
    register_worker-IsSound timeout now sender w m (get_worker w m.workers) h
receive-IsSound timeout now sender (worker_requests_work w role) m n h =
    requests_work-IsSound timeout now sender w role m m.job_database.pending_jobs h
receive-IsSound timeout now sender (work_in_progress w id) m n h =
    work_in_progress-IsSound timeout now w id m h
receive-IsSound timeout now sender (work_is_done w id r) m n h =
    work_is_done-IsSound timeout now sender w id r m h
receive-IsSound timeout now sender (work_failed w id r) m n h =
    work_failed-IsSound timeout now w id r m h
receive-IsSound timeout now sender (upload_file tracking) m n h =
    on_upload_file-IsSound sender tracking m h
receive-IsSound timeout now sender (worker_requests_file host readable) m n h =
    requests_file-IsSound sender readable m (unsent_file host m.file_database m.file_tracker) h
receive-IsSound timeout now sender (file_upload_complete tracking host) m n h =
    file_complete-IsSound tracking host m h
receive-IsSound timeout now sender (tracking_info tracking cancel) m n h =
    tracking_info-IsSound sender tracking cancel m (get_tracking_info tracking m.job_database) h
receive-IsSound timeout now sender (job j) m n h = on_job-IsSound sender j m h
receive-IsSound timeout now sender (command_line_job client role tracking ids) m n h =
    command_line_job-IsSound sender client role tracking ids m n h
receive-IsSound timeout now sender cleanup_tick m n h = cleanup_tick-IsSound timeout now m h

-- So at each message that is received, until an exception stops the actor.
unfoldable pub AreDrawn : ℕ → List Envelope → Master → Type 0
AreDrawn timeout [] m = Unit
AreDrawn timeout ((now, sender, message) ∷ es) m =
    DrawsNew message m × Holds (AreDrawn timeout es) (receive timeout now sender message m)

both-Holds : (P Q : Master → Type 0) (d : Done) → Holds P d → Holds Q d → Holds (λ m. P m × Q m) d
both-Holds P Q (returned m) p q = (p, q)
both-Holds P Q (threw m) p q = tt

pub run-IsSound :
    (timeout : ℕ) (es : List Envelope) (m : Master)
    → AreDrawn timeout es m
    → IsSound m
    → Holds IsSound (run timeout es m)
unfolding run AreDrawn
run-IsSound timeout [] m n h = h
run-IsSound timeout ((now, sender, message) ∷ es) m (n, ns) h =
    let d = receive timeout now sender message m in
    Holds-bind (λ m1. IsSound m1 × AreDrawn timeout es m1) IsSound d (run timeout es)
      (both-Holds IsSound (AreDrawn timeout es) d (receive-IsSound timeout now sender message m n h)
        ns)
      (λ m1 (k, l). run-IsSound timeout es m1 l k)

pub started-IsSound : IsSound started
unfolding replay moves
started-IsSound = record {
  conserved = new-IsConserved;
  replayed = refl;
  moved = λ a. sym (new-place a);
}

Holds-map :
    (Q : Master → Type 0) (k : (m : Master) → IsSound m → Q m) (d : Done)
    → Holds IsSound d
    → Holds Q d
Holds-map Q k (returned m) h = k m h
Holds-map Q k (threw m) h = tt

-- Whatever a new master receives, from whom and when, if the identifiers that it draws for jobs are new:
-- unless an exception has stopped it, every accepted job that has not failed is in exactly one place in
-- the end, waiting, in progress or done, and nothing else is anywhere.
pub master_run-IsConserved :
    (timeout : ℕ) (es : List Envelope)
    → AreDrawn timeout es started
    → Holds (λ m. IsConserved m.job_database) (run timeout es started)
master_run-IsConserved timeout es n =
    Holds-map (λ m. IsConserved m.job_database) (λ m h. h.conserved) (run timeout es started)
      (run-IsSound timeout es started n started-IsSound)

-- Whatever the master receives, if the identifiers that it draws for jobs are new and every handler
-- returns: a replay of all that was persisted ends without an exception in the database that the master
-- has.
pub replay-journal :
    (timeout : ℕ) (es : List Envelope)
    → AreDrawn timeout es started
    → Holds (λ m. replay m.journal new ≡ some m.job_database) (run timeout es started)
unfolding replay
replay-journal timeout es n =
    Holds-map (λ m. replay m.journal new ≡ some m.job_database) (λ m h. h.replayed)
      (run timeout es started) (run-IsSound timeout es started n started-IsSound)
