-- ===== src/Jobs/Master/Total/Runs.antt =====
-- When the handlers of the master return: all messages.
use dist_gatling.Shared.{true, sym, ℕ, ◌≡◌, refl, ap, ◌∙◌, subst, true, some, List, [], ◌∷◌, map}
use dist_gatling.Jobs.{job_completed, job_failed}
use dist_gatling.Jobs.Database.{new, job_ids}
use dist_gatling.Jobs.Database.Conserved.{IsConserved}
use dist_gatling.Jobs.Database.Total.{new-IsTracked, IsSane}
use dist_gatling.Jobs.Master.{
  Master, returned, ◌>>=◌, started, get_worker, on_upload_file, process_cmd_line_job, make_job,
}
use dist_gatling.Jobs.Master.Workers.{timed_out}
use dist_gatling.Jobs.Master.Mailbox.{
  on_cleanup_tick, Message, register_worker, worker_requests_work, work_in_progress, work_is_done,
  work_failed, upload_file, tracking_info, worker_requests_file, file_upload_complete, job,
  command_line_job, cleanup_tick, receive, Envelope, run, replay,
}
use dist_gatling.Jobs.Database.Places.{place, unknown}
use dist_gatling.Jobs.Master.Journal.{moves, Holds}
use dist_gatling.Jobs.Master.Sound.{IsSound}
use dist_gatling.Jobs.Master.Sound.Runs.{AreDrawn, run-IsSound, started-IsSound}
use dist_gatling.Jobs.Master.Files.{unsent_file, on_worker_requests_file}
use dist_gatling.Jobs.Database.Tracking.{TrackingResult, get_tracking_info}
use dist_gatling.Jobs.Master.Total.{
  tracking_info-Returns, requests_file-Returns, file_complete-Returns, Returns, Tracked,
  accept_all-Returns, on_job-Returns, are_running, time_out_all-Returns,
}
use dist_gatling.Jobs.Master.Total.Workers.{
  IsRegistered, requests_work-Returns, work_is_done-Returns, work_failed-Returns,
  work_in_progress-Returns, register_worker-Returns,
}

-- What a handler needs to return: a worker that asks for work or reports is registered, a report names a
-- job with a summary, a file asked for can be read, all results kept
-- name a job when tracking is asked for, and the workers that are overdue and busy have different jobs,
-- all in progress.
abbrev pub IsExpected : ℕ → ℕ → Message → Master → Type 0
IsExpected timeout now (worker_requests_work w role) m = IsRegistered w m
IsExpected timeout now (work_is_done w id r) m =
    IsRegistered w m × IsSane (job_completed id r) m.job_database
IsExpected timeout now (work_failed w id r) m =
    IsRegistered w m × IsSane (job_failed id r) m.job_database
IsExpected timeout now (worker_requests_file host readable) m = readable ≡ true
IsExpected timeout now (tracking_info tracking cancel) m =
    (r : TrackingResult) × (get_tracking_info tracking m.job_database ≡ some r)
IsExpected timeout now cleanup_tick m =
    are_running (timed_out timeout now m.workers) (job_ids m.job_database.jobs_in_progress) ≡ true
IsExpected timeout now _ m = Unit

receive-Returns :
    (timeout now sender : ℕ) (message : Message) (m : Master)
    → IsExpected timeout now message m
    → Tracked m
    → Returns Tracked (receive timeout now sender message m)
unfolding receive on_worker_requests_file process_cmd_line_job on_upload_file on_cleanup_tick
receive-Returns timeout now sender (register_worker w) m p h =
    register_worker-Returns timeout now sender w m (get_worker w m.workers) h
receive-Returns timeout now sender (worker_requests_work w role) m p h =
    requests_work-Returns timeout now sender w role m m.job_database.pending_jobs refl p h
receive-Returns timeout now sender (work_in_progress w id) m p h =
    work_in_progress-Returns timeout now w id m h
receive-Returns timeout now sender (work_is_done w id r) m (g, p) h =
    work_is_done-Returns timeout now sender w id r m g p h
receive-Returns timeout now sender (work_failed w id r) m (g, p) h =
    work_failed-Returns timeout now w id r m g p h
receive-Returns timeout now sender (upload_file tracking) m p h = (_, refl, h)
receive-Returns timeout now sender (worker_requests_file host readable) m p h =
    rw p (requests_file-Returns sender m (unsent_file host m.file_database m.file_tracker) h)
receive-Returns timeout now sender (file_upload_complete tracking host) m p h =
    file_complete-Returns tracking host m h
receive-Returns timeout now sender (tracking_info tracking cancel) m (r, p) h =
    rw p (tracking_info-Returns sender tracking cancel r m h)
receive-Returns timeout now sender (job j) m p h = on_job-Returns sender j m h
receive-Returns timeout now sender (command_line_job client role tracking ids) m p h =
    accept_all-Returns sender (map (make_job role tracking) ids) _ h
receive-Returns timeout now sender cleanup_tick m p h =
    time_out_all-Returns (timed_out timeout now m.workers) _ p h

-- So at each message that is received.
unfoldable pub AreExpected : ℕ → List Envelope → Master → Type 0
AreExpected timeout [] m = Unit
AreExpected timeout ((now, sender, message) ∷ es) m =
    IsExpected timeout now message m
    × Holds (AreExpected timeout es) (receive timeout now sender message m)

run-Returns :
    (timeout : ℕ) (es : List Envelope) (m : Master)
    → AreExpected timeout es m
    → Tracked m
    → Returns Tracked (run timeout es m)
unfolding run AreExpected
run-Returns timeout [] m p h = (m, refl, h)
run-Returns timeout ((now, sender, message) ∷ es) m (p, ps) h =
    let (t, d, k) = receive-Returns timeout now sender message m p h in
    let (u, e, l) = run-Returns timeout es t (subst (Holds (AreExpected timeout es)) d ps) k in
    (u, ap (λ x. x >>= run timeout es) d ∙ e, l)

-- A master that is started and receives messages, of which every request for work and every report comes
-- from a registered worker, every report names a job with a summary, every file asked for can be read,
-- no result without a job is kept when tracking is asked for, at every tick the workers that are
-- overdue and busy have different jobs that are in progress, and every command-line job draws new
-- identifiers: all
-- handlers return, and in the end every accepted job that has not failed is in exactly one place, and
-- a replay of the journal gives the master's database.
pub master_run-returns :
    (timeout : ℕ) (es : List Envelope)
    → AreDrawn timeout es started
    → AreExpected timeout es started
    → (m : Master) × (run timeout es started ≡ returned m)
      × IsConserved m.job_database
      × (replay m.journal new ≡ some m.job_database)
unfolding replay
master_run-returns timeout es n p =
    let (m, e, k) = run-Returns timeout es started p new-IsTracked in
    let sound = subst (Holds IsSound) e (run-IsSound timeout es started n started-IsSound) in
    (m, e, sound.conserved, sound.replayed)

-- A master that is started and receives messages, of which every request for work and every report comes
-- from a registered worker, every report names a job with a summary, every file asked for can be read,
-- no result without a job is kept when tracking is asked for, at every tick the workers that are
-- overdue and busy have different jobs that are in progress, and every command-line job draws new
-- identifiers: all
-- handlers return, and in the end each job is where the events in the journal have moved it, one after
-- the other: an acceptance and a time-out to those that wait, a start to those in progress, a completion
-- to those that are done, a failure away, and a postponement nowhere.
pub master_run-moves :
    (timeout : ℕ) (es : List Envelope)
    → AreDrawn timeout es started
    → AreExpected timeout es started
    → (m : Master) × (run timeout es started ≡ returned m)
      × ((a : ℕ) → place a m.job_database ≡ moves m.journal a unknown)
unfolding moves
master_run-moves timeout es n p =
    let (m, e, k) = run-Returns timeout es started p new-IsTracked in
    let sound = subst (Holds IsSound) e (run-IsSound timeout es started n started-IsSound) in
    (m, e, λ a. sym (sound.moved a))
