-- ===== src/Examples/Jobs.antt =====
-- Runs of the master of the cluster.
use dist_gatling.Shared.{
  Bool, ℕ, zero, suc, ◌≤◌, ◌≡◌, refl, ap, true, false, not, none, some, List, [], ◌∷◌, ◌++◌, length,
  arith,
}
use dist_gatling.Jobs.{Status, timedout, postponed, Job, Result, TaskEvent}
use dist_gatling.Jobs.Summary.{running_job, completed_job, failed_job, contains_work, on_work}
use dist_gatling.Jobs.Summary.Shown.{all_wait, waiting-shown}
use dist_gatling.Jobs.Database.{
  JobState, new, contains, add, get_job, remove_job, put_job, get_summary, add_task, on_summary,
  on_containing, accept, start_first, close_task, complete, time_out, updated, is_in_progress,
}
use dist_gatling.Jobs.Database.Conserved.{IsConserved}
use dist_gatling.Jobs.Database.Total.{IsTracked, keys, all_in}
use dist_gatling.Jobs.Master.{
  tell, tracking_result, on_tracking_info, idle, busy, Entry, Master, Done, returned, threw,
  started, update, get_worker, put_worker, notify_workers, ready, work, on_job, accept_all,
  process_cmd_line_job,
}
use dist_gatling.Jobs.Database.Tracking.{get_tracking_info, tracked_with, logs_of, count_tracking}
use dist_gatling.Jobs.Master.Files.{is_sent, on_worker_requests_file}
use dist_gatling.Jobs.Master.Files.Sent.{unsent, are_distinct, rounds, file_jobs, rounds_sent}
use dist_gatling.Jobs.Master.Workers.{
  change_to_idle, give, offer, on_worker_requests_work, on_work_is_done, on_work_failed,
  on_register_worker, timed_out, kept,
}
use dist_gatling.Jobs.Master.Mailbox.{
  tracking_info, time_out_all, on_cleanup_tick, replay, Recovery, recover, register_worker,
  worker_requests_work, work_is_done, job, command_line_job, cleanup_tick, receive, Envelope, run,
}
use dist_gatling.Jobs.Database.Places.{place, unknown}
use dist_gatling.Jobs.Master.Journal.{moves, Holds}
use dist_gatling.Jobs.Master.Sound.{IsSound}
use dist_gatling.Jobs.Master.Sound.Runs.{
  AreDrawn, run-IsSound, started-IsSound, master_run-IsConserved,
}
use dist_gatling.Jobs.Master.Total.{are_running}
use dist_gatling.Jobs.Master.Total.Runs.{AreExpected, master_run-moves, master_run-returns}
use dist_gatling.Jobs.Master.Scheduling.{requests, has_none, requests-IsGiven}
use dist_gatling.Jobs.Master.Restart.{submissions, are_fresh, recover-short, recover-long}
use dist_gatling.Jobs.Master.Poison.{IsPoisoned, cleanup_tick-IsPoisoned, work_failed-IsPoisoned}

abbrev load_job : Job
load_job = record { job_id = 1; role_id = "load"; tracking_id = 10 }

abbrev load_result : Result
load_result = record { job = some load_job; err_path = "err"; std_path = "out" }

-- A worker registers, two tasks are submitted, the worker does the first, and the master looks for
-- overdue workers.
abbrev some_work : List Envelope
some_work =
    (5, 100, register_worker 1)
    ∷ (6, 7, command_line_job 50 "load" 10 (1 ∷ 2 ∷ []))
    ∷ (7, 100, worker_requests_work 1 "load")
    ∷ (8, 100, work_is_done 1 1 load_result)
    ∷ (9, 0, cleanup_tick)
    ∷ []

some_work_drawn : AreDrawn 1000 some_work started
unfolding AreDrawn receive on_register_worker get_worker put_worker process_cmd_line_job accept_all
    update updated accept add contains add_task notify_workers ready on_worker_requests_work offer
    give start_first get_summary put_job remove_job on_summary on_work on_work_is_done
    change_to_idle complete close_task on_cleanup_tick timed_out kept time_out_all
some_work_drawn = (tt, ((refl, (refl, tt)), (tt, (tt, (tt, tt)))))

master_run-IsConserved_example :
    Holds (λ m. IsConserved m.job_database) (run 1000 some_work started)
master_run-IsConserved_example = master_run-IsConserved 1000 some_work some_work_drawn

some_work_expected : AreExpected 1000 some_work started
unfolding AreExpected receive on_register_worker get_worker put_worker process_cmd_line_job
    accept_all update updated accept add contains add_task notify_workers ready
    on_worker_requests_work offer give start_first get_summary put_job remove_job on_summary on_work
    on_work_is_done change_to_idle complete close_task on_cleanup_tick timed_out kept time_out_all
    are_running keys all_in
some_work_expected = (tt, (tt, ((_, refl), (((_, refl), (load_job, refl, refl)), (refl, tt)))))

master_run-returns_example :
    (m : Master) × (run 1000 some_work started ≡ returned m)
    × IsConserved m.job_database
    × (replay m.journal new ≡ some m.job_database)
master_run-returns_example = master_run-returns 1000 some_work some_work_drawn some_work_expected

master_run-moves_example :
    (m : Master) × (run 1000 some_work started ≡ returned m)
    × ((a : ℕ) → place a m.job_database ≡ moves m.journal a unknown)
master_run-moves_example = master_run-moves 1000 some_work some_work_drawn some_work_expected

-- The worker's time is over and another worker is given its job, when it reports the job as done.
abbrev late_report : List Envelope
late_report =
    (0, 100, register_worker 1)
    ∷ (0, 7, job load_job)
    ∷ (1, 100, worker_requests_work 1 "load")
    ∷ (2000, 0, cleanup_tick)
    ∷ (2001, 200, register_worker 2)
    ∷ (2002, 200, worker_requests_work 2 "load")
    ∷ (2003, 100, register_worker 1)
    ∷ (2004, 100, work_is_done 1 1 load_result)
    ∷ []

abbrev end_of : Done → Master
end_of (returned m) = m
end_of (threw m) = m

late : Master
unfolding run receive on_register_worker get_worker put_worker on_job update updated accept add
    contains add_task notify_workers ready on_worker_requests_work offer give start_first
    get_summary put_job remove_job on_summary on_work on_cleanup_tick timed_out kept time_out_all
    time_out get_job on_containing contains_work on_work_is_done change_to_idle complete close_task
late = end_of (run 1000 late_report started)

late_drawn : AreDrawn 1000 late_report started
unfolding AreDrawn receive on_register_worker get_worker put_worker on_job update updated accept add
    contains add_task notify_workers ready on_worker_requests_work offer give start_first
    get_summary put_job remove_job on_summary on_work on_cleanup_tick timed_out kept time_out_all
    time_out get_job on_containing contains_work on_work_is_done change_to_idle complete close_task
late_drawn = (tt, (tt, (tt, (tt, (tt, (tt, (tt, (tt, tt))))))))

late-IsSound : IsSound late
unfolding late
late-IsSound = run-IsSound 1000 late_report started late_drawn started-IsSound

-- The other worker is still busy with the job, which is done.
late_worker :
    (get_worker 2 late.workers ≡ some (record { ref = 200; status = busy 1 3002 }))
    × (is_in_progress 1 late.job_database ≡ false)
unfolding late
late_worker = (refl, refl)

cleanup_tick-IsPoisoned_example : IsPoisoned (on_cleanup_tick 1000 4000 late)
cleanup_tick-IsPoisoned_example =
    cleanup_tick-IsPoisoned 1000 4000 2 1 3002 200 late late-IsSound late_worker.0 (omega arith)
      late_worker.1

-- A worker is busy with the job.
abbrev job_given : List Envelope
job_given =
    (0, 100, register_worker 1)
    ∷ (0, 7, job load_job)
    ∷ (1, 100, worker_requests_work 1 "load")
    ∷ []

given : Master
unfolding run receive on_register_worker get_worker put_worker on_job update updated accept add
    contains add_task notify_workers ready on_worker_requests_work offer give start_first
    get_summary put_job remove_job on_summary on_work
given = end_of (run 1000 job_given started)

given_drawn : AreDrawn 1000 job_given started
unfolding AreDrawn receive on_register_worker get_worker put_worker on_job update updated accept add
    contains add_task notify_workers ready on_worker_requests_work offer give start_first
    get_summary put_job remove_job on_summary on_work
given_drawn = (tt, (tt, (tt, tt)))

given-IsSound : IsSound given
unfolding given
given-IsSound = run-IsSound 1000 job_given started given_drawn started-IsSound

-- The result that a worker sends when its executor throws.
abbrev no_job_result : Result
no_job_result = record { job = none; err_path = ""; std_path = "" }

given_worker :
    (get_worker 1 given.workers ≡ some (record { ref = 100; status = busy 1 1001 }))
    × (is_in_progress 1 given.job_database ≡ true)
unfolding given
given_worker = (refl, refl)

work_failed-IsPoisoned_example : IsPoisoned (on_work_failed 1000 500 1 1 no_job_result given)
work_failed-IsPoisoned_example =
    work_failed-IsPoisoned 1000 500 1 1 no_job_result given
      (record { ref = 100; status = busy 1 1001 }) given-IsSound given_worker.0 given_worker.1 refl

-- The first entries of a journal.
abbrev first : ℕ → List Entry → List Entry
first n [] = []
first zero (e ∷ es) = []
first (suc n) (e ∷ es) = e ∷ first n es

first-short : (n : ℕ) (es : List Entry) → length es ≤ n → first n es ≡ es
first-short n [] h = refl
first-short zero (e ∷ es) h = absurd (omega (arith, h))
first-short (suc n) (e ∷ es) h = ap (λ fs. e ∷ fs) (first-short n es (omega (arith, h)))

first-long : (es fs : List Entry) → first (length es) (es ++ fs) ≡ es
first-long [] [] = refl
first-long [] (f ∷ fs) = refl
first-long (e ∷ es) fs = ap (λ gs. e ∷ gs) (first-long es fs)

abbrev from_first : Recovery
from_first = record { upto = first; upto-short = first-short; upto-long = first-long }

given-run : run 1000 job_given started ≡ returned given
unfolding given run receive on_register_worker get_worker put_worker on_job update updated accept
    add contains add_task notify_workers ready on_worker_requests_work offer give start_first
    get_summary put_job remove_job on_summary on_work
given-run = refl

given_short : length given.journal ≤ 100
unfolding given
given_short = omega arith

recover-short_example : recover from_first given ≡ some given.job_database
recover-short_example =
    recover-short from_first 1000 job_given given given_drawn given-run given_short

-- Jobs with the numbers from one on.
abbrev some_jobs : ℕ → ℕ → List Job
some_jobs id zero = []
some_jobs id (suc n) =
    record { job_id = id; role_id = "load"; tracking_id = 10 } ∷ some_jobs (suc id) n

some_jobs_fresh : are_fresh (some_jobs 1 100 ++ some_jobs 101 2) new ≡ true
unfolding are_fresh contains accept add add_task
some_jobs_fresh = refl

recover-long_example :
    (m : Master) × (s : JobState) × (run 1000
        (submissions (some_jobs 1 100 ++ some_jobs 101 2))
        started
      ≡ returned m)
    × (m.job_database.pending_jobs ≡ some_jobs 1 100 ++ some_jobs 101 2)
    × (recover from_first m ≡ some s)
    × (s.pending_jobs ≡ some_jobs 1 100)
recover-long_example =
    recover-long from_first 1000 (some_jobs 1 100) (some_jobs 101 2) refl some_jobs_fresh

abbrev task : ℕ → Status → TaskEvent
task id st = record {
  task_job_id = id;
  status = st;
  worker_id = none;
  error_log_path = none;
  std_log_path = none;
}

waiting_tasks : all_wait (task 1 postponed ∷ task 2 timedout ∷ []) ≡ true
unfolding all_wait
waiting_tasks = refl

waiting-shown_example :
    (running_job (task 1 postponed ∷ task 2 timedout ∷ []) ≡ false)
    × (completed_job (task 1 postponed ∷ task 2 timedout ∷ []) ≡ false)
    × (failed_job (task 1 postponed ∷ task 2 timedout ∷ []) ≡ not true)
waiting-shown_example = waiting-shown (task 1 postponed) (task 2 timedout ∷ []) waiting_tasks

-- Two jobs wait, one of another role before the worker's own.
abbrev other_job : Job
other_job = record { job_id = 2; role_id = "soak"; tracking_id = 20 }

abbrev two_jobs : List Envelope
two_jobs = (0, 100, register_worker 1) ∷ (0, 7, job other_job) ∷ (0, 7, job load_job) ∷ []

waiting : Master
unfolding run receive on_register_worker get_worker put_worker on_job update updated accept add
    contains add_task notify_workers ready
waiting = end_of (run 1000 two_jobs started)

waiting_state :
    (get_worker 1 waiting.workers ≡ some (record { ref = 100; status = idle 1000 }))
    × (waiting.job_database.pending_jobs ≡ (other_job ∷ []) ++ load_job ∷ [])
    × IsTracked waiting.job_database
unfolding waiting all_in keys
waiting_state = (refl, refl, record { pending = refl; in_progress = refl })

requests-IsGiven_example :
    (t : Master) × (run 1000 (requests 100 1 "load" (3 ∷ 5 ∷ [])) waiting ≡ returned t)
    × (t.job_database.pending_jobs ≡ other_job ∷ [])
    × (is_in_progress 1 t.job_database ≡ true)
    × (get_worker 1 t.workers ≡ some (record { ref = 100; status = busy 1 1005 }))
    × (t.told ≡ waiting.told ++ (100, work load_job) ∷ [])
unfolding has_none
requests-IsGiven_example =
    requests-IsGiven 1000 100 1 5 "load" (3 ∷ []) (other_job ∷ []) [] load_job waiting
      (record { ref = 100; status = idle 1000 }) waiting_state.0 refl refl refl waiting_state.1
      waiting_state.2 refl

-- Two files are uploaded, and a worker of a host asks for them.
abbrev two_files : Master
two_files = record started { file_database = 20 ∷ 10 ∷ [] }

two_files_unsent : unsent 5 two_files.file_database two_files.file_tracker ≡ 20 ∷ 10 ∷ []
unfolding unsent is_sent
two_files_unsent = refl

two_files_distinct : are_distinct (20 ∷ 10 ∷ []) ≡ true
unfolding are_distinct contains
two_files_distinct = refl

rounds_sent_example :
    (u : Master) × (run 1000 (rounds 3 100 5 (20 ∷ 10 ∷ [])) two_files ≡ returned u)
    × (u.told ≡ file_jobs 100 (20 ∷ 10 ∷ []))
    × ((readable : Bool) → on_worker_requests_file 100 5 readable u ≡ returned u)
rounds_sent_example =
    rounds_sent 1000 3 100 5 (20 ∷ 10 ∷ []) two_files two_files_unsent two_files_distinct

-- What tracking tells about the job that is in progress, when it is cancelled.
tracking_cancelled :
    (receive 1000 3 7 (tracking_info 10 true) given
      ≡ returned (
          tell 7
            (tracking_result (record {
              pending_count = 0;
              in_progress_count = 1;
              completed = [];
              failed = [];
              cancelled = true;
            }))
            (record given { cancel_requests = 10 ∷ [] })))
unfolding given receive on_tracking_info get_tracking_info tracked_with logs_of count_tracking add
    contains
tracking_cancelled = refl
