-- ===== src/Jobs/Master/Sound.antt =====
-- The master's jobs and its journal, whatever it receives.
pub mod Workers
pub mod Runs
use dist_gatling.Shared.{
  ℕ, ◌+◌, ◌≡◌, refl, sym, ap, ◌∙◌, Bool, true, false, not, String, Option, none, some, List, [],
  ◌∷◌, ◌++◌, map, arith, if◌then◌else◌, Bool-cases, Option-cases, inl, inr, ◌⊎◌, subst,
}
use dist_gatling.Shared.Names.{same_name}
use dist_gatling.Jobs.{
  Job, Result, JobDomainEvent, job_accepted, job_started, job_completed, job_failed, job_timed_out,
  job_postponed,
}
use dist_gatling.Jobs.Database.{
  JobState, new, updated, is_accepted, is_in_progress, is_done, accept, has_job,
}
use dist_gatling.Jobs.Database.Conserved.{IsConserved, new-IsConserved}
use dist_gatling.Jobs.Database.Updates.{Permits}
use dist_gatling.Jobs.Database.Tracking.{TrackingResult}
use dist_gatling.Jobs.Master.{
  on_tracking_info, WorkerStatus, idle, busy, WorkerState, Entry, event, upload, Master, Done,
  returned, threw, ◌>>=◌, started, tell, persist, update, get_worker, put_worker, is_idle, ack,
  command_line_job_accepted, on_upload_file, on_job, make_job, accept_all, process_cmd_line_job,
  notify_workers,
}
use dist_gatling.Jobs.Master.Workers.{
  extend_idle, change_to_idle, give, put_off, offer, on_worker_requests_work, extend_busy,
  on_work_in_progress, on_work_is_done, on_work_failed, on_register_worker, timed_out, kept,
}
use dist_gatling.Jobs.Master.Mailbox.{
  and_then, time_out_all, on_cleanup_tick, replay, Message, register_worker, worker_requests_work,
  work_in_progress, work_is_done, work_failed, upload_file, job, command_line_job, cleanup_tick,
  receive, Envelope, run,
}
use dist_gatling.Jobs.Database.Places.{unknown}
use dist_gatling.Jobs.Master.Files.{is_sent, send_file, on_file_upload_complete}
use dist_gatling.Jobs.Master.Journal.{
  moves, moves-append, Holds, Holds-bind, replay-append, IsAhead, Ahead, journal-IsAhead,
  update-Ahead, notify_workers-Ahead,
}

-- No job is lost or in two places, and the journal gives the database.
abbrev pub IsSound : Master → Type 0
IsSound m = Ahead [] m

-- The identifiers that are drawn for new jobs are not those of accepted ones.
abbrev pub AreNew : List Job → JobState → Type 0
AreNew [] s = Unit
AreNew (j ∷ js) s = (is_accepted j.job_id s ≡ false) × AreNew js (accept j s)

abbrev pub accepted_events : List Job → List JobDomainEvent
accepted_events js = map job_accepted js

pub notify_workers-database : (m : Master) → (notify_workers m).job_database ≡ m.job_database
unfolding notify_workers
notify_workers-database m = elim (Bool-cases (has_job m.job_database)) [
  | inl e ↦ rw e refl
  | inr e ↦ rw e refl
]

pub notify_workers-journal : (m : Master) → (notify_workers m).journal ≡ m.journal
unfolding notify_workers
notify_workers-journal m = elim (Bool-cases (has_job m.job_database)) [
  | inl e ↦ rw e refl
  | inr e ↦ rw e refl
]

pub accept_all-IsSound :
    (sender : ℕ) (js : List Job) (m : Master)
    → AreNew js m.job_database
    → Ahead (accepted_events js) m
    → Holds IsSound (accept_all sender js m)
unfolding accept_all updated
accept_all-IsSound sender [] m n h = h
accept_all-IsSound sender (j ∷ js) m (n, ns) h =
    let m1 = record (tell sender (command_line_job_accepted j) m) {
      job_database = accept j m.job_database;
    } in
    accept_all-IsSound sender js (notify_workers m1)
      (subst (AreNew js) (sym (notify_workers-database m1)) ns)
      (notify_workers-Ahead (accepted_events js) m1
        (update-Ahead (job_accepted j) (accepted_events js) m n h))

pub event_map {ℓ} :
    {A : Type ℓ} (f : A → JobDomainEvent) (xs : List A)
    → map event (map f xs) ≡ map (λ x. event (f x)) xs
event_map f [] = refl
event_map f (x ∷ xs) = ap (λ es. event (f x) ∷ es) (event_map f xs)

pub command_line_job-IsSound :
    (sender client : ℕ) (role : String) (tracking : ℕ) (ids : List ℕ) (m : Master)
    → AreNew (map (make_job role tracking) ids) m.job_database
    → IsSound m
    → Holds IsSound (process_cmd_line_job sender client role tracking ids m)
unfolding process_cmd_line_job
command_line_job-IsSound sender client role tracking ids m n h =
    let js = map (make_job role tracking) ids in
    accept_all-IsSound sender js _ n (
      subst (λ es. IsAhead (accepted_events js) (m.journal ++ es) m.job_database)
        (event_map job_accepted js)
        (journal-IsAhead (accepted_events js) m.journal m.job_database h))

-- An event is persisted and applied, and a handler goes on.
pub persisted-IsSound :
    (e : JobDomainEvent) (m : Master) (f : Master → Done)
    → Permits e m.job_database
    → Ahead (e ∷ []) m
    → ((m1 : Master) → IsSound m1 → Holds IsSound (f m1))
    → Holds IsSound (update e m >>= f)
persisted-IsSound e m f p h k =
    Holds-bind IsSound IsSound (update e m) f (update-Ahead e [] m p h) k

pub on_job-IsSound :
    (sender : ℕ) (j : Job) (m : Master) → IsSound m → Holds IsSound (on_job sender j m)
unfolding on_job
on_job-IsSound sender j m h = elim (Bool-cases (is_accepted j.job_id m.job_database)) [
  | inl e ↦ rw e h
  | inr e ↦ rw e (
      persisted-IsSound (job_accepted j) (tell sender (ack j.job_id) (persist (job_accepted j) m))
        (λ m1. returned (notify_workers m1)) e
        (journal-IsAhead (job_accepted j ∷ []) m.journal m.job_database h)
        (λ m1 k. notify_workers-Ahead [] m1 k))
]

pub on_upload_file-IsSound :
    (sender tracking : ℕ) (m : Master)
    → IsSound m
    → Holds IsSound (on_upload_file sender tracking m)
unfolding on_upload_file replay moves
on_upload_file-IsSound sender tracking m h = record {
  conserved = h.conserved;
  replayed =
      replay-append m.journal (upload tracking ∷ []) new
      ∙ ap (λ (o : Option JobState). and_then o (λ s. some s)) h.replayed;
  moved = λ a. moves-append m.journal (upload tracking ∷ []) a unknown ∙ h.moved a;
}

pub time_out_all-IsSound :
    (ids : List ℕ) (m : Master)
    → Ahead (map job_timed_out ids) m
    → Holds IsSound (time_out_all ids m)
unfolding time_out_all
time_out_all-IsSound [] m h = h
time_out_all-IsSound (id ∷ ids) m h =
    Holds-bind (Ahead (map job_timed_out ids)) IsSound (update (job_timed_out id) m) _
      (update-Ahead (job_timed_out id) (map job_timed_out ids) m tt h)
      (λ m1 k.
        time_out_all-IsSound ids (notify_workers m1)
          (notify_workers-Ahead (map job_timed_out ids) m1 k))

pub cleanup_tick-IsSound :
    (timeout now : ℕ) (m : Master) → IsSound m → Holds IsSound (on_cleanup_tick timeout now m)
unfolding on_cleanup_tick
cleanup_tick-IsSound timeout now m h =
    let ids = timed_out timeout now m.workers in
    time_out_all-IsSound ids _ (
      subst (λ es. IsAhead (map job_timed_out ids) (m.journal ++ es) m.job_database)
        (event_map job_timed_out ids)
        (journal-IsAhead (map job_timed_out ids) m.journal m.job_database h))

pub requests_file-IsSound :
    (sender : ℕ) (readable : Bool) (m : Master) (o : Option ℕ)
    → IsSound m
    → Holds IsSound (send_file sender readable m o)
unfolding send_file
requests_file-IsSound sender readable m none h = h
requests_file-IsSound sender true m (some t) h = h
requests_file-IsSound sender false m (some t) h = tt

pub file_complete-IsSound :
    (tracking host : ℕ) (m : Master)
    → IsSound m
    → Holds IsSound (on_file_upload_complete tracking host m)
unfolding on_file_upload_complete
file_complete-IsSound tracking host m h = elim (Bool-cases (is_sent tracking host m.file_tracker)) [
  | inl e ↦ rw e h
  | inr e ↦ rw e h
]

pub tracking_info-IsSound :
    (sender tracking : ℕ) (cancel : Bool) (m : Master) (o : Option TrackingResult)
    → IsSound m
    → Holds IsSound (on_tracking_info sender tracking cancel m o)
unfolding on_tracking_info
tracking_info-IsSound sender tracking cancel m none h = tt
tracking_info-IsSound sender tracking true m (some r) h = h
tracking_info-IsSound sender tracking false m (some r) h = h
