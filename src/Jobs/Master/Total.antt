-- ===== src/Jobs/Master/Total.antt =====
-- When the handlers of the master return.
pub mod Workers
pub mod Runs
use dist_gatling.Shared.{
  ℕ, ◌+◌, ◌≡◌, refl, sym, ap, ◌∙◌, subst, Bool, true, false, not, ◌&&◌, String, Option, none, some,
  List, [], ◌∷◌, map, arith, if◌then◌else◌, ◌==◌, Bool-cases, Option-cases, inl, inr, ◌⊎◌,
}
use dist_gatling.Shared.Names.{same_name}
use dist_gatling.Jobs.{
  Job, Result, JobDomainEvent, job_accepted, job_started, job_completed, job_failed, job_timed_out,
  job_postponed,
}
use dist_gatling.Jobs.Database.{
  JobState, new, contains, remove, remove_job, get_job, time_out, updated, job_ids, is_accepted,
  is_in_progress, is_done, has_job,
}
use dist_gatling.Jobs.Database.Conserved.{IsConserved}
use dist_gatling.Jobs.Database.Total.{IsTracked, new-IsTracked, IsSane, updated-Steps}
use dist_gatling.Jobs.Database.Tracking.{TrackingResult}
use dist_gatling.Jobs.Master.{
  on_tracking_info, WorkerStatus, idle, busy, WorkerState, Master, Done, returned, threw, ◌>>=◌,
  started, tell, persist, update, get_worker, is_idle, on_upload_file, on_job, accept_all,
  process_cmd_line_job, make_job, notify_workers, ack, put_worker, ready,
}
use dist_gatling.Jobs.Master.Workers.{
  extend_idle, change_to_idle, give, put_off, offer, on_worker_requests_work, extend_busy,
  on_work_in_progress, on_work_is_done, on_work_failed, on_register_worker, timed_out, kept,
}
use dist_gatling.Jobs.Master.Mailbox.{
  time_out_all, on_cleanup_tick, Message, register_worker, worker_requests_work, work_in_progress,
  work_is_done, work_failed, upload_file, job, command_line_job, cleanup_tick, receive, Envelope,
  run, replay,
}
use dist_gatling.Jobs.Master.Journal.{Holds}
use dist_gatling.Jobs.Master.Files.{is_sent, send_file, on_file_upload_complete}
use dist_gatling.Jobs.Master.Sound.{IsSound, notify_workers-database}
use dist_gatling.Jobs.Master.Sound.Runs.{AreDrawn, run-IsSound, started-IsSound}
use dist_gatling.Jobs.Master.Sound.Workers.{extend_busy-Kept}

-- A handler returns, and leaves a state with a property.
abbrev pub Returns {ℓ} : (Master → Type ℓ) → Done → Type ℓ
Returns P d = (m : Master) × (d ≡ returned m) × P m

pub Returns-bind {ℓ κ} :
    (P : Master → Type ℓ) (Q : Master → Type κ) (d : Done) (f : Master → Done)
    → Returns P d
    → ((m : Master) → P m → Returns Q (f m))
    → Returns Q (d >>= f)
Returns-bind P Q d f (m, e, p) k = rw e (k m p)

abbrev pub Tracked : Master → Type 0
Tracked m = IsTracked m.job_database

pub update-Returns :
    (e : JobDomainEvent) (m : Master)
    → IsSane e m.job_database
    → Tracked m
    → Returns (λ t. (updated e m.job_database ≡ some t.job_database) × Tracked t) (update e m)
unfolding update
update-Returns e m p h =
    let (s, d, k) = updated-Steps e m.job_database p h in
    rw d (record m { job_database = s }, refl, (refl, k))

pub notify_workers-Tracked : (m : Master) → Tracked m → Tracked (notify_workers m)
notify_workers-Tracked m h = subst IsTracked (sym (notify_workers-database m)) h

pub accept_all-Returns :
    (sender : ℕ) (js : List Job) (m : Master) → Tracked m → Returns Tracked (accept_all sender js m)
unfolding accept_all
accept_all-Returns sender [] m h = (m, refl, h)
accept_all-Returns sender (j ∷ js) m h =
    Returns-bind _ Tracked _ _ (update-Returns (job_accepted j) _ tt h)
      (λ m1 (e, k). accept_all-Returns sender js (notify_workers m1) (notify_workers-Tracked m1 k))

pub on_job-Returns :
    (sender : ℕ) (j : Job) (m : Master) → Tracked m → Returns Tracked (on_job sender j m)
unfolding on_job
on_job-Returns sender j m h = elim (Bool-cases (is_accepted j.job_id m.job_database)) [
  | inl e ↦ rw e (_, refl, h)
  | inr e ↦ rw e (
      Returns-bind _ Tracked _ _ (update-Returns (job_accepted j) _ tt h)
        (λ m1 (e, k). (_, refl, notify_workers-Tracked m1 k)))
]

-- Each of some jobs can be taken from those in progress.
unfoldable pub are_running : List ℕ → List ℕ → Bool
unfolding contains remove
are_running [] js = true
are_running (id ∷ ids) js = contains id js && are_running ids (remove id js)

pub job_ids-remove_job :
    (id : ℕ) (js : List Job) → job_ids (remove_job id js) ≡ remove id (job_ids js)
unfolding remove_job remove
job_ids-remove_job id [] = refl
job_ids-remove_job id (j ∷ js) = elim (Bool-cases (j.job_id == id)) [
  | inl e ↦ rw e (job_ids-remove_job id js)
  | inr e ↦ rw e (ap (λ is. j.job_id ∷ is) (job_ids-remove_job id js))
]

pub time_out-running :
    (id : ℕ) (s : JobState) (o : Option Job) {t : JobState}
    → time_out id s o ≡ some t
    → job_ids t.jobs_in_progress ≡ remove id (job_ids s.jobs_in_progress)
unfolding time_out
time_out-running id s none e = absurd (ground arith)
time_out-running id s (some j) {t} e =
    ap (λ (o : Option JobState). elim o [ none ↦ [] | some x ↦ job_ids x.jobs_in_progress ]) (sym e)
    ∙ job_ids-remove_job id s.jobs_in_progress

pub time_out_all-Returns :
    (ids : List ℕ) (m : Master)
    → are_running ids (job_ids m.job_database.jobs_in_progress) ≡ true
    → Tracked m
    → Returns Tracked (time_out_all ids m)
unfolding time_out_all are_running updated
time_out_all-Returns [] m p h = (m, refl, h)
time_out_all-Returns (id ∷ ids) m p h =
    Returns-bind _ Tracked _ _ (update-Returns (job_timed_out id) m (ground (arith, p)) h)
      (λ m1 (e, k).
        let left =
          time_out-running id m.job_database (get_job id m.job_database.jobs_in_progress) e in
        time_out_all-Returns ids (notify_workers m1)
          (ap (λ (s : JobState). are_running ids (job_ids s.jobs_in_progress))
              (notify_workers-database m1)
            ∙ ap (are_running ids) left
            ∙ ground (arith, p))
          (notify_workers-Tracked m1 k))

pub file_complete-Returns :
    (tracking host : ℕ) (m : Master)
    → Tracked m
    → Returns Tracked (on_file_upload_complete tracking host m)
unfolding on_file_upload_complete
file_complete-Returns tracking host m h = elim (Bool-cases (is_sent tracking host m.file_tracker)) [
  | inl e ↦ rw e (_, refl, h)
  | inr e ↦ rw e (_, refl, h)
]

pub requests_file-Returns :
    (sender : ℕ) (m : Master) (o : Option ℕ)
    → Tracked m
    → Returns Tracked (send_file sender true m o)
unfolding send_file
requests_file-Returns sender m none h = (m, refl, h)
requests_file-Returns sender m (some t) h = (_, refl, h)

pub tracking_info-Returns :
    (sender tracking : ℕ) (cancel : Bool) (r : TrackingResult) (m : Master)
    → Tracked m
    → Returns Tracked (on_tracking_info sender tracking cancel m (some r))
unfolding on_tracking_info
tracking_info-Returns sender tracking true r m h = (_, refl, h)
tracking_info-Returns sender tracking false r m h = (_, refl, h)
