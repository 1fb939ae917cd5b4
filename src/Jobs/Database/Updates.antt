-- ===== src/Jobs/Database/Updates.antt =====
-- Every event that the master may persist keeps the jobs.
use dist_gatling.Shared.{
  ℕ, ◌≤◌, ◌≡◌, refl, ap, subst, true, false, Option, none, some, List, [], ◌∷◌, arith, ◌==◌,
  Bool-cases, inl, inr,
}
use dist_gatling.Jobs.{
  completed, failed, Job, Result, JobDomainEvent, job_accepted, job_started, job_completed,
  job_failed, job_timed_out, job_postponed,
}
use dist_gatling.Jobs.Database.{
  JobState, get_job, put_job, accept, start_first, complete, fail, time_out, postpone, updated,
  job_ids, is_in_progress, is_accepted, get_summary, Summaries,
}
use dist_gatling.Jobs.Database.Conserved.{
  count, jobs, IsConserved, jobs-append, jobs-one, jobs-cons, count-absent, count-present,
  count-add, count-remove, jobs-remove_job, jobs-put_job, get_job-some, if_found-some,
  close_task-SamePlaces, SamePlaces-IsConserved,
}

-- When the master persists an event: a job is accepted only if it is not, and ends only if it is in
-- progress.
abbrev pub Permits : JobDomainEvent → JobState → Type 0
Permits (job_accepted j) s = is_accepted j.job_id s ≡ false
Permits (job_completed id r) s = is_in_progress id s ≡ true
Permits (job_failed id r) s = is_in_progress id s ≡ true
Permits _ s = Unit

pub some_inj : {s t : JobState} → some s ≡ some t → s ≡ t
some_inj h = cc

accept-IsConserved :
    (j : Job) (s : JobState)
    → is_accepted j.job_id s ≡ false
    → IsConserved s
    → IsConserved (accept j s)
unfolding accept
accept-IsConserved j s e h =
    let absent = count-absent j.job_id s.accepted_job_ids e in
    record {
      once = λ a. ground (arith, count-add j.job_id a s.accepted_job_ids absent, h.once a, absent);
      placed = λ a. omega (
        arith,
        count-add j.job_id a s.accepted_job_ids absent,
        h.placed a,
        jobs-append a s.pending_jobs (j ∷ []),
        jobs-one a j,
      );
    }

start_first-IsConserved :
    (id worker : ℕ) (s : JobState) (js : List Job) {t : JobState}
    → s.pending_jobs ≡ js
    → start_first id worker s js ≡ some t
    → IsConserved s
    → IsConserved t
unfolding start_first
start_first-IsConserved id worker s [] p e h = absurd (ground arith)
start_first-IsConserved id worker s (j ∷ js) {t} p e h = elim (Bool-cases (j.job_id == id)) [
  | inl same ↦
      let found = if_found-some (get_summary j.tracking_id s.job_summary) _ (rw same at e) in
      subst IsConserved found (started-IsConserved _)
  | inr other ↦ absurd (ground (arith, e, other))
]
  where
    here : 1 ≤ jobs j.job_id s.pending_jobs
    here = rw p (ground (arith, jobs-cons j.job_id j js))

    absent : jobs j.job_id s.jobs_in_progress ≡ 0
    absent = omega (arith, here, h.once j.job_id, h.placed j.job_id)

    started-IsConserved :
        (m : Summaries)
        → IsConserved (record s {
          pending_jobs = js;
          jobs_in_progress = put_job j s.jobs_in_progress;
          job_summary = m;
        })
    started-IsConserved m = record {
      once = h.once;
      placed = λ a. omega (
        arith,
        h.placed a,
        ap (jobs a) p,
        jobs-cons a j js,
        jobs-put_job a j s.jobs_in_progress absent,
      );
    }

complete-IsConserved :
    (id : ℕ) (r : Result) (s : JobState) {t : JobState}
    → is_in_progress id s ≡ true
    → complete id r s ≡ some t
    → IsConserved s
    → IsConserved t
unfolding complete
complete-IsConserved id r s {t} p e h =
    let here = count-present id (job_ids s.jobs_in_progress) p in
    let absent : count id s.done_job_ids ≡ 0 = omega (arith, here, h.once id, h.placed id) in
    SamePlaces-IsConserved _ t (close_task-SamePlaces completed r _ r.job e) (record {
      once = h.once;
      placed = λ a. ground (
        arith,
        here,
        h.once id,
        h.placed id,
        h.placed a,
        jobs-remove_job id a s.jobs_in_progress,
        count-add id a s.done_job_ids absent,
      );
    })

fail-IsConserved :
    (id : ℕ) (r : Result) (s : JobState) {t : JobState}
    → is_in_progress id s ≡ true
    → fail id r s ≡ some t
    → IsConserved s
    → IsConserved t
unfolding fail
fail-IsConserved id r s {t} p e h =
    let here = count-present id (job_ids s.jobs_in_progress) p in
    SamePlaces-IsConserved _ t (close_task-SamePlaces failed r _ r.job e) (record {
      once = λ a. ground (arith, h.once a, count-remove id a s.accepted_job_ids);
      placed = λ a. ground (
        arith,
        here,
        h.once id,
        h.placed id,
        h.placed a,
        jobs-remove_job id a s.jobs_in_progress,
        count-remove id a s.accepted_job_ids,
      );
    })

time_out-IsConserved :
    (id : ℕ) (s : JobState) (o : Option Job) {t : JobState}
    → get_job id s.jobs_in_progress ≡ o
    → time_out id s o ≡ some t
    → IsConserved s
    → IsConserved t
unfolding time_out
time_out-IsConserved id s none {t} p e h = absurd (ground arith)
time_out-IsConserved id s (some j) {t} p e h =
    let (same, here) = get_job-some id s.jobs_in_progress j p in
    subst IsConserved (some_inj e) (record {
      once = h.once;
      placed = λ a. ground (
        arith,
        same,
        here,
        h.once id,
        h.placed id,
        h.placed a,
        jobs-remove_job id a s.jobs_in_progress,
        jobs-append a s.pending_jobs (j ∷ []),
        jobs-one a j,
      );
    })

postpone-IsConserved :
    (id : ℕ) (s : JobState) (js : List Job) {t : JobState}
    → s.pending_jobs ≡ js
    → postpone id s js ≡ some t
    → IsConserved s
    → IsConserved t
unfolding postpone
postpone-IsConserved id s [] {t} p e h = absurd (ground arith)
postpone-IsConserved id s (j ∷ js) {t} p e h = subst IsConserved (some_inj e) (record {
  once = h.once;
  placed = λ a.
      omega (
        arith,
        h.placed a,
        ap (jobs a) p,
        jobs-cons a j js,
        jobs-append a js (j ∷ []),
        jobs-one a j,
      );
})

-- From a state in which every accepted job that has not failed is in exactly one place and nothing else
-- is anywhere, every event that the master may persist leads, if its constructor gives a state, to such
-- a state: no job is lost, none is in two places, and none that is done waits or runs again.
pub updated-IsConserved :
    (e : JobDomainEvent) (s : JobState) {t : JobState}
    → Permits e s
    → updated e s ≡ some t
    → IsConserved s
    → IsConserved t
unfolding updated
updated-IsConserved (job_accepted j) s p e h =
    subst IsConserved (some_inj e) (accept-IsConserved j s p h)
updated-IsConserved (job_started id worker) s p e h =
    start_first-IsConserved id worker s s.pending_jobs refl e h
updated-IsConserved (job_completed id r) s p e h = complete-IsConserved id r s p e h
updated-IsConserved (job_failed id r) s p e h = fail-IsConserved id r s p e h
updated-IsConserved (job_timed_out id) s p e h =
    time_out-IsConserved id s (get_job id s.jobs_in_progress) refl e h
updated-IsConserved (job_postponed id) s p e h = postpone-IsConserved id s s.pending_jobs refl e h
