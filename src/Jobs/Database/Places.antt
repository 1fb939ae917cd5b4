-- ===== src/Jobs/Database/Places.antt =====
-- Where a job is, without the order of the queue: each event moves one job.
use dist_gatling.Shared.{
  ℕ, ◌≤◌, ◌≡◌, refl, sym, ap, ◌∙◌, true, false, Option, none, some, List, [], ◌∷◌, arith, ◌==◌, leb,
  if◌then◌else◌, Bool-cases, inl, inr,
}
use dist_gatling.Jobs.{
  completed, failed, Job, Result, JobDomainEvent, job_accepted, job_started, job_completed,
  job_failed, job_timed_out, job_postponed,
}
use dist_gatling.Jobs.Database.{
  JobState, new, get_job, accept, start_first, complete, fail, time_out, postpone, updated, job_ids,
  is_in_progress, is_accepted, get_summary,
}
use dist_gatling.Jobs.Database.Conserved.{
  count, count-nil, jobs, IsConserved, jobs-append, jobs-one, jobs-cons, count-absent,
  count-present, count-add, jobs-remove_job, jobs-put_job, get_job-some, if_found-some,
  close_task-SamePlaces, SamePlaces,
}
use dist_gatling.Jobs.Database.Updates.{Permits, some_inj}

pub data Place : Type 0 where
  unknown waiting running finished : Place

-- The place of a job that is so often among the done, those in progress and those that wait.
abbrev pub placed_by : ℕ → ℕ → ℕ → Place
placed_by d r w =
    if leb 1 d then finished else if leb 1 r then running else if leb 1 w then waiting else unknown

-- the place of the job with an identifier
unfoldable pub place : ℕ → JobState → Place
place a s = placed_by (count a s.done_job_ids) (jobs a s.jobs_in_progress) (jobs a s.pending_jobs)

pub new-place : (a : ℕ) → place a new ≡ unknown
unfolding place
new-place a = rw (count-nil a) refl

-- What an event does to a job, seen from outside.
unfoldable pub move : JobDomainEvent → ℕ → Place → Place
move (job_accepted j) a p = if j.job_id == a then waiting else p
move (job_started id worker) a p = if id == a then running else p
move (job_completed id r) a p = if id == a then finished else p
move (job_failed id r) a p = if id == a then unknown else p
move (job_timed_out id) a p = if id == a then waiting else p
move (job_postponed id) a p = p

accept-place :
    (j : Job) (a : ℕ) (s : JobState)
    → is_accepted j.job_id s ≡ false
    → IsConserved s
    → place a (accept j s) ≡ move (job_accepted j) a (place a s)
unfolding accept place move
accept-place j a s e h =
    let absent = count-absent j.job_id s.accepted_job_ids e in
    ground (arith, absent, h.placed j.job_id, jobs-append a s.pending_jobs (j ∷ []), jobs-one a j)

start_first-place :
    (id worker a : ℕ) (s : JobState) (js : List Job) {t : JobState}
    → s.pending_jobs ≡ js
    → start_first id worker s js ≡ some t
    → IsConserved s
    → place a t ≡ move (job_started id worker) a (place a s)
unfolding start_first place move
start_first-place id worker a s [] p e h = absurd (ground arith)
start_first-place id worker a s (j ∷ js) {t} p e h = elim (Bool-cases (j.job_id == id)) [
  | inr other ↦ absurd (ground (arith, e, other))
  | inl same ↦
      let found = if_found-some (get_summary j.tracking_id s.job_summary) _ (rw same at e) in
      let here : 1 ≤ jobs j.job_id s.pending_jobs =
        rw p (ground (arith, jobs-cons j.job_id j js)) in
      let absent : jobs j.job_id s.jobs_in_progress ≡ 0 =
        omega (arith, here, h.once j.job_id, h.placed j.job_id) in
      ap (place a) (sym found)
      ∙ ground (
        arith,
        same,
        h.once a,
        h.placed a,
        ap (jobs a) p,
        jobs-cons a j js,
        jobs-put_job a j s.jobs_in_progress absent,
      )
]

-- States with the same places for all jobs.
SamePlaces-place : (a : ℕ) (s t : JobState) → SamePlaces s t → place a t ≡ place a s
unfolding place
SamePlaces-place a s t e = rw (e.pending, e.in_progress, e.done) refl

complete-place :
    (id a : ℕ) (r : Result) (s : JobState) {t : JobState}
    → is_in_progress id s ≡ true
    → complete id r s ≡ some t
    → IsConserved s
    → place a t ≡ move (job_completed id r) a (place a s)
unfolding complete place move
complete-place id a r s {t} p e h =
    let here = count-present id (job_ids s.jobs_in_progress) p in
    let absent : count id s.done_job_ids ≡ 0 = omega (arith, here, h.once id, h.placed id) in
    SamePlaces-place a _ t (close_task-SamePlaces completed r _ r.job e)
    ∙ ground (
      arith,
      h.once a,
      h.placed a,
      jobs-remove_job id a s.jobs_in_progress,
      count-add id a s.done_job_ids absent,
    )

fail-place :
    (id a : ℕ) (r : Result) (s : JobState) {t : JobState}
    → is_in_progress id s ≡ true
    → fail id r s ≡ some t
    → IsConserved s
    → place a t ≡ move (job_failed id r) a (place a s)
unfolding fail place move
fail-place id a r s {t} p e h =
    let here = count-present id (job_ids s.jobs_in_progress) p in
    SamePlaces-place a _ t (close_task-SamePlaces failed r _ r.job e)
    ∙ ground (arith, here, h.once id, h.placed id, jobs-remove_job id a s.jobs_in_progress)

time_out-place :
    (id a : ℕ) (s : JobState) (o : Option Job) {t : JobState}
    → get_job id s.jobs_in_progress ≡ o
    → time_out id s o ≡ some t
    → IsConserved s
    → place a t ≡ move (job_timed_out id) a (place a s)
unfolding time_out place move
time_out-place id a s none p e h = absurd (ground arith)
time_out-place id a s (some j) p e h =
    let (same, here) = get_job-some id s.jobs_in_progress j p in
    ap (place a) (sym (some_inj e))
    ∙ ground (
      arith,
      same,
      here,
      h.once id,
      h.placed id,
      jobs-remove_job id a s.jobs_in_progress,
      jobs-append a s.pending_jobs (j ∷ []),
      jobs-one a j,
    )

postpone-place :
    (id a : ℕ) (s : JobState) (js : List Job) {t : JobState}
    → s.pending_jobs ≡ js
    → postpone id s js ≡ some t
    → place a t ≡ move (job_postponed id) a (place a s)
unfolding postpone place move
postpone-place id a s [] p e = absurd (ground arith)
postpone-place id a s (j ∷ js) p e =
    ap (place a) (sym (some_inj e))
    ∙ ground (arith, ap (jobs a) p, jobs-cons a j js, jobs-append a js (j ∷ []), jobs-one a j)

-- From a state in which every accepted job that has not failed is in exactly one place, an event that
-- the master may persist moves the job that it names, as `move` says, and no other, if its constructor
-- gives a state.
pub updated-place :
    (e : JobDomainEvent) (a : ℕ) (s : JobState) {t : JobState}
    → Permits e s
    → updated e s ≡ some t
    → IsConserved s
    → place a t ≡ move e a (place a s)
unfolding updated
updated-place (job_accepted j) a s p e h = ap (place a) (sym (some_inj e)) ∙ accept-place j a s p h
updated-place (job_started id worker) a s p e h =
    start_first-place id worker a s s.pending_jobs refl e h
updated-place (job_completed id r) a s p e h = complete-place id a r s p e h
updated-place (job_failed id r) a s p e h = fail-place id a r s p e h
updated-place (job_timed_out id) a s p e h =
    time_out-place id a s (get_job id s.jobs_in_progress) refl e h
updated-place (job_postponed id) a s p e h = postpone-place id a s s.pending_jobs refl e
