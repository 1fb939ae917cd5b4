-- ===== src/Jobs/Database/Total.antt =====
-- When the constructors of `JobState` give a state.
use dist_gatling.Shared.{
  ℕ, ◌≡◌, refl, sym, ap, ◌∙◌, Bool, true, false, ◌&&◌, ◌||◌, Option, none, some, List, [], ◌∷◌,
  ◌++◌, arith, ◌==◌, Bool-cases, Option-cases, inl, inr,
}
use dist_gatling.Jobs.{
  Status, completed, failed, timedout, postponed, Job, Result, TaskEvent, JobDomainEvent,
  job_accepted, job_started, job_completed, job_failed, job_timed_out, job_postponed,
}
use dist_gatling.Jobs.Summary.{contains_work, on_work}
use dist_gatling.Jobs.Database.{
  JobState, new, contains, get_job, remove_job, put_job, Summaries, get_summary, add_task,
  on_summary, on_containing, accept, if_found, start_first, close_task, complete, fail, time_out,
  postpone, updated, job_ids, is_in_progress, has_job, new_task, with_status,
}

-- the tracking numbers that have a summary
unfoldable pub keys : Summaries → List ℕ
keys [] = []
keys ((i, ts) ∷ m) = i ∷ keys m

unfoldable pub all_in : List Job → List ℕ → Bool
unfolding contains
all_in [] ks = true
all_in (j ∷ js) ks = contains j.tracking_id ks && all_in js ks

-- Every job that waits or is in progress has a summary.
pub record IsTracked (s : JobState) : Type 0 where
  pub pending : all_in s.pending_jobs (keys s.job_summary) ≡ true
  pub in_progress : all_in s.jobs_in_progress (keys s.job_summary) ≡ true

pub new-IsTracked : IsTracked new
unfolding all_in
new-IsTracked = record { pending = refl; in_progress = refl }

get_summary-some :
    (id : ℕ) (m : Summaries)
    → contains id (keys m) ≡ true
    → (ts : List TaskEvent) × (get_summary id m ≡ some ts)
unfolding contains keys get_summary
get_summary-some id [] h = absurd (ground arith)
get_summary-some id ((i, ts) ∷ m) h = elim (Bool-cases (i == id)) [
  | inl e ↦ (ts, rw e refl)
  | inr e ↦ let (us, f) = get_summary-some id m (ground (arith, h, e)) in (us, rw e f)
]

keys-on_summary :
    (id : ℕ) (f : List TaskEvent → List TaskEvent) (m : Summaries)
    → keys (on_summary id f m) ≡ keys m
unfolding keys on_summary
keys-on_summary id f [] = refl
keys-on_summary id f ((i, ts) ∷ m) = elim (Bool-cases (i == id)) [
  | inl e ↦ rw e refl
  | inr e ↦ rw e (ap (λ ks. i ∷ ks) (keys-on_summary id f m))
]

keys-on_containing :
    (id : ℕ) (f : List TaskEvent → List TaskEvent) (m : Summaries)
    → keys (on_containing id f m) ≡ keys m
unfolding keys on_containing
keys-on_containing id f [] = refl
keys-on_containing id f ((i, ts) ∷ m) = elim (Bool-cases (contains_work id ts)) [
  | inl e ↦ rw e refl
  | inr e ↦ rw e (ap (λ ks. i ∷ ks) (keys-on_containing id f m))
]

contains-add_task :
    (a id : ℕ) (t : TaskEvent) (m : Summaries)
    → contains a (keys (add_task id t m)) ≡ (contains a (keys m) || id == a)
unfolding contains keys add_task
contains-add_task a id t [] = ground arith
contains-add_task a id t ((i, ts) ∷ m) = elim (Bool-cases (i == id)) [
  | inl e ↦ rw e (ground (arith, e))
  | inr e ↦ rw e (ground (arith, contains-add_task a id t m))
]

all_in-add_task :
    (js : List Job) (id : ℕ) (t : TaskEvent) (m : Summaries)
    → all_in js (keys m) ≡ true
    → all_in js (keys (add_task id t m)) ≡ true
unfolding all_in
all_in-add_task [] id t m h = refl
all_in-add_task (j ∷ js) id t m h =
    ground (arith, h, contains-add_task j.tracking_id id t m, all_in-add_task js id t m)

all_in-append :
    (js ks : List Job) (is : List ℕ) → all_in (js ++ ks) is ≡ (all_in js is && all_in ks is)
unfolding all_in
all_in-append [] ks is = refl
all_in-append (j ∷ js) ks is = ground (arith, all_in-append js ks is)

all_in-remove_job :
    (id : ℕ) (js : List Job) (is : List ℕ)
    → all_in js is ≡ true
    → all_in (remove_job id js) is ≡ true
unfolding all_in remove_job
all_in-remove_job id [] is h = refl
all_in-remove_job id (j ∷ js) is h = elim (Bool-cases (j.job_id == id)) [
  | inl e ↦ rw e (all_in-remove_job id js is (ground (arith, h)))
  | inr e ↦ rw e (ground (arith, h, all_in-remove_job id js is))
]

all_in-get_job :
    (id : ℕ) (js : List Job) (is : List ℕ) {j : Job}
    → all_in js is ≡ true
    → get_job id js ≡ some j
    → contains j.tracking_id is ≡ true
unfolding all_in get_job
all_in-get_job id [] is h e = absurd (ground arith)
all_in-get_job id (k ∷ js) is {j} h e = elim (Bool-cases (k.job_id == id)) [
  | inl same ↦
      ap (λ (o : Option Job). elim o [ none ↦ true | some x ↦ contains x.tracking_id is ])
        (sym (rw same at e))
      ∙ ground (arith, h)
  | inr other ↦ all_in-get_job id js is (ground (arith, h)) (rw other at e)
]

-- What an event needs that its constructor gives a state.
abbrev pub IsSane : JobDomainEvent → JobState → Type 0
IsSane (job_accepted j) s = Unit
IsSane (job_started id worker) s =
    (j : Job) × (js : List Job) × (s.pending_jobs ≡ j ∷ js) × (j.job_id ≡ id)
IsSane (job_completed id r) s =
    (j : Job) × (r.job ≡ some j) × (contains j.tracking_id (keys s.job_summary) ≡ true)
IsSane (job_failed id r) s =
    (j : Job) × (r.job ≡ some j) × (contains j.tracking_id (keys s.job_summary) ≡ true)
IsSane (job_timed_out id) s = is_in_progress id s ≡ true
IsSane (job_postponed id) s = has_job s ≡ true

-- The step is defined, and leads to a state in which every job has a summary.
abbrev pub Steps : Option JobState → Type 0
Steps o = (t : JobState) × (o ≡ some t) × IsTracked t

accept-Steps : (j : Job) (s : JobState) → IsTracked s → IsTracked (accept j s)
unfolding accept all_in
accept-Steps j s h = record {
  pending =
      all_in-append s.pending_jobs (j ∷ [])
        (keys (add_task j.tracking_id (new_task j) s.job_summary))
      ∙ ground (
        arith,
        all_in-add_task s.pending_jobs j.tracking_id (new_task j) s.job_summary h.pending,
        contains-add_task j.tracking_id j.tracking_id (new_task j) s.job_summary,
      );
  in_progress =
      all_in-add_task s.jobs_in_progress j.tracking_id (new_task j) s.job_summary h.in_progress;
}

found-Steps :
    (id : ℕ) (m : Summaries) (t : JobState)
    → contains id (keys m) ≡ true
    → IsTracked t
    → Steps (if_found (get_summary id m) t)
found-Steps id m t h k = let (ts, f) = get_summary-some id m h in rw f (t, refl, k)

start_first-Steps :
    (worker : ℕ) (j : Job) (js : List Job) (s : JobState)
    → s.pending_jobs ≡ j ∷ js
    → IsTracked s
    → Steps (start_first j.job_id worker s (j ∷ js))
unfolding start_first put_job all_in
start_first-Steps worker j js s e h =
    let k = keys s.job_summary in
    let all : all_in (j ∷ js) k ≡ true = ap (λ x. all_in x k) (sym e) ∙ h.pending in
    let here : contains j.tracking_id k ≡ true = ground (arith, all) in
    let self : (j.job_id == j.job_id) ≡ true = ground arith in
    rw self (
      found-Steps j.tracking_id s.job_summary _ here (record {
        pending =
            ap (all_in js) (keys-on_summary j.tracking_id _ s.job_summary) ∙ ground (arith, all);
        in_progress =
            ap (all_in (put_job j s.jobs_in_progress))
              (keys-on_summary j.tracking_id _ s.job_summary)
            ∙ ground (arith, here, all_in-remove_job j.job_id s.jobs_in_progress k h.in_progress);
      }))

close_task-Steps :
    (st : Status) (r : Result) (s : JobState) (j : Job)
    → contains j.tracking_id (keys s.job_summary) ≡ true
    → IsTracked s
    → Steps (close_task st r s (some j))
unfolding close_task
close_task-Steps st r s j here h = found-Steps j.tracking_id s.job_summary _ here (record {
  pending = ap (all_in s.pending_jobs) (keys-on_summary j.tracking_id _ s.job_summary) ∙ h.pending;
  in_progress =
      ap (all_in s.jobs_in_progress) (keys-on_summary j.tracking_id _ s.job_summary)
      ∙ h.in_progress;
})

complete-Steps :
    (id : ℕ) (r : Result) (s : JobState)
    → IsSane (job_completed id r) s
    → IsTracked s
    → Steps (complete id r s)
unfolding complete
complete-Steps id r s (j, e, here) h = rw e (
    close_task-Steps completed r _ j here (record {
      pending = h.pending;
      in_progress = all_in-remove_job id s.jobs_in_progress (keys s.job_summary) h.in_progress;
    }))

fail-Steps :
    (id : ℕ) (r : Result) (s : JobState)
    → IsSane (job_failed id r) s
    → IsTracked s
    → Steps (fail id r s)
unfolding fail
fail-Steps id r s (j, e, here) h = rw e (
    close_task-Steps failed r _ j here (record {
      pending = h.pending;
      in_progress = all_in-remove_job id s.jobs_in_progress (keys s.job_summary) h.in_progress;
    }))

get_job-none : (id : ℕ) (js : List Job) → get_job id js ≡ none → contains id (job_ids js) ≡ false
unfolding get_job contains
get_job-none id [] e = refl
get_job-none id (j ∷ js) e = elim (Bool-cases (j.job_id == id)) [
  | inl same ↦ absurd (ground (arith, e, same))
  | inr other ↦ rw other (get_job-none id js (rw other at e))
]

time_out-Steps :
    (id : ℕ) (s : JobState)
    → is_in_progress id s ≡ true
    → IsTracked s
    → Steps (updated (job_timed_out id) s)
unfolding updated time_out all_in
time_out-Steps id s p h = elim (Option-cases (get_job id s.jobs_in_progress)) [
  | inl e ↦ absurd (ground (arith, p, get_job-none id s.jobs_in_progress e))
  | inr (j, e) ↦
      let k = keys s.job_summary in
      let same = keys-on_containing id (on_work id (with_status timedout)) s.job_summary in
      rw e (
        _,
        refl,
        record {
          pending =
              ap (all_in (s.pending_jobs ++ j ∷ [])) same
              ∙ all_in-append s.pending_jobs (j ∷ []) k
              ∙ ground (arith, h.pending, all_in-get_job id s.jobs_in_progress k h.in_progress e);
          in_progress =
              ap (all_in (remove_job id s.jobs_in_progress)) same
              ∙ all_in-remove_job id s.jobs_in_progress k h.in_progress;
        },
      )
]

postpone-Steps :
    (id : ℕ) (s : JobState) (js : List Job)
    → s.pending_jobs ≡ js
    → has_job s ≡ true
    → IsTracked s
    → Steps (postpone id s js)
unfolding postpone all_in
postpone-Steps id s [] e p h = absurd (ground (arith, e, p))
postpone-Steps id s (j ∷ js) e p h =
    let k = keys s.job_summary in
    let all : all_in (j ∷ js) k ≡ true = ap (λ x. all_in x k) (sym e) ∙ h.pending in
    let same = keys-on_containing id (on_work id (with_status postponed)) s.job_summary in
    (
      _,
      refl,
      record {
        pending =
            ap (all_in (js ++ j ∷ [])) same ∙ all_in-append js (j ∷ []) k ∙ ground (arith, all);
        in_progress = ap (all_in s.jobs_in_progress) same ∙ h.in_progress;
      },
    )

-- Every event gives a state: a job is started only at the head of the queue, ended with a result that
-- names a job with a summary, timed out only while it is in progress.
pub updated-Steps :
    (e : JobDomainEvent) (s : JobState) → IsSane e s → IsTracked s → Steps (updated e s)
unfolding updated
updated-Steps (job_accepted j) s p h = (accept j s, refl, accept-Steps j s h)
updated-Steps (job_started id worker) s (j, js, e, same) h =
    rw (e, sym same) (start_first-Steps worker j js s e h)
updated-Steps (job_completed id r) s p h = complete-Steps id r s p h
updated-Steps (job_failed id r) s p h = fail-Steps id r s p h
updated-Steps (job_timed_out id) s p h = time_out-Steps id s p h
updated-Steps (job_postponed id) s p h = postpone-Steps id s s.pending_jobs refl p h
