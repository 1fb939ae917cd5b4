-- ===== src/Jobs/Database/Conserved.antt =====
-- No job is lost, and none is in two places.
use dist_gatling.Shared.{
  ℕ, ◌+◌, ◌≤◌, ◌≡◌, refl, sym, ap, Bool, true, false, Option, none, some, List, [], ◌∷◌, ◌++◌,
  arith, ◌==◌, if◌then◌else◌, Bool-cases, inl, inr,
}
use dist_gatling.Jobs.{Status, Job, Result}
use dist_gatling.Jobs.Database.{
  JobState, new, contains, add, remove, get_job, remove_job, put_job, if_found, close_task, job_ids,
  get_summary,
}

abbrev pub one_if : Bool → ℕ
one_if true = 1
one_if false = 0

-- how often a number is in a list
pub count : ℕ → List ℕ → ℕ
count a [] = 0
count a (b ∷ bs) = one_if (b == a) + count a bs

abbrev pub jobs : ℕ → List Job → ℕ
jobs a js = count a (job_ids js)

-- Every accepted job that has not failed is in exactly one place: waiting, in progress or done; and
-- nothing else is anywhere.
pub record IsConserved (s : JobState) : Type 0 where
  pub once : (a : ℕ) → count a s.accepted_job_ids ≤ 1
  pub placed :
      (a : ℕ)
      → count a s.accepted_job_ids
        ≡ jobs a s.pending_jobs + jobs a s.jobs_in_progress + count a s.done_job_ids

pub count-nil : (a : ℕ) → count a [] ≡ 0
unfolding count
count-nil a = refl

pub new-IsConserved : IsConserved new
unfolding count
new-IsConserved = record { once = λ a. omega arith; placed = λ a. refl }

pub jobs-append : (a : ℕ) (js ks : List Job) → jobs a (js ++ ks) ≡ jobs a js + jobs a ks
unfolding count
jobs-append a [] ks = omega arith
jobs-append a (j ∷ js) ks = omega (arith, jobs-append a js ks)

pub jobs-cons :
    (a : ℕ) (j : Job) (js : List Job) → jobs a (j ∷ js) ≡ one_if (j.job_id == a) + jobs a js
unfolding count
jobs-cons a j js = refl

pub jobs-one : (a : ℕ) (j : Job) → jobs a (j ∷ []) ≡ one_if (j.job_id == a)
unfolding count
jobs-one a j = omega arith

pub count-absent : (a : ℕ) (bs : List ℕ) → contains a bs ≡ false → count a bs ≡ 0
unfolding count contains
count-absent a [] h = refl
count-absent a (b ∷ bs) h = ground (arith, count-absent a bs)

pub count-present : (a : ℕ) (bs : List ℕ) → contains a bs ≡ true → 1 ≤ count a bs
unfolding count contains
count-present a [] h = absurd (ground arith)
count-present a (b ∷ bs) h = ground (arith, count-present a bs)

pub present-count : (a : ℕ) (bs : List ℕ) → 1 ≤ count a bs → contains a bs ≡ true
unfolding count contains
present-count a [] h = absurd (omega arith)
present-count a (b ∷ bs) h = ground (arith, present-count a bs)

pub count-add :
    (a b : ℕ) (bs : List ℕ) → count a bs ≡ 0 → count b (add a bs) ≡ one_if (a == b) + count b bs
unfolding add count
count-add a b bs h = elim (Bool-cases (contains a bs)) [
  | inl e ↦ absurd (omega (arith, count-present a bs e))
  | inr e ↦ rw e refl
]

pub count-remove :
    (a b : ℕ) (bs : List ℕ) → count b (remove a bs) ≡ (if a == b then 0 else count b bs)
unfolding remove count
count-remove a b [] = ground arith
count-remove a b (c ∷ bs) = ground (arith, count-remove a b bs)

pub jobs-remove_job :
    (a b : ℕ) (js : List Job) → jobs b (remove_job a js) ≡ (if a == b then 0 else jobs b js)
unfolding remove_job count
jobs-remove_job a b [] = ground arith
jobs-remove_job a b (j ∷ js) = ground (arith, jobs-remove_job a b js)

pub jobs-put_job :
    (b : ℕ) (j : Job) (js : List Job)
    → jobs j.job_id js ≡ 0
    → jobs b (put_job j js) ≡ one_if (j.job_id == b) + jobs b js
unfolding put_job count
jobs-put_job b j js h = ground (arith, jobs-remove_job j.job_id b js, h)

pub get_job-some :
    (id : ℕ) (js : List Job) (j : Job) → get_job id js ≡ some j → (j.job_id ≡ id) × (1 ≤ jobs id js)
unfolding get_job count
get_job-some id [] j h = absurd (ground arith)
get_job-some id (k ∷ js) j h = ground (arith, get_job-some id js j)

-- What an update leaves of the places.
pub record SamePlaces (s t : JobState) : Type 0 where
  pub accepted : t.accepted_job_ids ≡ s.accepted_job_ids
  pub pending : t.pending_jobs ≡ s.pending_jobs
  pub in_progress : t.jobs_in_progress ≡ s.jobs_in_progress
  pub done : t.done_job_ids ≡ s.done_job_ids

pub if_found-some {ℓ κ} :
    {A : Type ℓ} {B : Type κ} (o : Option A) (b : B) {c : B} → if_found o b ≡ some c → b ≡ c
if_found-some none b h = absurd (ground arith)
if_found-some (some a) b h = ground arith

pub close_task-SamePlaces :
    (st : Status) (r : Result) (s : JobState) (o : Option Job) {t : JobState}
    → close_task st r s o ≡ some t
    → SamePlaces s t
unfolding close_task
close_task-SamePlaces st r s none h = absurd (ground arith)
close_task-SamePlaces st r s (some j) h =
    let e = if_found-some (get_summary j.tracking_id s.job_summary) _ h in
    record {
      accepted = ap (λ (x : JobState). x.accepted_job_ids) (sym e);
      pending = ap (λ (x : JobState). x.pending_jobs) (sym e);
      in_progress = ap (λ (x : JobState). x.jobs_in_progress) (sym e);
      done = ap (λ (x : JobState). x.done_job_ids) (sym e);
    }

pub SamePlaces-IsConserved : (s t : JobState) → SamePlaces s t → IsConserved s → IsConserved t
SamePlaces-IsConserved s t e h = record {
  once = λ a. rw e.accepted (h.once a);
  placed = λ a. rw (e.accepted, e.pending, e.in_progress, e.done) (h.placed a);
}
