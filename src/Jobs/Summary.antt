-- ===== src/Jobs/Summary.antt =====
-- The summary of the tasks with one tracking number: `JobSummary` in
-- gatling-commons/src/main/java/com/alh/gatling/commons/JobSummary.java.
pub mod Shown
use dist_gatling.Shared.{
  ℕ, Bool, true, false, not, ◌&&◌, ◌||◌, Option, none, some, List, [], ◌∷◌, ◌++◌, any, ◌==◌,
  if◌then◌else◌,
}
use dist_gatling.Jobs.{
  Status, completed, started, accepted, failed, timedout, postponed, pending, TaskEvent,
}

abbrev pub is_status : Status → Status → Bool
is_status completed completed = true
is_status started started = true
is_status accepted accepted = true
is_status failed failed = true
is_status timedout timedout = true
is_status postponed postponed = true
is_status pending pending = true
is_status _ _ = false

-- `anyMatch` and `allMatch` on the status of the tasks
abbrev pub any_match : Status → List TaskEvent → Bool
any_match s = any (λ t. is_status t.status s)

abbrev pub all_match : Status → List TaskEvent → Bool
all_match s ts = not (any (λ t. not (is_status t.status s)) ts)

-- `getStatus`
unfoldable pub get_status : List TaskEvent → Status
get_status ts =
    if all_match completed ts
    then completed
    else if any_match failed ts
    then failed
    else if any_match pending ts
    then pending
    else if any_match timedout ts
    then timedout
    else if any_match started ts
    then started
    else if all_match accepted ts
    then accepted
    else failed

-- `runningJob`, `completedJob` and `failedJob`
unfoldable pub running_job : List TaskEvent → Bool
unfolding get_status
running_job ts =
    is_status (get_status ts) started
    || is_status (get_status ts) accepted
    || is_status (get_status ts) pending

unfoldable pub completed_job : List TaskEvent → Bool
unfolding get_status
completed_job ts = is_status (get_status ts) completed

unfoldable pub failed_job : List TaskEvent → Bool
unfolding get_status
failed_job ts = is_status (get_status ts) failed

-- `containsWork`
unfoldable pub contains_work : ℕ → List TaskEvent → Bool
contains_work id ts = any (λ t. t.task_job_id == id) ts

-- What is done to the task that `getByWork` finds, if it finds one.
unfoldable pub on_work : ℕ → (TaskEvent → TaskEvent) → List TaskEvent → List TaskEvent
on_work id f [] = []
on_work id f (t ∷ ts) =
    let rest = on_work id f ts in if t.task_job_id == id then f t ∷ ts else t ∷ rest
