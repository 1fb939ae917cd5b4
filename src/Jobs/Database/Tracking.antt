-- ===== src/Jobs/Database/Tracking.antt =====
-- What the master tells about the jobs with one tracking number: `getTrackingInfo` of
-- gatling-commons/src/main/java/com/alh/gatling/commons/JobState.java, and `TrackingResult`.
use dist_gatling.Shared.{
  ℕ, suc, Bool, false, String, Option, none, some, List, [], ◌∷◌, ◌==◌, if◌then◌else◌,
}
use dist_gatling.Jobs.{Job, Result}
use dist_gatling.Jobs.Database.{JobState}

pub record TrackingResult : Type 0 where
  pub pending_count : ℕ
  pub in_progress_count : ℕ
  pub completed : List (String × String)
  pub failed : List (String × String)
  pub cancelled : Bool

-- `filter` and `count`
unfoldable pub count_tracking : ℕ → List Job → ℕ
count_tracking tracking [] = 0
count_tracking tracking (j ∷ js) =
    let rest = count_tracking tracking js in if j.tracking_id == tracking then suc rest else rest

-- The logs of one result before the others, if its job is the one asked for. A result without a job
-- has no tracking number, so that the filter throws.
unfoldable pub with_logs :
    ℕ → Result → Option Job → Option (List (String × String)) → Option (List (String × String))
with_logs tracking r none rest = none
with_logs tracking r (some j) none = none
with_logs tracking r (some j) (some logs) =
    some (if j.tracking_id == tracking then (r.err_path, r.std_path) ∷ logs else logs)

-- `filter` and `map` of the results
unfoldable pub logs_of : ℕ → List Result → Option (List (String × String))
unfolding with_logs
logs_of tracking [] = some []
logs_of tracking (r ∷ rs) = with_logs tracking r r.job (logs_of tracking rs)

unfoldable pub tracked_with :
    ℕ
    → JobState
    → Option (List (String × String))
    → Option (List (String × String))
    → Option TrackingResult
unfolding count_tracking
tracked_with tracking s (some completed) (some failed) = some (record {
  pending_count = count_tracking tracking s.pending_jobs;
  in_progress_count = count_tracking tracking s.jobs_in_progress;
  completed = completed;
  failed = failed;
  cancelled = false;
})
tracked_with tracking s _ _ = none

-- `getTrackingInfo`
unfoldable pub get_tracking_info : ℕ → JobState → Option TrackingResult
unfolding tracked_with logs_of
get_tracking_info tracking s =
    tracked_with tracking s (logs_of tracking s.completed_jobs) (logs_of tracking s.failed_jobs)
