-- ===== src/Jobs/Summary/Shown.antt =====
-- What a job counts as that waits again: the REST service lists it as running if `runningJob` says so.
use dist_gatling.Shared.{
  ◌≡◌, refl, Bool, true, false, not, ◌&&◌, ◌||◌, List, [], ◌∷◌, arith, if◌then◌else◌, Bool-cases,
  inl, inr,
}
use dist_gatling.Jobs.{
  Status, completed, started, accepted, failed, timedout, postponed, pending, TaskEvent,
}
use dist_gatling.Jobs.Summary.{
  is_status, any_match, all_match, get_status, running_job, completed_job, failed_job,
}

-- Every task waits again, since it was put off or has timed out.
unfoldable pub all_wait : List TaskEvent → Bool
all_wait [] = true
all_wait (t ∷ ts) = (is_status t.status postponed || is_status t.status timedout) && all_wait ts

waiting-status :
    (s x : Status)
    → is_status postponed s ≡ false
    → is_status timedout s ≡ false
    → (is_status x postponed || is_status x timedout) ≡ true
    → is_status x s ≡ false
waiting-status s postponed p t h = p
waiting-status s timedout p t h = t
waiting-status s completed p t h = absurd (ground arith)
waiting-status s started p t h = absurd (ground arith)
waiting-status s accepted p t h = absurd (ground arith)
waiting-status s failed p t h = absurd (ground arith)
waiting-status s pending p t h = absurd (ground arith)

any_match-waiting :
    (s : Status) (ts : List TaskEvent)
    → is_status postponed s ≡ false
    → is_status timedout s ≡ false
    → all_wait ts ≡ true
    → any_match s ts ≡ false
unfolding all_wait
any_match-waiting s [] p t h = refl
any_match-waiting s (x ∷ ts) p t h = ground (
  arith,
  waiting-status s x.status p t (ground (arith, h)),
  any_match-waiting s ts p t (ground (arith, h)),
)

all_match-head :
    (s : Status) (t : TaskEvent) (ts : List TaskEvent)
    → is_status t.status s ≡ false
    → all_match s (t ∷ ts) ≡ false
all_match-head s t ts h = ground (arith, h)

get_status-waiting :
    (t : TaskEvent) (ts : List TaskEvent)
    → all_wait (t ∷ ts) ≡ true
    → get_status (t ∷ ts) ≡ (if any_match timedout (t ∷ ts) then timedout else failed)
unfolding get_status all_wait
get_status-waiting t ts h =
    rw
      (
        all_match-head completed t ts
            (waiting-status completed t.status refl refl (ground (arith, h))),
        any_match-waiting failed (t ∷ ts) refl refl h,
        any_match-waiting pending (t ∷ ts) refl refl h,
        any_match-waiting started (t ∷ ts) refl refl h,
        all_match-head accepted t ts
            (waiting-status accepted t.status refl refl (ground (arith, h))),
      )
      refl

-- A job with one task or more, which all wait again, postponed or timed out, counts as neither running
-- nor completed, and as failed unless one of its tasks has timed out.
pub waiting-shown :
    (t : TaskEvent) (ts : List TaskEvent)
    → all_wait (t ∷ ts) ≡ true
    → (running_job (t ∷ ts) ≡ false)
      × (completed_job (t ∷ ts) ≡ false)
      × (failed_job (t ∷ ts) ≡ not (any_match timedout (t ∷ ts)))
unfolding running_job completed_job failed_job
waiting-shown t ts h = elim (Bool-cases (any_match timedout (t ∷ ts))) [
  | inl e ↦ rw (get_status-waiting t ts h, e) (refl, refl, refl)
  | inr e ↦ rw (get_status-waiting t ts h, e) (refl, refl, refl)
]
