-- ===== src/Jobs/Master/Sound/Workers.antt =====
-- The master's jobs and its journal, whatever it receives: the handlers of what workers send.
use dist_gatling.Shared.{
  ℕ, ◌+◌, ◌≡◌, refl, ap, ◌∙◌, String, Option, none, some, List, [], ◌∷◌, Bool-cases, inl, inr,
}
use dist_gatling.Shared.Names.{same_name}
use dist_gatling.Jobs.{
  Job, Result, JobDomainEvent, job_started, job_completed, job_failed, job_postponed,
}
use dist_gatling.Jobs.Database.{is_in_progress, is_done, has_job}
use dist_gatling.Jobs.Master.{
  WorkerStatus, idle, busy, WorkerState, Master, persist, update, get_worker, put_worker, is_idle,
}
use dist_gatling.Jobs.Master.Workers.{
  extend_idle, change_to_idle, give, put_off, offer, on_worker_requests_work, extend_busy,
  on_work_in_progress, on_work_is_done, on_work_failed, on_register_worker,
}
use dist_gatling.Jobs.Master.Journal.{
  Holds, Holds-bind, Ahead, journal-IsAhead, update-Ahead, notify_workers-Ahead,
}
use dist_gatling.Jobs.Master.Sound.{IsSound, persisted-IsSound}

module _ (timeout now : ℕ) where
  pub extend_idle-IsSound :
      (w : ℕ) (es : List JobDomainEvent) (m : Master) (o : Option WorkerState)
      → Ahead es m
      → Holds (Ahead es) (extend_idle timeout now w m o)
  unfolding extend_idle
  extend_idle-IsSound w es m none h = tt
  extend_idle-IsSound w es m (some st) h = elim (Bool-cases (is_idle st.status)) [
    | inl e ↦ rw e h
    | inr e ↦ rw e h
  ]

  pub change_to_idle-IsSound :
      (w : ℕ) (m : Master) (o : Option WorkerState)
      → IsSound m
      → Holds
          (λ m1. IsSound m1 × (m1.job_database ≡ m.job_database))
          (change_to_idle timeout now w m o)
  unfolding change_to_idle
  change_to_idle-IsSound w m none h = tt
  change_to_idle-IsSound w m (some st) h = elim (Bool-cases (is_idle st.status)) [
    | inl e ↦ rw e (h, refl)
    | inr e ↦ rw e (h, refl)
  ]

  pub give-IsSound :
      (sender w : ℕ) (st : WorkerState) (j : Job) (m : Master)
      → IsSound m
      → Holds IsSound (give timeout now sender w st j m)
  unfolding give
  give-IsSound sender w st j m h =
      persisted-IsSound (job_started j.job_id w) (persist (job_started j.job_id w) m) _ tt
        (journal-IsAhead (job_started j.job_id w ∷ []) m.journal m.job_database h) (λ m1 k. k)

  pub put_off-IsSound :
      (w : ℕ) (j : Job) (m : Master) → IsSound m → Holds IsSound (put_off timeout now w j m)
  unfolding put_off
  put_off-IsSound w j m h =
      let e = job_postponed j.job_id in
      Holds-bind (Ahead (e ∷ [])) IsSound
        (extend_idle timeout now w (persist e m) (get_worker w m.workers)) (update e)
        (extend_idle-IsSound w (e ∷ []) (persist e m) (get_worker w m.workers)
          (journal-IsAhead (e ∷ []) m.journal m.job_database h))
        (λ m1 k. update-Ahead e [] m1 tt k)

  pub offer-IsSound :
      (sender w : ℕ) (role : String) (j : Job) (m : Master) (o : Option WorkerState)
      → IsSound m
      → Holds IsSound (offer timeout now sender w role j m o)
  unfolding offer
  offer-IsSound sender w role j m none h = h
  offer-IsSound sender w role j m (some st) h = elim (Bool-cases (is_idle st.status)) [
    | inl e ↦ rw e (elim (Bool-cases (same_name role j.role_id)) [
      | inl r ↦ rw r (give-IsSound sender w st j m h)
      | inr r ↦ rw r (put_off-IsSound w j m h)
    ])
    | inr e ↦ rw e h
  ]

  pub requests_work-IsSound :
      (sender w : ℕ) (role : String) (m : Master) (js : List Job)
      → IsSound m
      → Holds IsSound (on_worker_requests_work timeout now sender w role m js)
  unfolding on_worker_requests_work
  requests_work-IsSound sender w role m [] h = extend_idle-IsSound w [] m (get_worker w m.workers) h
  requests_work-IsSound sender w role m (j ∷ js) h =
      offer-IsSound sender w role j m (get_worker w m.workers) h

  -- No more than the workers is changed.
  pub extend_busy-Kept :
      (w : ℕ) (m : Master) (o : Option WorkerState) (P : Master → Type 0)
      → ((ws : List (ℕ × WorkerState)) → P (record m { workers = ws }))
      → P (extend_busy timeout now w m o)
  unfolding extend_busy
  extend_busy-Kept w m none P h = h m.workers
  extend_busy-Kept w m (some st) P h = go st.status
    where
      go :
          (s : WorkerStatus)
          → P (elim s [
            | idle until ↦ m
            | busy id until ↦ record m {
              workers = put_worker w (record st { status = busy id (now + timeout) }) m.workers;
            }
          ])
      go (idle until) = h m.workers
      go (busy id until) = h _

  pub work_in_progress-IsSound :
      (w id : ℕ) (m : Master) → IsSound m → Holds IsSound (on_work_in_progress timeout now w id m)
  unfolding on_work_in_progress
  work_in_progress-IsSound w id m h = elim (Bool-cases (is_in_progress id m.job_database)) [
    | inl e ↦ rw e (extend_busy-Kept w m (get_worker w m.workers) IsSound (λ ws. h))
    | inr e ↦ rw e h
  ]

  pub work_is_done-IsSound :
      (sender w id : ℕ) (r : Result) (m : Master)
      → IsSound m
      → Holds IsSound (on_work_is_done timeout now sender w id r m)
  unfolding on_work_is_done
  work_is_done-IsSound sender w id r m h = elim (Bool-cases (is_done id m.job_database)) [
    | inl d ↦ rw d h
    | inr d ↦ elim (Bool-cases (is_in_progress id m.job_database)) [
      | inr e ↦ rw (d, e) h
      | inl e ↦
          rw (d, e)
            (Holds-bind (λ m1. IsSound m1 × (m1.job_database ≡ m.job_database)) IsSound _ _
              (change_to_idle-IsSound w m (get_worker w m.workers) h)
              (λ m1 (k, same).
                persisted-IsSound (job_completed id r) (persist (job_completed id r) m1) _
                  (ap (is_in_progress id) same ∙ e)
                  (journal-IsAhead (job_completed id r ∷ []) m1.journal m1.job_database k)
                  (λ m2 l. l)))
    ]
  ]

  pub work_failed-IsSound :
      (w id : ℕ) (r : Result) (m : Master)
      → IsSound m
      → Holds IsSound (on_work_failed timeout now w id r m)
  unfolding on_work_failed
  work_failed-IsSound w id r m h = elim (Bool-cases (is_in_progress id m.job_database)) [
    | inr e ↦ rw e h
    | inl e ↦ rw e (
        Holds-bind (λ m1. IsSound m1 × (m1.job_database ≡ m.job_database)) IsSound _ _
          (change_to_idle-IsSound w m (get_worker w m.workers) h)
          (λ m1 (k, same).
            persisted-IsSound (job_failed id r) (persist (job_failed id r) m1) _
              (ap (is_in_progress id) same ∙ e)
              (journal-IsAhead (job_failed id r ∷ []) m1.journal m1.job_database k)
              (λ m2 l. notify_workers-Ahead [] m2 l)))
  ]

  pub register_worker-IsSound :
      (sender w : ℕ) (m : Master) (o : Option WorkerState)
      → IsSound m
      → Holds IsSound (on_register_worker timeout now sender w m o)
  unfolding on_register_worker
  register_worker-IsSound sender w m (some st) h = h
  register_worker-IsSound sender w m none h = elim (Bool-cases (has_job m.job_database)) [
    | inl e ↦ rw e h
    | inr e ↦ rw e h
  ]
