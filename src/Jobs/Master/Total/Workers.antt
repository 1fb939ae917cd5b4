-- ===== src/Jobs/Master/Total/Workers.antt =====
-- When the handlers of the master return: the handlers of what workers send.
use dist_gatling.Shared.{
  ℕ, ◌≡◌, refl, sym, ap, ◌∙◌, subst, true, String, Option, none, some, List, [], ◌∷◌, arith,
  Bool-cases, inl, inr,
}
use dist_gatling.Shared.Names.{same_name}
use dist_gatling.Jobs.{
  Job, Result, JobDomainEvent, job_started, job_completed, job_failed, job_postponed,
}
use dist_gatling.Jobs.Database.{is_in_progress, is_done, has_job}
use dist_gatling.Jobs.Database.Total.{IsTracked, IsSane}
use dist_gatling.Jobs.Master.{
  WorkerState, Master, returned, ◌>>=◌, tell, persist, update, get_worker, is_idle, notify_workers,
  ack,
}
use dist_gatling.Jobs.Master.Workers.{
  extend_idle, change_to_idle, give, put_off, offer, on_worker_requests_work, on_work_in_progress,
  on_work_is_done, on_work_failed, on_register_worker,
}
use dist_gatling.Jobs.Master.Sound.Workers.{extend_busy-Kept}
use dist_gatling.Jobs.Master.Total.{
  Returns, Returns-bind, Tracked, update-Returns, notify_workers-Tracked,
}

-- A worker is registered.
abbrev pub IsRegistered : ℕ → Master → Type 0
IsRegistered w m = (st : WorkerState) × (get_worker w m.workers ≡ some st)

module _ (timeout now : ℕ) where
  pub extend_idle-Returns :
      (w : ℕ) (m : Master) (st : WorkerState)
      → Returns (λ t. t.job_database ≡ m.job_database) (extend_idle timeout now w m (some st))
  unfolding extend_idle
  extend_idle-Returns w m st = elim (Bool-cases (is_idle st.status)) [
    | inl e ↦ rw e (_, refl, refl)
    | inr e ↦ rw e (_, refl, refl)
  ]

  pub change_to_idle-Returns :
      (w : ℕ) (m : Master) (st : WorkerState)
      → Returns (λ t. t.job_database ≡ m.job_database) (change_to_idle timeout now w m (some st))
  unfolding change_to_idle
  change_to_idle-Returns w m st = elim (Bool-cases (is_idle st.status)) [
    | inl e ↦ rw e (_, refl, refl)
    | inr e ↦ rw e (_, refl, refl)
  ]

  pub give-Returns :
      (sender w : ℕ) (st : WorkerState) (j : Job) (js : List Job) (m : Master)
      → m.job_database.pending_jobs ≡ j ∷ js
      → Tracked m
      → Returns Tracked (give timeout now sender w st j m)
  unfolding give
  give-Returns sender w st j js m e h =
      Returns-bind _ Tracked _ _ (update-Returns (job_started j.job_id w) _ (j, js, e, refl) h)
        (λ m1 (d, k). (_, refl, k))

  pub put_off-Returns :
      (w : ℕ) (st : WorkerState) (j : Job) (m : Master)
      → get_worker w m.workers ≡ some st
      → has_job m.job_database ≡ true
      → Tracked m
      → Returns Tracked (put_off timeout now w j m)
  unfolding put_off
  put_off-Returns w st j m g e h = rw g (
      Returns-bind _ Tracked _ _ (extend_idle-Returns w (persist (job_postponed j.job_id) m) st)
        (λ m1 same.
          let (t, d, (f, k)) =
            update-Returns (job_postponed j.job_id) m1 (ap has_job same ∙ e)
              (subst IsTracked (sym same) h) in
          (t, d, k)))

  pub requests_work-Returns :
      (sender w : ℕ) (role : String) (m : Master) (js : List Job)
      → m.job_database.pending_jobs ≡ js
      → IsRegistered w m
      → Tracked m
      → Returns Tracked (on_worker_requests_work timeout now sender w role m js)
  unfolding on_worker_requests_work offer
  requests_work-Returns sender w role m [] e (st, g) h =
      let (t, d, same) = extend_idle-Returns w m st in rw g (t, d, subst IsTracked (sym same) h)
  requests_work-Returns sender w role m (j ∷ js) e (st, g) h =
      elim (Bool-cases (is_idle st.status)) [
        | inr b ↦ rw (g, b) (m, refl, h)
        | inl i ↦ elim (Bool-cases (same_name role j.role_id)) [
          | inl r ↦ rw (g, i, r) (give-Returns sender w st j js m e h)
          | inr r ↦ rw (g, i, r) (put_off-Returns w st j m g (ground (arith, e)) h)
        ]
      ]

  -- The end that both reports have.
  pub closed-Returns :
      (e : JobDomainEvent) (w : ℕ) (st : WorkerState) (f : Master → Master) (m : Master)
      → IsSane e m.job_database
      → Tracked m
      → ((t : Master) → Tracked t → Tracked (f t))
      → Returns Tracked (
          change_to_idle timeout now w m (some st) >>= λ m1.
          update e (persist e m1) >>= λ m2. returned (f m2))
  closed-Returns e w st f m p h k =
      Returns-bind _ Tracked _ _ (change_to_idle-Returns w m st) (λ m1 same.
        Returns-bind _ Tracked (update e (persist e m1)) (λ m2. returned (f m2))
          (update-Returns e (persist e m1) (subst (IsSane e) (sym same) p)
            (subst IsTracked (sym same) h))
          (λ m2 (d, l). (f m2, refl, k m2 l)))

  pub work_is_done-Returns :
      (sender w id : ℕ) (r : Result) (m : Master)
      → IsRegistered w m
      → IsSane (job_completed id r) m.job_database
      → Tracked m
      → Returns Tracked (on_work_is_done timeout now sender w id r m)
  unfolding on_work_is_done
  work_is_done-Returns sender w id r m (st, g) p h = elim (Bool-cases (is_done id m.job_database)) [
    | inl d ↦ rw d (_, refl, h)
    | inr d ↦ elim (Bool-cases (is_in_progress id m.job_database)) [
      | inr b ↦ rw (d, b) (m, refl, h)
      | inl b ↦
          rw (d, b, g)
            (closed-Returns (job_completed id r) w st (tell sender (ack id)) m p h (λ t k. k))
    ]
  ]

  pub work_failed-Returns :
      (w id : ℕ) (r : Result) (m : Master)
      → IsRegistered w m
      → IsSane (job_failed id r) m.job_database
      → Tracked m
      → Returns Tracked (on_work_failed timeout now w id r m)
  unfolding on_work_failed
  work_failed-Returns w id r m (st, g) p h = elim (Bool-cases (is_in_progress id m.job_database)) [
    | inr b ↦ rw b (m, refl, h)
    | inl b ↦
        rw (b, g)
          (closed-Returns (job_failed id r) w st notify_workers m p h notify_workers-Tracked)
  ]

  pub work_in_progress-Returns :
      (w id : ℕ) (m : Master) → Tracked m → Returns Tracked (on_work_in_progress timeout now w id m)
  unfolding on_work_in_progress
  work_in_progress-Returns w id m h = elim (Bool-cases (is_in_progress id m.job_database)) [
    | inr e ↦ rw e (m, refl, h)
    | inl e ↦
        rw e (_, refl, extend_busy-Kept timeout now w m (get_worker w m.workers) Tracked (λ ws. h))
  ]

  pub register_worker-Returns :
      (sender w : ℕ) (m : Master) (o : Option WorkerState)
      → Tracked m
      → Returns Tracked (on_register_worker timeout now sender w m o)
  unfolding on_register_worker
  register_worker-Returns sender w m (some st) h = (_, refl, h)
  register_worker-Returns sender w m none h = elim (Bool-cases (has_job m.job_database)) [
    | inl e ↦ rw e (_, refl, h)
    | inr e ↦ rw e (_, refl, h)
  ]
