-- ===== src/Jobs/Master/Scheduling.antt =====
-- To whom the master gives a job.
use dist_gatling.Shared.{
  ℕ, ◌+◌, ◌≡◌, refl, sym, ap, ◌∙◌, subst, length, Bool, true, false, not, ◌&&◌, String, Option,
  none, some, List, [], ◌∷◌, ◌++◌, map, arith, ◌==◌, Bool-cases, inl, inr, append_assoc, append-nil,
}
use dist_gatling.Shared.Names.{same_name}
use dist_gatling.Jobs.{Job, job_started, job_postponed}
use dist_gatling.Jobs.Database.{
  JobState, contains, put_job, start_first, postpone, get_summary, updated, is_in_progress,
}
use dist_gatling.Jobs.Database.Total.{IsTracked, updated-Steps}
use dist_gatling.Jobs.Database.Conserved.{if_found-some}
use dist_gatling.Jobs.Master.{
  idle, busy, WorkerState, Master, returned, ◌>>=◌, tell, persist, update, get_worker, put_worker,
  is_idle, work, with_status,
}
use dist_gatling.Jobs.Master.Workers.{extend_idle, give, put_off, offer, on_worker_requests_work}
use dist_gatling.Jobs.Master.Mailbox.{worker_requests_work, receive, Envelope, run}
use dist_gatling.Jobs.Master.Total.{Tracked}

==_refl : (a : ℕ) → (a == a) ≡ true
==_refl a = ground arith

get_worker-put_worker :
    (w : ℕ) (st : WorkerState) (ws : List (ℕ × WorkerState))
    → get_worker w (put_worker w st ws) ≡ some st
unfolding get_worker put_worker
get_worker-put_worker w st [] = rw (==_refl w) refl
get_worker-put_worker w st ((v, old) ∷ ws) = elim (Bool-cases (v == w)) [
  | inl e ↦ rw (e, ==_refl w) refl
  | inr e ↦ rw (e, e) (get_worker-put_worker w st ws)
]

-- the job at the head of the queue, when it starts
started-head :
    (w : ℕ) (j : Job) (js : List Job) (s : JobState)
    → s.pending_jobs ≡ j ∷ js
    → IsTracked s
    → (t : JobState) × (updated (job_started j.job_id w) s ≡ some t)
      × (t.pending_jobs ≡ js)
      × (is_in_progress j.job_id t ≡ true)
unfolding updated start_first put_job contains
started-head w j js s e h =
    let (t, d, k) = updated-Steps (job_started j.job_id w) s (j, js, e, refl) h in
    let found =
      if_found-some (get_summary j.tracking_id s.job_summary) _ (rw (e, ==_refl j.job_id) at d) in
    (
      t,
      d,
      ap (λ (s : JobState). s.pending_jobs) (sym found),
      ap (λ (s : JobState). is_in_progress j.job_id s) (sym found) ∙ ground arith,
    )

-- and when it is put off
postponed-head :
    (j : Job) (js : List Job) (s : JobState)
    → s.pending_jobs ≡ j ∷ js
    → IsTracked s
    → (t : JobState) × (updated (job_postponed j.job_id) s ≡ some t)
      × (t.pending_jobs ≡ js ++ j ∷ [])
      × IsTracked t
unfolding updated postpone
postponed-head j js s e h =
    let (t, d, k) = updated-Steps (job_postponed j.job_id) s (ground (arith, e)) h in
    (
      t,
      d,
      ap (λ (o : Option JobState). elim o [ none ↦ [] | some x ↦ x.pending_jobs ])
          (sym (rw e at d)),
      k,
    )

-- The requests that a worker with a role makes, at some times.
abbrev pub requests : ℕ → ℕ → String → List ℕ → List Envelope
requests sender w role nows = map (λ now. (now, sender, worker_requests_work w role)) nows

unfoldable pub has_none : String → List Job → Bool
has_none role [] = true
has_none role (j ∷ js) = not (same_name role j.role_id) && has_none role js

-- What a worker that is idle is given.
record IsGiven (timeout now sender w : ℕ) (st : WorkerState) (j : Job) (js : List Job)
    (m t : Master) : Type 0 where
  pub pending : t.job_database.pending_jobs ≡ js
  pub running : is_in_progress j.job_id t.job_database ≡ true
  pub worker : get_worker w t.workers ≡ some (with_status (busy j.job_id (now + timeout)) st)
  pub told : t.told ≡ m.told ++ (sender, work j) ∷ []

give-IsGiven :
    (timeout now sender w : ℕ) (st : WorkerState) (j : Job) (js : List Job) (m : Master)
    → m.job_database.pending_jobs ≡ j ∷ js
    → Tracked m
    → (t : Master) × (give timeout now sender w st j m ≡ returned t)
      × IsGiven timeout now sender w st j js m t
unfolding give update
give-IsGiven timeout now sender w st j js m e h =
    let (s, d, p, r) = started-head w j js m.job_database e h in
    let busy_now = with_status (busy j.job_id (now + timeout)) st in
    let m1 = record (persist (job_started j.job_id w) m) {
      job_database = s;
      workers = put_worker w busy_now m.workers;
    } in
    (
      tell sender (work j) m1,
      rw d refl,
      record {
        pending = p;
        running = r;
        worker = get_worker-put_worker w busy_now m.workers;
        told = refl;
      },
    )

-- What is left when the job at the head has another role.
record IsPutOff (timeout now w : ℕ) (st : WorkerState) (j : Job) (js : List Job) (m t : Master)
    : Type 0 where
  pub pending : t.job_database.pending_jobs ≡ js ++ j ∷ []
  pub tracked : Tracked t
  pub worker : get_worker w t.workers ≡ some (with_status (idle (now + timeout)) st)
  pub told : t.told ≡ m.told

put_off-IsPutOff :
    (timeout now w : ℕ) (st : WorkerState) (j : Job) (js : List Job) (m : Master)
    → get_worker w m.workers ≡ some st
    → is_idle st.status ≡ true
    → m.job_database.pending_jobs ≡ j ∷ js
    → Tracked m
    → (t : Master) × (put_off timeout now w j m ≡ returned t) × IsPutOff timeout now w st j js m t
unfolding put_off update extend_idle
put_off-IsPutOff timeout now w st j js m g i e h =
    let (s, d, p, k) = postponed-head j js m.job_database e h in
    let idle_now = with_status (idle (now + timeout)) st in
    let m1 = record (persist (job_postponed j.job_id) m) {
      job_database = s;
      workers = put_worker w idle_now m.workers;
    } in
    (
      m1,
      rw (g, i, d) refl,
      record {
        pending = p;
        tracked = k;
        worker = get_worker-put_worker w idle_now m.workers;
        told = refl;
      },
    )

module _ (timeout sender w : ℕ) (role : String) where
  -- one request, for the job at the head
  request-own :
      (now : ℕ) (st : WorkerState) (j : Job) (js : List Job) (m : Master)
      → get_worker w m.workers ≡ some st
      → is_idle st.status ≡ true
      → same_name role j.role_id ≡ true
      → m.job_database.pending_jobs ≡ j ∷ js
      → Tracked m
      → (t : Master) × (receive timeout now sender (worker_requests_work w role) m ≡ returned t)
        × IsGiven timeout now sender w st j js m t
  unfolding receive on_worker_requests_work offer
  request-own now st j js m g i r e h =
      subst
        (λ q.
          (t : Master) × (on_worker_requests_work timeout now sender w role m q ≡ returned t)
          × IsGiven timeout now sender w st j js m t)
        (sym e) (rw (g, i, r) (give-IsGiven timeout now sender w st j js m e h))

  request-other :
      (now : ℕ) (st : WorkerState) (j : Job) (js : List Job) (m : Master)
      → get_worker w m.workers ≡ some st
      → is_idle st.status ≡ true
      → same_name role j.role_id ≡ false
      → m.job_database.pending_jobs ≡ j ∷ js
      → Tracked m
      → (t : Master) × (receive timeout now sender (worker_requests_work w role) m ≡ returned t)
        × IsPutOff timeout now w st j js m t
  unfolding receive on_worker_requests_work offer
  request-other now st j js m g i r e h =
      subst
        (λ q.
          (t : Master) × (on_worker_requests_work timeout now sender w role m q ≡ returned t)
          × IsPutOff timeout now w st j js m t)
        (sym e) (rw (g, i, r) (put_off-IsPutOff timeout now w st j js m g i e h))

-- A registered worker that is idle, and only it asks for work: if before the first waiting job of its
-- role there are some of other roles, and every job that waits or is in progress has a summary, then it
-- is given that job at the request after as many requests as there are others, and is told nothing
-- before; it is busy with the job until its time is over, the job is in progress, and the others wait
-- behind the rest, in their order.
pub requests-IsGiven :
    (timeout sender w now : ℕ) (role : String) (nows : List ℕ) (others rest : List Job) (j : Job)
    (m : Master) (st : WorkerState)
    → get_worker w m.workers ≡ some st
    → is_idle st.status ≡ true
    → has_none role others ≡ true
    → same_name role j.role_id ≡ true
    → m.job_database.pending_jobs ≡ others ++ j ∷ rest
    → IsTracked m.job_database
    → length nows ≡ length others
    → (t : Master) × (run timeout (requests sender w role (nows ++ now ∷ [])) m ≡ returned t)
      × (t.job_database.pending_jobs ≡ rest ++ others)
      × (is_in_progress j.job_id t.job_database ≡ true)
      × (get_worker w t.workers ≡ some (with_status (busy j.job_id (now + timeout)) st))
      × (t.told ≡ m.told ++ (sender, work j) ∷ [])
unfolding run has_none
requests-IsGiven timeout sender w now role [] [] rest j m st g i n r e h l =
    let (t, d, a) = request-own timeout sender w role now st j rest m g i r e h in
    (
      t,
      ap (λ x. x >>= run timeout []) d,
      a.pending ∙ sym (append-nil rest),
      a.running,
      a.worker,
      a.told,
    )
requests-IsGiven timeout sender w now role (at ∷ nows) (o ∷ others) rest j m st g i n r e h l =
    let (t, d, a) =
      request-other timeout sender w role at st o (others ++ j ∷ rest) m g i (ground (arith, n)) e
        h in
    let (u, f, pending, running, worker, told) =
      requests-IsGiven timeout sender w now role nows others (rest ++ o ∷ []) j t _ a.worker refl
        (ground (arith, n)) r (a.pending ∙ append_assoc others (j ∷ rest) (o ∷ [])) a.tracked
        (omega (arith, l)) in
    (
      u,
      ap (λ x. x >>= run timeout (requests sender w role (nows ++ now ∷ []))) d ∙ f,
      pending ∙ append_assoc rest (o ∷ []) others,
      running,
      worker,
      told ∙ ap (λ x. x ++ (sender, work j) ∷ []) a.told,
    )
requests-IsGiven timeout sender w now role [] (o ∷ others) rest j m st g i n r e h l =
    absurd (omega (arith, l))
requests-IsGiven timeout sender w now role (at ∷ nows) [] rest j m st g i n r e h l =
    absurd (omega (arith, l))
