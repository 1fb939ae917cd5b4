-- ===== src/Jobs/Master/Poison.antt =====
-- Entries of the journal that no replay gets past.
use dist_gatling.Shared.{
  ℕ, ◌<◌, ◌≡◌, refl, sym, ap, subst, ◌∙◌, true, false, ◌||◌, Option, none, some, List, [], ◌∷◌,
  ◌++◌, map, arith, ◌==◌, Bool-cases, Option-cases, inl, inr,
}
use dist_gatling.Jobs.{Job, Result, JobDomainEvent, job_failed, job_timed_out}
use dist_gatling.Jobs.Database.{
  JobState, new, contains, get_job, time_out, fail, close_task, updated, job_ids, is_in_progress,
}
use dist_gatling.Jobs.Database.Conserved.{jobs, count-absent, jobs-remove_job, get_job-some}
use dist_gatling.Jobs.Master.{
  busy, WorkerState, Entry, event, Master, Done, returned, threw, ◌>>=◌, update, persist,
  get_worker, is_idle, notify_workers, stored,
}
use dist_gatling.Jobs.Master.Workers.{change_to_idle, on_work_failed, timed_out, overdue}
use dist_gatling.Jobs.Master.Mailbox.{time_out_all, on_cleanup_tick, replay, and_then}
use dist_gatling.Jobs.Master.Journal.{replay-append}
use dist_gatling.Jobs.Master.Sound.{IsSound, notify_workers-database, notify_workers-journal}

-- The handler is left by an exception, with a journal from which no replay succeeds, whatever is
-- persisted after it.
abbrev pub IsPoisoned : Done → Type 0
IsPoisoned (returned m) = ⊥
IsPoisoned (threw m) = (more : List Entry) → replay (m.journal ++ more) new ≡ none

-- the entries that `onCleanupTick` persists
abbrev timeouts : List ℕ → List Entry
timeouts ids = map (λ id. event (job_timed_out id)) ids

time_out-absent :
    (id k : ℕ) (s : JobState) (o : Option Job) {t : JobState}
    → time_out k s o ≡ some t
    → jobs id s.jobs_in_progress ≡ 0
    → jobs id t.jobs_in_progress ≡ 0
unfolding time_out
time_out-absent id k s none e h = absurd (ground arith)
time_out-absent id k s (some j) {t} e h =
    ap (λ (o : Option JobState). elim o [ none ↦ 0 | some x ↦ jobs id x.jobs_in_progress ]) (sym e)
    ∙ ground (arith, jobs-remove_job k id s.jobs_in_progress, h)

updated-absent :
    (id k : ℕ) (s t : JobState)
    → updated (job_timed_out k) s ≡ some t
    → jobs id s.jobs_in_progress ≡ 0
    → jobs id t.jobs_in_progress ≡ 0
unfolding updated
updated-absent id k s t e h = time_out-absent id k s (get_job k s.jobs_in_progress) e h

get_job-absent : (id : ℕ) (js : List Job) → jobs id js ≡ 0 → get_job id js ≡ none
get_job-absent id js h = elim (Option-cases (get_job id js)) [
  | inl e ↦ e
  | inr (j, e) ↦ absurd (omega (arith, h, get_job-some id js j e))
]

timed_out-absent :
    (id : ℕ) (s : JobState) → jobs id s.jobs_in_progress ≡ 0 → updated (job_timed_out id) s ≡ none
unfolding updated time_out
timed_out-absent id s h = ap (time_out id s) (get_job-absent id s.jobs_in_progress h)

==_path : (a b : ℕ) → (a == b) ≡ true → a ≡ b
==_path a b p = ground arith

replay_stale :
    (id : ℕ) (ids : List ℕ) (s : JobState)
    → contains id ids ≡ true
    → jobs id s.jobs_in_progress ≡ 0
    → replay (timeouts ids) s ≡ none
unfolding contains replay
replay_stale id [] s c h = absurd (ground arith)
replay_stale id (k ∷ ids) s c h = elim (Option-cases (updated (job_timed_out k) s)) [
  | inl e ↦ rw e refl
  | inr (t, e) ↦ elim (Bool-cases (k == id)) [
    | inl same ↦ absurd (
        ground (
          arith,
          e,
          timed_out-absent id s h,
          ap (λ x. updated (job_timed_out x) s) (==_path k id same),
        ))
    | inr other ↦
        rw e (replay_stale id ids t (ground (arith, c, other)) (updated-absent id k s t e h))
  ]
]

-- left by an exception, with a journal
abbrev ThrewWith : List Entry → Done → Type 0
ThrewWith journal (returned m) = ⊥
ThrewWith journal (threw m) = m.journal ≡ journal

time_out_all_stale :
    (id : ℕ) (ids : List ℕ) (m : Master)
    → contains id ids ≡ true
    → jobs id m.job_database.jobs_in_progress ≡ 0
    → ThrewWith m.journal (time_out_all ids m)
unfolding contains time_out_all
time_out_all_stale id [] m c h = absurd (ground arith)
time_out_all_stale id (k ∷ ids) m c h =
    elim (Option-cases (updated (job_timed_out k) m.job_database)) [
      | inl e ↦ rw e refl
      | inr (t, e) ↦ elim (Bool-cases (k == id)) [
        | inl same ↦ absurd (
            ground (
              arith,
              e,
              timed_out-absent id m.job_database h,
              ap (λ x. updated (job_timed_out x) m.job_database) (==_path k id same),
            ))
        | inr other ↦
            let m1 = record m { job_database = t } in
            rw e (
              subst (λ j. ThrewWith j (time_out_all ids (notify_workers m1)))
                (notify_workers-journal m1)
                (time_out_all_stale id ids (notify_workers m1) (ground (arith, c, other)) (
                  ap (λ (s : JobState). jobs id s.jobs_in_progress) (notify_workers-database m1)
                  ∙ updated-absent id k m.job_database t e h)))
      ]
    ]

threw-IsPoisoned :
    (journal : List Entry) (d : Done)
    → ThrewWith journal d
    → replay journal new ≡ none
    → IsPoisoned d
threw-IsPoisoned journal (returned m) h e = absurd h
threw-IsPoisoned journal (threw m) h e = λ more.
    replay-append m.journal more new
    ∙ ap (λ (o : Option JobState). and_then o (replay more)) (ap (λ j. replay j new) h ∙ e)

contains-append :
    (id : ℕ) (is ks : List ℕ) → contains id (is ++ ks) ≡ (contains id is || contains id ks)
unfolding contains
contains-append id [] ks = refl
contains-append id (i ∷ is) ks = ground (arith, contains-append id is ks)

contains-overdue :
    (timeout now id until : ℕ)
    → until < now
    → contains id (overdue timeout now (busy id until)) ≡ true
unfolding contains
contains-overdue timeout now id until h = ground arith

-- The worker that is overdue is among those whose jobs time out.
contains-timed_out :
    (timeout now w id until : ℕ) (ref : ℕ) (ws : List (ℕ × WorkerState))
    → get_worker w ws ≡ some (record { ref = ref; status = busy id until })
    → until < now
    → contains id (timed_out timeout now ws) ≡ true
unfolding get_worker timed_out
contains-timed_out timeout now w id until ref [] e h = absurd (ground arith)
contains-timed_out timeout now w id until ref ((v, st) ∷ ws) e h =
    contains-append id (overdue timeout now st.status) (timed_out timeout now ws)
    ∙ elim (Bool-cases (v == w)) [
      | inl same ↦
          let shown : st.status ≡ busy id until = ground (arith, e, same) in
          ap (λ s. contains id (overdue timeout now s) || contains id (timed_out timeout now ws))
            shown
          ∙ ground (arith, contains-overdue timeout now id until h)
      | inr other ↦
          ground
            (arith, contains-timed_out timeout now w id until ref ws (ground (arith, e, other)) h)
    ]

-- From a state in which no job is lost and the journal gives the database: when a tick finds a worker
-- that is overdue with a job that is no longer in progress, as a worker is to which a job was given
-- after a time-out and that another worker has finished meanwhile, the handler is left by an exception,
-- after the event has been persisted, and no replay of the whole journal succeeds from then on,
-- whatever is persisted later.
pub cleanup_tick-IsPoisoned :
    (timeout now w id until ref : ℕ) (m : Master)
    → IsSound m
    → get_worker w m.workers ≡ some (record { ref = ref; status = busy id until })
    → until < now
    → is_in_progress id m.job_database ≡ false
    → IsPoisoned (on_cleanup_tick timeout now m)
unfolding on_cleanup_tick replay
cleanup_tick-IsPoisoned timeout now w id until ref m h e late gone =
    let ids = timed_out timeout now m.workers in
    let here = contains-timed_out timeout now w id until ref m.workers e late in
    let absent = count-absent id (job_ids m.job_database.jobs_in_progress) gone in
    threw-IsPoisoned (m.journal ++ timeouts ids) _ (time_out_all_stale id ids _ here absent) (
      replay-append m.journal (timeouts ids) new
      ∙ ap (λ (o : Option JobState). and_then o (replay (timeouts ids))) (h.replayed)
      ∙ replay_stale id ids m.job_database here absent)

fail-none : (id : ℕ) (r : Result) (s : JobState) → r.job ≡ none → updated (job_failed id r) s ≡ none
unfolding updated fail close_task
fail-none id r s e = rw e refl

update-IsPoisoned :
    (e : JobDomainEvent) (m : Master)
    → IsSound m
    → updated e m.job_database ≡ none
    → IsPoisoned (update e (persist e m))
unfolding update replay
update-IsPoisoned e m h n =
    subst (λ o. IsPoisoned (stored (persist e m) o)) (sym n)
      (λ more.
        replay-append (m.journal ++ event e ∷ []) more new
        ∙ ap (λ (o : Option JobState). and_then o (replay more))
            (replay-append m.journal (event e ∷ []) new
              ∙ ap (λ (o : Option JobState). and_then o (replay (event e ∷ []))) h.replayed
              ∙ ap (λ (o : Option JobState). and_then o (replay [])) n))

IsPoisoned-bind : (d : Done) (f : Master → Done) → IsPoisoned d → IsPoisoned (d >>= f)
IsPoisoned-bind (returned m) f h = absurd h
IsPoisoned-bind (threw m) f h = h

-- From a state in which no job is lost and the journal gives the database: when a registered worker
-- reports that a job in progress has failed, and the result names no job, as the result that `Worker`
-- sends when its executor throws, the handler is left by an exception, after the event has been
-- persisted, and no replay of the whole journal succeeds from then on, whatever is persisted later.
pub work_failed-IsPoisoned :
    (timeout now w id : ℕ) (r : Result) (m : Master) (st : WorkerState)
    → IsSound m
    → get_worker w m.workers ≡ some st
    → is_in_progress id m.job_database ≡ true
    → r.job ≡ none
    → IsPoisoned (on_work_failed timeout now w id r m)
unfolding on_work_failed change_to_idle
work_failed-IsPoisoned timeout now w id r m st h e p n =
    rw (p, e)
      (elim (Bool-cases (is_idle st.status)) [
        | inl i ↦ rw i (
            IsPoisoned-bind _ _
              (update-IsPoisoned (job_failed id r) m h (fail-none id r m.job_database n)))
        | inr b ↦ rw b (
            IsPoisoned-bind _ _
              (update-IsPoisoned (job_failed id r) _ h (fail-none id r m.job_database n)))
      ])
