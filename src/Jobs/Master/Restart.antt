-- ===== src/Jobs/Master/Restart.antt =====
-- What a master knows after a restart.
use dist_gatling.Shared.{
  ℕ, ◌≤◌, ◌≡◌, refl, sym, ap, subst, ◌∙◌, Bool, true, false, not, ◌&&◌, some, List, [], ◌∷◌, ◌++◌,
  map, arith, append_assoc, append-nil, length, length-map,
}
use dist_gatling.Jobs.{Job, job_accepted}
use dist_gatling.Jobs.Database.{JobState, new, updated, is_accepted, accept}
use dist_gatling.Jobs.Master.{
  Entry, event, Master, returned, ◌>>=◌, started, on_job, notify_workers, update, tell, ack,
  persist,
}
use dist_gatling.Jobs.Master.Mailbox.{job, receive, Envelope, run, replay, Recovery, recover}
use dist_gatling.Jobs.Master.Journal.{Holds}
use dist_gatling.Jobs.Master.Sound.{notify_workers-database, notify_workers-journal}
use dist_gatling.Jobs.Master.Sound.Runs.{AreDrawn, replay-journal}

-- When a new master has handled what it received without an exception, the identifiers that it drew for
-- jobs were new, and its journal has at most 100 entries: after a restart it has the database that it
-- had.
pub recover-short :
    (recovery : Recovery) (timeout : ℕ) (es : List Envelope) (m : Master)
    → AreDrawn timeout es started
    → run timeout es started ≡ returned m
    → length m.journal ≤ 100
    → recover recovery m ≡ some m.job_database
unfolding recover replay
recover-short recovery timeout es m n e h =
    ap (λ j. replay j new) (recovery.upto-short 100 m.journal h)
    ∙ subst (Holds (λ m. replay m.journal new ≡ some m.job_database)) e
        (replay-journal timeout es n)

-- Jobs that one sender submits, each in a message of its own.
abbrev pub submissions : List Job → List Envelope
submissions js = map (λ j. (0, 0, job j)) js

-- No job of the list has been accepted when its turn comes.
unfoldable pub are_fresh : List Job → JobState → Bool
are_fresh [] s = true
are_fresh (j ∷ js) s = not (is_accepted j.job_id s) && are_fresh js (accept j s)

accept_list : List Job → JobState → JobState
accept_list [] s = s
accept_list (j ∷ js) s = accept_list js (accept j s)

accept_list-pending :
    (js : List Job) (s : JobState) → (accept_list js s).pending_jobs ≡ s.pending_jobs ++ js
unfolding accept_list accept
accept_list-pending [] s = sym (append-nil s.pending_jobs)
accept_list-pending (j ∷ js) s =
    accept_list-pending js (accept j s) ∙ append_assoc s.pending_jobs (j ∷ []) js

abbrev acceptances : List Job → List Entry
acceptances js = map (λ j. event (job_accepted j)) js

replay-acceptances :
    (js : List Job) (s : JobState) → replay (acceptances js) s ≡ some (accept_list js s)
unfolding replay accept_list updated
replay-acceptances [] s = refl
replay-acceptances (j ∷ js) s = replay-acceptances js (accept j s)

map-append : (js ks : List Job) → acceptances (js ++ ks) ≡ acceptances js ++ acceptances ks
map-append [] ks = refl
map-append (j ∷ js) ks = ap (λ es. event (job_accepted j) ∷ es) (map-append js ks)

-- What the jobs that are submitted leave.
record IsSubmitted (js : List Job) (m t : Master) : Type 0 where
  journal : t.journal ≡ m.journal ++ acceptances js
  job_database : t.job_database ≡ accept_list js m.job_database

-- One job that is fresh is accepted.
record IsAccepted (j : Job) (m t : Master) : Type 0 where
  journal : t.journal ≡ m.journal ++ acceptances (j ∷ [])
  job_database : t.job_database ≡ accept j m.job_database

on_job-fresh :
    (sender : ℕ) (j : Job) (m : Master)
    → is_accepted j.job_id m.job_database ≡ false
    → (t : Master) × (on_job sender j m ≡ returned t) × IsAccepted j m t
unfolding on_job update updated
on_job-fresh sender j m e =
    let m1 = record (tell sender (ack j.job_id) (persist (job_accepted j) m)) {
      job_database = accept j m.job_database;
    } in
    (
      notify_workers m1,
      rw e refl,
      record { journal = notify_workers-journal m1; job_database = notify_workers-database m1 },
    )

run-submissions :
    (timeout : ℕ) (js : List Job) (m : Master)
    → are_fresh js m.job_database ≡ true
    → (t : Master) × (run timeout (submissions js) m ≡ returned t) × IsSubmitted js m t
unfolding run receive are_fresh accept_list
run-submissions timeout [] m f =
    (m, refl, record { journal = sym (append-nil m.journal); job_database = refl })
run-submissions timeout (j ∷ js) m f =
    let (t, e, a) = on_job-fresh 0 j m (ground (arith, f)) in
    let rest : are_fresh js t.job_database ≡ true = rw a.job_database (ground (arith, f)) in
    let (u, d, b) = run-submissions timeout js t rest in
    (
      u,
      ap (λ x. x >>= run timeout (submissions js)) e ∙ d,
      record {
        journal =
            b.journal
            ∙ ap (λ x. x ++ acceptances js) a.journal
            ∙ append_assoc m.journal (acceptances (j ∷ [])) (acceptances js);
        job_database = b.job_database ∙ ap (accept_list js) a.job_database;
      },
    )

-- When 100 jobs and then some others are submitted to a new master, with identifiers that are new each
-- time, all are accepted and wait in their order; but after a restart only the first 100 wait, and the
-- others are gone.
pub recover-long :
    (recovery : Recovery) (timeout : ℕ) (js ks : List Job)
    → length js ≡ 100
    → are_fresh (js ++ ks) new ≡ true
    → (m : Master) × (s : JobState) × (run timeout (submissions (js ++ ks)) started ≡ returned m)
      × (m.job_database.pending_jobs ≡ js ++ ks)
      × (recover recovery m ≡ some s)
      × (s.pending_jobs ≡ js)
unfolding recover
recover-long recovery timeout js ks n f =
    let (m, e, a) = run-submissions timeout (js ++ ks) started f in
    let written : m.journal ≡ acceptances js ++ acceptances ks = a.journal ∙ map-append js ks in
    let read : recovery.upto 100 m.journal ≡ acceptances js =
      ap (recovery.upto 100) written
      ∙ ap (λ k. recovery.upto k (acceptances js ++ acceptances ks)) (sym (length-map _ js ∙ n))
      ∙ recovery.upto-long (acceptances js) (acceptances ks) in
    (
      m,
      accept_list js new,
      e,
      ap (λ (s : JobState). s.pending_jobs) a.job_database ∙ accept_list-pending (js ++ ks) new,
      ap (λ es. replay es new) read ∙ replay-acceptances js new,
      accept_list-pending js new,
    )
