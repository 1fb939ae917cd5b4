-- ===== src/Jobs/Master/Files/Sent.antt =====
-- Every host is sent every file.
use dist_gatling.Shared.{
  ℕ, ◌≡◌, refl, sym, ap, ◌∙◌, Bool, true, false, not, ◌&&◌, none, some, List, [], ◌∷◌, ◌++◌, map,
  arith, ◌==◌, if◌then◌else◌, Bool-cases, inl, inr, append-nil, append_assoc,
}
use dist_gatling.Jobs.Database.{contains, remove}
use dist_gatling.Jobs.Master.{Master, returned, tell, file_job, Reply}
use dist_gatling.Jobs.Master.Files.{
  is_sent, on_file_upload_complete, unsent_file, send_file, on_worker_requests_file,
}
use dist_gatling.Jobs.Master.Mailbox.{
  Envelope, receive, run, worker_requests_file, file_upload_complete,
}

-- the files that a host has not reported
unfoldable pub unsent : ℕ → List ℕ → List (ℕ × ℕ) → List ℕ
unfolding is_sent
unsent host [] ps = []
unsent host (t ∷ ts) ps =
    let rest = unsent host ts ps in if is_sent t host ps then rest else t ∷ rest

unsent_file-unsent :
    (host : ℕ) (files : List ℕ) (ps : List (ℕ × ℕ)) (t : ℕ) (ts : List ℕ)
    → unsent host files ps ≡ t ∷ ts
    → (unsent_file host files ps ≡ some t) × (is_sent t host ps ≡ false)
unfolding unsent unsent_file
unsent_file-unsent host [] ps t ts e = absurd (ground arith)
unsent_file-unsent host (f ∷ files) ps t ts e = elim (Bool-cases (is_sent f host ps)) [
  | inl s ↦ rw s (unsent_file-unsent host files ps t ts (rw s at e))
  | inr s ↦ let same : f ≡ t = ground (arith, e, s) in (ground (arith, s, same), rw⁻¹ same s)
]

unsent_file-done :
    (host : ℕ) (files : List ℕ) (ps : List (ℕ × ℕ))
    → unsent host files ps ≡ []
    → unsent_file host files ps ≡ none
unfolding unsent unsent_file
unsent_file-done host [] ps e = refl
unsent_file-done host (f ∷ files) ps e = elim (Bool-cases (is_sent f host ps)) [
  | inl s ↦ rw s (unsent_file-done host files ps (rw s at e))
  | inr s ↦ absurd (ground (arith, e, s))
]

unsent-reported :
    (host t : ℕ) (files : List ℕ) (ps : List (ℕ × ℕ))
    → unsent host files ((t, host) ∷ ps) ≡ remove t (unsent host files ps)
unfolding unsent is_sent remove
unsent-reported host t [] ps = refl
unsent-reported host t (f ∷ files) ps = ground (arith, unsent-reported host t files ps)

unfoldable pub are_distinct : List ℕ → Bool
unfolding contains
are_distinct [] = true
are_distinct (t ∷ ts) = not (contains t ts) && are_distinct ts

remove-absent : (t : ℕ) (ts : List ℕ) → contains t ts ≡ false → remove t ts ≡ ts
unfolding contains remove
remove-absent t [] h = refl
remove-absent t (u ∷ ts) h = elim (Bool-cases (u == t)) [
  | inl e ↦ absurd (ground (arith, h, e))
  | inr e ↦ rw e (ap (λ us. u ∷ us) (remove-absent t ts (ground (arith, h, e))))
]

remove-head : (t : ℕ) (ts : List ℕ) → contains t ts ≡ false → remove t (t ∷ ts) ≡ ts
unfolding remove
remove-head t ts h = let self : (t == t) ≡ true = ground arith in rw self (remove-absent t ts h)

-- What a worker of a host sends for each of some files: it asks for a file that can be read, and
-- reports that it has it.
unfoldable pub rounds : ℕ → ℕ → ℕ → List ℕ → List Envelope
rounds now sender host [] = []
rounds now sender host (t ∷ ts) =
    (now, sender, worker_requests_file host true)
    ∷ (now, sender, file_upload_complete t host)
    ∷ rounds now sender host ts

-- the files told to a worker
abbrev pub file_jobs : ℕ → List ℕ → List (ℕ × Reply)
file_jobs sender ts = map (λ t. (sender, file_job t)) ts

-- one round, and what it leaves
round-run :
    (timeout now sender host t : ℕ) (ts : List ℕ) (es : List Envelope) (m : Master)
    → unsent host m.file_database m.file_tracker ≡ t ∷ ts
    → run timeout
        ((now, sender, worker_requests_file host true)
          ∷ (now, sender, file_upload_complete t host)
          ∷ es)
        m
      ≡ run timeout es
          (record (tell sender (file_job t) m) { file_tracker = (t, host) ∷ m.file_tracker })
unfolding run receive on_worker_requests_file send_file on_file_upload_complete
round-run timeout now sender host t ts es m e =
    let (first, fresh) = unsent_file-unsent host m.file_database m.file_tracker t ts e in
    rw (first, fresh) refl

-- When some different uploaded files have not been reported by a host, and a worker of it asks and
-- reports in turn, as often as there are such files, and all of them can be read: all handlers
-- return, the worker is told each of those files once, in their order, and nothing else, and then a
-- request of the host is given no file.
pub rounds_sent :
    (timeout now sender host : ℕ) (ts : List ℕ) (m : Master)
    → unsent host m.file_database m.file_tracker ≡ ts
    → are_distinct ts ≡ true
    → (u : Master) × (run timeout (rounds now sender host ts) m ≡ returned u)
      × (u.told ≡ m.told ++ file_jobs sender ts)
      × ((readable : Bool) → on_worker_requests_file sender host readable u ≡ returned u)
unfolding rounds are_distinct run on_worker_requests_file send_file
rounds_sent timeout now sender host [] m e d = (
  m,
  refl,
  sym (append-nil m.told),
  λ readable. rw (unsent_file-done host m.file_database m.file_tracker e) refl,
)
rounds_sent timeout now sender host (t ∷ ts) m e d =
    let m1 = record (tell sender (file_job t) m) { file_tracker = (t, host) ∷ m.file_tracker } in
    let left : unsent host m1.file_database m1.file_tracker ≡ ts =
      unsent-reported host t m.file_database m.file_tracker
      ∙ ap (remove t) e
      ∙ remove-head t ts (ground (arith, d)) in
    let (u, r, told, done) = rounds_sent timeout now sender host ts m1 left (ground (arith, d)) in
    (
      u,
      round-run timeout now sender host t ts (rounds now sender host ts) m e ∙ r,
      told ∙ append_assoc m.told ((sender, file_job t) ∷ []) (file_jobs sender ts),
      done,
    )
