-- ===== src/Menu/Debounce/Quiet.antt =====
-- What `debounce` promises: the last call before each quiet spell runs, and no other.
use dist_gatling.Shared.{
  ℕ, suc, ◌+◌, ◌≤◌, ◌<◌, ◌≡◌, refl, true, false, ap, none, some, List, [], ◌∷◌, ◌++◌, leb,
  if◌then◌else◌, arith, append_assoc, Bool-cases, leb→le, inl, inr, ◌∙◌,
}
use dist_gatling.Menu.Debounce.{
  Timer, Loop, debounced, advance, session, fresh, run, expire, expire_due,
}

module _ {ℓ} {A : Type ℓ} where
  -- The reference: a call runs `wait` later unless another call comes before that.
  pub quiet_calls : ℕ → List (ℕ × A) → List (ℕ × A)
  quiet_calls wait [] = []
  quiet_calls wait ((t, a) ∷ []) = (t + wait, a) ∷ []
  quiet_calls wait ((t, a) ∷ (u, b) ∷ calls) =
      let rest = quiet_calls wait ((u, b) ∷ calls) in
      if leb (t + wait) u then (t + wait, a) ∷ rest else rest

  -- The last call's timer is due by this time.
  abbrev pub DoneBy : ℕ → ℕ → List (ℕ × A) → Type 0
  DoneBy wait end [] = Unit
  DoneBy wait end ((t, a) ∷ []) = t + wait ≤ end
  DoneBy wait end (_ ∷ c ∷ calls) = DoneBy wait end (c ∷ calls)

  -- Between calls at most one timer waits, and the variable `timeout` holds its number.
  abbrev armed : ℕ → ℕ → A → List (ℕ × A) → Loop A
  armed i due a log = record {
    timeout = some i;
    timers = record { id = i; due = due; arg = a } ∷ [];
    next_id = suc i;
    ran = log;
  }

  abbrev idle : ℕ → List (ℕ × A) → Loop A
  idle n log = record { timeout = none; timers = []; next_id = n; ran = log }

  advance-armed_due :
      (now i due : ℕ) (a : A) (log : List (ℕ × A))
      → due ≤ now
      → advance false now (armed i due a log) ≡ idle (suc i) (log ++ (due, a) ∷ [])
  unfolding advance
  advance-armed_due now i due a log h = ground arith

  advance-armed_early :
      (now i due : ℕ) (a : A) (log : List (ℕ × A))
      → now < due
      → advance false now (armed i due a log) ≡ armed i due a log
  unfolding advance
  advance-armed_early now i due a log h = ground arith

  debounced-idle :
      (wait n now : ℕ) (a : A) (log : List (ℕ × A))
      → debounced wait false now a (idle n log) ≡ armed n (now + wait) a log
  unfolding debounced
  debounced-idle wait n now a log = refl

  debounced-armed :
      (wait i due now : ℕ) (a b : A) (log : List (ℕ × A))
      → debounced wait false now b (armed i due a log) ≡ armed (suc i) (now + wait) b log
  unfolding debounced
  debounced-armed wait i due now a b log = ground arith

  first_call :
      (wait t : ℕ) (a : A)
      → debounced wait false t a (advance false t fresh) ≡ armed 1 (t + wait) a []
  unfolding debounced advance
  first_call wait t a = refl

  abbrev finish : ℕ → ℕ → List (ℕ × A) → Loop A → List (ℕ × A)
  finish wait end calls s = (advance false end (session wait false calls s)).ran

  -- From a waiting timer the session runs that timer's call as if it stood first in the list.
  finish-armed :
      (wait end i t : ℕ) (a : A) (log calls : List (ℕ × A))
      → DoneBy wait end ((t, a) ∷ calls)
      → finish wait end calls (armed i (t + wait) a log) ≡ log ++ quiet_calls wait ((t, a) ∷ calls)
  unfolding session quiet_calls
  finish-armed wait end i t a log [] h =
      ap (λ s. s.ran) (advance-armed_due end i (t + wait) a log h)
  finish-armed wait end i t a log ((u, b) ∷ calls) h = elim (Bool-cases (leb (t + wait) u)) [
    | inl old ↦ rw old (
        ap (λ s. finish wait end calls (debounced wait false u b s))
          (advance-armed_due u i (t + wait) a log (leb→le _ _ old))
        ∙ ap (finish wait end calls) (debounced-idle wait (suc i) u b _)
        ∙ finish-armed wait end (suc i) u b (log ++ (t + wait, a) ∷ []) calls h
        ∙ append_assoc log ((t + wait, a) ∷ []) _)
    | inr new ↦ rw new (
        ap (λ s. finish wait end calls (debounced wait false u b s))
          (advance-armed_early u i (t + wait) a log (ground arith))
        ∙ ap (finish wait end calls) (debounced-armed wait i (t + wait) u a b log)
        ∙ finish-armed wait end (suc i) u b log calls h)
  ]

  -- For every wait and every list of calls, once the last timer is due: a debounced function without
  -- `immediate` has run exactly the calls that no call followed within the wait, each one that wait
  -- after it was made, with its own arguments and in order.
  pub run-quiet_calls :
      (wait end : ℕ) (calls : List (ℕ × A))
      → DoneBy wait end calls
      → run wait false calls end ≡ quiet_calls wait calls
  unfolding run session quiet_calls
  run-quiet_calls wait end [] h = unfold advance in refl
  run-quiet_calls wait end ((t, a) ∷ calls) h =
      ap (finish wait end calls) (first_call wait t a) ∙ finish-armed wait end 1 t a [] calls h

  -- What `immediate` keeps: nothing has run, and the next timer's number is not 0.
  record Silent (s : Loop A) : Type ℓ where
    silent : s.ran ≡ []
    counted : 0 < s.next_id

  expire_due-Silent :
      (now : ℕ) (xs : List (Timer A)) (s : Loop A) → Silent s → Silent (expire_due true now xs s)
  unfolding expire_due expire
  expire_due-Silent now [] s h = h
  expire_due-Silent now (x ∷ xs) s h =
      expire_due-Silent now xs (if leb x.due now then expire true x s else s) (ground arith)

  debounced-Silent :
      (wait now : ℕ) (a : A) (s : Loop A) → Silent s → Silent (debounced wait true now a s)
  unfolding debounced
  debounced-Silent wait now a s h = ground arith

  session-Silent :
      (wait : ℕ) (calls : List (ℕ × A)) (s : Loop A) → Silent s → Silent (session wait true calls s)
  unfolding session advance
  session-Silent wait [] s h = h
  session-Silent wait ((now, a) ∷ calls) s h =
      session-Silent wait calls (debounced wait true now a (advance true now s))
        (debounced-Silent wait now a (advance true now s) (expire_due-Silent now s.timers s h))

  -- With `immediate`, for every wait, every list of calls and every later time, the debounced
  -- function has never run: the timer's number is stored before `!timeout` is read.
  run_immediate-nil : (wait end : ℕ) (calls : List (ℕ × A)) → run wait true calls end ≡ []
  unfolding run advance
  run_immediate-nil wait end calls =
      let s = session wait true calls fresh in
      (expire_due-Silent end s.timers s
        (session-Silent wait calls fresh (record { silent = refl; counted = omega arith }))).silent
