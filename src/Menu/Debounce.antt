-- ===== src/Menu/Debounce.antt =====
-- The function `debounce` of gatling-rest/static/src/assets/js/gatling.js, with the event loop's
-- timers. A call of the debounced function comes at a time, with its arguments.
pub mod Quiet
use dist_gatling.Shared.{
  ℕ, suc, ◌+◌, Bool, true, not, ◌&&◌, Option, none, some, List, [], ◌∷◌, ◌++◌, leb, ◌==◌,
  if◌then◌else◌,
}

-- An entry of the browser's list of timers: what `setTimeout` was given, with the captured arguments.
pub record Timer {ℓ} (A : Type ℓ) : Type ℓ where
  pub id : ℕ
  pub due : ℕ
  pub arg : A

-- The closure's variable `timeout` (`none` for `undefined` and `null`), the browser's timers, and
-- the calls of `func` with their times, the first call first.
pub record Loop {ℓ} (A : Type ℓ) : Type ℓ where
  pub timeout : Option ℕ
  pub timers : List (Timer A)
  pub next_id : ℕ
  pub ran : List (ℕ × A)

-- A timer's number is truthy, since the browser counts from 1.
is_falsy : Option ℕ → Bool
is_falsy none = true
is_falsy (some i) = i == 0

module _ {ℓ} {A : Type ℓ} where
  remove_timer : ℕ → List (Timer A) → List (Timer A)
  remove_timer i [] = []
  remove_timer i (x ∷ xs) = let rest = remove_timer i xs in if x.id == i then rest else x ∷ rest

  -- `clearTimeout`, which ignores `undefined` and the number of no timer
  clear_timeout : Option ℕ → List (Timer A) → List (Timer A)
  unfolding remove_timer
  clear_timeout none xs = xs
  clear_timeout (some i) xs = remove_timer i xs

  apply_func : ℕ → A → Loop A → Loop A
  apply_func t a s = record s { ran = s.ran ++ (t, a) ∷ [] }

  -- the function given to `setTimeout`
  pub expire : Bool → Timer A → Loop A → Loop A
  unfolding apply_func remove_timer
  expire immediate x s =
      let s' = record s { timeout = none; timers = remove_timer x.id s.timers } in
      if not immediate then apply_func x.due x.arg s' else s'

  -- the function that `debounce` returns
  pub debounced : ℕ → Bool → ℕ → A → Loop A → Loop A
  unfolding apply_func clear_timeout is_falsy
  debounced wait immediate now a s =
      let kept = clear_timeout s.timeout s.timers in
      let s' = record s {
        timeout = some s.next_id;
        timers = kept ++ record { id = s.next_id; due = now + wait; arg = a } ∷ [];
        next_id = suc s.next_id;
      } in
      if immediate && is_falsy s'.timeout then apply_func now a s' else s'

  -- The timers of a list that are due by a time expire, in order.
  expire_due : Bool → ℕ → List (Timer A) → Loop A → Loop A
  expire_due immediate now [] s = s
  expire_due immediate now (x ∷ xs) s =
      expire_due immediate now xs (if leb x.due now then expire immediate x s else s)

  pub advance : Bool → ℕ → Loop A → Loop A
  unfolding expire_due expire
  advance immediate now s = expire_due immediate now s.timers s

  -- A timer that is due when a call comes has expired before it.
  pub session : ℕ → Bool → List (ℕ × A) → Loop A → Loop A
  unfolding debounced advance
  session wait immediate [] s = s
  session wait immediate ((now, a) ∷ calls) s =
      session wait immediate calls (debounced wait immediate now a (advance immediate now s))

  -- `var timeout;`, in a page that has no timer yet
  abbrev pub fresh : Loop A
  fresh = record { timeout = none; timers = []; next_id = 1; ran = [] }

  -- The session, with the loop then left alone until a time.
  unfoldable pub run : ℕ → Bool → List (ℕ × A) → ℕ → List (ℕ × A)
  unfolding session advance
  run wait immediate calls end = (advance immediate end (session wait immediate calls fresh)).ran
