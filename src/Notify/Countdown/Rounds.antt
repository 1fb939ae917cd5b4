-- ===== src/Notify/Countdown/Rounds.antt =====
-- When the timer closes a notification.
use dist_gatling.Shared.{
  ℕ, zero, suc, ◌+◌, ◌*◌, ◌≤◌, ◌<◌, ◌≡◌, refl, true, false, none, some, List, [], ◌∷◌, arith, ltb,
  ap, ◌∙◌, Bool-cases, inl, inr, ltb→lt,
}
use dist_gatling.Shared.Int.{ℤ, pos, ◌-ℤ◌}
use dist_gatling.Notify.Countdown.{
  Timing, Clock, Event, over, out, tick, remove, bind, round, handle, run,
}

-- `n` rounds of the interval
pub rounds : Timing → ℕ → Clock → Clock
rounds t zero c = c
rounds t (suc n) c = rounds t n (round t c)

-- The clock while it runs: what is left of the delay.
abbrev going : ℤ → ℤ → Clock
going left shown = record {
  notify_delay = some left;
  hover = some false;
  shown = shown;
  running = true;
  closes = 0;
}

-- what is left after some time
abbrev left : ℕ → ℕ → ℤ
left delay time = pos delay -ℤ pos time

-- One round before the time is up.
round_early :
    (t : Timing) (time : ℕ) (s : ℤ)
    → time < t.delay
    → round t (going (left t.delay time) s)
      ≡ going (left t.delay (time + t.timer)) (pos (time + t.timer))
unfolding round ◌-ℤ◌
round_early t time s h = ground arith

-- The round in which the time is up.
round_late :
    (t : Timing) (time : ℕ) (s : ℤ)
    → t.delay ≤ time
    → ((round t (going (left t.delay time) s)).closes ≡ 1)
      × ((round t (going (left t.delay time) s)).running ≡ false)
unfolding round ◌-ℤ◌
round_late t time s h = (ground arith, ground arith)

round_stopped : (t : Timing) (c : Clock) → c.running ≡ false → round t c ≡ c
unfolding round
round_stopped t c h = ground arith

rounds_stopped : (t : Timing) (n : ℕ) (c : Clock) → c.running ≡ false → rounds t n c ≡ c
unfolding rounds
rounds_stopped t zero c h = refl
rounds_stopped t (suc n) c h = ap (rounds t n) (round_stopped t c h) ∙ rounds_stopped t n c h

closes_early :
    (t : Timing) (n time : ℕ) (s : ℤ)
    → time + n * t.timer < t.delay
    → (rounds t (suc n) (going (left t.delay time) s)).closes ≡ 0
unfolding rounds
closes_early t zero time s h = ap (λ (c : Clock). c.closes) (round_early t time s (omega arith))
closes_early t (suc n) time s h =
    ap (λ c. (rounds t (suc n) c).closes) (round_early t time s (omega arith))
    ∙ closes_early t n (time + t.timer) (pos (time + t.timer)) (omega arith)

closes_late :
    (t : Timing) (n time : ℕ) (s : ℤ)
    → t.delay ≤ time + n * t.timer
    → (rounds t (suc n) (going (left t.delay time) s)).closes ≡ 1
unfolding rounds
closes_late t zero time s h = (round_late t time s (omega arith)).0
closes_late t (suc n) time s h = elim (Bool-cases (ltb time t.delay)) [
  | inl early ↦
      ap (λ c. (rounds t (suc n) c).closes) (round_early t time s (ltb→lt _ _ early))
      ∙ closes_late t n (time + t.timer) (pos (time + t.timer)) (omega arith)
  | inr late ↦
      let (one, stopped) = round_late t time s (ground arith) in
      ap (λ (c : Clock). c.closes)
        (rounds_stopped t (suc n) (round t (going (left t.delay time) s)) stopped)
      ∙ one
]

bind-going : (t : Timing) → 0 < t.delay → bind t ≡ going (left t.delay 0) (pos 0)
unfolding bind ◌-ℤ◌
bind-going t h = ground arith

-- For every positive delay, while the pointer stays away and the element on the page: the timer has
-- not called `close` in its first n + 1 rounds as long as n rounds are shorter than the delay, and
-- has called it exactly once as soon as they are not. So the notification closes one round after its
-- delay is used up, and with a period of 0 never.
pub closes-rounds :
    (t : Timing) (n : ℕ)
    → 0 < t.delay
    → (n * t.timer < t.delay → (rounds t (suc n) (bind t)).closes ≡ 0)
      × (t.delay ≤ n * t.timer → (rounds t (suc n) (bind t)).closes ≡ 1)
closes-rounds t n h = (
  λ early.
      ap (λ c. (rounds t (suc n) c).closes) (bind-going t h)
      ∙ closes_early t n 0 (pos 0) (omega arith),
  λ late.
      ap (λ c. (rounds t (suc n) c).closes) (bind-going t h)
      ∙ closes_late t n 0 (pos 0) (omega arith),
)

-- The clock calls `close` once at most.
record IsOnce (c : Clock) : Type 0 where
  still : c.running ≡ true → c.closes ≡ 0
  once : c.closes ≤ 1

handle-IsOnce : (t : Timing) (e : Event) (c : Clock) → IsOnce c → IsOnce (handle t e c)
unfolding handle
handle-IsOnce t over c h = ground arith
handle-IsOnce t out c h = ground arith
handle-IsOnce t tick c h = ground arith
handle-IsOnce t remove c h = ground arith

run-IsOnce : (t : Timing) (es : List Event) (c : Clock) → IsOnce c → IsOnce (run t es c)
unfolding run
run-IsOnce t [] c h = h
run-IsOnce t (e ∷ es) c h = run-IsOnce t es (handle t e c) (handle-IsOnce t e c h)

bind-IsOnce : (t : Timing) → IsOnce (bind t)
unfolding bind
bind-IsOnce t = record { still = λ e. refl; once = omega arith }

handle_stopped :
    (t : Timing) (e : Event) (c : Clock)
    → c.running ≡ false
    → ((handle t e c).running ≡ false) × ((handle t e c).closes ≡ c.closes)
unfolding handle
handle_stopped t over c h = (h, refl)
handle_stopped t out c h = (h, refl)
handle_stopped t tick c h = (ground arith, ground arith)
handle_stopped t remove c h = (h, refl)

run_stopped :
    (t : Timing) (es : List Event) (c : Clock) → c.running ≡ false → (run t es c).closes ≡ c.closes
unfolding run
run_stopped t [] c h = refl
run_stopped t (e ∷ es) c h =
    let (still, same) = handle_stopped t e c h in run_stopped t es (handle t e c) still ∙ same

bind_stopped : (t : Timing) → t.delay ≡ 0 → ((bind t).running ≡ false) × ((bind t).closes ≡ 0)
unfolding bind
bind_stopped t h = (ground arith, refl)

-- Whatever the pointer does and whenever the element is removed, the timer calls `close` at most
-- once, and never if the delay is 0.
pub closes-run :
    (t : Timing) (es : List Event)
    → ((run t es (bind t)).closes ≤ 1) × (t.delay ≡ 0 → (run t es (bind t)).closes ≡ 0)
closes-run t es = (
  (run-IsOnce t es (bind t) (bind-IsOnce t)).once,
  λ no_delay.
      let (stopped, zero_closes) = bind_stopped t no_delay in
      run_stopped t es (bind t) stopped ∙ zero_closes,
)

round_paused :
    (t : Timing) (c : Clock) (d : ℕ)
    → t.pauses ≡ true
    → c.hover ≡ some true
    → c.notify_delay ≡ some (pos (suc d))
    → round t c ≡ c
unfolding round ◌-ℤ◌
round_paused t c d p h left = ground arith

-- While the pointer rests on a notification that pauses, with some of the delay left, any number of
-- rounds changes nothing.
rounds_paused :
    (t : Timing) (n : ℕ) (c : Clock) (d : ℕ)
    → t.pauses ≡ true
    → c.hover ≡ some true
    → c.notify_delay ≡ some (pos (suc d))
    → rounds t n c ≡ c
unfolding rounds
rounds_paused t zero c d p h left = refl
rounds_paused t (suc n) c d p h left =
    ap (rounds t n) (round_paused t c d p h left) ∙ rounds_paused t n c d p h left

handle_removed :
    (t : Timing) (e : Event) (c : Clock)
    → c.notify_delay ≡ none
    → ((handle t e c).notify_delay ≡ none)
      × ((handle t e c).closes ≡ c.closes)
      × ((handle t e c).running ≡ c.running)
unfolding handle
handle_removed t over c h = (h, refl, refl)
handle_removed t out c h = (h, refl, refl)
handle_removed t tick c h = (ground arith, ground arith, ground arith)
handle_removed t remove c h = (refl, refl, refl)

-- Once the element has been removed before the time was up, the timer never calls `close` again,
-- and the interval is never cleared.
run_removed :
    (t : Timing) (es : List Event) (c : Clock)
    → c.notify_delay ≡ none
    → ((run t es c).closes ≡ c.closes) × ((run t es c).running ≡ c.running)
unfolding run
run_removed t [] c h = (refl, refl)
run_removed t (e ∷ es) c h =
    let (gone, closes, running) = handle_removed t e c h in
    let (later, later') = run_removed t es (handle t e c) gone in (later ∙ closes, later' ∙ running)
