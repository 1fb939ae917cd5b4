-- ===== src/Notify/Countdown.antt =====
-- The timer of a notification: the end of `bind` in
-- gatling-rest/static/src/assets/js/bootstrap-notify.js. Delays are whole milliseconds.
pub mod Rounds
use dist_gatling.Shared.{
  ℕ, suc, Bool, true, false, not, ◌&&◌, ◌||◌, Option, none, some, List, [], ◌∷◌, if◌then◌else◌, ltb,
  ◌==◌,
}
use dist_gatling.Shared.Int.{ℤ, pos, ◌-ℤ◌, leb_ℤ}

-- The settings that the timer reads: `mouse_over === "pause"` is a test.
pub record Timing : Type 0 where
  pub delay : ℕ
  pub timer : ℕ
  pub pauses : Bool

-- The data `notify-delay` and `data-hover` of the element (`none` once jQuery has removed it with
-- its data), how much of the delay the progress bar shows, whether the interval is set, and how
-- often it has called `close`.
pub record Clock : Type 0 where
  pub notify_delay : Option ℤ
  pub hover : Option Bool
  pub shown : ℤ
  pub running : Bool
  pub closes : ℕ

-- `bind`: the interval is set only for a positive delay.
unfoldable pub bind : Timing → Clock
bind t =
    let running = ltb 0 t.delay in
    record {
      notify_delay = if running then some (pos t.delay) else none;
      hover = some false;
      shown = pos 0;
      running = running;
      closes = 0;
    }

-- `data('data-hover') === 'false'`
abbrev is_out : Option Bool → Bool
is_out (some b) = not b
is_out none = false

-- `-(timer)`
abbrev negated : ℕ → ℤ
negated n = pos 0 -ℤ pos n

-- One round of the interval. Without the datum the difference is not a number: it is stored as no
-- number, and the test fails.
unfoldable pub round : Timing → Clock → Clock
round t c =
    let moves = is_out c.hover && t.pauses || not t.pauses in
    if not c.running then c else (elim c.notify_delay [
      | none ↦ c
      | some d ↦
          let delay = d -ℤ pos t.timer in
          let c1 =
            if moves
            then record c { shown = pos t.delay -ℤ delay; notify_delay = some delay }
            else c in
          if leb_ℤ delay (negated t.timer)
          then record c1 { running = false; closes = suc c1.closes }
          else c1
    ])

-- What happens to the element: the pointer enters or leaves it, the interval comes round, or the
-- element is removed.
pub data Event : Type 0 where
  over out tick remove : Event

unfoldable pub handle : Timing → Event → Clock → Clock
unfolding round
handle t over c = record c { hover = some true }
handle t out c = record c { hover = some false }
handle t tick c = round t c
handle t remove c = record c { hover = none; notify_delay = none }

pub run : Timing → List Event → Clock → Clock
unfolding handle
run t [] c = c
run t (e ∷ es) c = run t es (handle t e c)
