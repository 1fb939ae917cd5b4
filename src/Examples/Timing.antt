-- ===== src/Examples/Timing.antt =====
-- Inputs for the timer, the end and the settings of a notification,
-- gatling-rest/static/src/assets/js/bootstrap-notify.js.
use dist_gatling.Shared.{
  ◌*◌, ◌<◌, ◌≤◌, ◌≡◌, refl, true, false, some, none, List, [], ◌∷◌, All, length, arith,
}
use dist_gatling.Shared.Int.{pos}
use dist_gatling.Notify.Countdown
use dist_gatling.Notify.Countdown.{Timing, Clock, Event, over, out, tick, bind, run}
use dist_gatling.Notify.Countdown.Rounds.{rounds, closes-rounds, closes-run}
use dist_gatling.Notify.Opening
use dist_gatling.Notify.Closing.{
  Call, Fade, placed, remove, close, on_start, call_at, count_bound, remove_times, on_timeout,
  on_end, called, start, timeout, end, Reach, here, next,
}
use dist_gatling.Notify.Closing.Calls.{IsOver}
use dist_gatling.Notify.Closing.Told.{Reach-told}
use dist_gatling.Notify.Settings.{words, Options, defaults, settings, Settings, Shown}

-- the script's defaults
abbrev five_seconds : Timing
five_seconds = record { delay = 5000; timer = 1000; pauses = true }

closes-rounds_example :
    (5 * 1000 < 5000 → (rounds five_seconds 6 (bind five_seconds)).closes ≡ 0)
    × (5000 ≤ 5 * 1000 → (rounds five_seconds 6 (bind five_seconds)).closes ≡ 1)
closes-rounds_example = closes-rounds five_seconds 5 (omega arith)

abbrev pointer : List Event
pointer = tick ∷ over ∷ tick ∷ tick ∷ out ∷ tick ∷ Countdown.remove ∷ tick ∷ []

closes-run_example :
    ((run five_seconds pointer (bind five_seconds)).closes ≤ 1)
    × (five_seconds.delay ≡ 0 → (run five_seconds pointer (bind five_seconds)).closes ≡ 0)
closes-run_example = closes-run five_seconds pointer

abbrev rested : Clock
rested = record {
  notify_delay = some (pos 3000);
  hover = some true;
  shown = pos 2000;
  running = true;
  closes = 0;
}

abbrev removed : Clock
removed = record rested { notify_delay = none; hover = none }

-- A second call of `close`, then the animation starts, the timer of the first call expires and the
-- animation ends.
abbrev dismissed : Fade
dismissed = on_start (close (close (placed false)))

abbrev starting : Call
starting = record { has_animation = true; end_bound = true; waiting = true }

abbrev faded : Fade
faded = on_end (on_timeout 0 starting dismissed)

faded-reached : Reach (close (placed false)) faded
unfolding close on_start on_timeout call_at
faded-reached =
    next
      (next
        (next (next here (called (close (placed false))))
          (start (close (close (placed false))) refl))
        (timeout dismissed 0 starting refl refl))
      (end (on_timeout 0 starting dismissed) refl refl)

Reach-told_example :
    (faded.present ≡ true → faded.on_closed ≡ 0)
    × (faded.present ≡ false → 1 ≤ faded.on_closed)
    × (faded.on_closed ≤ 2 * length faded.calls)
    × (All IsOver faded.calls → faded.present ≡ false)
    × (false ≡ false → length faded.calls ≡ 1 → faded.present ≡ false → faded.on_closed ≡ 1)
Reach-told_example = Reach-told false faded-reached

-- `close` is called while the entry is still animated and the exit has no animation: the element is
-- removed twice.
abbrev unseen : Call
unseen = record { has_animation = false; end_bound = false; waiting = true }

hurried : (on_timeout 0 unseen (on_end (close (placed true)))).on_closed ≡ 2
unfolding close on_end on_timeout count_bound remove_times remove
hurried = refl

-- An animation that starts after the timer: `onShown` is called twice.
abbrev arrived : Opening.Entry
arrived = Opening.on_end (Opening.on_start (Opening.on_timeout Opening.placed))

arrived-twice : arrived.on_shown ≡ 2
unfolding Opening.on_end Opening.on_start Opening.on_timeout
arrived-twice = refl

abbrev greeted : Opening.Entry
greeted = Opening.on_start Opening.placed

abbrev standing : Opening.Entry
standing = Opening.on_timeout greeted

abbrev no_options : Options
no_options = record {
  element = none;
  position = none;
  type = none;
  allow_dismiss = none;
  allow_duplicates = some false;
  newest_on_top = none;
  show_progressbar = none;
  place_from = none;
  place_align = none;
  offset = none;
  spacing = none;
  z_index = none;
  delay = none;
  timer = none;
  url_target = none;
  mouse_over = none;
  enter = none;
  exit = none;
  icon_type = none;
  template = none;
}

abbrev greeting : Settings
greeting = settings (defaults "<div></div>") (words "hello") no_options

abbrev shown : List Shown
shown = record { title = ""; message = "hello"; classes = "alert" ∷ "alert-info" ∷ [] } ∷ []
