-- ===== src/Notify/Closing.antt =====
-- How a notification goes: `close` of gatling-rest/static/src/assets/js/bootstrap-notify.js, from its
-- call on. What `close` does to the other notifications is in Notify/Stack.
pub mod Calls
pub mod Told
use dist_gatling.Shared.{
  ℕ, zero, suc, ◌≡◌, Bool, true, false, Option, none, some, List, [], ◌∷◌, ◌++◌, map, if◌then◌else◌,
}

-- The closure of one call of `close`: `hasAnimation`, whether the handler of the animation's end is
-- still bound, and whether the timer of 600 ms is still to expire.
pub record Call : Type 0 where
  pub has_animation : Bool
  pub end_bound : Bool
  pub waiting : Bool

-- The element is on the page with its handlers; an animation of it is under way, which may be that of
-- its entry; the calls of `close` so far, the oldest first; and how often the settings' `onClosed` has
-- been called.
pub record Fade : Type 0 where
  pub present : Bool
  pub running : Bool
  pub calls : List Call
  pub on_closed : ℕ

-- an element of the page that nobody has closed, with an animation under way or none
abbrev pub placed : Bool → Fade
placed running = record { present = true; running = running; calls = []; on_closed = 0 }

abbrev pub new_call : Call
new_call = record { has_animation = false; end_bound = true; waiting = true }

-- `close`, by the button, by the countdown or by a script
unfoldable pub close : Fade → Fade
close f = record f { calls = f.calls ++ new_call ∷ [] }

-- `$(this).remove()`, which takes the handlers and the animation along, and `onClosed`
unfoldable pub remove : Fade → Fade
remove f = record f { present = false; running = false; on_closed = suc f.on_closed }

abbrev pub see_start : Call → Call
see_start c = record c { has_animation = true }

-- The events in `animations.start` and the handlers of all calls.
unfoldable pub on_start : Fade → Fade
on_start f = record f { running = true; calls = map see_start f.calls }

abbrev pub unbind_end : Call → Call
unbind_end c = record c { end_bound = false }

-- how many handlers of the animation's end are bound
unfoldable pub count_bound : List Call → ℕ
count_bound [] = 0
count_bound (c ∷ cs) = let rest = count_bound cs in if c.end_bound then suc rest else rest

unfoldable pub remove_times : ℕ → Fade → Fade
unfolding remove
remove_times zero f = f
remove_times (suc n) f = remove_times n (remove f)

-- The events in `animations.end`: the handlers bound by `one` run in turn, each of them once, those
-- behind the one that removes the element too.
unfoldable pub on_end : Fade → Fade
unfolding count_bound remove_times
on_end f =
    remove_times (count_bound f.calls)
      (record f { running = false; calls = map unbind_end f.calls })

-- An animation is cancelled, as that of the entry is when the class of the exit has one of its own.
unfoldable pub on_cancel : Fade → Fade
on_cancel f = record f { running = false }

-- the call with a number
unfoldable pub call_at : ℕ → List Call → Option Call
call_at i [] = none
call_at zero (c ∷ cs) = some c
call_at (suc i) (c ∷ cs) = call_at i cs

unfoldable pub expire : ℕ → List Call → List Call
expire i [] = []
expire zero (c ∷ cs) = record c { waiting = false } ∷ cs
expire (suc i) (c ∷ cs) = c ∷ expire i cs

-- the function that one call gives to `setTimeout`
unfoldable pub on_timeout : ℕ → Call → Fade → Fade
unfolding remove expire
on_timeout i c f =
    let f1 = record f { calls = expire i f.calls } in if c.has_animation then f1 else remove f1

-- What can happen: an element of the page is animated, an animation that is under way ends or is
-- cancelled, each timer expires once, and `close` is called at any time.
pub data Step : Fade → Fade → Type 0 where
  called : (f : Fade) → Step f (close f)
  start : (f : Fade) → f.present ≡ true → Step f (on_start f)
  end : (f : Fade) → f.present ≡ true → f.running ≡ true → Step f (on_end f)
  cancel : (f : Fade) → Step f (on_cancel f)
  timeout :
      (f : Fade) (i : ℕ) (c : Call)
      → call_at i f.calls ≡ some c
      → c.waiting ≡ true
      → Step f (on_timeout i c f)

pub data Reach (f : Fade) : Fade → Type 0 where
  here : Reach f f
  next : {g h : Fade} → Reach f g → Step g h → Reach f h
