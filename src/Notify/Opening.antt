-- ===== src/Notify/Opening.antt =====
-- How a notification comes: the end of `placement` in
-- gatling-rest/static/src/assets/js/bootstrap-notify.js, once the element is on the page.
use dist_gatling.Shared.{ℕ, suc, ◌≡◌, ◌≤◌, Bool, true, false, not, if◌then◌else◌}

-- The closure's `hasAnimation`, whether the handler of the animation's end is still bound, the timer
-- of 600 ms, and how often the settings' `onShow` and `onShown` have been called.
pub record Entry : Type 0 where
  pub has_animation : Bool
  pub end_bound : Bool
  pub waiting : Bool
  pub on_show : ℕ
  pub on_shown : ℕ

abbrev pub placed : Entry
placed = record {
  has_animation = false;
  end_bound = true;
  waiting = true;
  on_show = 1;
  on_shown = 0;
}

-- the handler of the events in `animations.start`
unfoldable pub on_start : Entry → Entry
on_start e = record e { has_animation = true }

-- the handler of the events in `animations.end`, bound by `one`
unfoldable pub on_end : Entry → Entry
on_end e = if e.end_bound then record e { end_bound = false; on_shown = suc e.on_shown } else e

-- the function given to `setTimeout`
unfoldable pub on_timeout : Entry → Entry
on_timeout e =
    let e1 = record e { waiting = false } in
    if not e1.has_animation then record e1 { on_shown = suc e1.on_shown } else e1

-- An animation ends only if it has started, and the timer expires once.
pub data Step : Entry → Entry → Type 0 where
  start : (e : Entry) → Step e (on_start e)
  end : (e : Entry) → e.has_animation ≡ true → Step e (on_end e)
  timeout : (e : Entry) → e.waiting ≡ true → Step e (on_timeout e)

pub data Reach (e : Entry) : Entry → Type 0 where
  here : Reach e e
  next : {f g : Entry} → Reach e f → Step f g → Reach e g

-- What holds between the steps.
record IsCounted (e : Entry) : Type 0 where
  plain :
      e.has_animation ≡ false → (e.end_bound ≡ true) × (e.on_shown ≡ (if e.waiting then 0 else 1))
  early : e.waiting ≡ true → e.on_shown ≡ (if e.end_bound then 0 else 1)
  bound : e.on_shown ≤ (if e.end_bound then 1 else 2)
  told : e.end_bound ≡ false → 1 ≤ e.on_shown

-- What holds from the moment on at which an animation had started before the timer expired.
abbrev IsAnimated : Entry → Type 0
IsAnimated e = (e.has_animation ≡ true) × (e.on_shown ≡ (if e.end_bound then 0 else 1))
