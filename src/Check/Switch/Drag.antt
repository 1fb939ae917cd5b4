-- ===== src/Check/Switch/Drag.antt =====
-- How far the sliding element is dragged, and what its operations do to the state.
use dist_gatling.Shared.{
  ◌≡◌, refl, ℕ, Bool, true, false, not, ◌⊎◌, inl, inr, Bool-cases, none, some, Option, List, [],
  ◌∷◌, arith, ap, ◌∙◌, ◌==◌, ◌++◌, if◌then◌else◌,
}
use dist_gatling.Shared.Int.{ℤ, pos, negsuc, ◌≤ℤ◌, -ℤ_parts}
use dist_gatling.Jquery.{Jquery, set_prop, state_prop}
use dist_gatling.Jquery.Laws.{state_prop-set_prop}
use dist_gatling.Check.Switch.{
  Switch, is_checked, is_deactivated, on_change, on_mousedown, clamp_percent, on_mousemove,
  rightmost, on_click, on_mouseup, on_mouseleave, change_status, on_keydown, toggle_activation,
  set_active, toggle_state, set_state, status, equals,
}
use dist_gatling.Check.Switch.Slide.{
  Event, press, release, move, click, leave, key, change, toggle, flip_activation, set, activate,
  handle, run, left-on_change, input-on_change, IsShown,
}

module _ ⦃j : Jquery⦄ where
  -- The shift of the element: none, or between minus half its width and 0.
  abbrev pub IsWithin : Option ℤ → Type 0
  IsWithin none = Unit
  IsWithin (some z) = (negsuc 4999 ≤ℤ z) × (z ≤ℤ pos 0)

  clamp_percent_bounds :
      (percent : ℤ) → (pos 2500 ≤ℤ clamp_percent percent) × (clamp_percent percent ≤ℤ pos 7500)
  unfolding clamp_percent
  clamp_percent_bounds percent = ground arith

  on_mousemove-IsWithin :
      (percent : ℤ) (s : Switch) → IsWithin s.left → IsWithin (on_mousemove percent s).left
  unfolding on_mousemove
  on_mousemove-IsWithin percent s h = elim (Bool-cases (s.moves == 0)) [
    | inl e ↦ rw e h
    | inr e ↦ rw e (
      omega (arith, -ℤ_parts (clamp_percent percent) rightmost, clamp_percent_bounds percent),
      omega (arith, -ℤ_parts (clamp_percent percent) rightmost, clamp_percent_bounds percent),
    )
  ]

  kept : (o o' : Option ℤ) → (o' ≡ o) ⊎ (o' ≡ none) → IsWithin o → IsWithin o'
  kept o o' (inl e) h = rw e h
  kept o o' (inr e) h = rw e tt

  left-on_click :
      (px : ℤ) (s : Switch) → ((on_click px s).left ≡ s.left) ⊎ ((on_click px s).left ≡ none)
  unfolding on_click
  left-on_click px s = elim (Bool-cases (s.clicks == 0)) [
    | inl e ↦ rw e (inl refl)
    | inr e ↦ rw e (inr (search left-on_change))
  ]

  left-on_mouseleave :
      (px : ℤ) (s : Switch)
      → ((on_mouseleave px s).left ≡ s.left) ⊎ ((on_mouseleave px s).left ≡ none)
  unfolding on_mouseleave
  left-on_mouseleave px s = elim (Bool-cases (s.leaves == 0)) [
    | inl e ↦ rw e (inl refl)
    | inr e ↦ rw e (inr (search left-on_change))
  ]

  left-press_release : (s : Switch) → (on_mouseup (on_mousedown s)).left ≡ s.left
  unfolding on_mouseup on_mousedown
  left-press_release s = ground arith

  change_status-IsWithin :
      (px : ℤ) (s : Switch) → IsWithin s.left → IsWithin (change_status px s).left
  unfolding change_status
  change_status-IsWithin px s h =
      kept (on_mouseup (on_mousedown s)).left _ (left-on_click px (on_mouseup (on_mousedown s)))
        (rw (left-press_release s) h)

  on_keydown-IsWithin :
      (k : ℕ) (px : ℤ) (s : Switch) → IsWithin s.left → IsWithin (on_keydown k px s).left
  unfolding on_keydown
  on_keydown-IsWithin k px s h = elim (Bool-cases (k == 32)) [
    | inl e ↦ rw e (change_status-IsWithin px s h)
    | inr e ↦ rw e h
  ]

  handle-IsWithin : (e : Event) (s : Switch) → IsWithin s.left → IsWithin (handle e s).left
  unfolding handle on_mousedown on_mouseup toggle_state set_state toggle_activation set_active
  handle-IsWithin (move percent) s h = on_mousemove-IsWithin percent s h
  handle-IsWithin (key code px) s h = on_keydown-IsWithin code px s h
  handle-IsWithin (click px) s h = kept s.left _ (left-on_click px s) h
  handle-IsWithin (leave px) s h = kept s.left _ (left-on_mouseleave px s) h
  handle-IsWithin press s h = kept s.left _ (inl (ground arith)) h
  handle-IsWithin release s h = kept s.left _ (inl (ground arith)) h
  handle-IsWithin change s h = kept s.left _ (inr (left-on_change s)) h
  handle-IsWithin toggle s h = kept s.left _ (inr (search left-on_change)) h
  handle-IsWithin (set b) s h = kept s.left _ (inr (search left-on_change)) h
  handle-IsWithin flip_activation s h = h
  handle-IsWithin (activate b) s h = h

  -- After every list of events the element is shifted by at most half the wrapper's width to the
  -- left, and never to the right, if that held at first.
  pub run-IsWithin : (es : List Event) (s : Switch) → IsWithin s.left → IsWithin (run es s).left
  unfolding run
  run-IsWithin [] s h = h
  run-IsWithin (e ∷ es) s h = run-IsWithin es (handle e s) (handle-IsWithin e s h)

  click_after_press :
      (px : ℤ) (s : Switch)
      → is_deactivated s ≡ false
      → (change_status px s).input ≡ set_prop "checked" (not (is_checked s)) s.input
  unfolding change_status on_mousedown on_mouseup on_click on_change
  click_after_press px s h = ground arith

  -- A press, a release and a click without a drag flip an active switch, and leave the state of a
  -- deactivated one and the page's events as they were, wherever the element stands.
  change_status_flips :
      (px : ℤ) (s : Switch)
      → (is_deactivated s ≡ false → status (change_status px s) ≡ not (status s))
        × (is_deactivated s ≡ true
            → (status (change_status px s) ≡ status s) × ((change_status px s).events ≡ s.events))
  unfolding status change_status on_mousedown on_mouseup on_click
  change_status_flips px s = (
    λ active.
        ap (state_prop "checked") (click_after_press px s active)
        ∙ state_prop-set_prop "checked" (not (is_checked s)) s.input,
    λ off. (ground arith, ground arith),
  )

  input-set_state : (b : Bool) (s : Switch) → (set_state b s).input ≡ set_prop "checked" b s.input
  unfolding set_state
  input-set_state b s = input-on_change (record s { input = set_prop "checked" b s.input })

  -- `setState` makes `status` what it is given, and from an element that shows the state the page
  -- hears of it exactly if that is a change.
  status-set_state :
      (b : Bool) (s : Switch)
      → IsShown s
      → (status (set_state b s) ≡ b)
        × ((set_state b s).events ≡ (if equals b (status s) then s.events else s.events ++ b ∷ []))
  unfolding status set_state on_change
  status-set_state b s h = (
    ap (state_prop "checked") (input-set_state b s) ∙ state_prop-set_prop "checked" b s.input,
    ground (arith, state_prop-set_prop "checked" b s.input),
  )
