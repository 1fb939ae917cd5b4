-- ===== src/Check/Widget/Laws.antt =====
-- What `setState` and `init` do to the label and to the input.
use dist_gatling.Shared.{◌≡◌, refl, ◌||◌, some, arith}
use dist_gatling.Jquery.{Jquery, add_class}
use dist_gatling.Jquery.Laws.{has_class-add_class, has_class-add_class_ne}
use dist_gatling.Check.Widget.{Widget, is_checked, is_disabled, shows, IsInStep, set_state}

module _ ⦃j : Jquery⦄ where
  -- `setState` writes to the label alone.
  pub element-set_state : (w : Widget) → (set_state w).element ≡ w.element
  unfolding set_state
  element-set_state w = ground arith

  pub events-set_state : (w : Widget) → (set_state w).events ≡ w.events
  unfolding set_state
  events-set_state w = ground arith

  -- With a label, `setState` makes it show `checked` if it did or if the input is checked.
  pub shows-set_state :
      (w : Widget) {n : j.Node}
      → w.parent ≡ some n
      → shows "checked" (set_state w) ≡ (is_checked w || shows "checked" w)
  unfolding set_state
  shows-set_state w {n} e = ground (
    arith,
    has_class-add_class "checked" n,
    has_class-add_class "checked" (add_class "disabled" n),
    has_class-add_class_ne "checked" "disabled" n refl,
  )

  pub disabled-set_state :
      (w : Widget) {n : j.Node}
      → w.parent ≡ some n
      → shows "disabled" (set_state w) ≡ (is_disabled w || shows "disabled" w)
  unfolding set_state
  disabled-set_state w {n} e = ground (
    arith,
    has_class-add_class "disabled" n,
    has_class-add_class_ne "disabled" "checked" n refl,
    has_class-add_class_ne "disabled" "checked" (add_class "disabled" n) refl,
  )

  -- A label in step stays in step.
  pub set_state-IsInStep :
      (w : Widget) {n : j.Node} → w.parent ≡ some n → IsInStep w → IsInStep (set_state w)
  set_state-IsInStep w e h = ground (arith, shows-set_state w e, element-set_state w)
