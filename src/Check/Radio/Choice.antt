-- ===== src/Check/Radio/Choice.antt =====
-- One choice in a group.
use dist_gatling.Shared.{
  ◌≡◌, refl, true, false, some, none, Option, List, [], ◌∷◌, ◌++◌, arith, ap, ◌∙◌, map, All,
  Option-cases, inl, inr,
}
use dist_gatling.Jquery.{
  Jquery, set_prop, state_prop, on_found, add_class, prop, bool, same_key, remove_attr,
  remove_class, found_has, has_class,
}
use dist_gatling.Jquery.Laws.{
  state_prop-set_prop, has_class-remove_class, get-put_self, state_prop-remove_attr_set,
}
use dist_gatling.Check.Widget.{Widget, is_checked, is_disabled, shows}
use dist_gatling.Check.Radio.{Group, uncheck_by_browser, clear_enabled, toggle, set_check}

module _ ⦃j : Jquery⦄ where
  All-unchecked : (ws : List Widget) → All (λ w. is_checked w ≡ false) (map uncheck_by_browser ws)
  All-unchecked [] = tt
  All-unchecked (w ∷ ws) = (state_prop-set_prop "checked" false w.element, All-unchecked ws)

  module _ (g : Group) (enabled : is_disabled g.self ≡ false)
      (free : is_checked g.self ≡ false) where
    others-toggle : (toggle g).others ≡ map uncheck_by_browser (map clear_enabled g.others)
    unfolding toggle
    others-toggle = ground (arith, state_prop-set_prop "checked" true g.self.element)

    element-toggle : (toggle g).self.element ≡ set_prop "checked" true g.self.element
    unfolding toggle
    element-toggle = ground (arith, state_prop-set_prop "checked" true g.self.element)

    events-toggle : (toggle g).self.events ≡ (g.self.events ++ "toggle" ∷ []) ++ "change" ∷ []
    unfolding toggle
    events-toggle = ground (arith, state_prop-set_prop "checked" true g.self.element)

    parent-toggle : (toggle g).self.parent ≡ on_found (add_class "checked") g.self.parent
    unfolding toggle
    parent-toggle = ground (arith, state_prop-set_prop "checked" true g.self.element)

  -- `toggle` on an enabled button that was not checked, in a group of any size: the button is
  -- checked, its label (if it has one) shows it, 'toggle' and then 'change' are triggered on it, and
  -- no other button of the group that the browser has it in is checked, not even a disabled one.
  pub toggle_chooses :
      (g : Group)
      → is_disabled g.self ≡ false
      → is_checked g.self ≡ false
      → (is_checked (toggle g).self ≡ true)
        × ((toggle g).self.parent ≡ on_found (add_class "checked") g.self.parent)
        × ((toggle g).self.events ≡ (g.self.events ++ "toggle" ∷ []) ++ "change" ∷ [])
        × All (λ w. is_checked w ≡ false) (toggle g).others
  toggle_chooses g enabled free = (
    ap (state_prop "checked") (element-toggle g enabled free)
        ∙ state_prop-set_prop "checked" true g.self.element,
    parent-toggle g enabled free,
    events-toggle g enabled free,
    rw (others-toggle g enabled free) (All-unchecked (map clear_enabled g.others)),
  )

  -- What the labels of the other buttons show after a choice.
  abbrev pub IsCleared : Widget → Widget → Type 0
  IsCleared before after =
      (is_disabled before ≡ false → shows "checked" after ≡ false)
      × (is_disabled before ≡ true → shows "checked" after ≡ shows "checked" before)

  abbrev pub AllCleared : List Widget → List Widget → Type 0
  AllCleared [] [] = Unit
  AllCleared (w ∷ ws) (v ∷ vs) = IsCleared w v × AllCleared ws vs
  AllCleared _ _ = ⊥

  label-IsCleared : (w : Widget) → IsCleared w (uncheck_by_browser (clear_enabled w))
  unfolding clear_enabled
  label-IsCleared w = elim (Option-cases w.parent) [
    | inl e ↦ (λ enabled. ground arith, λ disabled. ground arith)
    | inr (n, e) ↦
        (λ enabled. ground (arith, has_class-remove_class "checked" n), λ disabled. ground arith)
  ]

  labels-AllCleared :
      (ws : List Widget) → AllCleared ws (map uncheck_by_browser (map clear_enabled ws))
  labels-AllCleared [] = tt
  labels-AllCleared (w ∷ ws) = (label-IsCleared w, labels-AllCleared ws)

  -- The same choice, seen on the labels of the other buttons, in a group of any size: the label of
  -- every enabled one loses its mark, and the label of every disabled one stays as it was, also
  -- where the browser has just unchecked that button.
  toggle_labels :
      (g : Group)
      → is_disabled g.self ≡ false
      → is_checked g.self ≡ false
      → AllCleared g.others (toggle g).others
  toggle_labels g enabled free = rw (others-toggle g enabled free) (labels-AllCleared g.others)

  -- A disabled button does nothing, and an enabled one that is checked already stays as it is but for
  -- one 'toggle' event.
  pub toggle_again :
      (g : Group)
      → (is_disabled g.self ≡ true → toggle g ≡ g)
        × (is_disabled g.self ≡ false
            → is_checked g.self ≡ true
            → (toggle g).self ≡ record g.self { events = g.self.events ++ "toggle" ∷ [] })
  unfolding toggle
  toggle_again g = (λ off. ground arith, λ enabled checked. ground arith)

  element-check :
      (g : Group) → (set_check "check" g).self.element ≡ set_prop "checked" true g.self.element
  unfolding set_check
  element-check g = ground arith

  element-uncheck :
      (g : Group) → (set_check "uncheck" g).self.element ≡ remove_attr "checked" g.self.element
  unfolding set_check
  element-uncheck g = ground arith

  parent-uncheck :
      (g : Group)
      → (set_check "uncheck" g).self.parent ≡ on_found (remove_class "checked") g.self.parent
  unfolding set_check
  parent-uncheck g = ground arith

  shows-on_found-remove_class :
      (o : Option j.Node)
      → found_has (has_class "checked") (on_found (remove_class "checked") o) ≡ false
  shows-on_found-remove_class none = refl
  shows-on_found-remove_class (some n) = has_class-remove_class "checked" n

  is_set-check : (g : Group) → j.get (prop "checked") (set_check "check" g).self.element ≡ bool true
  unfolding same_key
  is_set-check g =
      ap (j.get (prop "checked")) (element-check g)
      ∙ get-put_self (prop "checked") (bool true) g.self.element refl

  -- Once 'check' has set the property, 'uncheck' takes the mark off the button's label, but the
  -- button stays checked: with jQuery 3 removing the attribute does not clear the property.
  radio_uncheck_check :
      (g : Group)
      → (is_checked (set_check "uncheck" (set_check "check" g)).self ≡ true)
        × (shows "checked" (set_check "uncheck" (set_check "check" g)).self ≡ false)
  radio_uncheck_check g =
      let g1 = set_check "check" g in
      (
        ap (state_prop "checked") (element-uncheck g1)
            ∙ state_prop-remove_attr_set "checked" true g1.self.element (is_set-check g),
        ap (found_has (has_class "checked")) (parent-uncheck g1)
            ∙ shows-on_found-remove_class g1.self.parent,
      )
