-- ===== src/Check/Checkbox/Step.antt =====
-- The label's class and the input's state under the actions of a check box.
use dist_gatling.Shared.{
  ◌≡◌, refl, true, false, not, some, [], ◌∷◌, ◌++◌, arith, ap, ◌∙◌, sym, if◌then◌else◌,
}
use dist_gatling.Jquery.{
  Jquery, bool, prop, same_key, IsPristine, set_prop, add_class, state_prop, toggle_class,
}
use dist_gatling.Jquery.Laws.{
  state_prop-remove_attr, state_prop-set_attr, state_prop-set_prop, state_prop-remove_attr_set,
  has_class-toggle_class, has_class-add_class, has_class-remove_class, remove_attr-IsPristine,
  set_attr-IsPristine, flag_prop-remove_attr_ne, flag_prop-set_attr_ne, get-put_self,
}
use dist_gatling.Check.Widget.{
  Widget, is_checked, is_disabled, shows, IsInStep, set_state, action, nothing, merged_template,
}
use dist_gatling.Check.Widget.Laws.{element-set_state, events-set_state, set_state-IsInStep}
use dist_gatling.Check.Checkbox.{toggle, set_check, Slot, plugin, default_template}

module _ ⦃j : Jquery⦄ where
  -- An enabled check box with a label in step, whose property no script has set.
  pub record IsLive (w : Widget) : Type 0 where
    pub label : j.Node
    pub labelled : w.parent ≡ some label
    pub enabled : is_disabled w ≡ false
    pub pristine : IsPristine "checked" w.element
    pub in_step : IsInStep w

  module _ (w : Widget) (live : IsLive w) where
    is_checked-toggle : is_checked (toggle w) ≡ not (is_checked w)
    unfolding toggle
    is_checked-toggle = ground (
      arith,
      live.enabled,
      state_prop-remove_attr "checked" w.element live.pristine,
      state_prop-set_attr "checked" "checked" w.element live.pristine,
    )

    parent-toggle : (toggle w).parent ≡ some (toggle_class "checked" live.label)
    unfolding toggle
    parent-toggle = ground (arith, live.enabled, live.labelled)

    shows-toggle : shows "checked" (toggle w) ≡ not (shows "checked" w)
    unfolding toggle
    shows-toggle =
        ground (arith, live.enabled, live.labelled, has_class-toggle_class "checked" live.label)

    is_disabled-toggle : is_disabled (toggle w) ≡ false
    unfolding toggle
    is_disabled-toggle = ground (
      arith,
      live.enabled,
      flag_prop-remove_attr_ne "disabled" "checked" w.element refl,
      flag_prop-set_attr_ne "disabled" "checked" "checked" w.element refl,
    )

    toggle-IsPristine : IsPristine "checked" (toggle w).element
    unfolding toggle
    toggle-IsPristine = ground (
      arith,
      live.enabled,
      live.pristine,
      remove_attr-IsPristine "checked" w.element live.pristine,
      set_attr-IsPristine "checked" "checked" w.element live.pristine,
    )

    events-toggle : (toggle w).events ≡ (w.events ++ "toggle" ∷ []) ++ "change" ∷ []
    unfolding toggle
    events-toggle = ground (arith, live.enabled)

  -- The plugin's action `toggle` on an element that has its object: `toggle`, then `setState`.
  abbrev clicked : Slot → Slot
  clicked s = plugin (action "toggle") s

  widget-clicked : (s : Slot) → s.built ≡ true → (clicked s).widget ≡ set_state (toggle s.widget)
  unfolding plugin
  widget-clicked s built = ground arith

  toggle-IsInStep : (w : Widget) → IsLive w → IsInStep (toggle w)
  toggle-IsInStep w live =
      shows-toggle w live ∙ ap not live.in_step ∙ sym (is_checked-toggle w live)

  set_state-IsLive :
      (w : Widget) {n : j.Node}
      → w.parent ≡ some n
      → is_disabled w ≡ false
      → IsPristine "checked" w.element
      → IsInStep w
      → IsLive (set_state w)
  unfolding set_state
  set_state-IsLive w {n} e enabled pristine in_step = record {
    label = if is_checked w then add_class "checked" n else n;
    labelled = ground arith;
    enabled = ground arith;
    pristine = ground arith;
    in_step = unfold set_state in set_state-IsInStep w e in_step;
  }

  -- A label that showed no mark is put in step.
  set_state_fresh-IsLive :
      (w : Widget) {n : j.Node}
      → w.parent ≡ some n
      → is_disabled w ≡ false
      → IsPristine "checked" w.element
      → shows "checked" w ≡ false
      → IsLive (set_state w)
  unfolding set_state
  set_state_fresh-IsLive w {n} e enabled pristine plain = record {
    label = if is_checked w then add_class "checked" n else n;
    labelled = ground arith;
    enabled = ground arith;
    pristine = ground arith;
    in_step = ground (arith, has_class-add_class "checked" n);
  }

  -- One click on an enabled check box that has its object, its label in step and its property never
  -- set by a script: the state flips, 'toggle' and then 'change' are triggered, and all of this
  -- holds again for the next click.
  plugin_toggle-IsLive :
      (s : Slot)
      → s.built ≡ true
      → IsLive s.widget
      → (is_checked (plugin (action "toggle") s).widget ≡ not (is_checked s.widget))
        × ((plugin (action "toggle") s).widget.events
            ≡ (s.widget.events ++ "toggle" ∷ []) ++ "change" ∷ [])
        × IsLive (plugin (action "toggle") s).widget
  plugin_toggle-IsLive s built live =
      let w = s.widget in
      rw (widget-clicked s built) (
        ap (state_prop "checked") (element-set_state (toggle w)) ∙ is_checked-toggle w live,
        events-set_state (toggle w) ∙ events-toggle w live,
        set_state-IsLive (toggle w) (parent-toggle w live) (is_disabled-toggle w live)
            (toggle-IsPristine w live) (toggle-IsInStep w live),
      )

  -- The plugin without an action builds the object: an enabled check box in a label that shows no
  -- mark yet, whose property no script has set, comes to have its label in step, and is ready for
  -- the clicks of which `plugin_toggle-IsLive` speaks.
  pub plugin_nothing-IsLive :
      (s : Slot) {n : j.Node}
      → s.built ≡ false
      → s.widget.parent ≡ some n
      → shows "checked" s.widget ≡ false
      → is_disabled s.widget ≡ false
      → IsPristine "checked" s.widget.element
      → ((plugin nothing s).built ≡ true) × IsLive (plugin nothing s).widget
  unfolding plugin
  plugin_nothing-IsLive s {n} fresh e plain enabled pristine = rw fresh (
    refl,
    set_state_fresh-IsLive
        (record s.widget {
          before = s.widget.before ++ merged_template default_template s.attribute nothing ∷ [];
        })
        e enabled pristine plain,
  )

  -- 'check' checks any check box, and its label shows it.
  set_check_check :
      (w : Widget) {n : j.Node}
      → w.parent ≡ some n
      → (is_checked (set_check "check" w) ≡ true) × (shows "checked" (set_check "check" w) ≡ true)
  unfolding set_check
  set_check_check w {n} e = (
    state_prop-set_prop "checked" true w.element,
    ground (arith, has_class-add_class "checked" n),
  )

  -- Once 'check' has set the property, 'uncheck' takes the mark off the label, but the input stays
  -- checked: with jQuery 3 removing the attribute does not clear the property.
  set_check_uncheck_check :
      (w : Widget) {n : j.Node}
      → w.parent ≡ some n
      → (is_checked (set_check "uncheck" (set_check "check" w)) ≡ true)
        × (shows "checked" (set_check "uncheck" (set_check "check" w)) ≡ false)
  unfolding set_check same_key
  set_check_uncheck_check w {n} e = (
    state_prop-remove_attr_set "checked" true (set_prop "checked" true w.element)
        (get-put_self (prop "checked") (bool true) w.element refl),
    ground (arith, has_class-remove_class "checked" (add_class "checked" n)),
  )
