-- ===== src/Check/Checkbox.antt =====
-- The class `Checkbox` and the plugin `$.fn.checkbox` of
-- gatling-rest/static/src/assets/js/bootstrap-checkbox-radio-switch.js.
pub mod Step
use dist_gatling.Shared.{
  Bool, true, false, not, String, Option, none, some, List, [], ◌∷◌, ◌||◌, if◌then◌else◌, str_eq,
  map,
}
use dist_gatling.Jquery.{
  Jquery, add_class, remove_class, toggle_class, set_attr, remove_attr, set_prop,
}
use dist_gatling.Check.Widget.{
  Widget, is_checked, is_disabled, trigger, on_element, on_parent, set_state, init, Argument,
  is_action, is_truthy, merged_template, action, nothing,
}

-- `$.fn.checkbox.defaults.template`
abbrev pub default_template : String
default_template =
    "<span class=\"icons\"><span class=\"first-icon fa fa-square-o\"></span><span class=\"second-icon fa fa-check-square-o\"></span></span>"

module _ ⦃j : Jquery⦄ where
  -- The set that `toggleClass` returns is truthy, so the test is `checked`, read before the writes.
  unfoldable pub toggle : Widget → Widget
  toggle w =
      if is_disabled w
      then w
      else (let w1 = on_parent (toggle_class "checked") w in
          let w2 =
            on_element
              (if is_checked w then remove_attr "checked" else set_attr "checked" "checked") w1 in
          trigger "change" (trigger "toggle" w2))

  -- Any option but 'check' unchecks.
  unfoldable pub set_check : String → Widget → Widget
  set_check option w =
      let check_action = str_eq option "check" in
      let w1 = on_parent (if check_action then add_class "checked" else remove_class "checked") w in
      let w2 =
        on_element (if check_action then set_prop "checked" true else remove_attr "checked") w1 in
      trigger "change" (trigger option w2)

  -- One round of the plugin's loop: whether the element has its object already, the template of its
  -- data attributes, and the widget.
  pub record Slot : Type 0 where
    pub built : Bool
    pub attribute : Option String
    pub widget : Widget

  unfoldable pub plugin : Argument → Slot → Slot
  unfolding toggle set_check set_state init
  plugin option s =
      let w1 =
        if s.built
        then s.widget
        else init (merged_template default_template s.attribute option) s.widget in
      let w2 = if is_action "toggle" option then toggle w1 else w1 in
      let w3 =
        if is_action "check" option
        then set_check "check" w2
        else if is_action "uncheck" option
        then set_check "uncheck" w2
        else if is_truthy option
        then set_state w2
        else w2 in
      record s { built = true; widget = w3 }

  -- `this.each(…)`
  pub plugin_all : Argument → List Slot → List Slot
  plugin_all option = map (plugin option)

  -- The document's handler of a click on a target, and the check boxes that it finds in the
  -- label's element: nothing happens if the target is a link.
  unfoldable pub document_click : String → List Slot → List Slot
  unfolding plugin_all
  document_click tag_name found =
      if str_eq tag_name "A" then found else plugin_all (action "toggle") found

  -- when the page is ready
  unfoldable pub document_ready : List Slot → List Slot
  unfolding plugin_all
  document_ready = plugin_all nothing
