-- ===== src/Check/Radio.antt =====
-- The class `Radio` and the plugin `$.fn.radio` of
-- gatling-rest/static/src/assets/js/bootstrap-checkbox-radio-switch.js.
pub mod Choice
use dist_gatling.Shared.{
  Bool, true, false, not, String, Option, none, some, List, [], ◌∷◌, if◌then◌else◌, str_eq, map,
  ◌&&◌, ◌||◌,
}
use dist_gatling.Jquery.{Jquery, add_class, remove_class, remove_attr, set_prop}
use dist_gatling.Check.Widget.{
  Widget, is_checked, is_disabled, trigger, on_element, on_parent, set_state, init, Argument,
  is_action, is_truthy, merged_template, action, nothing,
}

-- `$.fn.radio.defaults.template`
abbrev pub default_template : String
default_template =
    "<span class=\"icons\"><span class=\"first-icon fa fa-circle-o\"></span><span class=\"second-icon fa fa-dot-circle-o\"></span></span>"

abbrev xor : Bool → Bool → Bool
xor a b = if a then not b else b

module _ ⦃j : Jquery⦄ where
  -- The button that acts, and the other buttons of `$elemGroup`, which has those of the same name in
  -- the form, or in the whole body where the button is in no form: `others` are of the button's group in
  -- the browser too, `elsewhere` are in the forms of the body, of which the browser keeps groups apart.
  pub record Group : Type 0 where
    pub self : Widget
    pub others : List Widget
    pub elsewhere : List Widget

  -- The browser: checking one button of a group unchecks the others, disabled ones too.
  abbrev pub uncheck_by_browser : Widget → Widget
  uncheck_by_browser = on_element (set_prop "checked" false)

  -- `$el.prop('checked', true)`
  unfoldable pub check_self : Group → Group
  check_self g = record {
    self = on_element (set_prop "checked" true) g.self;
    others = map uncheck_by_browser g.others;
    elsewhere = g.elsewhere;
  }

  -- The loop over `$elemGroup`, but for the button itself.
  unfoldable pub each_other : (Widget → Widget) → Group → Group
  each_other f g = record g { others = map f g.others; elsewhere = map f g.elsewhere }

  -- The loop's body in `toggle`, which skips the disabled buttons.
  unfoldable pub clear_enabled : Widget → Widget
  clear_enabled w =
      if is_disabled w
      then w
      else trigger "change"
          (on_element (remove_attr "checked") (on_parent (remove_class "checked") w))

  on_self : (Widget → Widget) → Group → Group
  on_self f g = record g { self = f g.self }

  unfoldable pub toggle : Group → Group
  unfolding on_self each_other clear_enabled check_self
  toggle g =
      let checked = is_checked g.self in
      if is_disabled g.self
      then g
      else (let g1 = each_other clear_enabled g in
          let g2 =
            if checked then g1 else check_self (on_self (on_parent (add_class "checked")) g1) in
          let g3 = on_self (trigger "toggle") g2 in
          if xor checked (is_checked g3.self) then on_self (trigger "change") g3 else g3)

  -- The loop's body in `setCheck`, which skips none.
  unfoldable pub clear : Widget → Widget
  clear w = on_element (remove_attr "checked") (on_parent (remove_class "checked") w)

  -- Any option but 'check' unchecks.
  unfoldable pub set_check : String → Group → Group
  unfolding on_self each_other clear check_self
  set_check option g =
      let check_action = str_eq option "check" in
      let checked = is_checked g.self in
      let g1 = each_other clear g in
      let g2 =
        on_self (on_parent (if check_action then add_class "checked" else remove_class "checked"))
          g1 in
      let g3 =
        if check_action then check_self g2 else on_self (on_element (remove_attr "checked")) g2 in
      let g4 = on_self (trigger option) g3 in
      if xor checked (is_checked g4.self) then on_self (trigger "change") g4 else g4

  -- One round of the plugin's loop: whether the button has its object already, the template of its
  -- data attributes, and its group.
  pub record Slot : Type 0 where
    pub built : Bool
    pub attribute : Option String
    pub group : Group

  unfoldable pub plugin : Argument → Slot → Slot
  unfolding toggle set_check set_state init on_self
  plugin option s =
      let g1 =
        if s.built
        then s.group
        else on_self (init (merged_template default_template s.attribute option)) s.group in
      let g2 = if is_action "toggle" option then toggle g1 else g1 in
      let g3 =
        if is_action "check" option
        then set_check "check" g2
        else if is_action "uncheck" option
        then set_check "uncheck" g2
        else if is_truthy option
        then on_self set_state g2
        else g2 in
      record s { built = true; group = g3 }

  -- `this.each(…)`, for buttons of different groups
  pub plugin_all : Argument → List Slot → List Slot
  plugin_all option = map (plugin option)

  -- The document's handler of a click, for the buttons that it finds in the label's element: a link
  -- is no exception here.
  unfoldable pub document_click : List Slot → List Slot
  unfolding plugin_all
  document_click = plugin_all (action "toggle")

  -- when the page is ready
  unfoldable pub document_ready : List Slot → List Slot
  unfolding plugin_all
  document_ready = plugin_all nothing
