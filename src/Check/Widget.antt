-- ===== src/Check/Widget.antt =====
-- What the classes `Checkbox` and `Radio` of
-- gatling-rest/static/src/assets/js/bootstrap-checkbox-radio-switch.js share: an input element, the
-- styled label around it, and the argument of the two plugins.
pub mod Laws
use dist_gatling.Shared.{
  ◌≡◌, Bool, true, false, not, String, Option, none, some, List, [], ◌∷◌, ◌++◌, if◌then◌else◌,
  str_eq,
}
use dist_gatling.Jquery.{Jquery, state_prop, flag_prop, add_class, has_class, on_found, found_has}

module _ ⦃j : Jquery⦄ where
  -- The input, `closest('.checkbox')` or `closest('.radio')` if there is one, what was put before
  -- the input, and the names of the events triggered on it, the first one first.
  pub record Widget : Type 0 where
    pub element : j.Node
    pub parent : Option j.Node
    pub before : List String
    pub events : List String

  -- `$el.prop('checked')`
  abbrev pub is_checked : Widget → Bool
  is_checked w = state_prop "checked" w.element

  -- `$el.prop('disabled')`
  abbrev pub is_disabled : Widget → Bool
  is_disabled w = flag_prop "disabled" w.element

  -- The label shows a class.
  abbrev pub shows : String → Widget → Bool
  shows c w = found_has (has_class c) w.parent

  abbrev pub trigger : String → Widget → Widget
  trigger e w = record w { events = w.events ++ e ∷ [] }

  abbrev pub on_element : (j.Node → j.Node) → Widget → Widget
  on_element f w = record w { element = f w.element }

  abbrev pub on_parent : (j.Node → j.Node) → Widget → Widget
  on_parent f w = record w { parent = on_found f w.parent }

  -- The label has the class `checked` exactly when the input is checked.
  abbrev pub IsInStep : Widget → Type 0
  IsInStep w = shows "checked" w ≡ is_checked w

  -- `setState`, the same text in both classes
  unfoldable pub set_state : Widget → Widget
  set_state w =
      let w1 = if is_disabled w then on_parent (add_class "disabled") w else w in
      if is_checked w1 then on_parent (add_class "checked") w1 else w1

  -- `init`, which builds a new object over the element
  unfoldable pub init : String → Widget → Widget
  unfolding set_state
  init template w = set_state (record w { before = w.before ++ template ∷ [] })

-- The plugin's argument `option`: nothing, the name of an action, or an object of settings, of
-- which only `template` is read.
pub data Argument : Type 0 where
  nothing : Argument
  action : String → Argument
  settings : Option String → Argument

-- `option == name`
abbrev pub is_action : String → Argument → Bool
is_action name nothing = false
is_action name (action a) = str_eq a name
is_action name (settings t) = false

-- `option` as a condition
abbrev pub is_truthy : Argument → Bool
is_truthy nothing = false
is_truthy (action a) = not (str_eq a "")
is_truthy (settings t) = true

-- `$.extend({}, defaults, $this.data(), typeof option == 'object' && option).template`: the last
-- one that is given.
abbrev pub merged_template : String → Option String → Argument → String
merged_template default attribute (settings (some t)) = t
merged_template default (some t) _ = t
merged_template default none _ = default
