-- ===== src/Check/Switch/Markup.antt =====
-- `methods.init` of the switch, what it builds around the check box, and the plugin's choice of a
-- method.
use dist_gatling.Shared.{
  ◌≡◌, refl, Bool, true, false, not, String, Option, none, some, List, [], ◌∷◌, ◌++◌, arith,
  if◌then◌else◌, str_eq, Bool-cases, inl, inr,
}
use package.text.Mathlib.Text.{find?}
use Prim.Native.String.{◌++◌ as append}
use dist_gatling.Jquery.{
  Jquery, Value, bool, slot, same_key, has_class, add_class, state_prop, flag_prop,
}
use dist_gatling.Jquery.Laws.{has_class-add_class, has_class-add_class_ne}
use dist_gatling.Check.Switch.{Switch, is_active, is_animated}
use dist_gatling.Check.Switch.Slide.{IsShown, Event, run, run-IsShown}

-- The data attributes that `init` reads.
pub record Settings : Type 0 where
  pub on : Option String
  pub off : Option String
  pub on_label : Option String
  pub off_label : Option String
  pub icon : Option String
  pub animated : Value

-- an element that `init` makes: its classes in the order in which they are added, and its content
pub record Part : Type 0 where
  pub classes : List String
  pub html : String

pub record Parts : Type 0 where
  pub left : Part
  pub label : Part
  pub right : Part

-- `classes.indexOf(el) >= 0`
abbrev contains : String → String → Bool
contains classes el = elim (find? classes el) [ none ↦ false | some i ↦ true ]

-- The loop over the sizes: the last one that occurs.
size_loop : String → String → List String → String
size_loop classes mine [] = mine
size_loop classes mine (el ∷ els) = size_loop classes (if contains classes el then el else mine) els

pub my_classes : String → String
unfolding size_loop
my_classes classes = size_loop classes "" ("switch-mini" ∷ "switch-small" ∷ "switch-large" ∷ [])

-- `addClass` adds nothing for `undefined` and for ''.
abbrev add_name : Option String → List String → List String
add_name none cs = cs
add_name (some c) cs = if str_eq c "" then cs else cs ++ c ∷ []

abbrev color : Option String → Option String
color none = none
color (some c) = some (append "switch-" c)

abbrev or_default : String → Option String → String
or_default d none = d
or_default d (some s) = s

part : String → String → Option String → String → Part
part base mine c content = record {
  classes = add_name (color c) (add_name (some mine) (base ∷ []));
  html = content;
}

abbrev is_icon : Option String → Option String
is_icon none = none
is_icon (some i) = if str_eq i "" then none else some i

label_html : Option String → String
label_html none = "&nbsp;"
label_html (some i) = append "<i class=\"" (append i "\"></i>")

unfoldable pub build : Settings → String → Parts
unfolding my_classes part label_html
build d classes =
    let mine = my_classes classes in
    record {
      left = part "switch-left" mine d.on (or_default "ON" d.on_label);
      label = record { classes = add_name (some mine) []; html = label_html (is_icon d.icon) };
      right = part "switch-right" mine d.off (or_default "OFF" d.off_label);
    }

module _ ⦃j : Jquery⦄ where
  -- The new `div` around the check box.
  wrap_div : Settings → Bool → j.Node → j.Node
  wrap_div d checked n =
      let n1 = j.put (slot "animated") (bool false) n in
      let n2 =
        if is_animated d.animated
        then j.put (slot "animated") (bool true) (add_class "switch-animate" n1)
        else n1 in
      add_class (if checked then "switch-on" else "switch-off") n2

  -- What `init` makes of one element, the `div` put into it, and the check box.
  unfoldable pub make : Settings → j.Node → j.Node → j.Node → Switch
  unfolding wrap_div
  make d wrapper div input =
      let w = add_class "has-switch" wrapper in
      record {
        wrapper = if flag_prop "disabled" input then add_class "deactivate" w else w;
        div = wrap_div d (state_prop "checked" input) div;
        input = input;
        left = none;
        moving = false;
        clicks = 0;
        moves = 0;
        leaves = 0;
        ups = 0;
        events = [];
      }

  -- `init` on one element, with its `class` attribute: without one `classes.indexOf` fails.
  unfoldable pub init :
      Settings → Option String → j.Node → j.Node → j.Node → Option (Switch × Parts)
  unfolding make
  init d none wrapper div input = none
  init d (some classes) wrapper div input = some (make d wrapper div input, build d classes)

  on-wrap_div :
      (d : Settings) (b : Bool) (n : j.Node)
      → has_class "switch-on" n ≡ false
      → has_class "switch-on" (wrap_div d b n) ≡ b
  unfolding wrap_div same_key
  on-wrap_div d true n h = elim (Bool-cases (is_animated d.animated)) [
    | inl e ↦ rw e (simp j.get-put)
    | inr e ↦ rw e (simp j.get-put)
  ]
  on-wrap_div d false n h = elim (Bool-cases (is_animated d.animated)) [
    | inl e ↦ rw e (simp j.get-put h)
    | inr e ↦ rw e (simp j.get-put h)
  ]

  off-wrap_div :
      (d : Settings) (b : Bool) (n : j.Node)
      → has_class "switch-off" n ≡ false
      → has_class "switch-off" (wrap_div d b n) ≡ not b
  unfolding wrap_div same_key
  off-wrap_div d true n h = elim (Bool-cases (is_animated d.animated)) [
    | inl e ↦ rw e (simp j.get-put h)
    | inr e ↦ rw e (simp j.get-put h)
  ]
  off-wrap_div d false n h = elim (Bool-cases (is_animated d.animated)) [
    | inl e ↦ rw e (simp j.get-put)
    | inr e ↦ rw e (simp j.get-put)
  ]

  -- From a `div` with neither class, whatever the data attributes: the element that `init` makes
  -- shows the state of the check box, and still does after every list of events.
  run-make :
      (d : Settings) (wrapper div input : j.Node) (es : List Event)
      → has_class "switch-on" div ≡ false
      → has_class "switch-off" div ≡ false
      → IsShown (run es (make d wrapper div input))
  unfolding make
  run-make d wrapper div input es on off = run-IsShown es (make d wrapper div input) (record {
    on = on-wrap_div d (state_prop "checked" input) div on;
    off = off-wrap_div d (state_prop "checked" input) div off;
  })

  -- A wrapper that is not deactivated yet: the new switch is active exactly if its check box is not
  -- disabled.
  is_active-make :
      (d : Settings) (wrapper div input : j.Node)
      → has_class "deactivate" wrapper ≡ false
      → is_active (make d wrapper div input) ≡ not (flag_prop "disabled" input)
  unfolding is_active make same_key
  is_active-make d wrapper div input h = ground (
    arith,
    has_class-add_class "deactivate" (add_class "has-switch" wrapper),
    has_class-add_class_ne "deactivate" "has-switch" wrapper refl,
  )

-- What the plugin is called with: nothing, an object, or a name.
pub data Argument : Type 0 where
  nothing object : Argument
  name : String → Argument

pub data Method : Type 0 where
  init_method toggle_activation_method is_active_method set_active_method : Method
  toggle_state_method set_state_method status_method destroy_method : Method

-- `methods[method]`, for the names that the object `methods` has of its own
pub find_method : String → Option Method
find_method m =
    if str_eq m "init"
    then some init_method
    else if str_eq m "toggleActivation"
    then some toggle_activation_method
    else if str_eq m "isActive"
    then some is_active_method
    else if str_eq m "setActive"
    then some set_active_method
    else if str_eq m "toggleState"
    then some toggle_state_method
    else if str_eq m "setState"
    then some set_state_method
    else if str_eq m "status"
    then some status_method
    else if str_eq m "destroy"
    then some destroy_method
    else none

pub data Choice : Type 0 where
  apply : Method → Choice
  fail : String → Choice

-- Names that `Object.prototype` has are left out.
unfoldable pub dispatch : Argument → Choice
unfolding find_method
dispatch nothing = apply init_method
dispatch object = apply init_method
dispatch (name m) = elim (find_method m) [
  | some k ↦ apply k
  | none ↦
      if str_eq m ""
      then apply init_method
      else fail (append "Method " (append m " does not exist!"))
]
