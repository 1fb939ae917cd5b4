-- ===== src/Examples/Check.antt =====
-- Inputs for the check boxes, radio buttons and switches,
-- gatling-rest/static/src/assets/js/bootstrap-checkbox-radio-switch.js.
use dist_gatling.Shared.{◌≡◌, refl, true, false, none, some, List, [], ◌∷◌, All}
use dist_gatling.Shared.Int.{pos, negsuc}
use dist_gatling.Jquery.{bool, str, attr, prop, class, same_key, add_class, on_found, undefined}
use dist_gatling.Jquery.Simple.{Attributes, simple, blank, write}
use dist_gatling.Check.Widget.{Widget, is_checked, nothing}
use dist_gatling.Check.Checkbox
use dist_gatling.Check.Radio
use dist_gatling.Check.Radio.Choice.{toggle_chooses}
use dist_gatling.Check.Checkbox.Step.{IsLive, plugin_nothing-IsLive}
use dist_gatling.Check.Switch
use dist_gatling.Check.Switch.Slide.{
  IsShown, Event, press, move, click, leave, key, set, run, run-IsShown,
}
use dist_gatling.Check.Switch.Drag.{IsWithin, run-IsWithin}
use dist_gatling.Check.Switch.Markup.{Settings, make}

-- an enabled, unchecked box in a label
abbrev box : Widget ⦃j = simple⦄
box = record { element = blank; parent = some blank; before = []; events = [] }

abbrev fresh_slot : Checkbox.Slot ⦃j = simple⦄
fresh_slot = record { built = false; attribute = none; widget = box }

abbrev live_slot : Checkbox.Slot ⦃j = simple⦄
live_slot = Checkbox.plugin ⦃j = simple⦄ nothing fresh_slot

built-IsLive : (live_slot.built ≡ true) × IsLive live_slot.widget
built-IsLive = plugin_nothing-IsLive ⦃j = simple⦄ fresh_slot refl refl refl refl refl

-- a button, two more of its group, the second of them disabled and checked, and one in another form
abbrev marked : Attributes
marked = write (class "checked") (bool true) blank

abbrev buttons : Radio.Group ⦃j = simple⦄
buttons = record {
  self = box;
  others =
      record {
        element = write (attr "checked") (str "checked") blank;
        parent = some marked;
        before = [];
        events = [];
      }
      ∷ record {
        element =
            write (attr "disabled") (str "disabled") (write (prop "checked") (bool true) blank);
        parent = some marked;
        before = [];
        events = [];
      }
      ∷ [];
  elsewhere =
      record {
        element =
            write (attr "disabled") (str "disabled") (write (prop "checked") (bool true) blank);
        parent = some marked;
        before = [];
        events = [];
      }
      ∷ [];
}

-- The disabled button in another form stays checked.
toggle-elsewhere : All (λ w. is_checked w ≡ true) (Radio.toggle buttons).elsewhere
unfolding Radio.toggle Radio.each_other Radio.check_self Radio.clear_enabled same_key
toggle-elsewhere = (refl, tt)

toggle_chooses_example :
    (is_checked (Radio.toggle buttons).self ≡ true)
    × ((Radio.toggle buttons).self.parent
        ≡ on_found (add_class ⦃j = simple⦄ "checked") (some blank))
    × ((Radio.toggle buttons).self.events ≡ "toggle" ∷ "change" ∷ [])
    × All (λ w. is_checked w ≡ false) (Radio.toggle buttons).others
toggle_chooses_example = toggle_chooses ⦃j = simple⦄ buttons refl refl

-- a switch whose box is checked
abbrev no_settings : Settings
no_settings = record {
  on = none;
  off = none;
  on_label = none;
  off_label = none;
  icon = none;
  animated = undefined;
}

abbrev checked_input : Attributes
checked_input = write (attr "checked") (str "checked") blank

abbrev slider : Switch.Switch ⦃j = simple⦄
slider = make ⦃j = simple⦄ no_settings blank blank checked_input

abbrev gestures : List Event
gestures =
    press
    ∷ move (negsuc 900)
    ∷ click (negsuc 39)
    ∷ key 32 (pos 0)
    ∷ press
    ∷ leave (pos 0)
    ∷ set false
    ∷ []

slider-IsShown : IsShown ⦃j = simple⦄ slider
unfolding make same_key
slider-IsShown = record { on = refl; off = refl }

run-IsShown_example : IsShown ⦃j = simple⦄ (run gestures slider)
run-IsShown_example = run-IsShown ⦃j = simple⦄ gestures slider slider-IsShown

run-IsWithin_example : IsWithin ⦃j = simple⦄ (run ⦃j = simple⦄ gestures slider).left
unfolding make
run-IsWithin_example = run-IsWithin ⦃j = simple⦄ gestures slider tt
