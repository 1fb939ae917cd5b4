-- ===== src/Examples/Picker.antt =====
-- Inputs for the list that stands for a `select`,
-- gatling-rest/static/src/assets/js/bootstrap-select.js.
use dist_gatling.Shared.{
  Option, map, List, [], ◌∷◌, ◌≡◌, refl, Bool, String, true, false, some, none, All, ◌≤◌,
}
use dist_gatling.Shared.Decimal.{decimal}
use dist_gatling.Shared.Int.{pos, ◌+ℤ◌, ◌-ℤ◌, ◌≤ℤ◌}
use dist_gatling.Picker.Size.{
  Geometry, Css, set_max_height, get_size, shown_height, extras, offset_scroll, number,
  first_height, get_size_fits,
}
use dist_gatling.Picker.Setup.{View}
use dist_gatling.Jquery.{attr, str, same_key}
use dist_gatling.Jquery.Simple.{Attributes, blank, simple, write}
use dist_gatling.Picker.Plugin.{find_method, selectpicker, selectpicker_first}
use dist_gatling.Picker.{val, Row, Picker, count_over, render, on_click, row_at}
use dist_gatling.Picker.Show.{IsShown, click, assign, run, picker_run-IsShown, render-IsShown}
use dist_gatling.Picker.Choose.{flags, only, on_click_single}

abbrev option_of : String → Attributes → Row
option_of text n = record {
  text = text;
  title = none;
  group_disabled = false;
  option = n;
  item = blank;
}

abbrev chosen : Attributes
chosen = write (attr "selected") (str "selected") blank

abbrev picker : Bool → Picker
picker multiple = record {
  multiple = multiple;
  title = none;
  none_selected_text = "Nothing selected";
  selected_text_format = count_over (some 1);
  rows = option_of "one" blank ∷ option_of "two" chosen ∷ option_of "three" blank ∷ [];
  filter_option = "";
}

abbrev shown : Bool → Picker
shown multiple = render (picker multiple)

render-title : (shown false).filter_option ≡ "two"
unfolding render same_key
render-title = refl

decimal-305 : decimal 305 ≡ "305"
unfolding decimal
decimal-305 = refl

-- After clicks on the first and the third item of a list with many choices.
on_click-title : (on_click 2 (on_click 0 (shown true))).filter_option ≡ "3 of 3 selected"
unfolding on_click render same_key
on_click-title = refl

picker_run-IsShown_example :
    All IsShown (run (click 0 ∷ assign (λ n. n) ∷ click 2 ∷ []) (shown false)).rows
picker_run-IsShown_example =
    picker_run-IsShown (click 0 ∷ assign (λ n. n) ∷ click 2 ∷ []) (shown false)
      (render-IsShown (picker false))

on_click_single_example : flags (on_click 2 (picker false)).rows ≡ only 2 3
unfolding row_at same_key
on_click_single_example = on_click_single 2 (picker false) (option_of "three" blank) refl refl refl

-- A list in the middle of a window of 900 pixels.
abbrev geometry : Geometry
geometry = record {
  offset_top = 700;
  scroll_top = 100;
  window_height = 900;
  select_height = 40;
  padding = 12;
  margins = 4;
  li_height = 30;
  dropup = false;
}

abbrev plain : Css
plain = record { max_height = none; min_height = 0 }

get_size-height : (get_size geometry plain).max_height ≡ some 242
unfolding get_size set_max_height ◌-ℤ◌
get_size-height = refl

-- Near the lower edge no room is left: the earlier limit stays, and the menu does not fit.
get_size-crowded : (get_size (record geometry { offset_top = 980 }) plain).max_height ≡ none
unfolding get_size set_max_height ◌-ℤ◌
get_size-crowded = refl

-- Items of 500 pixels.
get_size_fits_example :
    let height = shown_height (get_size geometry plain) 500 in
    (90 ≤ height)
    × (geometry.dropup ≡ false
        → offset_scroll geometry +ℤ pos 40 +ℤ pos 90 +ℤ extras geometry ≤ℤ pos 900
        → (offset_scroll geometry +ℤ pos 40 +ℤ pos height +ℤ extras geometry ≤ℤ pos 900)
          × (90 ≤ 300 → height ≤ 300))
    × (geometry.dropup ≡ true
        → pos 90 +ℤ extras geometry ≤ℤ offset_scroll geometry
        → (pos height +ℤ extras geometry ≤ℤ offset_scroll geometry) × (90 ≤ 300 → height ≤ 300))
get_size_fits_example = get_size_fits geometry plain 500

-- Four items, the second with a divider before its link: three links end with the third item.
first_height-number :
    first_height
      (number 3)
      10
      geometry
      ((false ∷ []) ∷ (true ∷ false ∷ []) ∷ (false ∷ []) ∷ (false ∷ []) ∷ [])
    ≡ some 112
unfolding first_height
first_height-number = refl

abbrev classes : List String
classes = "selectpicker" ∷ "wide" ∷ []

abbrev view : View
view = record {
  element = write (attr "disabled") (str "") (write (attr "id") (str "sizes") blank);
  new_element = blank;
  button = blank;
  menu = blank;
  prevented = false;
}

-- Selecting an option, whichever the value is, and no other methods.
abbrev marked : String → Attributes → Attributes
marked v = write (attr "selected") (str "selected")

abbrev no_method : String → Option (List String → Picker → Picker)
no_method name = none

no_method_two : find_method marked no_method "two" ≡ none
unfolding find_method
no_method_two = refl

selectpicker_first_example :
    (selectpicker marked no_method "render" [] (picker true ∷ picker false ∷ [])
      ≡ map render (picker true ∷ picker false ∷ []))
    × (selectpicker marked no_method "val" ("two" ∷ []) (picker true ∷ picker false ∷ [])
        ≡ val (marked "two") (picker true) ∷ picker false ∷ [])
selectpicker_first_example =
    selectpicker_first marked no_method "two" (picker true) (picker false ∷ []) no_method_two
