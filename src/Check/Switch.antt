-- ===== src/Check/Switch.antt =====
-- The plugin `$.fn.bootstrapSwitch` of
-- gatling-rest/static/src/assets/js/bootstrap-checkbox-radio-switch.js: a check box inside a sliding
-- element with a left part, a label and a right part.
pub mod Markup
pub mod Slide
pub mod Drag
use dist_gatling.Shared.{
  ◌≡◌, ℕ, suc, zero, ◌+◌, ◌*◌, Bool, true, false, not, String, Option, none, some, List, [], ◌∷◌,
  ◌++◌, if◌then◌else◌, str_eq, ltb, ◌==◌,
}
use dist_gatling.Shared.Int.{ℤ, pos, negsuc, ◌-ℤ◌, leb_ℤ}
use dist_gatling.Jquery.{
  Jquery, Value, undefined, bool, num, slot, css, add_class, remove_class, toggle_class, has_class,
  set_prop, state_prop,
}

module _ ⦃j : Jquery⦄ where
  -- The wrapper (`.has-switch`), the sliding `div` in it, the check box, the shift of the `div` in
  -- hundredths of a percent of the wrapper's width if one is set, the variable `moving`, the handlers
  -- that are bound to the label, and the events triggered for the page.
  pub record Switch : Type 0 where
    pub wrapper : j.Node
    pub div : j.Node
    pub input : j.Node
    pub left : Option ℤ
    pub moving : Bool
    pub clicks : ℕ
    pub moves : ℕ
    pub leaves : ℕ
    pub ups : ℕ
    pub events : List Bool

  -- `is(':checked')`
  abbrev pub is_checked : Switch → Bool
  is_checked s = state_prop "checked" s.input

  abbrev pub is_deactivated : Switch → Bool
  is_deactivated s = has_class "deactivate" s.wrapper

  -- `data('animated') !== false`
  abbrev pub is_animated : Value → Bool
  is_animated (bool b) = b
  is_animated _ = true

  abbrev pub flip_classes : Bool → j.Node → j.Node
  flip_classes on n =
      if on
      then add_class "switch-on" (remove_class "switch-off" n)
      else add_class "switch-off" (remove_class "switch-on" n)

  abbrev pub equals : Bool → Bool → Bool
  equals a b = if a then b else not b

  -- the handler of 'change' on the check box
  unfoldable pub on_change : Switch → Switch
  on_change s =
      let this_state = is_checked s in
      let state = has_class "switch-off" s.div in
      let s1 = record s { left = none } in
      if equals state this_state
      then (let d = flip_classes this_state s1.div in
          record s1 {
            div =
                if is_animated (j.get (slot "animated") d) then add_class "switch-animate" d else d;
            events = s1.events ++ this_state ∷ [];
          })
      else s1

  -- the handler of 'mousedown touchstart' on the label
  unfoldable pub on_mousedown : Switch → Switch
  on_mousedown s =
      let s1 = record s { moving = false; div = remove_class "switch-animate" s.div } in
      if is_deactivated s1 then record s1 { clicks = 0 } else record s1 {
        moves = suc s1.moves;
        clicks = suc s1.clicks;
        leaves = suc s1.leaves;
        ups = suc s1.ups;
      }

  -- the two bounds of the drag, in hundredths of a percent, and the share of the width at which the
  -- pointer stands
  abbrev pub leftmost : ℤ
  leftmost = pos 2500

  abbrev pub rightmost : ℤ
  rightmost = pos 7500

  unfoldable pub clamp_percent : ℤ → ℤ
  clamp_percent percent =
      if not (leb_ℤ leftmost percent)
      then leftmost
      else if not (leb_ℤ percent rightmost)
      then rightmost
      else percent

  -- 'mousemove touchmove' on the label, if its handler is bound
  unfoldable pub on_mousemove : ℤ → Switch → Switch
  unfolding clamp_percent
  on_mousemove percent s =
      if s.moves == 0
      then s
      else record s { moving = true; left = some (clamp_percent percent -ℤ rightmost) }

  -- `!(parseInt($this.parent().css('left')) < -25)`, with the computed `left` in pixels
  abbrev pub is_right_of : ℤ → Bool
  is_right_of px = leb_ℤ (negsuc 24) px

  -- 'click touchend' on the label: the first handler that is bound stops the others.
  unfoldable pub on_click : ℤ → Switch → Switch
  unfolding on_change
  on_click px s =
      if s.clicks == 0
      then s
      else (let value = if s.moving then is_right_of px else not (is_checked s) in
          on_change
            (record s { leaves = 0; moving = false; input = set_prop "checked" value s.input }))

  -- 'mouseup' on the label, if its handler is bound
  unfoldable pub on_mouseup : Switch → Switch
  on_mouseup s = if s.ups == 0 then s else record s { moves = 0 }

  -- 'mouseleave' on the label, if its handler is bound
  unfoldable pub on_mouseleave : ℤ → Switch → Switch
  unfolding on_change on_mouseup
  on_mouseleave px s =
      if s.leaves == 0
      then s
      else (let s1 = on_mouseup (record s { leaves = 0 }) in
          on_change (record s1 { input = set_prop "checked" (is_right_of px) s1.input }))

  -- `changeStatus`: a press, a release and a click on the label
  unfoldable pub change_status : ℤ → Switch → Switch
  unfolding on_mousedown on_mouseup on_click
  change_status px s = on_click px (on_mouseup (on_mousedown s))

  -- 'keydown' on the wrapper
  unfoldable pub on_keydown : ℕ → ℤ → Switch → Switch
  unfolding change_status
  on_keydown key_code px s = if key_code == 32 then change_status px s else s

  -- the public methods
  unfoldable pub toggle_activation : Switch → Switch
  toggle_activation s = record s { wrapper = toggle_class "deactivate" s.wrapper }

  unfoldable pub is_active : Switch → Bool
  is_active s = not (has_class "deactivate" s.wrapper)

  unfoldable pub set_active : Bool → Switch → Switch
  set_active active s = record s {
    wrapper =
        if active then remove_class "deactivate" s.wrapper else add_class "deactivate" s.wrapper;
  }

  unfoldable pub toggle_state : Switch → Switch
  unfolding on_change
  toggle_state s = on_change (record s { input = set_prop "checked" (not (is_checked s)) s.input })

  unfoldable pub set_state : Bool → Switch → Switch
  unfolding on_change
  set_state value s = on_change (record s { input = set_prop "checked" value s.input })

  unfoldable pub status : Switch → Bool
  status s = is_checked s
