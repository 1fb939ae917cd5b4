-- ===== src/Check/Switch/Slide.antt =====
-- The sliding element shows the state of the check box.
use dist_gatling.Shared.{
  ◌≡◌, refl, ℕ, Bool, true, false, not, none, List, [], ◌∷◌, arith, sym, subst, if◌then◌else◌,
}
use dist_gatling.Shared.Int.{ℤ, pos}
use dist_gatling.Jquery.{Jquery, same_key, has_class, set_prop, class, bool}
use dist_gatling.Jquery.Laws.{has_class-add_class_ne, get-put_ne}
use dist_gatling.Check.Switch.{
  Switch, is_checked, flip_classes, on_change, on_mousedown, on_mousemove, on_click, on_mouseup,
  on_mouseleave, change_status, on_keydown, toggle_activation, set_active, toggle_state, set_state,
  is_right_of,
}

-- What a page and its user do to a switch.
pub data Event : Type 0 where
  press release : Event
  move click leave : ℤ → Event
  key : ℕ → ℤ → Event
  change toggle flip_activation : Event
  set activate : Bool → Event

module _ ⦃j : Jquery⦄ where
  -- Exactly one of the two classes is set.
  abbrev pub IsConsistent : Switch → Type 0
  IsConsistent s = has_class "switch-on" s.div ≡ not (has_class "switch-off" s.div)

  -- The element shows the state of the check box.
  pub record IsShown (s : Switch) : Type 0 where
    pub on : has_class "switch-on" s.div ≡ is_checked s
    pub off : has_class "switch-off" s.div ≡ not (is_checked s)

  on-flip_classes : (b : Bool) (n : j.Node) → has_class "switch-on" (flip_classes b n) ≡ b
  unfolding same_key
  on-flip_classes true n = simp j.get-put
  on-flip_classes false n = simp j.get-put

  off-flip_classes : (b : Bool) (n : j.Node) → has_class "switch-off" (flip_classes b n) ≡ not b
  unfolding same_key
  off-flip_classes true n = simp j.get-put
  off-flip_classes false n = simp j.get-put

  -- From any consistent element, `change` leaves one that shows the state, and no shift.
  on_change-IsShown : (s : Switch) → IsConsistent s → IsShown (on_change s)
  unfolding on_change
  on_change-IsShown s h = ground (
    arith,
    on-flip_classes (is_checked s) s.div,
    off-flip_classes (is_checked s) s.div,
    has_class-add_class_ne "switch-on" "switch-animate" (flip_classes (is_checked s) s.div) refl,
    has_class-add_class_ne "switch-off" "switch-animate" (flip_classes (is_checked s) s.div) refl,
  )

  pub input-on_change : (s : Switch) → (on_change s).input ≡ s.input
  unfolding on_change
  input-on_change s = ground arith

  pub left-on_change : (s : Switch) → (on_change s).left ≡ none
  unfolding on_change
  left-on_change s = ground arith

  unfoldable pub handle : Event → Switch → Switch
  handle press = on_mousedown
  handle release = on_mouseup
  handle (move percent) = on_mousemove percent
  handle (click px) = on_click px
  handle (leave px) = on_mouseleave px
  handle (key code px) = on_keydown code px
  handle change = on_change
  handle toggle = toggle_state
  handle flip_activation = toggle_activation
  handle (set b) = set_state b
  handle (activate b) = set_active b

  unfoldable pub run : List Event → Switch → Switch
  run [] s = s
  run (e ∷ es) s = run es (handle e s)

  consistent : (s : Switch) → IsShown s → IsConsistent s
  consistent s h = ground arith

  -- A change of the input and of anything but the element's classes, followed by `change`.
  change_to-IsShown : (s s' : Switch) → IsShown s → s'.div ≡ s.div → IsShown (on_change s')
  change_to-IsShown s s' h e = on_change-IsShown s' (
      subst (λ d. has_class "switch-on" d ≡ not (has_class "switch-off" d)) (sym e)
        (consistent s h))

  on_mousedown-IsShown : (s : Switch) → IsShown s → IsShown (on_mousedown s)
  unfolding on_mousedown same_key
  on_mousedown-IsShown s h = ground (
    arith,
    get-put_ne (class "switch-on") (class "switch-animate") (bool false) s.div refl,
    get-put_ne (class "switch-off") (class "switch-animate") (bool false) s.div refl,
  )

  on_mouseup-IsShown : (s : Switch) → IsShown s → IsShown (on_mouseup s)
  unfolding on_mouseup
  on_mouseup-IsShown s h = ground arith

  div-on_mouseup : (s : Switch) → (on_mouseup s).div ≡ s.div
  unfolding on_mouseup
  div-on_mouseup s = ground arith

  on_click-IsShown : (px : ℤ) (s : Switch) → IsShown s → IsShown (on_click px s)
  unfolding on_click
  on_click-IsShown px s h = ground (
    arith,
    change_to-IsShown s
        (record s {
          leaves = 0;
          moving = false;
          input =
              set_prop "checked" (if s.moving then is_right_of px else not (is_checked s)) s.input;
        })
        h refl,
  )

  on_mouseleave-IsShown : (px : ℤ) (s : Switch) → IsShown s → IsShown (on_mouseleave px s)
  unfolding on_mouseleave
  on_mouseleave-IsShown px s h =
      let s1 = on_mouseup (record s { leaves = 0 }) in
      ground (
        arith,
        change_to-IsShown s (record s1 { input = set_prop "checked" (is_right_of px) s1.input }) h
            (div-on_mouseup (record s { leaves = 0 })),
      )

  change_status-IsShown : (px : ℤ) (s : Switch) → IsShown s → IsShown (change_status px s)
  unfolding change_status
  change_status-IsShown px s h =
      on_click-IsShown px (on_mouseup (on_mousedown s))
        (on_mouseup-IsShown (on_mousedown s) (on_mousedown-IsShown s h))

  on_keydown-IsShown : (k : ℕ) (px : ℤ) (s : Switch) → IsShown s → IsShown (on_keydown k px s)
  unfolding on_keydown
  on_keydown-IsShown k px s h = ground (arith, change_status-IsShown px s h)

  set_state-IsShown : (b : Bool) (s : Switch) → IsShown s → IsShown (set_state b s)
  unfolding set_state
  set_state-IsShown b s h =
      change_to-IsShown s (record s { input = set_prop "checked" b s.input }) h refl

  toggle_state-IsShown : (s : Switch) → IsShown s → IsShown (toggle_state s)
  unfolding toggle_state
  toggle_state-IsShown s h =
      change_to-IsShown s (record s { input = set_prop "checked" (not (is_checked s)) s.input }) h
        refl

  -- These write to neither the element nor the check box.
  quiet_events-IsShown :
      (percent : ℤ) (b : Bool) (s : Switch)
      → IsShown s
      → IsShown (on_mousemove percent s) × IsShown (set_active b s) × IsShown (toggle_activation s)
  unfolding on_mousemove set_active toggle_activation
  quiet_events-IsShown percent b s h = (ground arith, ground arith, ground arith)

  handle-IsShown : (e : Event) (s : Switch) → IsShown s → IsShown (handle e s)
  unfolding handle
  handle-IsShown press s h = on_mousedown-IsShown s h
  handle-IsShown release s h = on_mouseup-IsShown s h
  handle-IsShown (move percent) s h = (quiet_events-IsShown percent true s h).0
  handle-IsShown (click px) s h = on_click-IsShown px s h
  handle-IsShown (leave px) s h = on_mouseleave-IsShown px s h
  handle-IsShown (key code px) s h = on_keydown-IsShown code px s h
  handle-IsShown change s h = on_change-IsShown s (consistent s h)
  handle-IsShown toggle s h = toggle_state-IsShown s h
  handle-IsShown flip_activation s h = (quiet_events-IsShown (pos 0) true s h).2
  handle-IsShown (set b) s h = set_state-IsShown b s h
  handle-IsShown (activate b) s h = (quiet_events-IsShown (pos 0) b s h).1

  -- However a switch is pressed, dragged, clicked, left, operated by key or by its methods: if the
  -- element shows the state of the check box at first, it does so after every list of such events.
  pub run-IsShown : (es : List Event) (s : Switch) → IsShown s → IsShown (run es s)
  unfolding run
  run-IsShown [] s h = h
  run-IsShown (e ∷ es) s h = run-IsShown es (handle e s) (handle-IsShown e s h)
