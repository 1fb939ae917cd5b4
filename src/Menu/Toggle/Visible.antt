-- ===== src/Menu/Toggle/Visible.antt =====
-- The class `nav-open` and the variable `mobile_menu_visible`.
use dist_gatling.Shared.{ℕ, ◌+◌, ◌≡◌, ◌≤◌, List, [], ◌∷◌, ◌==◌, arith, ◌-◌, ◌%◌, length, ◌∙◌}
use dist_gatling.Jquery.{Jquery, has_class}
use dist_gatling.Jquery.Laws.{has_class-add_class, has_class-remove_class}
use dist_gatling.Menu.Toggle.{
  Variant, right_menu, bootstrap_menu, Task, Page, perform, on_toggle, run_handlers, click_toggle,
  on_close_layer, run_layer_handlers, click_layer, fire, handlers_of,
}

-- What a page and its user do: a click on the button, with the element that a new layer would be and
-- the time, a click on the layer with a number, and a timer that expires.
pub data Event (Node : Type 0) : Type 0 where
  click : Node → ℕ → Event Node
  dismiss : ℕ → ℕ → Event Node
  expire : Event Node

module _ ⦃j : Jquery⦄ where
  -- `html` has the class `nav-open` exactly while `mobile_menu_visible` is 1, and it is 0 or 1.
  pub record IsAgreed (p : Page) : Type 0 where
    pub shown : has_class "nav-open" p.html ≡ (p.visible == 1)
    pub small : p.visible ≤ 1

  on_toggle-IsAgreed :
      (n : j.Node) (now : ℕ) (v : Variant) (p : Page) → IsAgreed p → IsAgreed (on_toggle n now v p)
  unfolding on_toggle
  on_toggle-IsAgreed n now right_menu p h =
      ground
        (arith, has_class-add_class "nav-open" p.html, has_class-remove_class "nav-open" p.html)
  on_toggle-IsAgreed n now bootstrap_menu p h =
      ground
        (arith, has_class-add_class "nav-open" p.html, has_class-remove_class "nav-open" p.html)

  on_close_layer-IsAgreed :
      (now : ℕ) (v : Variant) (p : Page) → IsAgreed p → IsAgreed (on_close_layer now v p)
  unfolding on_close_layer
  on_close_layer-IsAgreed now right_menu p h =
      ground (arith, has_class-remove_class "nav-open" p.html)
  on_close_layer-IsAgreed now bootstrap_menu p h =
      ground (arith, has_class-remove_class "nav-open" p.html)

  run_handlers-IsAgreed :
      (n : j.Node) (now : ℕ) (vs : List Variant) (p : Page)
      → IsAgreed p
      → IsAgreed (run_handlers n now vs p)
  unfolding run_handlers
  run_handlers-IsAgreed n now [] p h = h
  run_handlers-IsAgreed n now (v ∷ vs) p h =
      run_handlers-IsAgreed n now vs (on_toggle n now v p) (on_toggle-IsAgreed n now v p h)

  run_layer_handlers-IsAgreed :
      (now : ℕ) (vs : List Variant) (p : Page) → IsAgreed p → IsAgreed (run_layer_handlers now vs p)
  unfolding run_layer_handlers
  run_layer_handlers-IsAgreed now [] p h = h
  run_layer_handlers-IsAgreed now (v ∷ vs) p h =
      run_layer_handlers-IsAgreed now vs (on_close_layer now v p)
        (on_close_layer-IsAgreed now v p h)

  perform-IsAgreed : (t : Task) (p : Page) → IsAgreed p → IsAgreed (perform t p)
  unfolding perform
  perform-IsAgreed t p h = ground arith

  fire-IsAgreed : (p : Page) → IsAgreed p → IsAgreed (fire p)
  unfolding fire
  fire-IsAgreed p h = on_timers p.timers
    where
      on_timers : (ts : List (ℕ × Task)) → IsAgreed (fire (record p { timers = ts }))
      on_timers [] = record { shown = h.shown; small = h.small }
      on_timers ((due, t) ∷ ts) =
          perform-IsAgreed t (record p { timers = ts })
            (record { shown = h.shown; small = h.small })

  pub handle : Event j.Node → Page → Page
  handle (click n now) p = click_toggle n now p
  handle (dismiss i now) p = click_layer i now p
  handle expire p = fire p

  pub run : List (Event j.Node) → Page → Page
  run [] p = p
  run (e ∷ es) p = run es (handle e p)

  handle-IsAgreed : (e : Event j.Node) (p : Page) → IsAgreed p → IsAgreed (handle e p)
  unfolding handle click_toggle click_layer
  handle-IsAgreed (click n now) p h = run_handlers-IsAgreed n now p.handlers p h
  handle-IsAgreed (dismiss i now) p h = run_layer_handlers-IsAgreed now (handlers_of i p.layers) p h
  handle-IsAgreed expire p h = fire-IsAgreed p h

  -- After every list of clicks on the button and on layers and of timers that expire, whatever
  -- handlers are bound: `html` has the class `nav-open` exactly while `mobile_menu_visible` is 1, and
  -- that is 0 or 1, if it was so at first.
  pub run-IsAgreed : (es : List (Event j.Node)) (p : Page) → IsAgreed p → IsAgreed (run es p)
  unfolding run
  run-IsAgreed [] p h = h
  run-IsAgreed (e ∷ es) p h = run-IsAgreed es (handle e p) (handle-IsAgreed e p h)

  visible-on_toggle :
      (n : j.Node) (now : ℕ) (v : Variant) (p : Page)
      → p.visible ≤ 1
      → (on_toggle n now v p).visible ≡ 1 - p.visible
  unfolding on_toggle
  visible-on_toggle n now right_menu p h = ground arith
  visible-on_toggle n now bootstrap_menu p h = ground arith

  visible-run_handlers :
      (n : j.Node) (now : ℕ) (vs : List Variant) (p : Page)
      → p.visible ≤ 1
      → (run_handlers n now vs p).visible ≡ (p.visible + length vs) % 2
  unfolding run_handlers
  visible-run_handlers n now [] p h = omega arith
  visible-run_handlers n now (v ∷ vs) p h =
      let e = visible-on_toggle n now v p h in
      visible-run_handlers n now vs (on_toggle n now v p) (omega (arith, e)) ∙ omega (arith, e)

  -- One click on the button flips the menu as often as handlers are bound to it: with one handler it
  -- opens a closed menu and closes an open one, and once both functions have bound theirs a click
  -- changes nothing that the user sees.
  visible-click_toggle :
      (n : j.Node) (now : ℕ) (p : Page)
      → p.visible ≤ 1
      → (click_toggle n now p).visible ≡ (p.visible + length p.handlers) % 2
  unfolding click_toggle
  visible-click_toggle n now p h = visible-run_handlers n now p.handlers p h
