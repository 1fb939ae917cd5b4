-- ===== src/Menu/Toggle.antt =====
-- The click handlers that `lbd.initRightMenu` and `lbd.initBootstrapNavbarMenu` of
-- gatling-rest/static/src/assets/js/gatling.js bind to the menu's button, with the layer over the
-- page and the deferred changes. Variables that the script does not declare are globals, so what is
-- deferred reads `$layer` and `$toggle` when it runs.
pub mod Visible
use dist_gatling.Shared.{
  ℕ, suc, ◌+◌, Bool, true, false, not, List, [], ◌∷◌, ◌++◌, leb, any, ◌==◌, map, if◌then◌else◌,
}
use dist_gatling.Jquery.{Jquery, add_class, remove_class}

-- Which of the two functions has bound a handler.
pub data Variant : Type 0 where
  right_menu bootstrap_menu : Variant

-- What a `setTimeout` of these handlers does.
pub data Task : Type 0 where
  add_toggled remove_toggled remove_layers show_layer : Task
  remove_layers_and_toggled remove_layer_and_toggled : Task

-- The browser's timers, in the order in which they are due; of two that are due at once the older
-- one comes first.
insert_timer : ℕ → Task → List (ℕ × Task) → List (ℕ × Task)
insert_timer due task [] = (due, task) ∷ []
insert_timer due task ((d, t) ∷ ts) =
    let rest = insert_timer due task ts in
    if leb d due then (d, t) ∷ rest else (due, task) ∷ (d, t) ∷ ts

module _ ⦃j : Jquery⦄ where
  -- a `.close-layer` of the page: a number, the handler of its clicks if one is bound, the element
  pub record Layer : Type 0 where
    pub id : ℕ
    pub handlers : List Variant
    pub node : j.Node

  -- The element `html`, the button, the layers on the page, the numbers of those in `$layer`, the next number,
  -- the deferred changes with their times, `mobile_menu_visible`, and the handlers of the button.
  pub record Page : Type 0 where
    pub html : j.Node
    pub toggle : j.Node
    pub layers : List Layer
    pub layer : List ℕ
    pub next_layer : ℕ
    pub timers : List (ℕ × Task)
    pub visible : ℕ
    pub handlers : List Variant

  -- The layers in `$layer` are changed, or removed.
  on_layer : List ℕ → (j.Node → j.Node) → List Layer → List Layer
  on_layer is f ls =
      map (λ l. if any (λ i. i == l.id) is then record l { node = f l.node } else l) ls

  remove_layer : List ℕ → List Layer → List Layer
  remove_layer is [] = []
  remove_layer is (l ∷ ls) =
      let rest = remove_layer is ls in if any (λ i. i == l.id) is then rest else l ∷ rest

  abbrev defer : ℕ → Task → Page → Page
  defer due task p = record p { timers = insert_timer due task p.timers }

  -- the deferred changes
  unfoldable pub perform : Task → Page → Page
  unfolding on_layer remove_layer
  perform add_toggled p = record p { toggle = add_class "toggled" p.toggle }
  perform remove_toggled p = record p { toggle = remove_class "toggled" p.toggle }
  perform remove_layers p = record p { layers = [] }
  perform show_layer p = record p { layers = on_layer p.layer (add_class "visible") p.layers }
  perform remove_layers_and_toggled p = record p {
    layers = [];
    toggle = remove_class "toggled" p.toggle;
  }
  perform remove_layer_and_toggled p = record p {
    layers = remove_layer p.layer p.layers;
    toggle = remove_class "toggled" p.toggle;
  }

  -- The branch `mobile_menu_visible == 1` of the button's handler.
  unfoldable pub close_menu : Variant → ℕ → Page → Page
  unfolding on_layer insert_timer
  close_menu right_menu now p =
      let p1 = record p {
        html = remove_class "nav-open" p.html;
        layers = on_layer p.layer (remove_class "visible") p.layers;
      } in
      let p2 = defer (now + 400) remove_toggled p1 in
      let p3 = defer (now + 100) remove_layers p2 in record p3 { visible = 0 }
  close_menu bootstrap_menu now p =
      let p1 = record p { html = remove_class "nav-open" p.html; layers = [] } in
      let p2 = defer (now + 400) remove_toggled p1 in record p2 { visible = 0 }

  abbrev bind : Variant → Layer → Layer
  bind v l = record l { handlers = l.handlers ++ v ∷ [] }

  -- A new layer, on the page and in `$layer`: the first function binds its handler to every layer of
  -- the page, the second to the new one alone.
  unfoldable pub append_layer : Variant → j.Node → Page → Page
  append_layer right_menu n p = record p {
    layers =
        map (bind right_menu)
          (p.layers ++ record { id = p.next_layer; handlers = []; node = n } ∷ []);
    layer = p.next_layer ∷ [];
    next_layer = suc p.next_layer;
  }
  append_layer bootstrap_menu n p = record p {
    layers =
        p.layers ++ record { id = p.next_layer; handlers = bootstrap_menu ∷ []; node = n } ∷ [];
    layer = p.next_layer ∷ [];
    next_layer = suc p.next_layer;
  }

  -- The other branch, with the element that `$('<div class="close-layer"/>')` makes.
  unfoldable pub open_menu : Variant → j.Node → ℕ → Page → Page
  unfolding append_layer insert_timer
  open_menu v n now p =
      let p1 = defer (now + 430) add_toggled p in
      let p2 = append_layer v n p1 in
      let p3 = defer (now + 100) show_layer p2 in
      record p3 { html = add_class "nav-open" p3.html; visible = 1 }

  -- one handler of the button
  unfoldable pub on_toggle : j.Node → ℕ → Variant → Page → Page
  unfolding close_menu open_menu
  on_toggle n now v p = if p.visible == 1 then close_menu v now p else open_menu v n now p

  -- A click on the button runs its handlers in the order in which they were bound.
  pub run_handlers : j.Node → ℕ → List Variant → Page → Page
  unfolding on_toggle
  run_handlers n now [] p = p
  run_handlers n now (v ∷ vs) p = run_handlers n now vs (on_toggle n now v p)

  unfoldable pub click_toggle : j.Node → ℕ → Page → Page
  unfolding run_handlers
  click_toggle n now p = run_handlers n now p.handlers p

  -- one handler of a layer
  unfoldable pub on_close_layer : ℕ → Variant → Page → Page
  unfolding on_layer insert_timer
  on_close_layer now right_menu p =
      let p1 = record p {
        html = remove_class "nav-open" p.html;
        layers = on_layer p.layer (remove_class "visible") p.layers;
      } in
      let p2 = defer (now + 370) remove_layers_and_toggled p1 in record p2 { visible = 0 }
  on_close_layer now bootstrap_menu p =
      let p1 = record p {
        html = remove_class "nav-open" p.html;
        visible = 0;
        layers = on_layer p.layer (remove_class "visible") p.layers;
      } in
      defer (now + 400) remove_layer_and_toggled p1

  pub run_layer_handlers : ℕ → List Variant → Page → Page
  unfolding on_close_layer
  run_layer_handlers now [] p = p
  run_layer_handlers now (v ∷ vs) p = run_layer_handlers now vs (on_close_layer now v p)

  handlers_of : ℕ → List Layer → List Variant
  handlers_of i [] = []
  handlers_of i (l ∷ ls) = let rest = handlers_of i ls in if l.id == i then l.handlers else rest

  -- A click on the layer with a number; one that is gone has no handlers.
  unfoldable pub click_layer : ℕ → ℕ → Page → Page
  unfolding run_layer_handlers handlers_of
  click_layer i now p = run_layer_handlers now (handlers_of i p.layers) p

  -- The next timer that is due expires.
  unfoldable pub fire : Page → Page
  unfolding perform
  fire p = elim p.timers [ [] ↦ p | (due, task) ∷ rest ↦ perform task (record p { timers = rest }) ]
