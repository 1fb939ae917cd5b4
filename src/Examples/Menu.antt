-- ===== src/Examples/Menu.antt =====
-- Inputs for the menu script, gatling-rest/static/src/assets/js/gatling.js.
use dist_gatling.Shared.{ℕ, ◌≡◌, refl, true, false, List, [], ◌∷◌, arith}
use dist_gatling.Jquery.Simple.{Attributes, blank, simple}
use dist_gatling.Menu.Debounce.{run}
use dist_gatling.Menu.Debounce.Quiet.{quiet_calls, run-quiet_calls}
use dist_gatling.Menu.Toggle.{Page, right_menu, bootstrap_menu}
use dist_gatling.Menu.Toggle.Visible.{
  IsAgreed, Event, click, dismiss, expire, run as run_events, run-IsAgreed,
}
use dist_gatling.Menu.Sidebar.{Menu, start}
use dist_gatling.Menu.Sidebar.Setup.{
  Resize, IsSetUpOnce, resizes as after_resizes, resizes-start-IsSetUpOnce,
}

-- three resizes in a burst, and one later, with the wait of `initRightMenu`
abbrev resizes : List (ℕ × ℕ)
resizes = (0, 1) ∷ (100, 2) ∷ (250, 3) ∷ (900, 4) ∷ []

resizes-run : run 200 false resizes 1100 ≡ (450, 3) ∷ (1100, 4) ∷ []
unfolding run
resizes-run = refl

run-quiet_calls_example : run 200 false resizes 1100 ≡ quiet_calls 200 resizes
run-quiet_calls_example = run-quiet_calls 200 1100 resizes (omega arith)

-- a page of plain elements on which both functions have bound a handler
abbrev page : Page
page = record {
  html = blank;
  toggle = blank;
  layers = [];
  layer = [];
  next_layer = 0;
  timers = [];
  visible = 0;
  handlers = right_menu ∷ bootstrap_menu ∷ [];
}

one_handler : IsAgreed page
one_handler = record { shown = refl; small = omega arith }

abbrev events : List (Event Attributes)
events = click blank 0 ∷ expire ∷ dismiss 0 200 ∷ expire ∷ click blank 900 ∷ []

run-IsAgreed_example : IsAgreed (run_events events page)
run-IsAgreed_example = run-IsAgreed events page one_handler

abbrev fresh : Page
fresh = record page { handlers = [] }

abbrev window_sizes : List Resize
window_sizes =
    record { width = 800; later_width = 800; sidebars = 1; uls = "<li>a</li>" ∷ [] }
    ∷ record { width = 1200; later_width = 1200; sidebars = 1; uls = "<li>a</li>" ∷ [] }
    ∷ record { width = 600; later_width = 610; sidebars = 0; uls = [] }
    ∷ []

resizes-start-IsSetUpOnce_example : IsSetUpOnce (after_resizes window_sizes (start fresh))
resizes-start-IsSetUpOnce_example = resizes-start-IsSetUpOnce window_sizes fresh refl

abbrev filled : Menu
filled = record (start fresh) { mobile_navs = "<ul></ul>" ∷ []; mobile_menu_initialized = true }
