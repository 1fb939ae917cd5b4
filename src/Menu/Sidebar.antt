-- ===== src/Menu/Sidebar.antt =====
-- The object `lbd` of gatling-rest/static/src/assets/js/gatling.js and what the script does when the
-- page is ready: the sidebar's image, the check of the window's width, and the two functions that
-- build the menu of small screens (here without `debounce`, which is in Menu/Debounce).
pub mod Setup
use Prim.Native.String.{◌++◌ as append}
use dist_gatling.Shared.{
  ℕ, ◌+◌, Bool, true, false, not, String, Option, none, some, List, [], ◌∷◌, ◌++◌, leb, ltb, ◌==◌,
  map, if◌then◌else◌,
}
use dist_gatling.Shared.Int.{ℤ, pos, ◌-ℤ◌}
use dist_gatling.Jquery.{Jquery, add_class, remove_class, on_found}
use dist_gatling.Menu.Toggle.{Variant, right_menu, bootstrap_menu, Page, Layer}

-- `checkSidebarImage`: the element that is appended to the sidebar, if it has an image.
unfoldable pub check_sidebar_image : Option String → Option String
check_sidebar_image none = none
check_sidebar_image (some src) = some (
    append "<div class=\"sidebar-background\" style=\"background-image: url(" (append src ") \"/>"))

-- The loop over the lists of the navigation bar.
concat_html : String → List String → String
concat_html content [] = content
concat_html content (ul ∷ uls) = concat_html (append content ul) uls

pub nav_content : List String → String
unfolding concat_html
nav_content uls = append "<ul class=\"nav nav-mobile-menu\">" (append (concat_html "" uls) "</ul>")

-- `initSidebarCheck`, for a width of the window and the number of sidebars: which of the two
-- debounced functions is called.
unfoldable pub init_sidebar_check : ℕ → ℕ → Option Variant
init_sidebar_check width sidebars =
    if leb width 991 then (if sidebars == 0 then some bootstrap_menu else some right_menu) else none

-- The target of the scroll that a link of `#menuresize` starts, and that of `scrollTo`.
unfoldable pub menuresize_target : ℤ → ℤ
menuresize_target top = top -ℤ pos 100

unfoldable pub scroll_to_target : ℤ → ℤ
scroll_to_target top = top -ℤ pos 350

module _ ⦃j : Jquery⦄ where
  -- `mobile_menu_initialized`, `toggle_initialized` and `bootstrap_nav_initialized`, the lists put
  -- into the sidebar (`.nav-mobile-menu`), the number of its `.navbar-form`, the bars appended to the
  -- body, and what the button's handlers work on.
  pub record Menu : Type 0 where
    pub mobile_menu_initialized : Bool
    pub toggle_initialized : Bool
    pub bootstrap_nav_initialized : Bool
    pub mobile_navs : List String
    pub navbar_forms : ℕ
    pub bars : List String
    pub page : Page

  -- the state when the script starts
  abbrev pub start : Page → Menu
  start p = record {
    mobile_menu_initialized = false;
    toggle_initialized = false;
    bootstrap_nav_initialized = false;
    mobile_navs = [];
    navbar_forms = 0;
    bars = [];
    page = p;
  }

  bind_toggle : Variant → Menu → Menu
  bind_toggle v m = record m { page = record m.page { handlers = m.page.handlers ++ v ∷ [] } }

  -- the first `if` of `initRightMenu`
  unfoldable pub fill_sidebar : ℕ → List String → Menu → Menu
  fill_sidebar width uls m =
      if not m.mobile_menu_initialized
      then record m {
        mobile_navs = nav_content uls ∷ m.mobile_navs;
        mobile_menu_initialized = true;
      }
      else if ltb 991 width
      then record m { navbar_forms = 0; mobile_navs = []; mobile_menu_initialized = false }
      else m

  -- `initRightMenu`, once its wait is over, for the width of the window then and the contents of the
  -- lists of the navigation bar.
  unfoldable pub init_right_menu : ℕ → List String → Menu → Menu
  unfolding fill_sidebar bind_toggle
  init_right_menu width uls m =
      let m1 = fill_sidebar width uls m in
      if not m1.toggle_initialized
      then (let m2 = record m1 {
        page = record m1.page { layer = map (λ l. l.id) m1.page.layers };
      } in
          record (bind_toggle right_menu m2) { toggle_initialized = true })
      else m1

  -- `initBootstrapNavbarMenu`, once its wait is over.
  unfoldable pub init_bootstrap_navbar_menu : List String → Menu → Menu
  unfolding bind_toggle
  init_bootstrap_navbar_menu uls m =
      if not m.bootstrap_nav_initialized
      then record (bind_toggle bootstrap_menu
          (record m { bars = m.bars ++ nav_content uls ∷ [] })) { bootstrap_nav_initialized = true }
      else m

  -- The handlers of 'focus' and 'blur' on a `.form-control`, at its parent if that is an
  -- `.input-group`.
  unfoldable pub on_focus : Option j.Node → Option j.Node
  on_focus = on_found (add_class "input-group-focus")

  unfoldable pub on_blur : Option j.Node → Option j.Node
  on_blur = on_found (remove_class "input-group-focus")
