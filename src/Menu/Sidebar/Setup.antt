-- ===== src/Menu/Sidebar/Setup.antt =====
-- The menu of small screens is set up once.
use dist_gatling.Shared.{
  ℕ, suc, ◌+◌, ◌≡◌, ◌≤◌, refl, Bool, true, false, not, String, none, some, List, [], ◌∷◌, ◌++◌,
  length, arith, if◌then◌else◌, length-append, ap, ◌∙◌, All,
}
use dist_gatling.Jquery.{Jquery}
use dist_gatling.Menu.Toggle.{Variant, right_menu, bootstrap_menu, Page}
use dist_gatling.Menu.Sidebar.{
  Menu, start, init_sidebar_check, init_right_menu, init_bootstrap_navbar_menu, nav_content,
}

-- A resize of the window, with its width when the check is made, the width when the wait is over,
-- the number of sidebars, and the contents of the navigation bar's lists.
pub record Resize : Type 0 where
  pub width : ℕ
  pub later_width : ℕ
  pub sidebars : ℕ
  pub uls : List String

abbrev is_right : Variant → Bool
is_right right_menu = true
is_right bootstrap_menu = false

-- how many of the handlers a function has bound
pub count_right : List Variant → ℕ
count_right [] = 0
count_right (v ∷ vs) = let rest = count_right vs in if is_right v then suc rest else rest

pub count_bootstrap : List Variant → ℕ
count_bootstrap [] = 0
count_bootstrap (v ∷ vs) = let rest = count_bootstrap vs in if is_right v then rest else suc rest

abbrev as_number : Bool → ℕ
as_number b = if b then 1 else 0

count_right-append :
    (vs : List Variant) (v : Variant)
    → count_right (vs ++ v ∷ []) ≡ count_right vs + as_number (is_right v)
unfolding count_right
count_right-append [] v = ground arith
count_right-append (w ∷ vs) v = ground (arith, count_right-append vs v)

count_bootstrap-append :
    (vs : List Variant) (v : Variant)
    → count_bootstrap (vs ++ v ∷ []) ≡ count_bootstrap vs + as_number (not (is_right v))
unfolding count_bootstrap
count_bootstrap-append [] v = ground arith
count_bootstrap-append (w ∷ vs) v = ground (arith, count_bootstrap-append vs v)

module _ ⦃j : Jquery⦄ where
  -- A resize whose wait is over.
  pub resize : Resize → Menu → Menu
  resize r m = elim (init_sidebar_check r.width r.sidebars) [
    | none ↦ m
    | some right_menu ↦ init_right_menu r.later_width r.uls m
    | some bootstrap_menu ↦ init_bootstrap_navbar_menu r.uls m
  ]

  pub resizes : List Resize → Menu → Menu
  unfolding resize
  resizes [] m = m
  resizes (r ∷ rs) m = resizes rs (resize r m)

  -- Each flag says whether the handler is bound and whether the list stands in the sidebar, and
  -- nothing is there twice.
  pub record IsSetUpOnce (m : Menu) : Type 0 where
    pub rights : count_right m.page.handlers ≡ as_number m.toggle_initialized
    pub bootstraps : count_bootstrap m.page.handlers ≡ as_number m.bootstrap_nav_initialized
    pub navs : length m.mobile_navs ≡ as_number m.mobile_menu_initialized
    pub bars : length m.bars ≡ as_number m.bootstrap_nav_initialized

  init_right_menu-IsSetUpOnce :
      (width : ℕ) (uls : List String) (m : Menu)
      → IsSetUpOnce m
      → IsSetUpOnce (init_right_menu width uls m)
  unfolding init_right_menu
  init_right_menu-IsSetUpOnce width uls m h = ground (
    arith,
    count_right-append m.page.handlers right_menu,
    count_bootstrap-append m.page.handlers right_menu,
  )

  init_bootstrap_navbar_menu-IsSetUpOnce :
      (uls : List String) (m : Menu)
      → IsSetUpOnce m
      → IsSetUpOnce (init_bootstrap_navbar_menu uls m)
  unfolding init_bootstrap_navbar_menu
  init_bootstrap_navbar_menu-IsSetUpOnce uls m h = ground (
    arith,
    count_right-append m.page.handlers bootstrap_menu,
    count_bootstrap-append m.page.handlers bootstrap_menu,
    length-append m.bars (nav_content uls ∷ []),
  )

  resize-IsSetUpOnce : (r : Resize) (m : Menu) → IsSetUpOnce m → IsSetUpOnce (resize r m)
  unfolding resize init_sidebar_check
  resize-IsSetUpOnce r m h = ground (
    arith,
    init_right_menu-IsSetUpOnce r.later_width r.uls m,
    init_bootstrap_navbar_menu-IsSetUpOnce r.uls m,
  )

  resizes-IsSetUpOnce : (rs : List Resize) (m : Menu) → IsSetUpOnce m → IsSetUpOnce (resizes rs m)
  unfolding resizes
  resizes-IsSetUpOnce [] m h = h
  resizes-IsSetUpOnce (r ∷ rs) m h = resizes-IsSetUpOnce rs (resize r m) (resize-IsSetUpOnce r m h)

  -- From the start, on a page whose button has no handlers, after every list of resizes, each over
  -- before the next: each of the two functions has bound at most one handler to the button, at most
  -- one list stands in the sidebar and at most one bar in the body, as the three flags say.
  pub resizes-start-IsSetUpOnce :
      (rs : List Resize) (p : Page) → p.handlers ≡ [] → IsSetUpOnce (resizes rs (start p))
  unfolding count_right count_bootstrap
  resizes-start-IsSetUpOnce rs p none_yet = resizes-IsSetUpOnce rs (start p) (record {
    rights = ap count_right none_yet;
    bootstraps = ap count_bootstrap none_yet;
    navs = refl;
    bars = refl;
  })

  -- A window that is small at the check is still small when the wait is over.
  abbrev pub IsSettled : Resize → Type 0
  IsSettled r = r.width ≤ 991 → r.later_width ≤ 991

  -- The list in the sidebar is there to stay.
  resize_settled :
      (r : Resize) (m : Menu)
      → IsSettled r
      → m.mobile_menu_initialized ≡ true
      → ((resize r m).mobile_menu_initialized ≡ true) × ((resize r m).mobile_navs ≡ m.mobile_navs)
  unfolding resize init_sidebar_check init_right_menu init_bootstrap_navbar_menu
  resize_settled r m settled h = ground arith

  -- Once the list has been put into the sidebar, no list of resizes takes it out again, however wide
  -- the window becomes, unless a window that was small at a check has grown beyond 991 by the time
  -- its wait is over: the branch that resets the sidebar is not reached otherwise.
  resizes_settled :
      (rs : List Resize) (m : Menu)
      → All IsSettled rs
      → m.mobile_menu_initialized ≡ true
      → ((resizes rs m).mobile_menu_initialized ≡ true)
        × ((resizes rs m).mobile_navs ≡ m.mobile_navs)
  unfolding resizes
  resizes_settled [] m settled h = (h, refl)
  resizes_settled (r ∷ rs) m (s, settled) h =
      let (still, same) = resize_settled r m s h in
      let (there, navs) = resizes_settled rs (resize r m) settled still in (there, navs ∙ same)
