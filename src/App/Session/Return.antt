-- ===== src/App/Session/Return.antt =====
-- Where a user is after the login.
use Prim.Native.String.{◌++◌ as append}
use dist_gatling.Shared.{String, none, some}
use dist_gatling.App.Session.{Route, Platform, Navigation, Tab, go, settle, log_in}

module _ (platform : Platform) where
  open platform use {url, recognize, recognize-url, btoa}

  -- An address without parameters.
  abbrev pub to : String → Navigation
  to path = record { path = path; return_url = none; cause = none }

  -- the navigation that the guard asks for
  abbrev wanted : Route → Navigation
  wanted r = record { path = "/login"; return_url = some (url r); cause = none }

  -- A logged-out user enters the address of a guarded page, and what the guard asks for is done.
  abbrev pub turned_away : Route → Tab → Tab
  turned_away r t = settle platform (go platform (to (url r)) t)

  -- The login, and what it asks for, where the login page holds the address of a guarded page.
  abbrev pub logged_in : String → String → Tab → Tab
  logged_in u p t = settle platform (log_in platform u p t)
