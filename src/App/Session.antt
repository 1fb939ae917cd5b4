-- ===== src/App/Session.antt =====
-- Who is logged in: gatling-rest/static/src/app/guard/auth.guard.ts, app.component.ts,
-- services/interceptor.ts, dashboard/login/login.component.ts, dashboard/dashboard.routes.ts and
-- `logout` of shared/navbar/navbar.component.ts.
pub mod Guarded
pub mod Opened
pub mod Return
use Prim.Native.String.{◌++◌ as append}
use dist_gatling.Shared.{
  ℕ, Bool, true, false, not, ◌&&◌, ◌||◌, String, Option, none, some, ◌≡◌, ◌==◌, if◌then◌else◌,
  str_eq,
}

-- The pages of `MODULE_ROUTES`, where the empty path leads to `overview`.
pub data Route : Type 0 where
  overview running completed workers master run login : Route
  detail : String → Route

-- `canActivate: [AuthGuard]`
unfoldable pub is_guarded : Route → Bool
is_guarded login = false
is_guarded _ = true

-- Angular's router, which is not modelled: the address of a page, as in `state.url`, and the page
-- that an address without a query leads to. And the browser's `btoa`, undone by `atob`.
pub record Platform : Type 0 where
  pub url : Route → String
  pub recognize : String → Option Route
  pub recognize-url : (r : Route) → recognize (url r) ≡ some r
  pub url-login : url login ≡ "/login"
  pub url-full : (r : Route) → str_eq (url r) "" ≡ false
  pub btoa : String → String
  pub atob : String → String
  pub atob-btoa : (s : String) → atob (btoa s) ≡ s

-- A navigation: the address, and the query parameters `returnUrl` and `cause` if they are given.
pub record Navigation : Type 0 where
  pub path : String
  pub return_url : Option String
  pub cause : Option String

-- The fields of `LoginComponent`.
pub record Login : Type 0 where
  pub loading : Bool
  pub return_url : String
  pub cause : String

-- One tab: the item `currentUser` of the browser's storage, the page that is shown, if any, the login page's
-- fields, and the navigation that a script has asked for last and that is still to be done.
pub record Tab : Type 0 where
  pub current_user : Option String
  pub shown : Option Route
  pub login_page : Login
  pub pending : Option Navigation

-- `if (localStorage.getItem('currentUser'))`
unfoldable pub is_allowed : Option String → Bool
is_allowed none = false
is_allowed (some s) = not (str_eq s "")

-- `isLoggedIn` of the application, which compares with null
unfoldable pub is_logged_in : Option String → Bool
is_logged_in none = false
is_logged_in (some s) = true

-- `parameter || default`
abbrev given_or : String → Option String → String
given_or d none = d
given_or d (some s) = if str_eq s "" then d else s

-- `ngOnInit` of the login page
unfoldable pub login_init : Navigation → Tab → Tab
login_init n t = record t {
  current_user = none;
  shown = some login;
  login_page = record {
    loading = false;
    return_url = given_or "/" n.return_url;
    cause = given_or "" n.cause;
  };
  pending = none;
}

abbrev ask : Navigation → Tab → Tab
ask n t = record t { pending = some n }

-- `logout` of the navigation bar
unfoldable pub logout : Tab → Tab
logout t =
    ask (record { path = "/login"; return_url = none; cause = none })
      (record t { current_user = none })

-- What the interceptor hands on of a failed request: the error as an event, which `HttpClient` drops
-- since it is no response, or the error again.
pub data Outcome : Type 0 where
  next failed : Outcome

-- The test of `intercept`.
unfoldable pub is_caught : ℕ → Bool
is_caught status = status == 401 || status == 0 || status == 404

-- `intercept`, for a request that fails with a status and a message
unfoldable pub intercept : ℕ → String → Tab → Tab × Outcome
unfolding is_caught
intercept status message t =
    if is_caught status
    then (ask (record { path = "/login"; return_url = none; cause = some message }) t, next)
    else (t, failed)

unfoldable pub is_login : Option Route → Bool
unfolding is_guarded
is_login none = false
is_login (some r) = not (is_guarded r)

module _ (platform : Platform) where
  open platform use {url, recognize, btoa}

  -- What the router does with a page: `canActivate` of the guard lets it be shown, or asks for the
  -- login page. If the login page is shown already, its component stays, and `ngOnInit` does not run.
  unfoldable pub activate : Navigation → Route → Tab → Tab
  unfolding is_guarded is_allowed is_login login_init
  activate n r t =
      if is_guarded r
      then (if is_allowed t.current_user
          then record t { shown = some r; pending = none }
          else ask (record { path = "/login"; return_url = some (url r); cause = none }) t)
      else if is_login t.shown
      then record t { pending = none }
      else login_init n t

  -- The router refuses an address that leads to no page.
  unfoldable pub arrive : Navigation → Tab → Option Route → Tab
  unfolding activate
  arrive n t none = t
  arrive n t (some r) = activate n r t

  unfoldable pub go : Navigation → Tab → Tab
  unfolding arrive
  go n t = arrive n t (recognize n.path)

  -- The navigation that is still to be done is done.
  unfoldable pub follow : Tab → Option Navigation → Tab
  unfolding go
  follow t none = t
  follow t (some n) = go n (record t { pending = none })

  unfoldable pub settle : Tab → Tab
  unfolding follow
  settle t = follow t t.pending

  -- `login`
  unfoldable pub log_in : String → String → Tab → Tab
  log_in username password t =
      let t1 = record t {
        login_page = record t.login_page { loading = true };
        current_user = some (append "Basic " (btoa (append username (append ":" password))));
      } in
      ask (record { path = t1.login_page.return_url; return_url = none; cause = none }) t1
