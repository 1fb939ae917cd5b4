-- ===== src/Examples/App/Session.antt =====
-- A tab of the dashboard, with addresses that are told apart by their first letter.
use Prim.Native.Char.{code}
use dist_gatling.Shared.{
  ℕ, ◌≡◌, refl, true, false, inl, inr, Bool, String, Option, none, some, List, [], ◌∷◌, arith,
  if◌then◌else◌, ◌==◌, str_eq, eq_iff, Bool-cases, ap, false,
}
use dist_gatling.App.Session.{
  Route, overview, running, completed, workers, master, run, login, detail, Platform, Tab, go,
  settle, log_in, logout, intercept,
}
use dist_gatling.App.Session.Guarded.{
  Event, enter, follow, submit, leave, failure, run_events, is_public, handle, IsSafe,
  session-IsSafe,
}
use dist_gatling.App.Session.Opened.{IsAdmitted, handle-IsAdmitted}
use dist_gatling.App.Session.Return.{to}

-- a text before another, by its characters
abbrev before : String → String → String
before String.[] t = t
before (String.◌∷◌ c s) t = String.◌∷◌ c (before s t)

abbrev is_empty : String → Bool
is_empty String.[] = true
is_empty (String.◌∷◌ c s) = false

abbrev url : Route → String
url overview = "/overview"
url running = "/running"
url completed = "/completed"
url workers = "/workers"
url master = "/master"
url run = "/run"
url login = "/login"
url (detail id) = before "/detail/" id

abbrev drop : ℕ → String → String
drop ℕ.zero s = s
drop (ℕ.suc n) String.[] = ""
drop (ℕ.suc n) (String.◌∷◌ c s) = drop n s

abbrev page_of : ℕ → String → Option Route
page_of c s =
    if c == b'o'
    then some overview
    else if c == b'c'
    then some completed
    else if c == b'w'
    then some workers
    else if c == b'm'
    then some master
    else if c == b'l'
    then some login
    else if c == b'd'
    then some (detail (drop 6 s))
    else if str_eq s "un"
    then some run
    else if str_eq s "unning"
    then some running
    else none

abbrev recognize : String → Option Route
recognize String.[] = none
recognize (String.◌∷◌ c String.[]) = none
recognize (String.◌∷◌ c (String.◌∷◌ d s)) = page_of (code d) s

recognize-url : (r : Route) → recognize (url r) ≡ some r
recognize-url overview = refl
recognize-url running = refl
recognize-url completed = refl
recognize-url workers = refl
recognize-url master = refl
recognize-url run = refl
recognize-url login = refl
recognize-url (detail id) = refl

url_full : (r : Route) → str_eq (url r) "" ≡ false
url_full overview = refl
url_full running = refl
url_full completed = refl
url_full workers = refl
url_full master = refl
url_full run = refl
url_full login = refl
url_full (detail id) = elim (Bool-cases (str_eq (before "/detail/" id) "")) [
  | inl e ↦
      let empty = ap is_empty ((eq_iff (before "/detail/" id) "").0 e) in
      absurd (ground (arith, empty))
  | inr e ↦ e
]

abbrev platform : Platform
platform = record {
  url = url;
  recognize = recognize;
  recognize-url = recognize-url;
  url-login = refl;
  url-full = url_full;
  btoa = λ s. s;
  atob = λ s. s;
  atob-btoa = λ s. refl;
}

-- nobody is logged in, and no page is shown yet
abbrev fresh : Tab
fresh = record {
  current_user = none;
  shown = none;
  login_page = record { loading = false; return_url = ""; cause = "" };
  pending = none;
}

fresh-IsSafe : IsSafe platform fresh
unfolding is_public
fresh-IsSafe = record { stored = tt; seen = λ e. absurd (ground (arith, e)) }

-- a visit of a job, the login, a failed request, and a logout while another page is asked for
abbrev events : List (Event platform)
events =
    enter (to platform "/detail/7")
    ∷ follow
    ∷ submit "ann" "secret"
    ∷ follow
    ∷ failure 401 "expired"
    ∷ enter (to platform "/run")
    ∷ follow
    ∷ leave
    ∷ follow
    ∷ []

session-IsSafe_example : IsSafe platform (run_events platform events fresh)
session-IsSafe_example = session-IsSafe platform events fresh fresh-IsSafe

events-run : (run_events platform events fresh).shown ≡ some login
unfolding run_events handle go settle log_in logout intercept
events-run = refl

-- the answer to a failed request while a job is shown
abbrev job_shown : Tab
job_shown = record fresh { current_user = some "Basic x"; shown = some (detail "7") }

handle-IsAdmitted_example :
    IsAdmitted platform job_shown (handle platform (failure 404 "gone") job_shown)
handle-IsAdmitted_example = handle-IsAdmitted platform (failure 404 "gone") job_shown

-- the login page after the address of a job has been refused
abbrev refused : Tab
refused = record fresh {
  shown = some login;
  login_page = record { loading = false; return_url = "/detail/7"; cause = "" };
}
