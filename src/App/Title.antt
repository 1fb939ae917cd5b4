-- ===== src/App/Title.antt =====
-- The title of the page: `NavbarComponent` in
-- gatling-rest/static/src/app/shared/navbar/navbar.component.ts, with the routes of
-- sidebar/sidebar-routes.config.ts, which the sidebar lists too.
use dist_gatling.Shared.{Bool, false, String, List, [], ◌∷◌, if◌then◌else◌, str_eq, ◌≡◌, refl}

pub record RouteInfo : Type 0 where
  pub path : String
  pub title : String
  pub icon : String
  pub class : String

-- `ROUTES`, none of which `filter` takes out
abbrev pub routes : List RouteInfo
routes =
    record { path = "overview"; title = "Overview"; icon = "pe-7s-note"; class = "" }
    ∷ record { path = "running"; title = "Running Tests"; icon = "pe-7s-note2"; class = "" }
    ∷ record { path = "completed"; title = "Completed Tests"; icon = "pe-7s-note2"; class = "" }
    ∷ record { path = "workers"; title = "Workers"; icon = "pe-7s-note2"; class = "" }
    ∷ record { path = "master"; title = "Master"; icon = "pe-7s-note2"; class = "" }
    ∷ record { path = "run"; title = "Submit Simulation"; icon = "pe-7s-graph"; class = "" }
    ∷ []

-- `slice(2)`
unfoldable pub slice_two : String → String
slice_two String.[] = ""
slice_two (String.◌∷◌ c String.[]) = ""
slice_two (String.◌∷◌ c (String.◌∷◌ d s)) = s

-- `charAt(0) === '#'`
unfoldable pub is_hash : String → Bool
is_hash String.[] = false
is_hash (String.◌∷◌ c s) = str_eq (String.◌∷◌ c String.[]) "#"

-- The loop of `getTitle`.
unfoldable pub title_loop : String → List RouteInfo → String
title_loop titlee [] = "Cluster"
title_loop titlee (r ∷ rs) =
    let rest = title_loop titlee rs in if str_eq r.path titlee then r.title else rest

-- `getTitle`, for the external form of the address
unfoldable pub get_title : List RouteInfo → String → String
unfolding slice_two is_hash title_loop
get_title rs address =
    let titlee = if is_hash address then slice_two address else address in title_loop titlee rs

get_title-run : get_title routes "#/run" ≡ "Submit Simulation"
unfolding get_title
get_title-run = refl

get_title-detail : get_title routes "#/detail/42" ≡ "Cluster"
unfolding get_title
get_title-detail = refl
