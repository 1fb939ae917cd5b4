-- ===== src/App/Home.antt =====
-- The overview: `HomeComponent` in
-- gatling-rest/static/src/app/dashboard/home/home.component.ts. Chartist draws the charts; what it is
-- given is modelled.
use dist_gatling.Shared.{ℕ, Bool, true, false, String, Option, none, some, List, [], ◌∷◌, ◌≡◌, refl}

pub record Series : Type 0 where
  pub keys : List String
  pub values : List ℕ

-- The data of the dashboard, where a field may be undefined.
pub record DashboardData : Type 0 where
  pub host : Option Series
  pub partition : Option Series
  pub partition_status : Option Series
  pub status : Option Series

pub data Chart : Type 0 where
  bar : String → List String → List (List ℕ) → Bool → Chart
  pie : String → List String → List ℕ → Chart

abbrev bar_of : String → Bool → Option Series → Option Chart
bar_of selector only_integer none = none
bar_of selector only_integer (some s) = some (bar selector s.keys (s.values ∷ []) only_integer)

abbrev pie_of : String → Option Series → Option Chart
pie_of selector none = none
pie_of selector (some s) = some (pie selector s.keys s.values)

-- The charts that are drawn before the first one whose data cannot be read.
unfoldable pub drawn : List (Option Chart) → List Chart
drawn [] = []
drawn (none ∷ cs) = []
drawn (some c ∷ cs) = c ∷ drawn cs

-- `initDashboard`: two bars with the options of each, and two donuts with the same
unfoldable pub init_dashboard : DashboardData → List Chart
unfolding drawn
init_dashboard d = drawn (
    bar_of "#chartHost" true d.host
    ∷ bar_of "#chartPartition" false d.partition
    ∷ pie_of "#partitionStatus" d.partition_status
    ∷ pie_of "#status" d.status
    ∷ [])

pub record Home : Type 0 where
  pub dashboard_data : Option DashboardData
  pub error_message : Option String
  pub charts : List Chart

-- The two functions given to `subscribe` in `fetchDashboardData`.
unfoldable pub fetched : DashboardData → Home → Home
unfolding init_dashboard
fetched d h = record h { dashboard_data = some d; charts = init_dashboard d }

unfoldable pub fetch_failed : String → Home → Home
fetch_failed message h = record h { error_message = some message }

-- Of data without the fields nothing is drawn.
nothing_drawn :
    init_dashboard
      (record { host = none; partition = none; partition_status = none; status = none })
    ≡ []
unfolding init_dashboard
nothing_drawn = refl
