-- ===== src/App/Service.antt =====
-- The requests to the server: `WorkerService` in
-- gatling-rest/static/src/app/services/workers.service.ts.
pub mod Headers
use Prim.Native.String.{◌++◌ as append}
use dist_gatling.Shared.{ℕ, String, Option, none, some}
use dist_gatling.Shared.Decimal.{decimal}
use dist_gatling.Shared.Names.{same_name}
use dist_gatling.Shared.{◌≡◌, if◌then◌else◌}

-- Angular's `HttpHeaders`, which is not modelled: a value is found under every spelling of its name,
-- and setting a name again replaces its value.
pub record HttpHeaders : Type 1 where
  pub Headers : Type 0
  pub empty : Headers
  pub set : String → String → Headers → Headers
  pub get : String → Headers → Option String
  pub get-set :
      (k j v : String) (h : Headers)
      → get k (set j v h) ≡ (if same_name j k then some v else get k h)

module _ ⦃http : HttpHeaders⦄ where
  -- `headers`, for the item `currentUser` of the browser's storage, which the guard has found there
  unfoldable pub headers : String → http.Headers
  headers token = http.set "Authorization" token (
      http.set "Cache-Control" "no-store" (
        http.set "Cache-Control" "no-cache"
          (http.set "Content-Type" "application/json; charset=utf-8" http.empty)))

  pub data Method : Type 0 where
    get post : Method

  pub record Request : Type 0 where
    pub method : Method
    pub url : String
    pub body : Option String
    pub headers : http.Headers

  -- The calls of the service.
  pub data Call : Type 0 where
    workers master_metrics dashboard_data : Call
    running completed : ℕ → Call
    job_detail cancel_job generate_report : String → Call

  abbrev get_request : String → String → Request
  get_request token url = record { method = get; url = url; body = none; headers = headers token }

  abbrev post_request : String → String → Request
  post_request token url = record {
    method = post;
    url = url;
    body = some "";
    headers = headers token;
  }

  -- `getWorkers`, `getMasterMetrics`, `getDashboardData`, `getRunning`, `getCompleted`,
  -- `getJobDetail`, `cancelJob` and `generateReport`, with `baseUrl` and the token
  unfoldable pub request : String → String → Call → Request
  unfolding decimal
  request base token workers = get_request token (append base "/gatling/server/info")
  request base token (running page) =
      get_request token
        (append base (append "/gatling/server/running/summary?size=15&page=" (decimal page)))
  request base token (completed page) =
      get_request token
        (append base (append "/gatling/server/completed/summary?size=15&page=" (decimal page)))
  request base token (job_detail id) =
      get_request token (append base (append "/gatling/server/detail/" id))
  request base token (cancel_job id) =
      post_request token (append base (append "/gatling/server/abort/" id))
  request base token (generate_report id) =
      post_request token (append base (append "/gatling/server/report/" id))
  request base token master_metrics = get_request token (append base "/metrics")
  request base token dashboard_data = get_request token (append base "/gatling/server/dashboard")
