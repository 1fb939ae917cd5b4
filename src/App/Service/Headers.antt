-- ===== src/App/Service/Headers.antt =====
-- What every request carries.
use dist_gatling.Shared.{String, some, refl, ◌≡◌, ◌∙◌, ap}
use dist_gatling.App.Service.{
  HttpHeaders, headers, Call, workers, master_metrics, dashboard_data, running, completed,
  job_detail, cancel_job, generate_report, request,
}

module _ ⦃http : HttpHeaders⦄ where
  headers-authorization : (token : String) → http.get "Authorization" (headers token) ≡ some token
  unfolding headers
  headers-authorization token = http.get-set "Authorization" "Authorization" token _

  headers-cache : (token : String) → http.get "Cache-Control" (headers token) ≡ some "no-store"
  unfolding headers
  headers-cache token =
      http.get-set "Cache-Control" "Authorization" token _
      ∙ http.get-set "Cache-Control" "Cache-Control" "no-store" _

  headers-content :
      (token : String)
      → http.get "Content-Type" (headers token) ≡ some "application/json; charset=utf-8"
  unfolding headers
  headers-content token =
      http.get-set "Content-Type" "Authorization" token _
      ∙ http.get-set "Content-Type" "Cache-Control" "no-store" _
      ∙ http.get-set "Content-Type" "Cache-Control" "no-cache" _
      ∙ http.get-set "Content-Type" "Content-Type" "application/json; charset=utf-8" _

  headers-request :
      (base token : String) (c : Call) → (request base token c).headers ≡ headers token
  unfolding request
  headers-request base token workers = refl
  headers-request base token master_metrics = refl
  headers-request base token dashboard_data = refl
  headers-request base token (running page) = refl
  headers-request base token (completed page) = refl
  headers-request base token (job_detail id) = refl
  headers-request base token (cancel_job id) = refl
  headers-request base token (generate_report id) = refl

  -- Every request of the service carries the user's credentials and the type of its content, and
  -- forbids to store the response; the value "no-cache" that is set for the same header first is not
  -- sent.
  request_headers :
      (base token : String) (c : Call)
      → (http.get "Authorization" (request base token c).headers ≡ some token)
        × (http.get "Cache-Control" (request base token c).headers ≡ some "no-store")
        × (http.get "Content-Type" (request base token c).headers
            ≡ some "application/json; charset=utf-8")
  request_headers base token c =
      let same = headers-request base token c in
      (
        ap (http.get "Authorization") same ∙ headers-authorization token,
        ap (http.get "Cache-Control") same ∙ headers-cache token,
        ap (http.get "Content-Type") same ∙ headers-content token,
      )
