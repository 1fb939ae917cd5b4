-- ===== src/App/Pages.antt =====
-- The lists of running and of completed jobs, page by page: `RunningComponent` and
-- `CompletedComponent` in gatling-rest/static/src/app/dashboard/running/running.component.ts and
-- completed/completed.component.ts, which differ in the request alone; and what the two show of a
-- status, as the page of one job does.
pub mod Bounds
pub mod Order
use Prim.Native.String.{◌++◌ as append}
use dist_gatling.Shared.{
  ℕ, zero, suc, ◌+◌, ◌-◌, Bool, true, false, not, ◌||◌, String, Option, none, some, List, [], ◌∷◌,
  ◌++◌, ltb, if◌then◌else◌, str_eq,
}
use dist_gatling.App.Session.{is_caught}

-- What a request gives: `totalPages`, and the page that was asked for.
pub record PagedResult : Type 0 where
  pub total_pages : ℕ
  pub page : ℕ

-- The component, the pages of the requests that are under way, the oldest first, and all that were
-- asked for.
pub record Listing : Type 0 where
  pub current_page : ℕ
  pub paged_result : Option PagedResult
  pub error_message : Option String
  pub requests : List ℕ
  pub asked : List ℕ

-- `fetchData`
unfoldable pub fetch_data : Listing → Listing
fetch_data l = record l {
  requests = l.requests ++ l.current_page ∷ [];
  asked = l.asked ++ l.current_page ∷ [];
}

-- `ngOnInit`
unfoldable pub ng_on_init : Listing
unfolding fetch_data
ng_on_init = fetch_data (record {
  current_page = 1;
  paged_result = none;
  error_message = none;
  requests = [];
  asked = [];
})

-- `this.currentPage < this.pagedResult.totalPages`: of nothing it cannot be read, and the handler ends
-- by an exception.
unfoldable pub has_next : ℕ → Option PagedResult → Bool
has_next page none = false
has_next page (some r) = ltb page r.total_pages

-- `onNext`
unfoldable pub on_next : Listing → Listing
unfolding has_next fetch_data
on_next l =
    if has_next l.current_page l.paged_result
    then fetch_data (record l { current_page = l.current_page + 1 })
    else l

-- `onPrev`
unfoldable pub on_prev : Listing → Listing
unfolding fetch_data
on_prev l =
    if ltb 1 l.current_page then fetch_data (record l { current_page = l.current_page - 1 }) else l

-- How a request is answered: with the number of pages, or by a failure with a status and a message.
pub data Answer : Type 0 where
  pages : ℕ → Answer
  failure : ℕ → String → Answer

-- The two functions given to `subscribe`. Where the interceptor catches the failure, neither is called:
-- `HttpClient` hands on the bodies of responses alone, and what the interceptor passes on is none.
unfoldable pub subscribe : ℕ → Answer → Listing → Listing
unfolding is_caught
subscribe page (pages total) l = record l {
  paged_result = some (record { total_pages = total; page = page });
}
subscribe page (failure status message) l =
    if is_caught status then l else record l { error_message = some message }

unfoldable pub take_request : ℕ → List ℕ → Option (ℕ × List ℕ)
take_request i [] = none
take_request zero (p ∷ ps) = some (p, ps)
take_request (suc i) (p ∷ ps) = elim (take_request i ps) [
  | none ↦ none
  | some (q, qs) ↦ some (q, p ∷ qs)
]

-- A button, or the answer of the request with a number among those under way: the network may answer
-- in any order.
pub data Event : Type 0 where
  next prev : Event
  respond : ℕ → Answer → Event

-- The request, if there is one, is under way no more and its answer is taken.
unfoldable pub answered : Answer → Listing → Option (ℕ × List ℕ) → Listing
unfolding subscribe
answered a l none = l
answered a l (some (page, rest)) = subscribe page a (record l { requests = rest })

unfoldable pub handle : Event → Listing → Listing
unfolding on_next on_prev answered take_request
handle next l = on_next l
handle prev l = on_prev l
handle (respond i a) l = answered a l (take_request i l.requests)

unfoldable pub run : List Event → Listing → Listing
unfolding handle
run [] l = l
run (e ∷ es) l = run es (handle e l)

-- The address that `navigateToJobDetail` asks the router for.
abbrev pub job_address : String → String
job_address id = append "/detail/" id

-- `isSuccess`, `isFailed` and `isNormalStatus`
unfoldable pub is_success : String → Bool
is_success status = if str_eq status "COMPLETED" then true else false

unfoldable pub is_failed : String → Bool
is_failed status = if str_eq status "FAILED" then true else false

unfoldable pub is_normal_status : String → Bool
is_normal_status status =
    if str_eq status "FAILED" || str_eq status "COMPLETED" then false else true
