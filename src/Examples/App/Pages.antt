-- ===== src/Examples/App/Pages.antt =====
-- Lists of jobs, pages of jobs, and requests.
use dist_gatling.Shared.{
  ◌≡◌, refl, Option, none, some, List, [], ◌∷◌, ◌++◌, String, length, map, if◌then◌else◌,
}
use dist_gatling.Shared.Names.{same_name}
use dist_gatling.App.Pages.{
  Listing, PagedResult, Event, next, prev, respond, pages, failure, ng_on_init, run, handle,
}
use dist_gatling.App.Pages.Bounds.{IsBounded, listing-IsBounded}
use dist_gatling.App.Pages.Order.{listing_shows}
use dist_gatling.App.Detail.{Detail, Tab, opened, destroyed, ticked, changed, poll_all, is_detail}
use dist_gatling.App.Detail as Job
use dist_gatling.App.Detail.Polls.{opens, polls_leak}
use dist_gatling.App.Service.{HttpHeaders}

-- next, twice, and back, with a failure in between
abbrev events : List Event
events =
    respond 0 (pages 3)
    ∷ next
    ∷ next
    ∷ respond 1 (failure 500 "down")
    ∷ respond 0 (pages 3)
    ∷ prev
    ∷ []

listing-IsBounded_example : IsBounded 3 (run events ng_on_init)
listing-IsBounded_example = listing-IsBounded 3 events (refl, (tt, (tt, (tt, (refl, (tt, tt))))))

abbrev ordered : List Event
ordered = respond 0 (pages 3) ∷ next ∷ next ∷ respond 0 (pages 3) ∷ respond 0 (pages 3) ∷ []

all_answered : (run ordered ng_on_init).requests ≡ []
unfolding run handle ng_on_init
all_answered = refl

listing_shows_example :
    (r : PagedResult) × ((run ordered ng_on_init).paged_result ≡ some r)
    × (r.page ≡ (run ordered ng_on_init).current_page)
listing_shows_example = listing_shows ordered (tt, (tt, (tt, (tt, (tt, tt))))) all_answered

-- the third page is asked for before the second has come
abbrev waiting : Listing
waiting = record {
  current_page = 3;
  paged_result = none;
  error_message = none;
  requests = 2 ∷ 3 ∷ [];
  asked = 1 ∷ 2 ∷ 3 ∷ [];
}

abbrev visits : List Job.Event
visits = opened "7" ∷ destroyed 0 ∷ opened "8" ∷ changed 1 "9" ∷ []

abbrev empty_tab : Tab
empty_tab = record { components = []; asked = [] }

abbrev address : String
address = "http://host/#/detail/8"

polls_leak_example :
    (length (poll_all address (Job.run visits empty_tab).components) ≡ opens visits)
    × ((Job.handle (ticked address) (Job.run visits empty_tab)).asked
        ≡ (Job.run visits empty_tab).asked
          ++ map (λ (d : Detail). d.tracking_id) (Job.run visits empty_tab).components)
unfolding is_detail
polls_leak_example = polls_leak visits address empty_tab refl refl

-- headers as a function from names
abbrev http : HttpHeaders
http = record {
  Headers = String → Option String;
  empty = λ k. none;
  set = λ j v h k. if same_name j k then some v else h k;
  get = λ k h. h k;
  get-set = λ k j v h. refl;
}
