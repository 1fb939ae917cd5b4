-- ===== src/App/Detail.antt =====
-- The page of one job: `DetailComponent` in
-- gatling-rest/static/src/app/dashboard/detail/detail.component.ts, with all its instances, since
-- their intervals outlive them.
pub mod Polls
use Prim.Native.String.{◌++◌ as append}
use text.Mathlib.Text.{find?}
use dist_gatling.Shared.{
  ℕ, zero, suc, Bool, true, false, String, Option, none, some, List, [], ◌∷◌, ◌++◌, map,
  if◌then◌else◌,
}

-- The fields of the component. `subscribed` is the subscription of the route's parameters; the
-- interval has no field.
pub record Detail : Type 0 where
  pub tracking_id : String
  pub job_summary : Option String
  pub error_message : Option String
  pub report_in_progress : Bool
  pub report_result : Option String
  pub cancelled : Option Bool
  pub cancel_msg : String
  pub subscribed : Bool

-- The components made so far, the oldest first, and the jobs whose details were asked for.
pub record Tab : Type 0 where
  pub components : List Detail
  pub asked : List String

-- `fetchDetailData` of one component
abbrev pub fetch_detail_data : Detail → List String
fetch_detail_data d = d.tracking_id ∷ []

-- `ngOnInit`, for the parameter `trackingId`: the subscription gives it at once.
unfoldable pub ng_on_init : String → Tab → Tab
ng_on_init id t =
    let d : Detail = record {
      tracking_id = id;
      job_summary = none;
      error_message = none;
      report_in_progress = false;
      report_result = none;
      cancelled = none;
      cancel_msg = "Cancel Job >>";
      subscribed = true;
    } in
    record { components = t.components ++ d ∷ []; asked = t.asked ++ id ∷ [] }

-- What a component does at a number is done to it alone.
unfoldable pub at_component : ℕ → (Detail → Detail) → List Detail → List Detail
at_component i f [] = []
at_component zero f (d ∷ ds) = f d ∷ ds
at_component (suc i) f (d ∷ ds) = d ∷ at_component i f ds

-- `ngOnDestroy`
unfoldable pub ng_on_destroy : Detail → Detail
ng_on_destroy d = record d { subscribed = false }

-- `window.location.href.indexOf("detail") !== -1`
unfoldable pub is_detail : String → Bool
is_detail href = elim (find? href "detail") [ none ↦ false | some i ↦ true ]

-- One round of an interval of `initializePolling`.
unfoldable pub poll : String → Detail → List String
unfolding is_detail
poll href d = if is_detail href then fetch_detail_data d else []

-- The rounds of all intervals that have been created: no subscription ends one.
unfoldable pub poll_all : String → List Detail → List String
unfolding poll
poll_all href [] = []
poll_all href (d ∷ ds) = poll href d ++ poll_all href ds

-- The two functions given to `subscribe` in `fetchDetailData`.
unfoldable pub fetched : String → Detail → Detail
fetched summary d = record d { job_summary = some summary }

unfoldable pub fetch_failed : String → Detail → Detail
fetch_failed message d = record d { error_message = some message }

-- `cancelReport`, and its answer
unfoldable pub cancel_report : Detail → Detail
cancel_report d = record d { cancel_msg = "Cancelling Job ..." }

unfoldable pub cancel_answered : Option Bool → String → Detail → Detail
cancel_answered none message d = record d { error_message = some message }
cancel_answered (some b) message d = record d { cancelled = some b }

-- `generateReport`, and its answer: the path of the report, or a failure with a message
unfoldable pub generate_report : Detail → Detail
generate_report d = record d { report_in_progress = true }

unfoldable pub report_answered : String → Option String → String → Detail → Detail
report_answered base_url none message d = record d {
  report_in_progress = false;
  error_message = some message;
}
report_answered base_url (some report) message d = record d {
  report_in_progress = false;
  report_result = some (append base_url report);
}

-- `getLog`
unfoldable pub get_log : String → String → String → Detail → String
get_log base_url task_job_id log_type d = append base_url (
    append "/gatling/server/getlog/"
      (append d.tracking_id (append "/" (append task_job_id (append "/" log_type)))))

-- What a component does and is answered, besides.
pub data Action : Type 0 where
  summary failed_fetch : String → Action
  cancel report : Action
  cancel_answer : Option Bool → String → Action
  report_answer : String → Option String → String → Action

unfoldable pub act : Action → Detail → Detail
unfolding fetched fetch_failed cancel_report cancel_answered generate_report report_answered
act (summary s) d = fetched s d
act (failed_fetch message) d = fetch_failed message d
act cancel d = cancel_report d
act report d = generate_report d
act (cancel_answer b message) d = cancel_answered b message d
act (report_answer base_url path message) d = report_answered base_url path message d

-- The page of a job is opened; the route's parameter changes while a component is shown; a component
-- is destroyed; 30 seconds pass, on a page with an address; and what concerns one component.
pub data Event : Type 0 where
  opened : String → Event
  changed : ℕ → String → Event
  destroyed : ℕ → Event
  ticked : String → Event
  acted : ℕ → Action → Event

-- The parameter of a component that is still subscribed.
unfoldable pub on_params : String → Detail → Detail
on_params id d = if d.subscribed then record d { tracking_id = id } else d

-- the requests that a change of the parameter makes
unfoldable pub param_requests : ℕ → String → List Detail → List String
param_requests i id [] = []
param_requests zero id (d ∷ ds) = if d.subscribed then id ∷ [] else []
param_requests (suc i) id (d ∷ ds) = param_requests i id ds

unfoldable pub handle : Event → Tab → Tab
unfolding ng_on_init at_component act ng_on_destroy on_params param_requests poll_all
handle (opened id) t = ng_on_init id t
handle (changed i id) t = record {
  components = at_component i (on_params id) t.components;
  asked = t.asked ++ param_requests i id t.components;
}
handle (destroyed i) t = record t { components = at_component i ng_on_destroy t.components }
handle (ticked href) t = record t { asked = t.asked ++ poll_all href t.components }
handle (acted i a) t = record t { components = at_component i (act a) t.components }

pub run : List Event → Tab → Tab
run [] t = t
run (e ∷ es) t = run es (handle e t)
