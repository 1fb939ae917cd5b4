-- ===== src/App/Upload/Form.antt =====
-- `RunComponent` in gatling-rest/static/src/app/dashboard/run/run.component.ts: the form, and what
-- the user and the browser do with it.
pub mod Single
pub mod Ends
pub mod Stuck
pub mod Bodies
pub mod Sends
use dist_gatling.Shared.{
  ℕ, zero, suc, Bool, true, false, not, ◌&&◌, ◌||◌, String, Option, none, some, List, [], ◌∷◌, ◌++◌,
  if◌then◌else◌,
}
use dist_gatling.Shared.Decimal.{decimal}
use dist_gatling.App.Upload.{
  Slot, undefined, null, is_absent, Field, text, part, slot_field, Body, SimulationModel, Reply,
  MultipartItem, Request, Page, init, state,
}
use dist_gatling.App.Upload.Uploader.{Ending, on_end, upload_item}

-- `field != null`
abbrev given {ℓ} : {A : Type ℓ} → Option A → Bool
given none = false
given (some a) = true

-- `isValid`
unfoldable pub is_valid : SimulationModel → Bool
is_valid m = given m.partition_name && given m.package_name && given m.parallelism

-- A text of the form as `append` writes it.
abbrev pub text_or_null : Option String → Field
text_or_null none = text "null"
text_or_null (some s) = text s

-- `parallelism.toString()`, of a number since the form is valid
abbrev number_text : Option ℕ → Field
number_text none = text ""
number_text (some n) = text (decimal n)

-- What `upload` appends to the form's data.
unfoldable pub form_fields : Page → Body
unfolding slot_field decimal
form_fields p =
    ("partitionName", text_or_null p.model.partition_name)
    ∷ ("simulationFile", slot_field p.simulation_file)
    ∷ ("parallelism", number_text p.model.parallelism)
    ∷ ("packageName", text_or_null p.model.package_name)
    ∷ ("userName", text p.model.user_name)
    ∷ ("accessKey", text p.model.access_key)
    ∷ ("resourcesFile", slot_field p.resources_file)
    ∷ ("parameter", text p.model.parameter)
    ∷ []

abbrev pub or_new : Option Body → Body
or_new none = []
or_new (some b) = b

-- The item with its data filled and its callback set.
unfoldable pub filled : Page → Page
unfolding form_fields
filled p = record p {
  item = record p.item {
    form_data = some (or_new p.item.form_data ++ form_fields p);
    callback = true;
  };
}

-- `upload`
unfoldable pub upload : Page → Page
unfolding is_valid filled upload_item
upload p =
    if is_absent p.simulation_file || not (is_valid p.model) then p else upload_item (filled p)

-- `selectFile` and `selectResourcesFile`, for the first file of the input if there is one
unfoldable pub select_file : Option String → Page → Page
select_file none p = p
select_file (some name) p = record p { simulation_file = Slot.file name }

unfoldable pub select_resources_file : Option String → Page → Page
select_resources_file none p = p
select_resources_file (some name) p = record p { resources_file = Slot.file name }

-- The data of the dashboard: the partitions, of which the first is proposed.
unfoldable pub fetched_partitions : List String → Page → Page
fetched_partitions [] p = record p { partitions = some [] }
fetched_partitions (k ∷ ks) p = record p {
  partitions = some (k ∷ ks);
  model = record p.model { partition_name = some k };
}

-- The request for the data of the dashboard fails.
unfoldable pub fetch_failed : String → Page → Page
fetch_failed message p = record p { error_message = some message }

-- `ngOnInit`, for the token in the browser's storage
unfoldable pub ng_on_init : Option String → Page
ng_on_init token = record {
  model = record {
    package_name = some "";
    partition_name = some "";
    parameter = "";
    user_name = "";
    access_key = "";
    parallelism = some 1;
  };
  partitions = none;
  error_message = none;
  simulation_file = undefined;
  data_file = undefined;
  resources_file = undefined;
  success = true;
  navigations = [];
  item = record {
    form_data = none;
    is_ready = false;
    is_uploading = false;
    is_uploaded = false;
    is_success = false;
    is_cancel = false;
    is_error = false;
    progress = 0;
    callback = false;
  };
  uploading = false;
  auth_token = token;
  in_flight = [];
  sent = [];
}

-- What happens: the user edits the form, selects files or presses the button; the partitions come or do not;
-- one of the requests that have not ended ends.
pub data Event : Type 0 where
  edit : SimulationModel → Event
  select select_resources : Option String → Event
  press : Event
  partitions : List String → Event
  failure : String → Event
  finish : ℕ → Ending → Reply → Event

-- the requests without the one with a number
unfoldable pub without : ℕ → List Request → List Request
without i [] = []
without zero (r ∷ rs) = rs
without (suc i) (r ∷ rs) = r ∷ without i rs

unfoldable pub is_there : ℕ → List Request → Bool
is_there i [] = false
is_there zero (r ∷ rs) = true
is_there (suc i) (r ∷ rs) = is_there i rs

-- An exception that leaves a handler leaves the state as it is by then.
unfoldable pub handle : Event → Page → Page
unfolding upload select_file select_resources_file fetched_partitions fetch_failed without is_there
    on_end
handle (edit m) p = record p { model = m }
handle (select name) p = select_file name p
handle (select_resources name) p = select_resources_file name p
handle press p = upload p
handle (partitions ks) p = fetched_partitions ks p
handle (failure message) p = fetch_failed message p
handle (finish i ending reply) p =
    if is_there i p.in_flight
    then state (on_end ending reply (record p { in_flight = without i p.in_flight }))
    else p

unfoldable pub run : List Event → Page → Page
unfolding handle
run [] p = p
run (e ∷ es) p = run es (handle e p)
