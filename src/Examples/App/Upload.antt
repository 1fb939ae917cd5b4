-- ===== src/Examples/App/Upload.antt =====
-- A form that is sent, twice, and the ends of its requests.
use dist_gatling.Shared.{
  String, Option, if◌then◌else◌, none, ℕ, ◌≡◌, refl, true, false, some, List, [], ◌∷◌, ◌++◌, arith,
  length,
}
use dist_gatling.App.Upload.{Slot, Page, SimulationModel, answer, malformed, null}
use dist_gatling.Shared.Names.{codes, same_codes}
use dist_gatling.App.Upload.Headers.{Parsed, parse_headers}
use dist_gatling.App.Upload.Uploader.{truthy, load, abort, error}
use dist_gatling.App.Upload.Form.{
  upload, Event, failure, edit, select, select_resources, press, partitions, finish, ng_on_init,
  run, handle, is_there,
}
use dist_gatling.App.Upload.Form.Single.{IsSingle, uploads_run-IsSingle}
use dist_gatling.App.Upload.Form.Ends.{seen, upload_ends}
use dist_gatling.App.Upload.Form.Sends.{sent_body, upload_sends}
use dist_gatling.Shared.Decimal.Read.{read}
use dist_gatling.App.Upload.Form.Stuck.{IsStuck, upload-IsStuck}
use dist_gatling.App.Upload.Form.Bodies.{IsClean, uploads_run-IsClean}

abbrev opened : Page
opened = ng_on_init (some "Basic x")

opened-IsSingle : IsSingle opened
unfolding ng_on_init
opened-IsSingle = record {
  few = omega arith;
  busy = λ h. absurd (omega (arith, h));
  bound = λ h. absurd (omega (arith, h));
}

opened-IsClean : IsClean opened
unfolding ng_on_init
opened-IsClean = record { empty = λ _. refl; whole = tt }

abbrev model : SimulationModel
model = record {
  package_name = some "demo";
  partition_name = some "public";
  parameter = "-Dusers=2";
  user_name = "ann";
  access_key = "";
  parallelism = some 12;
}

-- the form is filled, and the button pressed twice
abbrev sends : List Event
sends =
    failure "down"
    ∷ partitions ("public" ∷ [])
    ∷ edit model
    ∷ select (some "demo.jar")
    ∷ press
    ∷ press
    ∷ []

-- the server refuses, the user tries again and leaves the second request
abbrev events : List Event
events =
    sends
    ++ finish 0 (load 500) (answer false "")
      ∷ select (some "demo.jar")
      ∷ select_resources (some "data.zip")
      ∷ press
      ∷ finish 0 abort malformed
      ∷ []

uploads_run-IsSingle_example : IsSingle (run events opened)
uploads_run-IsSingle_example = uploads_run-IsSingle events opened opened-IsSingle

uploads_run-IsClean_example : IsClean (run events opened)
uploads_run-IsClean_example =
    uploads_run-IsClean events opened
      (tt, (tt, (tt, (tt, (tt, (tt, (tt, (tt, (tt, (tt, (tt, tt))))))))))) opened-IsClean

sent-run : length (run events opened).sent ≡ 2
unfolding run handle ng_on_init
sent-run = refl

-- the page before the button is pressed
abbrev ready : Page
ready = record opened { model = model; simulation_file = Slot.file "demo.jar" }

upload_sends_example :
    (number : String) × (read 0 number ≡ 12)
    × ((upload ready).sent
        ≡ ready.sent
          ++ record {
            body = sent_body "public" "demo.jar" number "demo" ready;
            authorization = truthy ready.auth_token;
          }
            ∷ [])
    × ((upload ready).in_flight
        ≡ ready.in_flight
          ++ record {
            body = sent_body "public" "demo.jar" number "demo" ready;
            authorization = truthy ready.auth_token;
          }
            ∷ [])
    × ((upload ready).uploading ≡ true)
unfolding ng_on_init
upload_sends_example =
    upload_sends ready "demo.jar" "public" "demo" 12 refl refl refl refl refl refl

-- the page while the request of `sends` is under way
abbrev sending : Page
sending = run sends opened

sending-IsSingle : IsSingle sending
sending-IsSingle = uploads_run-IsSingle sends opened opened-IsSingle

sending_there : is_there 0 sending.in_flight ≡ true
unfolding run handle ng_on_init
sending_there = refl

upload_ends_example :
    ((handle (finish 0 (load 500) (answer true "7")) sending).in_flight ≡ [])
    × ((handle (finish 0 (load 500) (answer true "7")) sending).uploading ≡ false)
    × ((handle (finish 0 (load 500) (answer true "7")) sending).simulation_file ≡ null)
    × ((handle (finish 0 (load 500) (answer true "7")) sending).navigations
        ≡ sending.navigations ++ seen true (load 500) "7")
upload_ends_example = upload_ends 0 (load 500) true "7" sending sending-IsSingle sending_there

upload-IsStuck_example :
    IsStuck (handle (finish 0 error malformed) sending)
    × ((run sends (handle (finish 0 error malformed) sending)).sent ≡ sending.sent)
upload-IsStuck_example = upload-IsStuck 0 error sending sends sending-IsSingle sending_there

abbrev headers : Parsed
headers = (codes "age", codes "12") ∷ (codes "via", codes "a: b") ∷ []

-- of the properties that every object inherits, one
abbrev inherited : List ℕ → Option (List ℕ)
inherited k = if same_codes k (codes "valueOf") then some (codes "f") else none

-- a name that comes twice, in other letters, and a line without a colon
headers_joined :
    parse_headers inherited (some (codes "Via: a\nok\nVIA : b"))
    ≡ (codes "via", codes "a, b") ∷ (codes "o", codes "ok") ∷ []
unfolding parse_headers
headers_joined = refl
