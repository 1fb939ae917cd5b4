-- ===== src/Lib.antt =====
-- The distGatling dashboard and the master of its cluster as functions with proofs: the Angular
-- application in gatling-rest/static/src/app, the scripts in gatling-rest/static/src/assets/js, and the
-- master with its jobs in gatling-commons/src/main/java/com/alh/gatling/commons. The page loads
-- jQuery, then the scripts; they bind handlers to the page's elements, and the browser calls the
-- handlers and the functions given to `setTimeout` and `setInterval`. The application shows one page
-- for each address, sends requests to the server and takes the answers in the order in which they
-- come. The server passes what is uploaded to the master, an actor that takes one message after the
-- other: it gives jobs to the workers that ask for work, and persists each event before it applies it.
--
-- The parts, each with its file here and its script:
-- - Shared: the native numbers, lists, tests, signed integers and how a number is written.
-- - Jquery: jQuery and the browser's elements, which the scripts call, as a record with a get and a
--   put. Its one law is that a write is read back where it was made and nowhere else; Jquery/Simple
--   is a function from keys to values that meets it. A state such as `checked` is what was last set
--   as a property, and until then whether the attribute is there, as in HTML and jQuery 3.
-- - Menu (gatling.js): `debounce` in Menu/Debounce, with the browser's timers as a list; the handlers
--   of the menu's button and of the layer over the page in Menu/Toggle; `lbd`, that is
--   `checkSidebarImage`, `initSidebarCheck`, `initRightMenu` and `initBootstrapNavbarMenu`, in
--   Menu/Sidebar.
-- - Greeting (demo.js, notify.js): `demo.showNotification` and `initNotify`, for a random draw that
--   is a parameter.
-- - Check (bootstrap-checkbox-radio-switch.js): what check boxes and radio buttons share in
--   Check/Widget, the two plugins in Check/Checkbox and Check/Radio, `bootstrapSwitch` in
--   Check/Switch, with its `init` in Check/Switch/Markup.
-- - Notify (bootstrap-notify.js): `String.format` in Notify/Format, the constructor and the test for
--   duplicates in Notify/Settings, `buildNotify` and the commands of `update` in Notify/Update,
--   `placement`, `reposition` and what `close` and `update` do to the page in Notify/Stack, `bind` in
--   Notify/Countdown, what follows `placement` in Notify/Opening, the rest of `close` in
--   Notify/Closing.
-- - Picker (bootstrap-select.js): `createLi` in Picker/Markup; `render`, the handler of clicks, `val`
--   and `reloadLi` in Picker, `init` in Picker/Setup and its size of the menu in Picker/Size; the call of
--   `$.fn.selectpicker` in Picker/Plugin, for the other methods of its object as a parameter.
-- - App (the application, paths from gatling-rest/static/src/app):
--   - App/Upload: the state of the form that sends a simulation, with its `MultipartItem`
--     (dashboard/run/multipart-item.ts); `uploadItem` and the handlers of the end of a request in
--     App/Upload/Uploader (multipart-uploader.ts), `_parseHeaders` in App/Upload/Headers, which no
--     handler reads the result of; `RunComponent` in App/Upload/Form
--     (run.component.ts). The form gives the item its callback, the uploader sends the item's data,
--     and the ends of the request call the item, which calls the form. A method returns or is left
--     by an exception, which keeps what was done before.
--   - App/Session: `AuthGuard` (guard/auth.guard.ts), `ErrorInterceptor` (services/interceptor.ts),
--     `LoginComponent` (dashboard/login), `MODULE_ROUTES` (dashboard/dashboard.routes.ts), `logout`
--     (shared/navbar) and `isLoggedIn` (app.component.ts), for a router and a `btoa` that are the
--     record Platform. A navigation that a script asks for is done later, or replaced before.
--   - App/Pages: `RunningComponent` (dashboard/running), which dashboard/completed repeats.
--   - App/Detail: `DetailComponent` (dashboard/detail), with all its instances and their intervals.
--   - App/Service: `WorkerService` (services/workers.service.ts), for `HttpHeaders` as a record.
--   - App/Title: `getTitle` (shared/navbar) and `ROUTES` (sidebar).
--   - App/Metrics: the metrics of `MasterComponent` (dashboard/master).
--   - App/Workers: `WorkersComponent` (dashboard/workers).
--   - App/Home: what `HomeComponent` (dashboard/home) gives to Chartist.
-- - Jobs (paths from gatling-commons/src/main/java/com/alh/gatling/commons):
--   - Jobs: `Job` (Master.java), `Result` (Worker.java), TaskEvent.java and the events (JobState.java).
--   - Jobs/Summary: JobSummary.java, the status that the tasks of a job have together.
--   - Jobs/Database: JobState.java. A constructor gives the next state, or none if an exception leaves
--     it.
--   - Jobs/Master: Master.java, with its state and the handlers of what clients send; the handlers of
--     what workers send in Jobs/Master/Workers, those for files in Jobs/Master/Files, `getTrackingInfo` in
--     Jobs/Database/Tracking; `onCleanupTick`, `createReceive`, `createReceiveRecover` and `recovery` in
--     Jobs/Master/Mailbox. A handler returns or is left by an exception, with what
--     it has persisted before: as Akka does it, the events that a message persists are in the journal
--     before their handlers run, and these run before the next message. What recovery replays of a
--     journal is the record Recovery, with two laws. Identifiers are drawn from outside and given with
--     the message, times too, and whether a file can be read; maps keep the order in which their keys were put.
-- - Examples: the theorems at concrete inputs, and runs.
-- The children of a part's module hold its proofs, and are named for what they prove.
--
-- State is passed explicitly: a handler is a function from the state of the elements that it reaches
-- to the next one, and what the user, the page and the browser do is a list of events, or for the end
-- of a notification a step relation. Times and lengths are whole milliseconds and pixels, of any
-- size; percentages of a drag are in hundredths. No loop needs fuel but the writing of a number: as
-- many digits as the number has units, and one more, are enough.
--
-- Not modelled: the drawing of the page, templates, tooltips and scrolling, since the browser and
-- Angular do them; constant styles; `noConflict`, `destroy` of a switch; jQuery, Bootstrap, Chartist
-- and Angular, which are other projects; the bundles of the application, which are generated; the
-- declarations of its modules; of the Java services, the actors that run simulations, the endpoints
-- and clients, and of the master the handlers that change nothing but tell what is stored or forward
-- it; time stamps, the contents of files, and the paths and names that a job carries.
pub mod Shared
pub mod App
pub mod Jobs
pub mod Jquery
pub mod Check
pub mod Greeting
pub mod Menu
pub mod Notify
pub mod Picker
mod Examples
