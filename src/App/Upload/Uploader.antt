-- ===== src/App/Upload/Uploader.antt =====
-- `MultipartUploader` in gatling-rest/static/src/app/dashboard/run/multipart-uploader.ts: the request
-- and the handlers of its end.
use dist_gatling.Shared.{
  ℕ, Bool, true, false, ◌&&◌, ◌||◌, String, Option, none, some, [], ◌∷◌, ◌++◌, leb, ltb, ◌==◌,
  if◌then◌else◌, str_eq,
}
use dist_gatling.App.Upload.{
  Body, Reply, Request, Page, Done, returned, ◌>>=◌, init, call_back, on_before_upload, on_success,
  on_error, on_cancel,
}

-- `_onSuccessItem` of the uploader
unfoldable pub on_success_item : Page → Done
unfolding on_success
on_success_item p = returned (record p { item = on_success p.item })

-- `_onErrorItem`: the item's `_onError`, then `onErrorItem`
unfoldable pub on_error_item : Reply → Page → Done
unfolding on_error call_back
on_error_item reply p = call_back reply (record p { item = on_error p.item }) >>= λ q.
    returned (record q { uploading = false })

-- `_onCompleteItem`, with the item's `onComplete`
unfoldable pub on_complete_item : Reply → Page → Done
unfolding call_back init
on_complete_item reply p =
    call_back reply p >>= λ q. returned (record q { item = init q.item; uploading = false })

-- `_onCancelItem`, which nothing calls
abbrev on_cancel_item : Page → Done
on_cancel_item p = returned (record p { item = on_cancel p.item })

-- `_isSuccessCode`
unfoldable pub is_success_code : ℕ → Bool
is_success_code status = leb 200 status && ltb status 300 || status == 304

-- How a request ends, and with which status.
pub data Ending : Type 0 where
  load : ℕ → Ending
  error timeout abort : Ending

-- The handlers that `_xhrTransport` sets.
unfoldable pub on_end : Ending → Reply → Page → Done
unfolding on_success_item on_error_item on_complete_item is_success_code
on_end (load status) reply p =
    (if is_success_code status then on_success_item p else on_error_item reply p)
    >>= on_complete_item reply
on_end error reply p = on_error_item reply p
on_end timeout reply p = on_error_item reply p
on_end abort reply p = on_complete_item reply p

-- `if (this.authToken)`
abbrev pub truthy : Option String → Option String
truthy none = none
truthy (some s) = if str_eq s "" then none else some s

abbrev or_empty : Option Body → Body
or_empty none = []
or_empty (some b) = b

-- `_xhrTransport`
unfoldable pub xhr_transport : Page → Page
unfolding on_before_upload
xhr_transport p =
    let i = on_before_upload p.item in
    let request : Request = record {
      body = or_empty i.form_data;
      authorization = truthy p.auth_token;
    } in
    record p { item = i; in_flight = p.in_flight ++ request ∷ []; sent = p.sent ++ request ∷ [] }

-- `uploadItem`
unfoldable pub upload_item : Page → Page
unfolding xhr_transport
upload_item p = if p.uploading then p else xhr_transport (record p { uploading = true })
