-- ===== src/App/Upload.antt =====
-- The upload of a simulation: `RunComponent` in
-- gatling-rest/static/src/app/dashboard/run/run.component.ts with its `MultipartItem` and
-- `MultipartUploader` in multipart-item.ts and multipart-uploader.ts beside it. The hooks that the
-- two classes leave empty are left out.
pub mod Uploader
pub mod Form
pub mod Headers
use dist_gatling.Shared.{
  ℕ, zero, suc, Bool, true, false, not, ◌&&◌, ◌||◌, String, Option, none, some, List, [], ◌∷◌, ◌++◌,
  leb, ltb, ◌==◌, if◌then◌else◌, str_eq,
}
use dist_gatling.Shared.Decimal.{decimal}

-- A field of the component that holds a file: never set, set to null, or set.
pub data Slot : Type 0 where
  undefined null : Slot
  file : String → Slot

-- `null == slot`
abbrev pub is_absent : Slot → Bool
is_absent (file name) = false
is_absent _ = true

-- What `append` stores: a text, or a file.
pub data Field : Type 0 where
  text part : String → Field

-- `append` with a slot, which writes what is no file as a text.
unfoldable pub slot_field : Slot → Field
slot_field undefined = text "undefined"
slot_field null = text "null"
slot_field (file name) = part name

abbrev pub Body : Type 0
Body = List (String × Field)

-- `SimulationModel`; a field of the form may be null.
pub record SimulationModel : Type 0 where
  pub package_name : Option String
  pub partition_name : Option String
  pub parameter : String
  pub user_name : String
  pub access_key : String
  pub parallelism : Option ℕ

-- The response: what `JSON.parse` refuses, and what is not an object; or the fields that the callback
-- reads, `success` as a condition.
pub data Reply : Type 0 where
  malformed : Reply
  answer : Bool → String → Reply

-- `MultipartItem`; `callback` says whether it is the component's `uploadCallback` or null.
pub record MultipartItem : Type 0 where
  pub form_data : Option Body
  pub is_ready : Bool
  pub is_uploading : Bool
  pub is_uploaded : Bool
  pub is_success : Bool
  pub is_cancel : Bool
  pub is_error : Bool
  pub progress : ℕ
  pub callback : Bool

pub record Request : Type 0 where
  pub body : Body
  pub authorization : Option String

-- The component with its item and its uploader (`uploading` and `auth_token` are fields of that), the
-- pages it has navigated to, the requests that have not ended, and all that were sent.
pub record Page : Type 0 where
  pub model : SimulationModel
  pub partitions : Option (List String)
  pub error_message : Option String
  pub simulation_file : Slot
  pub data_file : Slot
  pub resources_file : Slot
  pub success : Bool
  pub navigations : List String
  pub item : MultipartItem
  pub uploading : Bool
  pub auth_token : Option String
  pub in_flight : List Request
  pub sent : List Request

-- What a method leaves: the state when it returns, or when an exception leaves it.
pub data Done : Type 0 where
  returned threw : Page → Done

infixl 5 ◌>>=◌
abbrev pub ◌>>=◌ : Done → (Page → Done) → Done
returned p >>= f = f p
threw p >>= f = threw p

abbrev pub state : Done → Page
state (returned p) = p
state (threw p) = p

-- `init` of the item, also its first state
unfoldable pub init : MultipartItem → MultipartItem
init i = record {
  form_data = none;
  is_ready = false;
  is_uploading = false;
  is_uploaded = false;
  is_success = false;
  is_cancel = false;
  is_error = false;
  progress = 0;
  callback = false;
}

-- `navigateToJobDetail`
abbrev pub navigate : String → Page → Page
navigate id p = record p { navigations = p.navigations ++ id ∷ [] }

-- `uploadCallback`
unfoldable pub upload_callback : Reply → Page → Done
upload_callback reply p =
    let p1 = record p { simulation_file = null; data_file = null; resources_file = null } in
    elim reply [
      | malformed ↦ threw p1
      | answer ok id ↦
          returned (
            if ok
            then navigate id (record p1 { success = true })
            else record p1 { success = false })
    ]

-- `this.callback(response)`; a call of null throws.
unfoldable pub call_back : Reply → Page → Done
unfolding upload_callback
call_back reply p = if p.item.callback then upload_callback reply p else threw p

-- `_onBeforeUpload`
unfoldable pub on_before_upload : MultipartItem → MultipartItem
on_before_upload i = record i {
  is_ready = true;
  is_uploading = true;
  is_uploaded = false;
  is_success = false;
  is_cancel = false;
  is_error = false;
  progress = 0;
}

-- `_onSuccess`
unfoldable pub on_success : MultipartItem → MultipartItem
on_success i = record i {
  is_ready = false;
  is_uploading = false;
  is_uploaded = true;
  is_success = true;
  is_cancel = false;
  is_error = false;
  progress = 100;
}

-- `_onError` up to the callback
unfoldable pub on_error : MultipartItem → MultipartItem
on_error i = record i {
  is_ready = false;
  is_uploading = false;
  is_uploaded = true;
  is_success = false;
  is_cancel = false;
  is_error = true;
  progress = 0;
}

-- `_onProgress`, `_onCancel` and `_prepareToUploading`, which nothing calls
abbrev on_progress : ℕ → MultipartItem → MultipartItem
on_progress n i = record i { progress = n }

abbrev pub on_cancel : MultipartItem → MultipartItem
on_cancel i = record i {
  is_ready = false;
  is_uploading = false;
  is_uploaded = false;
  is_success = false;
  is_cancel = true;
  is_error = false;
  progress = 0;
}

abbrev prepare_to_uploading : MultipartItem → MultipartItem
prepare_to_uploading i = record i { is_ready = true }
