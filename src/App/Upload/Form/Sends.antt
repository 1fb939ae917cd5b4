-- ===== src/App/Upload/Form/Sends.antt =====
-- What the button sends.
use dist_gatling.Shared.{ℕ, ◌≡◌, refl, true, false, String, [], ◌∷◌, ◌++◌, none, some}
use dist_gatling.Shared.Decimal.{decimal}
use dist_gatling.Shared.Decimal.Read.{read, read-decimal}
use dist_gatling.App.Upload.{Slot, text, part, slot_field, Body, Page}
use dist_gatling.App.Upload.Uploader.{upload_item, xhr_transport, truthy}
use dist_gatling.App.Upload.Form.{upload, filled, form_fields, is_valid}

-- The fields of a form whose names and number of workers are given.
abbrev pub sent_body : String → String → String → String → Page → Body
sent_body partition name number pack p =
    ("partitionName", text partition)
    ∷ ("simulationFile", part name)
    ∷ ("parallelism", text number)
    ∷ ("packageName", text pack)
    ∷ ("userName", text p.model.user_name)
    ∷ ("accessKey", text p.model.access_key)
    ∷ ("resourcesFile", slot_field p.resources_file)
    ∷ ("parameter", text p.model.parameter)
    ∷ []

-- On a page whose uploader is free, whose item holds no data, and whose form has a file and no null,
-- the button sends one request, which is under way then: it has the form's fields as they are and the
-- token if there is one, and its field `parallelism` is read back as the number of the form.
pub upload_sends :
    (p : Page) (name partition pack : String) (n : ℕ)
    → p.uploading ≡ false
    → p.item.form_data ≡ none
    → p.simulation_file ≡ Slot.file name
    → p.model.partition_name ≡ some partition
    → p.model.package_name ≡ some pack
    → p.model.parallelism ≡ some n
    → (number : String) × (read 0 number ≡ n)
      × ((upload p).sent
          ≡ p.sent
            ++ record {
              body = sent_body partition name number pack p;
              authorization = truthy p.auth_token;
            }
              ∷ [])
      × ((upload p).in_flight
          ≡ p.in_flight
            ++ record {
              body = sent_body partition name number pack p;
              authorization = truthy p.auth_token;
            }
              ∷ [])
      × ((upload p).uploading ≡ true)
unfolding upload is_valid filled form_fields upload_item xhr_transport slot_field
upload_sends p name partition pack n free empty file part_given pack_given number_given = (
  decimal n,
  read-decimal n,
  rw (file, part_given, pack_given, number_given, free, empty) refl,
  rw (file, part_given, pack_given, number_given, free, empty) refl,
  rw (file, part_given, pack_given, number_given, free) refl,
)
