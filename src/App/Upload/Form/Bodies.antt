-- ===== src/App/Upload/Form/Bodies.antt =====
-- What the requests carry.
use dist_gatling.Shared.{
  ℕ, ◌≡◌, refl, true, false, not, ◌||◌, String, List, [], ◌∷◌, ◌++◌, map, arith, none, some, All,
  Bool-cases, inl, inr, sym, subst,
}
use dist_gatling.App.Upload.{Body, Page, Reply, malformed, answer, Request, state, is_absent}
use dist_gatling.App.Upload.Uploader.{
  Ending, load, error, timeout, abort, on_end, upload_item, xhr_transport,
}
use dist_gatling.App.Upload.Form.{
  upload, Event, edit, select, select_resources, press, partitions, failure, finish, is_there,
  handle, run, select_file, select_resources_file, fetch_failed, fetched_partitions, filled,
  form_fields, without, is_valid,
}
use dist_gatling.App.Upload.Form.Single.{on_end-Same}

abbrev pub field_names : List String
field_names =
    "partitionName" ∷ "simulationFile" ∷ "parallelism" ∷ "packageName" ∷ "userName" ∷ "accessKey"
    ∷ "resourcesFile" ∷ "parameter" ∷ []

-- Each of the eight fields stands in the request once.
abbrev pub IsWhole : Request → Type 0
IsWhole r = map (λ f. f.0) r.body ≡ field_names

-- The browser gives an empty response for a request that failed or timed out.
abbrev pub IsDocumented : Event → Type 0
IsDocumented (finish i error (answer ok id)) = ⊥
IsDocumented (finish i timeout (answer ok id)) = ⊥
IsDocumented _ = Unit

-- The item holds no data while the uploader is free.
abbrev IsEmpty : Page → Type 0
IsEmpty p = p.uploading ≡ false → p.item.form_data ≡ none

pub record IsClean (p : Page) : Type 0 where
  pub empty : p.uploading ≡ false → p.item.form_data ≡ none
  pub whole : All IsWhole p.sent

All-concat :
    (rs : List Request) (r : Request) → All IsWhole rs → IsWhole r → All IsWhole (rs ++ r ∷ [])
All-concat [] r h k = (k, tt)
All-concat (x ∷ rs) r (h, hs) k = (h, All-concat rs r hs k)

on_end-IsEmpty :
    (i : ℕ) (e : Ending) (r : Reply) (p : Page)
    → IsDocumented (finish i e r)
    → IsEmpty p
    → IsEmpty (state (on_end e r p))
unfolding on_end
on_end-IsEmpty i (load status) malformed p d h = ground arith
on_end-IsEmpty i (load status) (answer ok id) p d h = ground arith
on_end-IsEmpty i error malformed p d h = ground arith
on_end-IsEmpty i error (answer ok id) p d h = absurd d
on_end-IsEmpty i timeout malformed p d h = ground arith
on_end-IsEmpty i timeout (answer ok id) p d h = absurd d
on_end-IsEmpty i abort malformed p d h = ground arith
on_end-IsEmpty i abort (answer ok id) p d h = ground arith

filled-body :
    (p : Page) → p.item.form_data ≡ none → (filled p).item.form_data ≡ some (form_fields p)
unfolding filled
filled-body p e = rw e refl

form_fields-names : (p : Page) → map (λ f. f.0) (form_fields p) ≡ field_names
unfolding form_fields
form_fields-names p = refl

transport-IsClean :
    (p : Page) (b : Body)
    → p.uploading ≡ true
    → p.item.form_data ≡ some b
    → map (λ f. f.0) b ≡ field_names
    → All IsWhole p.sent
    → IsClean (xhr_transport p)
unfolding xhr_transport
transport-IsClean p b busy e names h = record {
  empty = λ free. absurd (ground (arith, busy, free));
  whole = All-concat p.sent _ h (rw e names);
}

-- The form's data goes into a request of its own, or nowhere.
filled-IsClean : (p : Page) → IsClean p → IsClean (upload_item (filled p))
unfolding upload_item filled
filled-IsClean p h = elim (Bool-cases p.uploading) [
  | inl busy ↦
      rw busy (record { empty = λ free. absurd (ground (arith, busy, free)); whole = h.whole })
  | inr free ↦ rw free (
      transport-IsClean (record (filled p) { uploading = true }) (form_fields p) refl
        (filled-body p (h.empty free)) (form_fields-names p) h.whole)
]

upload-IsClean : (p : Page) → IsClean p → IsClean (upload p)
unfolding upload
upload-IsClean p h = elim (Bool-cases (is_absent p.simulation_file || not (is_valid p.model))) [
  | inl refused ↦ rw refused h
  | inr accepted ↦ rw accepted (filled-IsClean p h)
]

finish-IsClean :
    (i : ℕ) (e : Ending) (r : Reply) (p : Page)
    → IsDocumented (finish i e r)
    → IsClean p
    → IsClean (handle (finish i e r) p)
unfolding handle
finish-IsClean i e r p d h = elim (Bool-cases (is_there i p.in_flight)) [
  | inl there ↦ rw there (record {
    empty = on_end-IsEmpty i e r (record p { in_flight = without i p.in_flight }) d h.empty;
    whole =
        subst (All IsWhole)
          (sym (on_end-Same e r (record p { in_flight = without i p.in_flight })).sent) h.whole;
  })
  | inr gone ↦ rw gone h
]

handle-IsClean : (e : Event) (p : Page) → IsDocumented e → IsClean p → IsClean (handle e p)
unfolding handle select_file select_resources_file fetched_partitions fetch_failed
handle-IsClean (edit m) p d h = record { empty = h.empty; whole = h.whole }
handle-IsClean (select none) p d h = h
handle-IsClean (select (some n)) p d h = record { empty = h.empty; whole = h.whole }
handle-IsClean (select_resources none) p d h = h
handle-IsClean (select_resources (some n)) p d h = record { empty = h.empty; whole = h.whole }
handle-IsClean press p d h = upload-IsClean p h
handle-IsClean (partitions []) p d h = record { empty = h.empty; whole = h.whole }
handle-IsClean (failure m) p d h = record { empty = h.empty; whole = h.whole }
handle-IsClean (partitions (k ∷ ks)) p d h = record { empty = h.empty; whole = h.whole }
handle-IsClean (finish i e r) p d h = finish-IsClean i e r p d h

-- From a page on which it is so, whatever the user does and the server answers, as long as requests
-- that fail or time out have no readable response: each request that was sent has the eight fields of
-- the form, each once and in the form's order, also if the button is pressed again while a request is
-- under way; and the item holds no data while the uploader is free.
pub uploads_run-IsClean :
    (es : List Event) (p : Page) → All IsDocumented es → IsClean p → IsClean (run es p)
unfolding run
uploads_run-IsClean [] p d h = h
uploads_run-IsClean (e ∷ es) p (d, ds) h =
    uploads_run-IsClean es (handle e p) ds (handle-IsClean e p d h)
