-- ===== src/App/Upload/Form/Stuck.antt =====
-- The uploader after a response that cannot be read.
use dist_gatling.Shared.{ℕ, ◌≡◌, refl, true, List, [], ◌∷◌, arith, ◌∙◌, none, some}
use dist_gatling.App.Upload.{Page, malformed, state}
use dist_gatling.App.Upload.Uploader.{Ending, on_end, upload_item}
use dist_gatling.App.Upload.Form.{
  upload, Event, edit, select, select_resources, press, partitions, failure, finish, is_there,
  handle, run, select_file, select_resources_file, fetch_failed, fetched_partitions, filled,
}
use dist_gatling.App.Upload.Form.Single.{IsSingle, without_one, on_end-Same}
use dist_gatling.App.Upload.Form.Ends.{on_end_malformed, one_flight, taken, handle-finish}

-- The uploader is marked as uploading and no request is under way.
pub record IsStuck (p : Page) : Type 0 where
  pub marked : p.uploading ≡ true
  pub idle : p.in_flight ≡ []

record Stays (p q : Page) : Type 0 where
  stuck : IsStuck q
  sent : q.sent ≡ p.sent

upload-Stays : (p : Page) → IsStuck p → Stays p (upload p)
unfolding upload upload_item filled
upload-Stays p h = ground arith

handle-Stays : (e : Event) (p : Page) → IsStuck p → Stays p (handle e p)
unfolding handle select_file select_resources_file fetched_partitions fetch_failed is_there
handle-Stays (edit m) p h = record {
  stuck = record { marked = h.marked; idle = h.idle };
  sent = refl;
}
handle-Stays (select none) p h = record { stuck = h; sent = refl }
handle-Stays (select (some n)) p h = record {
  stuck = record { marked = h.marked; idle = h.idle };
  sent = refl;
}
handle-Stays (select_resources none) p h = record { stuck = h; sent = refl }
handle-Stays (select_resources (some n)) p h = record {
  stuck = record { marked = h.marked; idle = h.idle };
  sent = refl;
}
handle-Stays press p h = upload-Stays p h
handle-Stays (partitions []) p h = record {
  stuck = record { marked = h.marked; idle = h.idle };
  sent = refl;
}
handle-Stays (failure m) p h = record {
  stuck = record { marked = h.marked; idle = h.idle };
  sent = refl;
}
handle-Stays (partitions (k ∷ ks)) p h = record {
  stuck = record { marked = h.marked; idle = h.idle };
  sent = refl;
}
handle-Stays (finish i e r) p h =
    rw h.idle (record { stuck = record { marked = h.marked; idle = refl }; sent = refl })

sent-run : (es : List Event) (p : Page) → IsStuck p → (run es p).sent ≡ p.sent
unfolding run
sent-run [] p h = refl
sent-run (e ∷ es) p h =
    let stays = handle-Stays e p h in sent-run es (handle e p) stays.stuck ∙ stays.sent

-- On a page with at most one request under way, which says so, when that request ends and the callback
-- cannot read the response, however it ends, the uploader stays
-- marked as uploading with no request under way; and then no request is sent any more, whatever the
-- user and the network do.
pub upload-IsStuck :
    (i : ℕ) (e : Ending) (p : Page) (es : List Event)
    → IsSingle p
    → is_there i p.in_flight ≡ true
    → IsStuck (handle (finish i e malformed) p)
      × ((run es (handle (finish i e malformed) p)).sent ≡ p.sent)
upload-IsStuck i e p es h there =
    let one = one_flight i p h there in
    let same = on_end-Same e malformed (taken i p) in
    let (kept, nowhere) = on_end_malformed e (taken i p) (h.bound one) in
    let stuck : IsStuck (state (on_end e malformed (taken i p))) = record {
      marked = kept ∙ h.busy one;
      idle = same.in_flight ∙ without_one i p.in_flight there h.few;
    } in
    rw (handle-finish i e malformed p there)
      (stuck, sent-run es (state (on_end e malformed (taken i p))) stuck ∙ same.sent)
