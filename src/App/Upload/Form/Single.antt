-- ===== src/App/Upload/Form/Single.antt =====
-- At most one request is under way.
use dist_gatling.Shared.{
  ℕ, zero, suc, ◌+◌, ◌≡◌, ◌≤◌, refl, true, false, List, [], ◌∷◌, length, length-append, arith, none,
  some, Bool-cases, inl, inr, ap, ◌∙◌,
}
use dist_gatling.App.Upload.{Page, Reply, malformed, answer, Request, state}
use dist_gatling.App.Upload.Uploader.{
  Ending, load, error, timeout, abort, on_end, upload_item, xhr_transport,
}
use dist_gatling.App.Upload.Form.{
  upload, Event, edit, select, select_resources, press, partitions, failure, finish, without,
  is_there, handle, run, select_file, select_resources_file, fetch_failed, fetched_partitions,
  filled,
}

pub without_one :
    (i : ℕ) (rs : List Request) → is_there i rs ≡ true → length rs ≤ 1 → without i rs ≡ []
unfolding is_there without
without_one i [] h few = refl
without_one zero (r ∷ []) h few = refl
without_one zero (r ∷ q ∷ rs) h few = absurd (omega arith)
without_one (suc i) (r ∷ []) h few = absurd (ground arith)
without_one (suc i) (r ∷ q ∷ rs) h few = absurd (omega arith)

-- The handlers of an end start no request.
pub record Same (p q : Page) : Type 0 where
  pub in_flight : q.in_flight ≡ p.in_flight
  pub sent : q.sent ≡ p.sent

pub on_end-Same : (e : Ending) (r : Reply) (p : Page) → Same p (state (on_end e r p))
unfolding on_end
on_end-Same (load status) malformed p = ground arith
on_end-Same (load status) (answer ok id) p = ground arith
on_end-Same error malformed p = ground arith
on_end-Same error (answer ok id) p = ground arith
on_end-Same timeout malformed p = ground arith
on_end-Same timeout (answer ok id) p = ground arith
on_end-Same abort malformed p = ground arith
on_end-Same abort (answer ok id) p = ground arith

-- At most one request is under way, and while it is, the uploader says so and the item's callback is
-- not null.
pub record IsSingle (p : Page) : Type 0 where
  pub few : length p.in_flight ≤ 1
  pub busy : length p.in_flight ≡ 1 → p.uploading ≡ true
  pub bound : length p.in_flight ≡ 1 → p.item.callback ≡ true

finish-IsSingle :
    (i : ℕ) (e : Ending) (r : Reply) (p : Page) → IsSingle p → IsSingle (handle (finish i e r) p)
unfolding handle
finish-IsSingle i e r p h = elim (Bool-cases (is_there i p.in_flight)) [
  | inl there ↦ rw there (ended there)
  | inr gone ↦ rw gone h
]
  where
    q : Page
    q = record p { in_flight = without i p.in_flight }

    ended : is_there i p.in_flight ≡ true → IsSingle (state (on_end e r q))
    ended there =
        let none_left : length (state (on_end e r q)).in_flight ≡ 0 =
          ap length ((on_end-Same e r q).in_flight ∙ without_one i p.in_flight there h.few) in
        record {
          few = omega (arith, none_left);
          busy = λ one. absurd (omega (arith, none_left, one));
          bound = λ one. absurd (omega (arith, none_left, one));
        }

filled-IsSingle : (p : Page) → IsSingle p → IsSingle (filled p)
unfolding filled
filled-IsSingle p h = record { few = h.few; busy = h.busy; bound = λ _. refl }

callback-filled : (p : Page) → (filled p).item.callback ≡ true
unfolding filled
callback-filled p = refl

abbrev marked : Page → Page
marked p = record p { uploading = true }

upload_item_busy : (p : Page) → p.uploading ≡ true → upload_item p ≡ p
unfolding upload_item
upload_item_busy p h = ground arith

upload_item_free : (p : Page) → p.uploading ≡ false → upload_item p ≡ xhr_transport (marked p)
unfolding upload_item
upload_item_free p h = ground arith

length-transport : (p : Page) → length (xhr_transport p).in_flight ≡ length p.in_flight + 1
unfolding xhr_transport
length-transport p = length-append p.in_flight _

uploading-transport : (p : Page) → (xhr_transport p).uploading ≡ p.uploading
unfolding xhr_transport
uploading-transport p = refl

callback-transport : (p : Page) → (xhr_transport p).item.callback ≡ p.item.callback
unfolding xhr_transport
callback-transport p = refl

upload_item-IsSingle : (p : Page) → p.item.callback ≡ true → IsSingle p → IsSingle (upload_item p)
unfolding upload_item
upload_item-IsSingle p c h = elim (Bool-cases p.uploading) [
  | inl busy ↦ rw (upload_item_busy p busy) h
  | inr free ↦
      let idle : length p.in_flight ≡ 0 = ground (arith, free, h.few, h.busy) in
      rw (upload_item_free p free) (record {
        few = omega (arith, length-transport (marked p), idle);
        busy = λ _. uploading-transport (marked p);
        bound = λ _. callback-transport (marked p) ∙ c;
      })
]

handle-IsSingle : (e : Event) (p : Page) → IsSingle p → IsSingle (handle e p)
unfolding handle upload select_file select_resources_file fetched_partitions fetch_failed
handle-IsSingle (edit m) p h = record { few = h.few; busy = h.busy; bound = h.bound }
handle-IsSingle (select none) p h = h
handle-IsSingle (select (some n)) p h = record { few = h.few; busy = h.busy; bound = h.bound }
handle-IsSingle (select_resources none) p h = h
handle-IsSingle (select_resources (some n)) p h = record {
  few = h.few;
  busy = h.busy;
  bound = h.bound;
}
handle-IsSingle press p h =
    ground (arith, upload_item-IsSingle (filled p) (callback-filled p) (filled-IsSingle p h))
handle-IsSingle (partitions []) p h = record { few = h.few; busy = h.busy; bound = h.bound }
handle-IsSingle (failure m) p h = record { few = h.few; busy = h.busy; bound = h.bound }
handle-IsSingle (partitions (k ∷ ks)) p h = record { few = h.few; busy = h.busy; bound = h.bound }
handle-IsSingle (finish i e r) p h = finish-IsSingle i e r p h

-- Whatever the user and the network do, from a page on which it is so: at most one request is under
-- way; while it is, the uploader is marked as uploading, and the item's callback is not null when the
-- end of the request calls it.
pub uploads_run-IsSingle : (es : List Event) (p : Page) → IsSingle p → IsSingle (run es p)
unfolding run
uploads_run-IsSingle [] p h = h
uploads_run-IsSingle (e ∷ es) p h = uploads_run-IsSingle es (handle e p) (handle-IsSingle e p h)
