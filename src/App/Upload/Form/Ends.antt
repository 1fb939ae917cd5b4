-- ===== src/App/Upload/Form/Ends.antt =====
-- What the end of a request leaves.
use dist_gatling.Shared.{
  ℕ, zero, suc, ◌≡◌, ◌≤◌, refl, Bool, true, false, String, List, [], ◌∷◌, ◌++◌, length, arith,
  append_assoc, if◌then◌else◌, Bool-cases, inl, inr, ◌∙◌, append-nil,
}
use dist_gatling.App.Upload.{Page, Reply, malformed, answer, Request, null, state}
use dist_gatling.App.Upload.Uploader.{Ending, load, error, timeout, abort, on_end, is_success_code}
use dist_gatling.App.Upload.Form.{finish, without, is_there, handle}
use dist_gatling.App.Upload.Form.Single.{IsSingle, without_one, on_end-Same}

-- How often the callback is called.
pub calls : Ending → ℕ
calls (load status) = if is_success_code status then 1 else 2
calls error = 1
calls timeout = 1
calls abort = 1

pub visits : ℕ → String → List String
visits zero id = []
visits (suc n) id = id ∷ visits n id

-- the pages that the calls for an answer go to
abbrev pub seen : Bool → Ending → String → List String
seen ok e id = if ok then visits (calls e) id else []

abbrev Answered : Bool → Ending → String → Page → Page → Type 0
Answered ok e id p q =
    (q.uploading ≡ false)
    × (q.simulation_file ≡ null)
    × (q.navigations ≡ p.navigations ++ seen ok e id)

on_end_answer :
    (e : Ending) (ok : Bool) (id : String) (p : Page)
    → p.item.callback ≡ true
    → Answered ok e id p (state (on_end e (answer ok id) p))
unfolding on_end calls visits
on_end_answer (load status) true id p c = elim (Bool-cases (is_success_code status)) [
  | inl good ↦ rw good (ground arith)
  | inr bad ↦ rw bad (ground (arith, append_assoc p.navigations (id ∷ []) (id ∷ [])))
]
on_end_answer (load status) false id p c = ground (arith, append-nil p.navigations)
on_end_answer error true id p c = ground arith
on_end_answer error false id p c = ground (arith, append-nil p.navigations)
on_end_answer timeout true id p c = ground arith
on_end_answer timeout false id p c = ground (arith, append-nil p.navigations)
on_end_answer abort true id p c = ground arith
on_end_answer abort false id p c = ground (arith, append-nil p.navigations)

pub on_end_malformed :
    (e : Ending) (p : Page)
    → p.item.callback ≡ true
    → ((state (on_end e malformed p)).uploading ≡ p.uploading)
      × ((state (on_end e malformed p)).navigations ≡ p.navigations)
unfolding on_end
on_end_malformed (load status) p c = (ground arith, ground arith)
on_end_malformed error p c = (ground arith, ground arith)
on_end_malformed timeout p c = (ground arith, ground arith)
on_end_malformed abort p c = (ground arith, ground arith)

pub one_flight :
    (i : ℕ) (p : Page) → IsSingle p → is_there i p.in_flight ≡ true → length p.in_flight ≡ 1
unfolding is_there
one_flight i p h there = one i p.in_flight there h.few
  where
    one : (k : ℕ) (rs : List Request) → is_there k rs ≡ true → length rs ≤ 1 → length rs ≡ 1
    one k [] t few = absurd (ground arith)
    one k (r ∷ []) t few = refl
    one k (r ∷ q ∷ rs) t few = absurd (omega arith)

-- The page from which a request has been taken.
abbrev pub taken : ℕ → Page → Page
taken i p = record p { in_flight = without i p.in_flight }

pub handle-finish :
    (i : ℕ) (e : Ending) (r : Reply) (p : Page)
    → is_there i p.in_flight ≡ true
    → handle (finish i e r) p ≡ state (on_end e r (taken i p))
unfolding handle
handle-finish i e r p there = rw there refl

-- On a page with at most one request under way, which says so, when that request ends and the response
-- can be read, however it ends: no request is under way, the
-- uploader is free for the next one, the file has been taken out of the form, and the page has gone
-- to the job as often as the callback was called, if the response says success, and else stayed. The
-- callback is called once, but twice when the request is loaded with a status that is no success.
pub upload_ends :
    (i : ℕ) (e : Ending) (ok : Bool) (id : String) (p : Page)
    → IsSingle p
    → is_there i p.in_flight ≡ true
    → ((handle (finish i e (answer ok id)) p).in_flight ≡ [])
      × ((handle (finish i e (answer ok id)) p).uploading ≡ false)
      × ((handle (finish i e (answer ok id)) p).simulation_file ≡ null)
      × ((handle (finish i e (answer ok id)) p).navigations ≡ p.navigations ++ seen ok e id)
upload_ends i e ok id p h there =
    let (free, cleared, gone) =
      on_end_answer e ok id (taken i p) (h.bound (one_flight i p h there)) in
    rw (handle-finish i e (answer ok id) p there) (
      (on_end-Same e (answer ok id) (taken i p)).in_flight ∙ without_one i p.in_flight there h.few,
      free,
      cleared,
      gone,
    )
