-- ===== src/App/Detail/Polls.antt =====
-- How often the details of jobs are asked for.
use dist_gatling.Shared.{
  ℕ, zero, suc, ◌+◌, ◌≡◌, refl, true, String, List, [], ◌∷◌, ◌++◌, arith, length, length-append,
  length-map, ap, ◌∙◌, map,
}
use dist_gatling.App.Detail.{
  Detail, Tab, Event, opened, changed, destroyed, ticked, acted, ng_on_init, at_component,
  is_detail, poll_all, handle, run, act, on_params, ng_on_destroy,
}

-- how often the page of a job is opened
pub opens : List Event → ℕ
opens [] = 0
opens (opened id ∷ es) = suc (opens es)
opens (changed i id ∷ es) = opens es
opens (destroyed i ∷ es) = opens es
opens (ticked href ∷ es) = opens es
opens (acted i a ∷ es) = opens es

length-at_component :
    (i : ℕ) (f : Detail → Detail) (ds : List Detail) → length (at_component i f ds) ≡ length ds
unfolding at_component
length-at_component i f [] = refl
length-at_component zero f (d ∷ ds) = refl
length-at_component (suc i) f (d ∷ ds) = ap suc (length-at_component i f ds)

components-handle :
    (e : Event) (t : Tab) → length (handle e t).components ≡ length t.components + opens (e ∷ [])
unfolding handle opens ng_on_init
components-handle (opened id) t = length-append t.components _
components-handle (changed i id) t = length-at_component i (on_params id) t.components ∙ omega arith
components-handle (destroyed i) t = length-at_component i ng_on_destroy t.components ∙ omega arith
components-handle (ticked href) t = omega arith
components-handle (acted i a) t = length-at_component i (act a) t.components ∙ omega arith

opens-cons : (e : Event) (es : List Event) → opens (e ∷ es) ≡ opens (e ∷ []) + opens es
unfolding opens
opens-cons (opened id) es = omega arith
opens-cons (changed i id) es = omega arith
opens-cons (destroyed i) es = omega arith
opens-cons (ticked href) es = omega arith
opens-cons (acted i a) es = omega arith

components-run :
    (es : List Event) (t : Tab) → length (run es t).components ≡ length t.components + opens es
unfolding run
components-run [] t = unfold opens in omega arith
components-run (e ∷ es) t =
    omega (arith, components-run es (handle e t), components-handle e t, opens-cons e es)

poll_all-map :
    (href : String) (ds : List Detail)
    → is_detail href ≡ true
    → poll_all href ds ≡ map (λ (d : Detail). d.tracking_id) ds
unfolding poll_all
poll_all-map href [] h = refl
poll_all-map href (d ∷ ds) h = rw h (ap (λ xs. d.tracking_id ∷ xs) (poll_all-map href ds h))

-- After whatever happened in a tab that started without such pages, 30 seconds on a page whose
-- address contains "detail" ask for the details of one job for each time that the page of a job was
-- opened, also of those that were destroyed since: no interval ever ends.
pub polls_leak :
    (es : List Event) (href : String) (t : Tab)
    → t.components ≡ []
    → is_detail href ≡ true
    → (length (poll_all href (run es t).components) ≡ opens es)
      × ((handle (ticked href) (run es t)).asked
          ≡ (run es t).asked ++ map (λ (d : Detail). d.tracking_id) (run es t).components)
unfolding handle
polls_leak es href t e h =
    let asked = poll_all-map href (run es t).components h in
    (
      ap length asked
          ∙ length-map (λ (d : Detail). d.tracking_id) (run es t).components
          ∙ components-run es t
          ∙ omega (arith, ap length e),
      ap (λ xs. (run es t).asked ++ xs) asked,
    )
