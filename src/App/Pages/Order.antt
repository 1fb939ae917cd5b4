-- ===== src/App/Pages/Order.antt =====
-- Which page the list shows.
use dist_gatling.Shared.{
  ℕ, zero, suc, ◌+◌, ◌-◌, ◌≡◌, refl, Option, none, some, List, [], ◌∷◌, ◌++◌, arith, All,
  Bool-cases, inl, inr, ltb,
}
use dist_gatling.App.Pages.{
  PagedResult, Listing, fetch_data, ng_on_init, has_next, on_next, on_prev, pages, failure,
  subscribe, take_request, Event, next, prev, respond, answered, handle, run,
}

-- the page asked for last
abbrev newest : ℕ → List ℕ → ℕ
newest p [] = p
newest p (q ∷ qs) = newest q qs

newest-concat : (p : ℕ) (ps : List ℕ) (q : ℕ) → newest p (ps ++ q ∷ []) ≡ q
newest-concat p [] q = refl
newest-concat p (x ∷ ps) q = newest-concat x ps q

-- The request under way that was made last is for the current page; if none is, the result shown is.
abbrev Shows : List ℕ → Option PagedResult → ℕ → Type 0
Shows [] none page = ⊥
Shows [] (some r) page = r.page ≡ page
Shows (p ∷ ps) o page = newest p ps ≡ page

abbrev IsLatest : Listing → Type 0
IsLatest l = Shows l.requests l.paged_result l.current_page

fetched-Shows : (ps : List ℕ) (o : Option PagedResult) (page : ℕ) → Shows (ps ++ page ∷ []) o page
fetched-Shows [] o page = refl
fetched-Shows (p ∷ ps) o page = newest-concat p ps page

fetch_data-IsLatest : (l : Listing) → IsLatest (fetch_data l)
unfolding fetch_data
fetch_data-IsLatest l = fetched-Shows l.requests l.paged_result l.current_page

-- Answers come in the order of the requests, and none fails.
abbrev pub IsOrdered : Event → Type 0
IsOrdered (respond zero (pages n)) = Unit
IsOrdered (respond _ _) = ⊥
IsOrdered _ = Unit

first_answered :
    (n : ℕ) (ps : List ℕ) (l : Listing)
    → l.requests ≡ ps
    → IsLatest l
    → IsLatest (answered (pages n) l (take_request 0 ps))
unfolding answered subscribe take_request
first_answered n [] l e h = h
first_answered n (p ∷ []) l e h = rw e at h
first_answered n (p ∷ q ∷ ps) l e h = rw e at h

handle-IsLatest : (e : Event) (l : Listing) → IsOrdered e → IsLatest l → IsLatest (handle e l)
unfolding handle on_next on_prev
handle-IsLatest next l k h = elim (Bool-cases (has_next l.current_page l.paged_result)) [
  | inl e ↦ rw e (fetch_data-IsLatest (record l { current_page = l.current_page + 1 }))
  | inr e ↦ rw e h
]
handle-IsLatest prev l k h = elim (Bool-cases (ltb 1 l.current_page)) [
  | inl e ↦ rw e (fetch_data-IsLatest (record l { current_page = l.current_page - 1 }))
  | inr e ↦ rw e h
]
handle-IsLatest (respond zero (pages n)) l k h = first_answered n l.requests l refl h
handle-IsLatest (respond zero (failure s m)) l k h = absurd k
handle-IsLatest (respond (suc i) a) l k h = absurd k

run-IsLatest : (es : List Event) (l : Listing) → All IsOrdered es → IsLatest l → IsLatest (run es l)
unfolding run
run-IsLatest [] l k h = h
run-IsLatest (e ∷ es) l (k, ks) h = run-IsLatest es (handle e l) ks (handle-IsLatest e l k h)

start-IsLatest : IsLatest ng_on_init
unfolding ng_on_init fetch_data
start-IsLatest = refl

shown_result :
    (ps : List ℕ) (o : Option PagedResult) (page : ℕ)
    → Shows ps o page
    → ps ≡ []
    → (r : PagedResult) × (o ≡ some r) × (r.page ≡ page)
shown_result [] none page h e = absurd h
shown_result [] (some r) page h e = (r, refl, h)
shown_result (p ∷ ps) o page h e = absurd (ground (arith, e))

-- Whatever buttons are pressed, if requests do not fail and are answered in the order in which they
-- were made: once none is under way, the list shows the result for the current page.
pub listing_shows :
    (es : List Event)
    → All IsOrdered es
    → (run es ng_on_init).requests ≡ []
    → (r : PagedResult) × ((run es ng_on_init).paged_result ≡ some r)
      × (r.page ≡ (run es ng_on_init).current_page)
unfolding ng_on_init
listing_shows es k e =
    let l = run es ng_on_init in
    shown_result l.requests l.paged_result l.current_page
      (run-IsLatest es ng_on_init k start-IsLatest) e

-- If the later of two requests is answered first, the list is left with the result of the earlier
-- one, for a page that need not be the current one, with no request under way.
listing_stale :
    (l : Listing) (p q total : ℕ)
    → l.requests ≡ p ∷ q ∷ []
    → ((run (respond 1 (pages total) ∷ respond 0 (pages total) ∷ []) l).requests ≡ [])
      × ((run (respond 1 (pages total) ∷ respond 0 (pages total) ∷ []) l).current_page
          ≡ l.current_page)
      × ((run (respond 1 (pages total) ∷ respond 0 (pages total) ∷ []) l).paged_result
          ≡ some (record { total_pages = total; page = p }))
unfolding run handle
listing_stale l p q total e = rw e (refl, refl, refl)
