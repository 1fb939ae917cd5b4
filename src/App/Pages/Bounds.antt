-- ===== src/App/Pages/Bounds.antt =====
-- The page stays within the list.
use dist_gatling.Shared.{
  ℕ, ◌+◌, ◌-◌, ◌≡◌, ◌≤◌, refl, true, false, String, Option, none, some, List, [], ◌∷◌, ◌++◌, arith,
  All, max, Bool-cases, inl, inr, ◌⊎◌, str_eq, eq_iff, ltb→lt, ltb, sym, ◌∙◌,
}
use dist_gatling.App.Session.{is_caught}
use dist_gatling.App.Pages.{
  PagedResult, Listing, fetch_data, ng_on_init, has_next, on_next, on_prev, Answer, pages, failure,
  subscribe, take_request, Event, next, prev, respond, answered, handle, run, is_success, is_failed,
  is_normal_status,
}

-- a page that there is, when there are so many; the first one is there always
abbrev pub IsPage : ℕ → ℕ → Type 0
IsPage total page = (1 ≤ page) × (page ≤ max 1 total)

-- A result says that number of pages.
abbrev pub Says : ℕ → Option PagedResult → Type 0
Says total none = Unit
Says total (some r) = r.total_pages ≡ total

pub record IsBounded (total : ℕ) (l : Listing) : Type 0 where
  pub current : IsPage total l.current_page
  pub asked : All (IsPage total) l.asked
  pub result : Says total l.paged_result

All-concat :
    (total : ℕ) (ps : List ℕ) (p : ℕ)
    → All (IsPage total) ps
    → IsPage total p
    → All (IsPage total) (ps ++ p ∷ [])
All-concat total [] p h k = (k, tt)
All-concat total (x ∷ ps) p (h, hs) k = (h, All-concat total ps p hs k)

fetch_data-IsBounded :
    (total : ℕ) (l : Listing) → IsBounded total l → IsBounded total (fetch_data l)
unfolding fetch_data
fetch_data-IsBounded total l h = record {
  current = h.current;
  asked = All-concat total l.asked l.current_page h.asked h.current;
  result = h.result;
}

has_next_lt :
    (total page : ℕ) (o : Option PagedResult)
    → Says total o
    → has_next page o ≡ true
    → page + 1 ≤ total
unfolding has_next
has_next_lt total page none h e = absurd (ground arith)
has_next_lt total page (some r) k e = ground arith

on_next-IsBounded : (total : ℕ) (l : Listing) → IsBounded total l → IsBounded total (on_next l)
unfolding on_next
on_next-IsBounded total l h = elim (Bool-cases (has_next l.current_page l.paged_result)) [
  | inl e ↦
      let more = has_next_lt total l.current_page l.paged_result h.result e in
      rw e (
        fetch_data-IsBounded total (record l { current_page = l.current_page + 1 })
          (record {
            current = (omega arith, ground (arith, more));
            asked = h.asked;
            result = h.result;
          }))
  | inr e ↦ rw e h
]

on_prev-IsBounded : (total : ℕ) (l : Listing) → IsBounded total l → IsBounded total (on_prev l)
unfolding on_prev
on_prev-IsBounded total l h = elim (Bool-cases (ltb 1 l.current_page)) [
  | inl e ↦
      let more = ltb→lt 1 l.current_page e in
      rw e (
        fetch_data-IsBounded total (record l { current_page = l.current_page - 1 })
          (record {
            current = (omega (arith, more), ground (arith, h.current.1));
            asked = h.asked;
            result = h.result;
          }))
  | inr e ↦ rw e h
]

-- The server says the same number of pages in every answer.
abbrev pub IsOf : ℕ → Event → Type 0
IsOf total (respond i (pages n)) = n ≡ total
IsOf total _ = Unit

subscribe-IsBounded :
    (total page i : ℕ) (a : Answer) (l : Listing)
    → IsOf total (respond i a)
    → IsBounded total l
    → IsBounded total (subscribe page a l)
unfolding subscribe
subscribe-IsBounded total page i (pages n) l e h = record {
  current = h.current;
  asked = h.asked;
  result = e;
}
subscribe-IsBounded total page i (failure s m) l e h = elim (Bool-cases (is_caught s)) [
  | inl c ↦ rw c h
  | inr c ↦ rw c (record { current = h.current; asked = h.asked; result = h.result })
]

answered-IsBounded :
    (total i : ℕ) (a : Answer) (l : Listing) (o : Option (ℕ × List ℕ))
    → IsOf total (respond i a)
    → IsBounded total l
    → IsBounded total (answered a l o)
unfolding answered
answered-IsBounded total i a l none e h = h
answered-IsBounded total i a l (some (page, rest)) e h =
    subscribe-IsBounded total page i a (record l { requests = rest }) e
      (record { current = h.current; asked = h.asked; result = h.result })

handle-IsBounded :
    (total : ℕ) (e : Event) (l : Listing)
    → IsOf total e
    → IsBounded total l
    → IsBounded total (handle e l)
unfolding handle
handle-IsBounded total next l k h = on_next-IsBounded total l h
handle-IsBounded total prev l k h = on_prev-IsBounded total l h
handle-IsBounded total (respond i a) l k h =
    answered-IsBounded total i a l (take_request i l.requests) k h

run-IsBounded :
    (total : ℕ) (es : List Event) (l : Listing)
    → All (IsOf total) es
    → IsBounded total l
    → IsBounded total (run es l)
unfolding run
run-IsBounded total [] l k h = h
run-IsBounded total (e ∷ es) l (k, ks) h =
    run-IsBounded total es (handle e l) ks (handle-IsBounded total e l k h)

-- For a server with a fixed number of pages, whatever buttons are pressed and in whatever order
-- requests are answered or fail: the current page and every page that was asked for lie between 1 and
-- that number, where the first page may be asked for even if there is none.
pub listing-IsBounded :
    (total : ℕ) (es : List Event) → All (IsOf total) es → IsBounded total (run es ng_on_init)
unfolding ng_on_init fetch_data
listing-IsBounded total es k = run-IsBounded total es ng_on_init k (record {
  current = (omega arith, ground arith);
  asked = ((omega arith, ground arith), tt);
  result = tt;
})

-- Every status is shown in exactly one of the three ways.
status_once :
    (s : String)
    → ((is_success s ≡ true) × (is_failed s ≡ false) × (is_normal_status s ≡ false))
      ⊎ ((is_success s ≡ false) × (is_failed s ≡ true) × (is_normal_status s ≡ false))
      ⊎ ((is_success s ≡ false) × (is_failed s ≡ false) × (is_normal_status s ≡ true))
unfolding is_success is_failed is_normal_status
status_once s = elim (Bool-cases (str_eq s "COMPLETED")) [
  | inl c ↦ elim (Bool-cases (str_eq s "FAILED")) [
    | inl f ↦
        let same = sym ((eq_iff s "COMPLETED").0 c) ∙ (eq_iff s "FAILED").0 f in
        absurd (ground (arith, (eq_iff "COMPLETED" "FAILED").1 same))
    | inr f ↦ inl (rw c refl, rw f refl, rw f (rw c refl))
  ]
  | inr c ↦ elim (Bool-cases (str_eq s "FAILED")) [
    | inl f ↦ inr (inl (rw c refl, rw f refl, rw f refl))
    | inr f ↦ inr (inr (rw c refl, rw f refl, rw f (rw c refl)))
  ]
]
