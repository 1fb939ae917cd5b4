-- ===== src/App/Session/Guarded.antt =====
-- Guarded pages are shown to a user who is logged in.
use Prim.Native.String.{◌++◌ as append, count}
use text.Mathlib.TextLemmas.{length-append}
use dist_gatling.Shared.{
  ℕ, ◌≡◌, refl, Bool, true, false, not, String, Option, none, some, List, [], ◌∷◌, arith,
  if◌then◌else◌, str_eq, eq_iff, ap, subst, ◌∙◌, ◌⊎◌, inl, inr, sym, Bool-cases, Option-cases,
}
use dist_gatling.App.Session.{
  Route, login, is_guarded, Platform, Navigation, Tab, is_allowed, is_logged_in, is_login,
  login_init, logout, intercept, is_caught, activate, arrive, go, follow as follow_up, settle,
  log_in,
}

module _ (platform : Platform) where
  open platform use {url, recognize, recognize-url, btoa}

  -- What happens in a tab: an address that the user enters or a link, the navigation that a script
  -- has asked for, the button of the login page, the logout of the navigation bar, and a request that
  -- fails with a status and a message.
  pub data Event : Type 0 where
    enter : Navigation → Event
    follow : Event
    submit : String → String → Event
    leave : Event
    failure : ℕ → String → Event

  unfoldable pub handle : Event → Tab → Tab
  unfolding go settle is_login log_in logout intercept
  handle (enter n) t = go platform n t
  handle follow t = settle platform t
  handle (submit u p) t = if is_login t.shown then log_in platform u p t else t
  handle leave t = if is_login t.shown then t else logout t
  handle (failure status message) t = (intercept status message t).0

  unfoldable pub run_events : List Event → Tab → Tab
  unfolding handle
  run_events [] t = t
  run_events (e ∷ es) t = run_events es (handle e t)

  -- Nobody has stored an empty text.
  abbrev pub IsStored : Option String → Type 0
  IsStored none = Unit
  IsStored (some s) = str_eq s "" ≡ false

  unfoldable pub is_public : Option Route → Bool
  unfolding is_guarded
  is_public none = true
  is_public (some r) = not (is_guarded r)

  pub leads_to_login : Option Navigation → Bool
  leads_to_login none = false
  leads_to_login (some n) = str_eq n.path "/login"

  -- A guarded page is shown to a user whom the guard lets pass, unless the login page is the next one.
  pub record IsSafe (t : Tab) : Type 0 where
    pub stored : IsStored t.current_user
    pub seen :
        is_public t.shown ≡ false
        → (is_allowed t.current_user ≡ true) ⊎ (leads_to_login t.pending ≡ true)

  pub basic_full : (s : String) → str_eq (append "Basic " s) "" ≡ false
  basic_full s = elim (Bool-cases (str_eq (append "Basic " s) "")) [
    | inl e ↦ absurd (omega (arith, length-append "Basic " s, ap count ((eq_iff _ _).0 e)))
    | inr e ↦ e
  ]

  absurd_bool {ℓ} : {A : Type ℓ} (b : Bool) → b ≡ true → b ≡ false → A
  absurd_bool b h k = absurd (ground (arith, h, k))

  public_login : (o : Option Route) → is_login o ≡ true → is_public o ≡ true
  unfolding is_login is_public
  public_login none h = absurd (ground arith)
  public_login (some r) h = h

  login_init-IsSafe : (n : Navigation) (t : Tab) → IsSafe (login_init n t)
  unfolding login_init is_public
  login_init-IsSafe n t = record { stored = tt; seen = λ e. absurd_bool true refl (ground arith) }

  activate-IsSafe :
      (n : Navigation) (r : Route) (t : Tab)
      → IsStored t.current_user
      → IsSafe (activate platform n r t)
  unfolding activate is_public leads_to_login
  activate-IsSafe n r t h = elim (Bool-cases (is_guarded r)) [
    | inl g ↦ rw g (elim (Bool-cases (is_allowed t.current_user)) [
      | inl a ↦ rw a (record { stored = h; seen = λ _. inl a })
      | inr a ↦ rw a (record { stored = h; seen = λ _. inr refl })
    ])
    | inr g ↦ rw g (elim (Bool-cases (is_login t.shown)) [
      | inl l ↦ rw l (record {
        stored = h;
        seen = λ e. absurd_bool (is_public t.shown) (public_login t.shown l) e;
      })
      | inr l ↦ rw l (login_init-IsSafe n t)
    ])
  ]

  pub go_page :
      (n : Navigation) (r : Route) (t : Tab)
      → recognize n.path ≡ some r
      → go platform n t ≡ activate platform n r t
  unfolding go
  go_page n r t e = ap (arrive platform n t) e

  go_nowhere : (n : Navigation) (t : Tab) → recognize n.path ≡ none → go platform n t ≡ t
  unfolding go
  go_nowhere n t e = ap (arrive platform n t) e

  pub settle_pending :
      (n : Navigation) (t : Tab)
      → t.pending ≡ some n
      → settle platform t ≡ go platform n (record t { pending = none })
  unfolding settle
  settle_pending n t e = ap (follow_up platform t) e

  settle_done : (t : Tab) → t.pending ≡ none → settle platform t ≡ t
  unfolding settle
  settle_done t e = ap (follow_up platform t) e

  went-IsSafe :
      (n : Navigation) (r : Route) (t : Tab)
      → recognize n.path ≡ some r
      → IsStored t.current_user
      → IsSafe (go platform n t)
  went-IsSafe n r t e h = subst IsSafe (sym (go_page n r t e)) (activate-IsSafe n r t h)

  go-IsSafe : (n : Navigation) (t : Tab) → IsSafe t → IsSafe (go platform n t)
  go-IsSafe n t h = elim (Option-cases (recognize n.path)) [
    | inl e ↦ subst IsSafe (sym (go_nowhere n t e)) h
    | inr (r, e) ↦ went-IsSafe n r t e h.stored
  ]

  pub recognize-login :
      (n : Navigation) → str_eq n.path "/login" ≡ true → recognize n.path ≡ some login
  recognize-login n l =
      ap recognize ((eq_iff n.path "/login").0 l ∙ sym platform.url-login) ∙ recognize-url login

  -- The pending navigation is to the login page, or the tab is safe without it.
  settle-IsSafe : (t : Tab) → IsSafe t → IsSafe (settle platform t)
  unfolding leads_to_login
  settle-IsSafe t h = elim (Option-cases t.pending) [
    | inl e ↦ subst IsSafe (sym (settle_done t e)) h
    | inr (n, e) ↦
        let idle = record t { pending = none } in
        subst IsSafe (sym (settle_pending n t e)) (elim (Bool-cases (str_eq n.path "/login")) [
          | inl l ↦ went-IsSafe n login idle (recognize-login n l) h.stored
          | inr l ↦ go-IsSafe n idle (record {
            stored = h.stored;
            seen = λ k. ground (arith, h.seen k, ap leads_to_login e, l);
          })
        ])
  ]

  log_in-IsSafe :
      (u p : String) (t : Tab) → is_login t.shown ≡ true → IsSafe (log_in platform u p t)
  unfolding log_in
  log_in-IsSafe u p t l = record {
    stored = basic_full (btoa (append u (append ":" p)));
    seen = λ e. absurd_bool (is_public t.shown) (public_login t.shown l) e;
  }

  logout-IsSafe : (t : Tab) → IsSafe (logout t)
  unfolding logout leads_to_login
  logout-IsSafe t = record { stored = tt; seen = λ _. inr refl }

  intercept-IsSafe :
      (status : ℕ) (m : String) (t : Tab) → IsSafe t → IsSafe (intercept status m t).0
  unfolding intercept leads_to_login
  intercept-IsSafe status m t h = elim (Bool-cases (is_caught status)) [
    | inl c ↦ rw c (record { stored = h.stored; seen = λ _. inr refl })
    | inr c ↦ rw c h
  ]

  handle-IsSafe : (e : Event) (t : Tab) → IsSafe t → IsSafe (handle e t)
  unfolding handle
  handle-IsSafe (enter n) t h = go-IsSafe n t h
  handle-IsSafe follow t h = settle-IsSafe t h
  handle-IsSafe (submit u p) t h = elim (Bool-cases (is_login t.shown)) [
    | inl l ↦ rw l (log_in-IsSafe u p t l)
    | inr l ↦ rw l h
  ]
  handle-IsSafe leave t h = elim (Bool-cases (is_login t.shown)) [
    | inl l ↦ rw l h
    | inr l ↦ rw l (logout-IsSafe t)
  ]
  handle-IsSafe (failure status m) t h = intercept-IsSafe status m t h

  -- From a tab on which it is so, whatever the user enters, submits and leaves, whatever requests
  -- fail, and however navigations interleave with these: a page with the guard `AuthGuard` is shown
  -- only to a user whom the guard lets pass, unless a navigation to the login page has been asked for
  -- and is still to be done; and nobody has stored an empty text.
  pub session-IsSafe : (es : List Event) (t : Tab) → IsSafe t → IsSafe (run_events es t)
  unfolding run_events
  session-IsSafe [] t h = h
  session-IsSafe (e ∷ es) t h = session-IsSafe es (handle e t) (handle-IsSafe e t h)

  is_logged_in-is_allowed : (o : Option String) → IsStored o → is_logged_in o ≡ is_allowed o
  unfolding is_logged_in is_allowed
  is_logged_in-is_allowed none h = refl
  is_logged_in-is_allowed (some s) h = rw h refl
