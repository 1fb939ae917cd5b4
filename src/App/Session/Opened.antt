-- ===== src/App/Session/Opened.antt =====
-- Which page a step can show.
use dist_gatling.Shared.{ℕ, ◌≡◌, refl, true, Option, none, some, ◌⊎◌, inl, inr, Bool-cases, String}
use dist_gatling.App.Session.{
  Route, is_guarded, Platform, Navigation, Tab, is_allowed, is_login, login_init, activate, arrive,
  go, follow as follow_up, settle, log_in, logout, intercept, is_caught,
}
use dist_gatling.App.Session.Guarded.{
  Event, enter, follow, submit, leave, failure, handle, is_public,
}

module _ (platform : Platform) where
  open platform use {recognize}

  -- From one tab to the next: the page stays, or it is public, or the user is let pass.
  abbrev pub IsAdmitted : Tab → Tab → Type 0
  IsAdmitted t t' =
      (t'.shown ≡ t.shown)
      ⊎ (is_public platform t'.shown ≡ true)
      ⊎ (is_allowed t'.current_user ≡ true)

  activate-IsAdmitted :
      (n : Navigation) (r : Route) (t : Tab) → IsAdmitted t (activate platform n r t)
  unfolding activate login_init is_public
  activate-IsAdmitted n r t = elim (Bool-cases (is_guarded r)) [
    | inl g ↦ rw g (elim (Bool-cases (is_allowed t.current_user)) [
      | inl a ↦ rw a (inr (inr a))
      | inr a ↦ rw a (inl refl)
    ])
    | inr g ↦ rw g (elim (Bool-cases (is_login t.shown)) [
      | inl l ↦ rw l (inl refl)
      | inr l ↦ rw l (inr (inl refl))
    ])
  ]

  arrive-IsAdmitted :
      (n : Navigation) (t : Tab) (o : Option Route) → IsAdmitted t (arrive platform n t o)
  unfolding arrive
  arrive-IsAdmitted n t none = inl refl
  arrive-IsAdmitted n t (some r) = activate-IsAdmitted n r t

  go-IsAdmitted : (n : Navigation) (t : Tab) → IsAdmitted t (go platform n t)
  unfolding go
  go-IsAdmitted n t = arrive-IsAdmitted n t (recognize n.path)

  follow-IsAdmitted : (t : Tab) (o : Option Navigation) → IsAdmitted t (follow_up platform t o)
  unfolding follow_up
  follow-IsAdmitted t none = inl refl
  follow-IsAdmitted t (some n) = go-IsAdmitted n (record t { pending = none })

  shown-intercept : (status : ℕ) (m : String) (t : Tab) → (intercept status m t).0.shown ≡ t.shown
  unfolding intercept
  shown-intercept status m t = elim (Bool-cases (is_caught status)) [
    | inl c ↦ rw c refl
    | inr c ↦ rw c refl
  ]

  -- Whatever happens in a tab, in any state: the page that is shown stays, or the new one is public,
  -- or the guard lets the user pass.
  pub handle-IsAdmitted : (e : Event platform) (t : Tab) → IsAdmitted t (handle platform e t)
  unfolding handle settle log_in logout
  handle-IsAdmitted (enter n) t = go-IsAdmitted n t
  handle-IsAdmitted follow t = follow-IsAdmitted t t.pending
  handle-IsAdmitted (submit u p) t =
      inl (elim (Bool-cases (is_login t.shown)) [ inl l ↦ rw l refl | inr l ↦ rw l refl ])
  handle-IsAdmitted leave t =
      inl (elim (Bool-cases (is_login t.shown)) [ inl l ↦ rw l refl | inr l ↦ rw l refl ])
  handle-IsAdmitted (failure status m) t = inl (shown-intercept status m t)
