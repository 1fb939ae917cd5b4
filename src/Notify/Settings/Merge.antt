-- ===== src/Notify/Settings/Merge.antt =====
-- Laws of the settings and of the test for duplicates.
use dist_gatling.Shared.{
  ◌≡◌, refl, false, not, ◌||◌, String, List, [], ◌∷◌, any, arith, Bool-cases, inl, inr,
}
use dist_gatling.Notify.Settings.{Settings, Shown, is_same, duplicate_loop, is_duplicate, shows_new}

duplicate_loop-any :
    (title message alert : String) (ss : List Shown)
    → duplicate_loop title message alert false ss ≡ any (is_same title message alert) ss
unfolding duplicate_loop
duplicate_loop-any title message alert [] = refl
duplicate_loop-any title message alert (s ∷ ss) =
    elim (Bool-cases (is_same title message alert s)) [
      | inl e ↦ rw e
      | inr e ↦ rw e (duplicate_loop-any title message alert ss)
    ]

-- A notification is shown exactly if duplicates are allowed or no notification on the page has its
-- title, its message and its type.
shows_new-any :
    (s : Settings) (title message alert : String) (page : List Shown)
    → shows_new s (is_duplicate title message alert page)
      ≡ (s.options.allow_duplicates || not (any (is_same title message alert) page))
unfolding shows_new is_duplicate
shows_new-any s title message alert page =
    ground (arith, duplicate_loop-any title message alert page)
