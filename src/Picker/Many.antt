-- ===== src/Picker/Many.antt =====
-- What a click does to a `select` with many choices.
use dist_gatling.Shared.{
  ℕ, zero, suc, ◌≡◌, refl, Bool, true, false, not, List, [], ◌∷◌, map, if◌then◌else◌, ◌∙◌, ap,
  Option, none, some, Bool-cases, inl, inr, arith,
}
use dist_gatling.Jquery.{
  Jquery, has_class, attr, prop, bool, set_prop, IsPristine, state_value, found_has,
}
use dist_gatling.Jquery.Laws.{
  get-set_prop, get-set_attr, get-remove_attr, state_prop-remove_attr, state_prop-set_attr_set,
}
use dist_gatling.Picker.{
  Row, Picker, is_selected, update_row, render, on_click, taken, clicked, row_at, at_index,
  toggle_row, on_option, mark, click_single,
}
use dist_gatling.Picker.Choose.{on_click_enabled}

module _ ⦃j : Jquery⦄ where
  -- A script has set the option's property, to selected.
  abbrev IsMarked : Row → Type 0
  IsMarked r = j.get (prop "selected") r.option ≡ bool true

  mark-IsMarked : (r : Row) → IsMarked (on_option mark r)
  unfolding on_option
  mark-IsMarked r =
      get-set_attr "selected" "selected" "selected" (set_prop "selected" true r.option)
      ∙ get-set_prop "selected" true r.option

  toggle_row-IsMarked : (r : Row) → IsMarked r → IsMarked (toggle_row r)
  unfolding toggle_row on_option
  toggle_row-IsMarked r h = elim (Bool-cases (is_selected r)) [
    | inl e ↦ rw e (get-remove_attr "selected" "selected" r.option ∙ h)
    | inr e ↦ rw e (mark-IsMarked r)
  ]

  toggle_unselected-IsMarked : (r : Row) → is_selected r ≡ false → IsMarked (toggle_row r)
  unfolding toggle_row
  toggle_unselected-IsMarked r e = rw e (mark-IsMarked r)

  -- The row with a number has been set.
  abbrev SetAt : ℕ → List Row → Type 0
  SetAt i [] = ⊥
  SetAt zero (r ∷ rs) = IsMarked r
  SetAt (suc i) (r ∷ rs) = SetAt i rs

  pub selected_at : ℕ → List Row → Bool
  selected_at i [] = false
  selected_at zero (r ∷ rs) = is_selected r
  selected_at (suc i) (r ∷ rs) = selected_at i rs

  is_selected-IsMarked : (r : Row) → IsMarked r → is_selected r ≡ true
  is_selected-IsMarked r h = ap (λ v. state_value v (j.get (attr "selected") r.option)) h

  selected_at-SetAt : (i : ℕ) (rs : List Row) → SetAt i rs → selected_at i rs ≡ true
  unfolding selected_at
  selected_at-SetAt i [] h = absurd h
  selected_at-SetAt zero (r ∷ rs) h = is_selected-IsMarked r h
  selected_at-SetAt (suc i) (r ∷ rs) h = selected_at-SetAt i rs h

  update-SetAt : (i : ℕ) (rs : List Row) → SetAt i rs → SetAt i (map update_row rs)
  unfolding update_row
  update-SetAt i [] h = absurd h
  update-SetAt zero (r ∷ rs) h = h
  update-SetAt (suc i) (r ∷ rs) h = update-SetAt i rs h

  toggle-SetAt : (i k : ℕ) (rs : List Row) → SetAt i rs → SetAt i (at_index k toggle_row rs)
  unfolding at_index
  toggle-SetAt i k [] h = absurd h
  toggle-SetAt zero zero (r ∷ rs) h = toggle_row-IsMarked r h
  toggle-SetAt zero (suc k) (r ∷ rs) h = h
  toggle-SetAt (suc i) zero (r ∷ rs) h = h
  toggle-SetAt (suc i) (suc k) (r ∷ rs) h = toggle-SetAt i k rs h

  set-SetAt :
      (i : ℕ) (rs : List Row) (r : Row)
      → row_at i rs ≡ some r
      → is_selected r ≡ false
      → SetAt i (at_index i toggle_row rs)
  unfolding at_index row_at
  set-SetAt i [] r h e = absurd (ground arith)
  set-SetAt zero (x ∷ rs) r h e = toggle_unselected-IsMarked x (ap (found_has is_selected) h ∙ e)
  set-SetAt (suc i) (x ∷ rs) r h e = set-SetAt i rs r h e

  record IsKept (i : ℕ) (p : Picker) : Type 0 where
    many : p.multiple ≡ true
    there : SetAt i p.rows

  clicked-IsKept :
      (i k : ℕ) (p : Picker) (found : Option Row) → IsKept i p → IsKept i (clicked k p found)
  unfolding clicked render taken
  clicked-IsKept i k p none h = h
  clicked-IsKept i k p (some r) h = elim (Bool-cases (has_class "disabled" r.item)) [
    | inl off ↦ rw off h
    | inr on ↦ rw on (
        rw h.many (record {
          many = refl;
          there = update-SetAt i (at_index k toggle_row p.rows) (toggle-SetAt i k p.rows h.there);
        }))
  ]

  pub clicks : List ℕ → Picker → Picker
  clicks [] p = p
  clicks (k ∷ ks) p = clicks ks (on_click k p)

  clicks-IsKept : (i : ℕ) (ks : List ℕ) (p : Picker) → IsKept i p → IsKept i (clicks ks p)
  unfolding clicks on_click
  clicks-IsKept i [] p h = h
  clicks-IsKept i (k ∷ ks) p h =
      clicks-IsKept i ks (on_click k p) (clicked-IsKept i k p (row_at k p.rows) h)

  -- In a `select` with many choices, an option that a click has selected stays selected whatever is
  -- clicked from then on, its own item too.
  on_click_sticks :
      (i : ℕ) (ks : List ℕ) (p : Picker) (r : Row)
      → p.multiple ≡ true
      → row_at i p.rows ≡ some r
      → has_class "disabled" r.item ≡ false
      → is_selected r ≡ false
      → selected_at i (clicks ks (on_click i p)).rows ≡ true
  unfolding render taken
  on_click_sticks i ks p r many found enabled off =
      let set = set-SetAt i p.rows r found off in
      let first : IsKept i (render (taken i r p)) =
        rw many
          (record { many = refl; there = update-SetAt i (at_index i toggle_row p.rows) set }) in
      let kept = clicks-IsKept i ks (render (taken i r p)) first in
      ap (λ q. selected_at i (Picker.rows (clicks ks q))) (on_click_enabled i p r found enabled)
      ∙ selected_at-SetAt i (clicks ks (render (taken i r p))).rows kept.there

  is_selected-toggle_row :
      (r : Row) → IsPristine "selected" r.option → is_selected (toggle_row r) ≡ not (is_selected r)
  unfolding toggle_row on_option
  is_selected-toggle_row r h = elim (Bool-cases (is_selected r)) [
    | inl e ↦ rw e (state_prop-remove_attr "selected" r.option h)
    | inr e ↦ rw e (
        state_prop-set_attr_set "selected" "selected" true (set_prop "selected" true r.option)
          (get-set_prop "selected" true r.option))
  ]

  selected_at-update :
      (i : ℕ) (rs : List Row) → selected_at i (map update_row rs) ≡ selected_at i rs
  unfolding selected_at update_row
  selected_at-update i [] = refl
  selected_at-update zero (r ∷ rs) = refl
  selected_at-update (suc i) (r ∷ rs) = selected_at-update i rs

  selected_at-toggle :
      (i : ℕ) (rs : List Row) (r : Row)
      → row_at i rs ≡ some r
      → selected_at i (at_index i toggle_row rs) ≡ is_selected (toggle_row r)
  unfolding selected_at at_index row_at
  selected_at-toggle i [] r h = absurd (ground arith)
  selected_at-toggle zero (x ∷ rs) r h = ap (found_has (λ y. is_selected (toggle_row y))) h
  selected_at-toggle (suc i) (x ∷ rs) r h = selected_at-toggle i rs r h

  -- In a `select` with many choices, a click on an item that is not disabled flips its option as long
  -- as no script has set the option's property.
  on_click_flips :
      (i : ℕ) (p : Picker) (r : Row)
      → p.multiple ≡ true
      → row_at i p.rows ≡ some r
      → has_class "disabled" r.item ≡ false
      → IsPristine "selected" r.option
      → selected_at i (on_click i p).rows ≡ not (is_selected r)
  unfolding render taken click_single
  on_click_flips i p r many found enabled pristine =
      ap (λ q. selected_at i (Picker.rows q)) (on_click_enabled i p r found enabled)
      ∙ selected_at-update i (taken i r p).rows
      ∙ ap (λ b. selected_at i (if b then at_index i toggle_row p.rows else click_single i p.rows))
          many
      ∙ selected_at-toggle i p.rows r found
      ∙ is_selected-toggle_row r pristine
