-- ===== src/Picker/Choose.antt =====
-- What a click selects.
use dist_gatling.Shared.{
  ℕ, zero, suc, ◌<◌, ◌≡◌, refl, Bool, true, false, List, [], ◌∷◌, map, arith, if◌then◌else◌, ◌∙◌,
  ap, ap₂, some, length, length-map, lt→ltb,
}
use dist_gatling.Jquery.{Jquery, has_class, set_prop, remove_attr}
use dist_gatling.Jquery.Laws.{state_prop-set_prop, state_prop-set_attr_set, get-set_prop}
use dist_gatling.Picker.{
  Row, Picker, is_selected, update_row, render, on_click, taken, clicked, row_at, at_index, choose,
  click_single, toggle_row, on_option, mark,
}

all_false : ℕ → List Bool
all_false zero = []
all_false (suc n) = false ∷ all_false n

-- a list of a length that is true at one place alone
pub only : ℕ → ℕ → List Bool
unfolding all_false
only i zero = []
only zero (suc n) = true ∷ all_false n
only (suc i) (suc n) = false ∷ only i n

module _ ⦃j : Jquery⦄ where
  -- which options are selected
  abbrev pub flags : List Row → List Bool
  flags = map is_selected

  is_selected-mark : (r : Row) → is_selected (on_option mark r) ≡ true
  unfolding on_option
  is_selected-mark r =
      state_prop-set_attr_set "selected" "selected" true (set_prop "selected" true r.option)
        (get-set_prop "selected" true r.option)

  is_selected-unset : (r : Row) → is_selected (on_option (set_prop "selected" false) r) ≡ false
  unfolding on_option
  is_selected-unset r = state_prop-set_prop "selected" false r.option

  flags-update : (rs : List Row) → flags (map update_row rs) ≡ flags rs
  unfolding update_row
  flags-update [] = refl
  flags-update (r ∷ rs) = ap (λ bs. is_selected r ∷ bs) (flags-update rs)

  unset : List Row → List Row
  unset = map (on_option (set_prop "selected" false))

  flags-unset : (rs : List Row) → flags (unset rs) ≡ all_false (length rs)
  unfolding all_false unset
  flags-unset [] = refl
  flags-unset (r ∷ rs) = ap₂ (λ b bs. b ∷ bs) (is_selected-unset r) (flags-unset rs)

  flags-mark :
      (i : ℕ) (rs : List Row) → flags (at_index i (on_option mark) (unset rs)) ≡ only i (length rs)
  unfolding only at_index unset
  flags-mark i [] = refl
  flags-mark zero (r ∷ rs) =
      ap₂ (λ b bs. b ∷ bs) (is_selected-mark (on_option (set_prop "selected" false) r))
        (flags-unset rs)
  flags-mark (suc i) (r ∷ rs) = ap₂ (λ b bs. b ∷ bs) (is_selected-unset r) (flags-mark i rs)

  flags-choose : (i : ℕ) (rs : List Row) → i < length rs → flags (choose i rs) ≡ only i (length rs)
  unfolding choose unset
  flags-choose i rs h = rw (lt→ltb i (length rs) h) (flags-mark i rs)

  -- A row that is found stands in the list.
  row_at-length : (i : ℕ) (rs : List Row) (r : Row) → row_at i rs ≡ some r → i < length rs
  unfolding row_at
  row_at-length i [] r h = absurd (ground arith)
  row_at-length zero (x ∷ rs) r h = omega arith
  row_at-length (suc i) (x ∷ rs) r h = omega (arith, row_at-length i rs r h)

  pub on_click_enabled :
      (i : ℕ) (p : Picker) (r : Row)
      → row_at i p.rows ≡ some r
      → has_class "disabled" r.item ≡ false
      → on_click i p ≡ render (taken i r p)
  unfolding on_click clicked
  on_click_enabled i p r found enabled = rw found (rw enabled refl)

  -- In a `select` with one choice, a click on an item that is there and not disabled selects its
  -- option and no other.
  pub on_click_single :
      (i : ℕ) (p : Picker) (r : Row)
      → p.multiple ≡ false
      → row_at i p.rows ≡ some r
      → has_class "disabled" r.item ≡ false
      → flags (on_click i p).rows ≡ only i (length p.rows)
  unfolding render taken click_single
  on_click_single i p r one found enabled =
      let cleared = map (on_option (remove_attr "selected")) p.rows in
      let same = length-map (on_option (remove_attr "selected")) p.rows in
      let there = row_at-length i p.rows r found in
      let chosen = flags-choose i cleared (omega (arith, same, there)) in
      ap (λ q. flags (Picker.rows q)) (on_click_enabled i p r found enabled)
      ∙ flags-update (taken i r p).rows
      ∙ ap (λ b. flags (if b then at_index i toggle_row p.rows else click_single i p.rows)) one
      ∙ chosen
      ∙ ap (only i) same
