-- ===== src/Picker/Show.antt =====
-- The list shows the `select`.
use dist_gatling.Shared.{
  ℕ, ◌≡◌, refl, Bool, true, false, List, [], ◌∷◌, map, All, ◌∙◌, Option, none, some, Bool-cases,
  inl, inr,
}
use dist_gatling.Jquery.{Jquery, has_class}
use dist_gatling.Jquery.Laws.{
  has_class-add_class, has_class-remove_class, has_class-add_class_ne, has_class-remove_class_ne,
}
use dist_gatling.Picker.{
  Row, Picker, is_selected, is_disabled, set_selected, set_disabled, update_row, render, clicked,
  taken, assigned, renewed, on_click, val, reload_li, row_at,
}

module _ ⦃j : Jquery⦄ where
  -- The item has the class `selected` exactly if its option is selected, and `disabled` exactly if
  -- its option or the group is disabled.
  pub record IsShown (r : Row) : Type 0 where
    pub selected : has_class "selected" r.item ≡ is_selected r
    pub disabled : has_class "disabled" r.item ≡ is_disabled r

  has_class-set_selected : (b : Bool) (n : j.Node) → has_class "selected" (set_selected b n) ≡ b
  unfolding set_selected
  has_class-set_selected true n = has_class-add_class "selected" n
  has_class-set_selected false n = has_class-remove_class "selected" n

  has_class-set_disabled : (b : Bool) (n : j.Node) → has_class "disabled" (set_disabled b n) ≡ b
  unfolding set_disabled
  has_class-set_disabled true n = has_class-add_class "disabled" n
  has_class-set_disabled false n = has_class-remove_class "disabled" n

  disabled-set_selected :
      (b : Bool) (n : j.Node) → has_class "disabled" (set_selected b n) ≡ has_class "disabled" n
  unfolding set_selected
  disabled-set_selected true n = has_class-add_class_ne "disabled" "selected" n refl
  disabled-set_selected false n = has_class-remove_class_ne "disabled" "selected" n refl

  update_row-IsShown : (r : Row) → IsShown (update_row r)
  unfolding update_row
  update_row-IsShown r = record {
    selected = has_class-set_selected (is_selected r) (set_disabled (is_disabled r) r.item);
    disabled =
        disabled-set_selected (is_selected r) (set_disabled (is_disabled r) r.item)
        ∙ has_class-set_disabled (is_disabled r) r.item;
  }

  update_rows-IsShown : (rs : List Row) → All IsShown (map update_row rs)
  update_rows-IsShown [] = tt
  update_rows-IsShown (r ∷ rs) = (update_row-IsShown r, update_rows-IsShown rs)

  pub render-IsShown : (p : Picker) → All IsShown (render p).rows
  unfolding render
  render-IsShown p = update_rows-IsShown p.rows

  -- What the user and the page do: a click on the item with a number, a value that a script sets,
  -- and options that are added or taken away, after which the list is built anew.
  pub data Event : Type 0 where
    click : ℕ → Event
    assign : (j.Node → j.Node) → Event
    reload : (List Row → List Row) → (Row → j.Node) → Event

  pub handle : Event → Picker → Picker
  handle (click i) p = on_click i p
  handle (assign f) p = val f p
  handle (reload change make) p = reload_li make (record p { rows = change p.rows })

  pub run : List Event → Picker → Picker
  run [] p = p
  run (e ∷ es) p = run es (handle e p)

  clicked-IsShown :
      (i : ℕ) (p : Picker) (found : Option Row)
      → All IsShown p.rows
      → All IsShown (clicked i p found).rows
  unfolding clicked
  clicked-IsShown i p none h = h
  clicked-IsShown i p (some r) h = elim (Bool-cases (has_class "disabled" r.item)) [
    | inl off ↦ rw off h
    | inr on ↦ rw on (render-IsShown (taken i r p))
  ]

  handle-IsShown : (e : Event) (p : Picker) → All IsShown p.rows → All IsShown (handle e p).rows
  unfolding handle on_click val reload_li
  handle-IsShown (click i) p h = clicked-IsShown i p (row_at i p.rows) h
  handle-IsShown (assign f) p h = render-IsShown (assigned f p)
  handle-IsShown (reload change make) p h =
      render-IsShown (renewed make (record p { rows = change p.rows }))

  -- From a list that shows its `select` on, every list of clicks, of values set and of lists built
  -- anew leaves a list that does: the marked items are the selected options, and the disabled items
  -- the disabled ones.
  pub picker_run-IsShown :
      (es : List Event) (p : Picker) → All IsShown p.rows → All IsShown (run es p).rows
  unfolding run
  picker_run-IsShown [] p h = h
  picker_run-IsShown (e ∷ es) p h = picker_run-IsShown es (handle e p) (handle-IsShown e p h)
