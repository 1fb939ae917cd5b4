-- ===== src/Picker/Setup/Dressed.antt =====
-- The element made for a `select` mirrors it.
use dist_gatling.Shared.{
  ◌≡◌, refl, true, false, not, String, Option, List, [], ◌∷◌, if◌then◌else◌, str_eq, All, ◌∙◌, ap,
  sym, subst, Bool-cases, inl, inr,
}
use dist_gatling.Jquery.{
  Jquery, bool, str, class, attr, css, is_true, has_class, add_class, flag_prop, same_key,
  is_defined,
}
use dist_gatling.Jquery.Laws.{has_class-add_class, has_class-add_class_ne, get-put_ne}
use dist_gatling.Picker.Setup.{
  View, copy_attr, copy_classes, check_disabled, check_tab_index, dress, init,
}

module _ ⦃j : Jquery⦄ where
  add_class_keeps :
      (c d : String) (n : j.Node) → has_class c n ≡ true → has_class c (add_class d n) ≡ true
  unfolding same_key
  add_class_keeps c d n h = elim (Bool-cases (str_eq d c)) [
    | inl e ↦ ap is_true (
        j.get-put (class c) (class d) (bool true) n
        ∙ ap (λ b. if b then bool true else j.get (class c) n) e)
    | inr e ↦ has_class-add_class_ne c d n e ∙ h
  ]

  copy_classes_keeps :
      (c : String) (cs : List String) (n : j.Node)
      → has_class c n ≡ true
      → has_class c (copy_classes cs n) ≡ true
  unfolding copy_classes
  copy_classes_keeps c [] n h = h
  copy_classes_keeps c (d ∷ cs) n h = elim (Bool-cases (str_eq d "selectpicker")) [
    | inl e ↦ rw e (copy_classes_keeps c cs n h)
    | inr e ↦ rw e (copy_classes_keeps c cs (add_class d n) (add_class_keeps c d n h))
  ]

  -- every class of a list but `selectpicker`
  abbrev pub HasAll : List String → j.Node → Type 0
  HasAll cs n = All (λ c. str_eq c "selectpicker" ≡ false → has_class c n ≡ true) cs

  copy_classes-HasAll : (cs : List String) (n : j.Node) → HasAll cs (copy_classes cs n)
  unfolding copy_classes
  copy_classes-HasAll [] n = tt
  copy_classes-HasAll (c ∷ cs) n = (
    λ e. rw e (copy_classes_keeps c cs (add_class c n) (has_class-add_class c n)),
    copy_classes-HasAll cs (if not (str_eq c "selectpicker") then add_class c n else n),
  )

  all_keep : (cs : List String) (d : String) (n : j.Node) → HasAll cs n → HasAll cs (add_class d n)
  all_keep [] d n h = tt
  all_keep (c ∷ cs) d n (here, later) = (λ e. add_class_keeps c d n (here e), all_keep cs d n later)

  new_element-copy_attr : (a : String) (v : View) → (copy_attr a v).new_element ≡ v.new_element
  unfolding copy_attr
  new_element-copy_attr a v = elim (Bool-cases (is_defined (j.get (attr a) v.element))) [
    | inl e ↦ rw e refl
    | inr e ↦ rw e refl
  ]

  new_element-check_disabled : (v : View) → (check_disabled v).new_element ≡ v.new_element
  unfolding check_disabled
  new_element-check_disabled v = elim (Bool-cases (flag_prop "disabled" v.element)) [
    | inl e ↦ rw e refl
    | inr e ↦ rw e refl
  ]

  button-check_tab_index :
      (c : String) (v : View) → has_class c (check_tab_index v).button ≡ has_class c v.button
  unfolding check_tab_index copy_attr same_key
  button-check_tab_index c v = elim (Bool-cases (is_defined (j.get (attr "tabindex") v.element))) [
    | inl e ↦ rw e (
        ap is_true (
          get-put_ne (class c) (attr "tabindex") (j.get (attr "tabindex") v.element) v.button refl))
    | inr e ↦ rw e refl
  ]

  prevented-check_tab_index : (v : View) → (check_tab_index v).prevented ≡ v.prevented
  unfolding check_tab_index copy_attr
  prevented-check_tab_index v = elim (Bool-cases (is_defined (j.get (attr "tabindex") v.element))) [
    | inl e ↦ rw e refl
    | inr e ↦ rw e refl
  ]

  check_disabled_off :
      (v : View)
      → flag_prop "disabled" v.element ≡ true
      → (has_class "disabled" (check_disabled v).button ≡ true)
        × ((check_disabled v).prevented ≡ true)
  unfolding check_disabled
  check_disabled_off v e = rw e (has_class-add_class "disabled" v.button, refl)

  element-copy_attr : (a : String) (v : View) → (copy_attr a v).element ≡ v.element
  unfolding copy_attr
  element-copy_attr a v = elim (Bool-cases (is_defined (j.get (attr a) v.element))) [
    | inl e ↦ rw e refl
    | inr e ↦ rw e refl
  ]

  flag-dress :
      (cs : List String) (style menu_style : Option String) (v : View)
      → flag_prop "disabled" (dress cs style menu_style v).element ≡ flag_prop "disabled" v.element
  unfolding dress same_key
  flag-dress cs style menu_style v =
      ap (flag_prop "disabled") (
        element-copy_attr "id"
          (record v { element = j.put (css "display") (str "none") v.element }))
      ∙ ap is_defined (get-put_ne (attr "disabled") (css "display") (str "none") v.element refl)

  new_element-init :
      (cs : List String) (style menu_style : Option String) (v : View)
      → (init cs style menu_style v).new_element ≡ (dress cs style menu_style v).new_element
  unfolding init check_tab_index
  new_element-init cs style menu_style v =
      new_element-copy_attr "tabindex" (check_disabled (dress cs style menu_style v))
      ∙ new_element-check_disabled (dress cs style menu_style v)

  -- For every `select`, list of classes and styles: the new element has all the classes but
  -- `selectpicker`, and `select-multiple` if the `select` has many choices; and if the `select` is
  -- disabled, so is the button, and its clicks are prevented.
  init_dresses :
      (cs : List String) (style menu_style : Option String) (v : View)
      → HasAll cs (init cs style menu_style v).new_element
        × (flag_prop "multiple" v.element ≡ true
            → has_class "select-multiple" (init cs style menu_style v).new_element ≡ true)
        × (flag_prop "disabled" v.element ≡ true
            → (has_class "disabled" (init cs style menu_style v).button ≡ true)
              × ((init cs style menu_style v).prevented ≡ true))
  unfolding dress init
  init_dresses cs style menu_style v =
      let d = dress cs style menu_style v in
      let copied = copy_classes cs v.new_element in
      let same = new_element-init cs style menu_style v in
      (
        subst (HasAll cs) (sym same) (elim (Bool-cases (flag_prop "multiple" v.element)) [
          | inl e ↦
              rw e (all_keep cs "select-multiple" copied (copy_classes-HasAll cs v.new_element))
          | inr e ↦ rw e (copy_classes-HasAll cs v.new_element)
        ]),
        λ many.
            ap (has_class "select-multiple") same
            ∙ rw many (has_class-add_class "select-multiple" copied),
        λ off.
            let (shown, stopped) = check_disabled_off d (flag-dress cs style menu_style v ∙ off) in
            (
              button-check_tab_index "disabled" (check_disabled d) ∙ shown,
              prevented-check_tab_index (check_disabled d) ∙ stopped,
            ),
      )
