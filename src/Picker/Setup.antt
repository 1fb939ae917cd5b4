-- ===== src/Picker/Setup.antt =====
-- The classes and attributes that `init`, `checkDisabled` and `checkTabIndex` of
-- gatling-rest/static/src/assets/js/bootstrap-select.js set.
pub mod Dressed
use dist_gatling.Shared.{
  ◌≡◌, refl, Bool, true, false, not, String, Option, none, some, List, [], ◌∷◌, if◌then◌else◌,
  str_eq, All, ◌∙◌, ap, sym, subst, Bool-cases, inl, inr,
}
use dist_gatling.Jquery.{
  Jquery, bool, str, class, attr, css, is_true, has_class, add_class, flag_prop, same_key,
  is_defined,
}
use dist_gatling.Jquery.Laws.{has_class-add_class, has_class-add_class_ne, get-put_ne}

module _ ⦃j : Jquery⦄ where
  -- The `select`, the element made for it, its button and its menu, and whether the button's clicks
  -- are prevented.
  pub record View : Type 0 where
    pub element : j.Node
    pub new_element : j.Node
    pub button : j.Node
    pub menu : j.Node
    pub prevented : Bool

  -- `attr('id')` and `attr('tabindex')` copied to the button, if they are there
  unfoldable pub copy_attr : String → View → View
  copy_attr a v =
      let value = j.get (attr a) v.element in
      if is_defined value then record v { button = j.put (attr a) value v.button } else v

  -- The loop over the classes of the `select`.
  unfoldable pub copy_classes : List String → j.Node → j.Node
  copy_classes [] n = n
  copy_classes (c ∷ cs) n =
      copy_classes cs (if not (str_eq c "selectpicker") then add_class c n else n)

  -- `addClass` with an option that may be null
  abbrev add_given : Option String → j.Node → j.Node
  add_given none n = n
  add_given (some c) n = add_class c n

  -- `checkDisabled`
  unfoldable pub check_disabled : View → View
  check_disabled v =
      if flag_prop "disabled" v.element
      then record v { button = add_class "disabled" v.button; prevented = true }
      else v

  -- `checkTabIndex`
  unfoldable pub check_tab_index : View → View
  unfolding copy_attr
  check_tab_index v = copy_attr "tabindex" v

  -- `init` up to `checkDisabled`, but for the arrow of the menu and the label's click.
  unfoldable pub dress : List String → Option String → Option String → View → View
  unfolding copy_classes copy_attr
  dress class_list style menu_style v =
      let multiple = flag_prop "multiple" v.element in
      let v1 = record v { element = j.put (css "display") (str "none") v.element } in
      let v2 = copy_attr "id" v1 in
      let copied = copy_classes class_list v.new_element in
      record v2 {
        new_element = if multiple then add_class "select-multiple" copied else copied;
        button = add_given style v2.button;
        menu = add_given menu_style v2.menu;
      }

  -- The rest of it, up to `checkTabIndex`.
  unfoldable pub init : List String → Option String → Option String → View → View
  unfolding dress check_disabled check_tab_index
  init class_list style menu_style v =
      check_tab_index (check_disabled (dress class_list style menu_style v))
