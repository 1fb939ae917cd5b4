-- ===== src/Notify/Update/Look.antt =====
-- What the commands of `update` leave on a notification.
use Prim.Native.String.{◌++◌ as append}
use dist_gatling.Shared.{
  ◌≡◌, refl, true, false, String, List, [], ◌∷◌, map, str_eq, All, ◌∙◌, ap, sym, subst, ℕ, arith,
  Bool-cases, inl, inr,
}
use dist_gatling.Shared.Decimal.{decimal}
use dist_gatling.Jquery.{
  Jquery, has_class, add_class, remove_class, set_attr, str, css, class, attr, same_key, is_true,
}
use dist_gatling.Jquery.Laws.{
  get-put_ne, has_class-add_class, has_class-add_class_ne, has_class-remove_class_ne,
}
use dist_gatling.Notify.Update.{
  Command, type, icon, url, target, progress, other, Alert, Part, on_part, execute, update, set_css,
}

module _ ⦃j : Jquery⦄ where
  -- The element has the class of the type that the settings name, and so have its bars.
  pub record IsTyped (a : Alert) : Type 0 where
    pub ele : has_class (append "alert-" a.type) a.ele ≡ true
    pub bars : All (λ n. has_class (append "progress-bar-" a.type) n ≡ true) a.bars

  typed_bars :
      (old new : String) (ns : List j.Node)
      → All (λ n. has_class new n ≡ true) (map (λ n. add_class new (remove_class old n)) ns)
  typed_bars old new [] = tt
  typed_bars old new (n ∷ ns) =
      (has_class-add_class new (remove_class old n), typed_bars old new ns)

  -- Writing an attribute and a style leaves the classes.
  kept_bars :
      (c : String) (f : j.Node → j.Node) (ns : List j.Node)
      → ((n : j.Node) → has_class c (f n) ≡ has_class c n)
      → All (λ n. has_class c n ≡ true) ns
      → All (λ n. has_class c n ≡ true) (map f ns)
  kept_bars c f [] same h = tt
  kept_bars c f (n ∷ ns) same (here, later) = (same n ∙ here, kept_bars c f ns same later)

  abbrev show_progress : ℕ → j.Node → j.Node
  show_progress v n =
      set_css "width" (append (decimal v) "%") (set_attr "aria-valuenow" (decimal v) n)

  has_class-show_progress :
      (c : String) (v : ℕ) (n : j.Node) → has_class c (show_progress v n) ≡ has_class c n
  unfolding same_key
  has_class-show_progress c v n =
      let shown = set_attr "aria-valuenow" (decimal v) n in
      ap is_true (
        get-put_ne (class c) (css "width") (str (append (decimal v) "%")) shown refl
        ∙ get-put_ne (class c) (attr "aria-valuenow") (str (decimal v)) n refl)

  execute-IsTyped : (c : Command) (a : Alert) → IsTyped a → IsTyped (execute c a)
  unfolding execute
  execute-IsTyped (type t) a h = record {
    ele = has_class-add_class (append "alert-" t) (remove_class (append "alert-" a.type) a.ele);
    bars = typed_bars (append "progress-bar-" a.type) (append "progress-bar-" t) a.bars;
  }
  execute-IsTyped (icon i) a h = elim (Bool-cases a.icon_class) [
    | inl e ↦ rw e (record { ele = h.ele; bars = h.bars })
    | inr e ↦ rw e (record { ele = h.ele; bars = h.bars })
  ]
  execute-IsTyped (progress v) a h = record {
    ele = h.ele;
    bars =
        kept_bars (append "progress-bar-" a.type) (show_progress v) a.bars
          (has_class-show_progress (append "progress-bar-" a.type) v) h.bars;
  }
  execute-IsTyped (url u) a h = record { ele = h.ele; bars = h.bars }
  execute-IsTyped (target t) a h = record { ele = h.ele; bars = h.bars }
  execute-IsTyped (other cmd v) a h = record { ele = h.ele; bars = h.bars }

  -- After every list of commands of `update`, the element has the class `alert-` of the type that the
  -- settings name then, and every progress bar in it the class `progress-bar-` of that type, if it
  -- was so at first.
  update-IsTyped : (cs : List Command) (a : Alert) → IsTyped a → IsTyped (update cs a)
  unfolding update
  update-IsTyped [] a h = h
  update-IsTyped (c ∷ cs) a h = update-IsTyped cs (execute c a) (execute-IsTyped c a h)

  -- an element named "icon" has two classes
  abbrev pub HasBoth : String → String → Part → Type 0
  HasBoth b c q =
      str_eq q.name "icon" ≡ true → (has_class b q.node ≡ true) × (has_class c q.node ≡ true)

  abbrev swap : String → String → j.Node → j.Node
  swap old new n = add_class new (remove_class old n)

  has_class-swap_twice :
      (old b c : String) (n : j.Node)
      → str_eq old b ≡ false
      → str_eq c b ≡ false
      → (has_class b (swap old c (swap old b n)) ≡ true)
        × (has_class c (swap old c (swap old b n)) ≡ true)
  has_class-swap_twice old b c n h k = (
    has_class-add_class_ne b c (remove_class old (swap old b n)) k
        ∙ has_class-remove_class_ne b old (swap old b n) h
        ∙ has_class-add_class b (remove_class old n),
    has_class-add_class c (remove_class old (swap old b n)),
  )

  on_part_hit :
      (name : String) (f : j.Node → j.Node) (q : Part)
      → str_eq q.name name ≡ true
      → on_part name f q ≡ record q { node = f q.node }
  unfolding on_part
  on_part_hit name f q e = rw e refl

  on_part_miss :
      (name : String) (f : j.Node → j.Node) (q : Part)
      → str_eq q.name name ≡ false
      → on_part name f q ≡ q
  unfolding on_part
  on_part_miss name f q e = rw e refl

  part_keeps_both :
      (old b c : String) (q : Part)
      → str_eq old b ≡ false
      → str_eq c b ≡ false
      → HasBoth b c (on_part "icon" (swap old c) (on_part "icon" (swap old b) q))
  part_keeps_both old b c q h k = elim (Bool-cases (str_eq q.name "icon")) [
    | inl e ↦
        let first = record q { node = swap old b q.node } in
        subst (HasBoth b c)
          (sym (
            ap (on_part "icon" (swap old c)) (on_part_hit "icon" (swap old b) q e)
            ∙ on_part_hit "icon" (swap old c) first e))
          (λ _. has_class-swap_twice old b c q.node h k)
    | inr e ↦
        subst (HasBoth b c)
          (sym (
            ap (on_part "icon" (swap old c)) (on_part_miss "icon" (swap old b) q e)
            ∙ on_part_miss "icon" (swap old c) q e))
          (λ named. absurd (ground (arith, e, named)))
  ]

  parts_keep_both :
      (old b c : String) (qs : List Part)
      → str_eq old b ≡ false
      → str_eq c b ≡ false
      → All (HasBoth b c) (map (on_part "icon" (swap old c)) (map (on_part "icon" (swap old b)) qs))
  parts_keep_both old b c [] h k = tt
  parts_keep_both old b c (q ∷ qs) h k =
      (part_keeps_both old b c q h k, parts_keep_both old b c qs h k)

  -- Two commands "icon" in turn leave both classes on the icon, since the settings keep the first
  -- icon: for icons that are classes, the first new one unlike the original and unlike the second.
  update_icon_twice :
      (a : Alert) (b c : String)
      → a.icon_class ≡ true
      → str_eq a.content_icon b ≡ false
      → str_eq c b ≡ false
      → All (HasBoth b c) (update (icon b ∷ icon c ∷ []) a).parts
  unfolding update execute
  update_icon_twice a b c e h k = rw e (parts_keep_both a.content_icon b c a.parts h k)
