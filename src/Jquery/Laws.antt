-- ===== src/Jquery/Laws.antt =====
-- What follows from the law of `Jquery` for the operations that the scripts call.
use text.Mathlib.TextPositions.{eq_refl}
use dist_gatling.Shared.{
  ◌≡◌, Bool, true, false, not, String, refl, ap, ap₂, ◌∙◌, if◌then◌else◌, str_eq,
}
use dist_gatling.Jquery.{
  Key, Value, class, prop, attr, bool, undefined, same_key, Jquery, is_true, is_defined, flag_prop,
  state_value, str, has_class, add_class, remove_class, toggle_class, set_attr, remove_attr,
  set_prop, state_prop, IsPristine,
}

module _ ⦃j : Jquery⦄ where
  pub get-put_self :
      (k : Key) (v : Value) (n : j.Node) → same_key k k ≡ true → j.get k (j.put k v n) ≡ v
  get-put_self k v n e = j.get-put k k v n ∙ ap (λ b. if b then v else j.get k n) e

  pub get-put_ne :
      (i k : Key) (v : Value) (n : j.Node)
      → same_key k i ≡ false
      → j.get i (j.put k v n) ≡ j.get i n
  get-put_ne i k v n e = j.get-put i k v n ∙ ap (λ b. if b then v else j.get i n) e

  pub has_class-add_class : (c : String) (n : j.Node) → has_class c (add_class c n) ≡ true
  unfolding same_key
  has_class-add_class c n = ap is_true (get-put_self (class c) (bool true) n (eq_refl c))

  -- Adding one class leaves the others.
  pub has_class-add_class_ne :
      (c d : String) (n : j.Node) → str_eq d c ≡ false → has_class c (add_class d n) ≡ has_class c n
  unfolding same_key
  has_class-add_class_ne c d n e = ap is_true (get-put_ne (class c) (class d) (bool true) n e)

  pub has_class-remove_class_ne :
      (c d : String) (n : j.Node)
      → str_eq d c ≡ false
      → has_class c (remove_class d n) ≡ has_class c n
  unfolding same_key
  has_class-remove_class_ne c d n e = ap is_true (get-put_ne (class c) (class d) (bool false) n e)

  pub has_class-remove_class : (c : String) (n : j.Node) → has_class c (remove_class c n) ≡ false
  unfolding same_key
  has_class-remove_class c n = ap is_true (get-put_self (class c) (bool false) n (eq_refl c))

  pub has_class-toggle_class :
      (c : String) (n : j.Node) → has_class c (toggle_class c n) ≡ not (has_class c n)
  unfolding same_key
  has_class-toggle_class c n = ap is_true (get-put_self (class c) _ n (eq_refl c))

  state_of_values :
      (p : String) (n : j.Node) (u v : Value)
      → j.get (prop p) n ≡ u
      → j.get (attr p) n ≡ v
      → state_prop p n ≡ state_value u v
  state_of_values p n u v h k = ap₂ state_value h k

  -- A state that no script has set follows the attribute.
  pub state_prop-remove_attr :
      (p : String) (n : j.Node) → IsPristine p n → state_prop p (remove_attr p n) ≡ false
  unfolding same_key
  state_prop-remove_attr p n h =
      state_of_values p (remove_attr p n) undefined undefined
        (get-put_ne (prop p) (attr p) undefined n refl ∙ h)
        (get-put_self (attr p) undefined n (eq_refl p))

  pub state_prop-set_attr :
      (p v : String) (n : j.Node) → IsPristine p n → state_prop p (set_attr p v n) ≡ true
  unfolding same_key
  state_prop-set_attr p v n h =
      state_of_values p (set_attr p v n) undefined (str v)
        (get-put_ne (prop p) (attr p) (str v) n refl ∙ h)
        (get-put_self (attr p) (str v) n (eq_refl p))

  -- A state that a script has set does not.
  pub state_prop-set_prop : (p : String) (b : Bool) (n : j.Node) → state_prop p (set_prop p b n) ≡ b
  unfolding same_key
  state_prop-set_prop p b n =
      state_of_values p (set_prop p b n) (bool b) (j.get (attr p) (set_prop p b n))
        (get-put_self (prop p) (bool b) n (eq_refl p)) refl

  pub state_prop-remove_attr_set :
      (p : String) (b : Bool) (n : j.Node)
      → j.get (prop p) n ≡ bool b
      → state_prop p (remove_attr p n) ≡ b
  unfolding same_key
  state_prop-remove_attr_set p b n h =
      state_of_values p (remove_attr p n) (bool b) undefined
        (get-put_ne (prop p) (attr p) undefined n refl ∙ h)
        (get-put_self (attr p) undefined n (eq_refl p))

  pub state_prop-set_attr_set :
      (p v : String) (b : Bool) (n : j.Node)
      → j.get (prop p) n ≡ bool b
      → state_prop p (set_attr p v n) ≡ b
  unfolding same_key
  state_prop-set_attr_set p v b n h =
      state_of_values p (set_attr p v n) (bool b) (str v)
        (get-put_ne (prop p) (attr p) (str v) n refl ∙ h)
        (get-put_self (attr p) (str v) n (eq_refl p))

  -- what `prop` has set
  pub get-set_prop : (p : String) (b : Bool) (n : j.Node) → j.get (prop p) (set_prop p b n) ≡ bool b
  unfolding same_key
  get-set_prop p b n = get-put_self (prop p) (bool b) n (eq_refl p)

  -- Attributes do not reach a property.
  pub get-set_attr :
      (p q v : String) (n : j.Node) → j.get (prop p) (set_attr q v n) ≡ j.get (prop p) n
  unfolding same_key
  get-set_attr p q v n = get-put_ne (prop p) (attr q) (str v) n refl

  pub get-remove_attr :
      (p q : String) (n : j.Node) → j.get (prop p) (remove_attr q n) ≡ j.get (prop p) n
  unfolding same_key
  get-remove_attr p q n = get-put_ne (prop p) (attr q) undefined n refl

  -- Writing the attribute leaves the property unset.
  pub remove_attr-IsPristine :
      (p : String) (n : j.Node) → IsPristine p n → IsPristine p (remove_attr p n)
  unfolding same_key
  remove_attr-IsPristine p n h = get-put_ne (prop p) (attr p) undefined n refl ∙ h

  pub set_attr-IsPristine :
      (p v : String) (n : j.Node) → IsPristine p n → IsPristine p (set_attr p v n)
  unfolding same_key
  set_attr-IsPristine p v n h = get-put_ne (prop p) (attr p) (str v) n refl ∙ h

  -- Writing an attribute leaves another flag alone.
  pub flag_prop-remove_attr_ne :
      (p q : String) (n : j.Node)
      → str_eq q p ≡ false
      → flag_prop p (remove_attr q n) ≡ flag_prop p n
  unfolding same_key
  flag_prop-remove_attr_ne p q n e = ap is_defined (get-put_ne (attr p) (attr q) undefined n e)

  pub flag_prop-set_attr_ne :
      (p q v : String) (n : j.Node)
      → str_eq q p ≡ false
      → flag_prop p (set_attr q v n) ≡ flag_prop p n
  unfolding same_key
  flag_prop-set_attr_ne p q v n e = ap is_defined (get-put_ne (attr p) (attr q) (str v) n e)

  pub flag_prop-set_prop :
      (p q : String) (b : Bool) (n : j.Node) → flag_prop p (set_prop q b n) ≡ flag_prop p n
  unfolding same_key
  flag_prop-set_prop p q b n = ap is_defined (get-put_ne (attr p) (prop q) (bool b) n refl)
