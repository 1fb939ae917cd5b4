-- ===== src/Jquery.antt =====
-- jQuery, which the page's scripts call and which is not modelled: an element that can be read and
-- written at its classes, properties, attributes, styles, data and content. The documented
-- behaviour that the scripts rely on is one law: a write is read back where it was made, and
-- nowhere else. In jQuery 3 that holds of `attr` and `removeAttr` too: neither sets a property.
pub mod Laws
pub mod Simple
use dist_gatling.Shared.{
  ℕ, ◌≡◌, Bool, true, false, not, String, Option, none, some, if◌then◌else◌, str_eq,
}

-- Where an element is read or written.
pub data Key : Type 0 where
  class prop attr css slot : String → Key
  html : Key

pub data Value : Type 0 where
  undefined : Value
  bool : Bool → Value
  str : String → Value
  num : ℕ → Value

unfoldable pub same_key : Key → Key → Bool
same_key (class a) (class b) = str_eq a b
same_key (prop a) (prop b) = str_eq a b
same_key (attr a) (attr b) = str_eq a b
same_key (css a) (css b) = str_eq a b
same_key (slot a) (slot b) = str_eq a b
same_key html html = true
same_key _ _ = false

pub record Jquery : Type 1 where
  pub Node : Type 0
  pub get : Key → Node → Value
  pub put : Key → Value → Node → Node
  pub get-put :
      (j k : Key) (v : Value) (n : Node) → get j (put k v n) ≡ (if same_key k j then v else get j n)

abbrev pub is_true : Value → Bool
is_true (bool b) = b
is_true _ = false

abbrev pub is_defined : Value → Bool
is_defined undefined = false
is_defined _ = true

-- The browser's reading of `checked` or `selected` from the property slot and the attribute.
abbrev pub state_value : Value → Value → Bool
state_value (bool b) a = b
state_value _ a = is_defined a

module _ ⦃j : Jquery⦄ where
  abbrev pub has_class : String → j.Node → Bool
  has_class c n = is_true (j.get (class c) n)

  abbrev pub add_class : String → j.Node → j.Node
  add_class c n = j.put (class c) (bool true) n

  abbrev pub remove_class : String → j.Node → j.Node
  remove_class c n = j.put (class c) (bool false) n

  abbrev pub toggle_class : String → j.Node → j.Node
  toggle_class c n = j.put (class c) (bool (not (has_class c n))) n

  abbrev pub set_attr : String → String → j.Node → j.Node
  set_attr a v n = j.put (attr a) (str v) n

  abbrev pub remove_attr : String → j.Node → j.Node
  remove_attr a n = j.put (attr a) undefined n

  abbrev pub set_prop : String → Bool → j.Node → j.Node
  set_prop p b n = j.put (prop p) (bool b) n

  -- The browser's `checked` and `selected`: what was last set as a property, and until then
  -- whether the attribute of that name is there.
  abbrev pub state_prop : String → j.Node → Bool
  state_prop p n = state_value (j.get (prop p) n) (j.get (attr p) n)

  -- No script has set the property yet.
  abbrev pub IsPristine : String → j.Node → Type 0
  IsPristine p n = j.get (prop p) n ≡ undefined

  -- The browser's `disabled` and `multiple`, which show the attribute.
  abbrev pub flag_prop : String → j.Node → Bool
  flag_prop p n = is_defined (j.get (attr p) n)

-- An operation on a set of elements that may be empty changes nothing if it is.
abbrev pub on_found {ℓ} : {A : Type ℓ} → (A → A) → Option A → Option A
on_found f none = none
on_found f (some n) = some (f n)

abbrev pub found_has {ℓ} : {A : Type ℓ} → (A → Bool) → Option A → Bool
found_has p none = false
found_has p (some n) = p n
