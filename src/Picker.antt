-- ===== src/Picker.antt =====
-- The plugin `$.fn.selectpicker` of gatling-rest/static/src/assets/js/bootstrap-select.js: a list of
-- items that stands for a `select`. How the items are written is in Picker/Markup.
pub mod Markup
pub mod Show
pub mod Choose
pub mod Many
pub mod Size
pub mod Setup
pub mod Plugin
use Prim.Native.String.{◌++◌ as append}
use dist_gatling.Shared.{
  ℕ, zero, suc, ◌+◌, Bool, true, false, not, ◌&&◌, ◌||◌, String, Option, none, some, List, [], ◌∷◌,
  map, length, ltb, leb, if◌then◌else◌, str_eq, any, filter,
}
use dist_gatling.Shared.Decimal.{decimal}
use dist_gatling.Jquery.{
  Jquery, add_class, remove_class, has_class, set_attr, remove_attr, set_prop, state_prop,
  flag_prop,
}

-- `selectedTextFormat`, read by `indexOf('count')` and `split(">")`: no "count" in it, "count" with
-- no ">", or with one and what follows it, if that is a number.
pub data TextFormat : Type 0 where
  values count : TextFormat
  count_over : Option ℕ → TextFormat

-- `n > max[1]`, which fails for what is no number
abbrev over : ℕ → Option ℕ → Bool
over n none = false
over n (some m) = ltb m n

-- Whether the title says how many items are selected.
unfoldable pub says_count : TextFormat → ℕ → Bool
says_count values n = false
says_count count n = leb 2 n
says_count (count_over m) n = over n m

-- `join(", ")`
unfoldable pub join : List String → String
join [] = ""
join (s ∷ []) = s
join (s ∷ t ∷ ts) = append s (append ", " (join (t ∷ ts)))

-- `!options.title`
abbrev is_untitled : Option String → Bool
is_untitled none = true
is_untitled (some t) = str_eq t ""

module _ ⦃j : Jquery⦄ where
  -- An `option` with its text, its attribute `title`, whether its group is disabled, and the item of
  -- the list that stands for it.
  pub record Row : Type 0 where
    pub text : String
    pub title : Option String
    pub group_disabled : Bool
    pub option : j.Node
    pub item : j.Node

  -- `multiple`, the options of the plugin that are read, the rows, and the HTML of `.filter-option`.
  pub record Picker : Type 0 where
    pub multiple : Bool
    pub title : Option String
    pub none_selected_text : String
    pub selected_text_format : TextFormat
    pub rows : List Row
    pub filter_option : String

  abbrev pub is_selected : Row → Bool
  is_selected r = state_prop "selected" r.option

  abbrev pub is_disabled : Row → Bool
  is_disabled r = flag_prop "disabled" r.option || r.group_disabled

  unfoldable pub set_selected : Bool → j.Node → j.Node
  set_selected b n = if b then add_class "selected" n else remove_class "selected" n

  unfoldable pub set_disabled : Bool → j.Node → j.Node
  set_disabled b n = if b then add_class "disabled" n else remove_class "disabled" n

  -- one round of the loop that matches the list with the `select`
  unfoldable pub update_row : Row → Row
  unfolding set_selected set_disabled
  update_row r = record r {
    item = set_selected (is_selected r) (set_disabled (is_disabled r) r.item);
  }

  abbrev pub title_of : Row → String
  title_of r = elim r.title [ none ↦ r.text | some t ↦ t ]

  -- what `filter` and `map` give
  unfoldable pub selected_items : List Row → List String
  selected_items [] = []
  selected_items (r ∷ rs) =
      let rest = selected_items rs in if is_selected r then title_of r ∷ rest else rest

  -- `!title`, and what the plugin was given in its place
  abbrev pub or_title : Option String → String → String → String
  or_title given none_selected s =
      if str_eq s "" then (elim given [ none ↦ none_selected | some t ↦ t ]) else s

  unfoldable pub button_text : Picker → List Row → String
  unfolding join says_count selected_items decimal
  button_text p rs =
      let items = selected_items rs in
      let n = length items in
      let title =
        if p.multiple && says_count p.selected_text_format n
        then append (decimal n) (append " of " (append (decimal (length rs)) " selected"))
        else join items in
      or_title p.title p.none_selected_text title

  -- `render`, but for the width
  unfoldable pub render : Picker → Picker
  unfolding update_row button_text
  render p =
      let rows = map update_row p.rows in
      record p { rows = rows; filter_option = button_text p rows }

  on_option : (j.Node → j.Node) → Row → Row
  on_option f r = record r { option = f r.option }

  -- `.prop('selected', true).attr('selected', 'selected')`
  abbrev pub mark : j.Node → j.Node
  mark n = set_attr "selected" "selected" (set_prop "selected" true n)

  -- `.eq(i)`: the row with a number, if there is one
  unfoldable pub at_index : ℕ → (Row → Row) → List Row → List Row
  at_index i f [] = []
  at_index zero f (r ∷ rs) = f r ∷ rs
  at_index (suc i) f (r ∷ rs) = r ∷ at_index i f rs

  -- The browser: of a `select` that is not `multiple`, selecting an option unselects the others.
  unfoldable pub choose : ℕ → List Row → List Row
  unfolding at_index on_option
  choose i rs =
      if ltb i (length rs)
      then at_index i (on_option mark) (map (on_option (set_prop "selected" false)) rs)
      else rs

  -- The branch for one choice: every option loses its attribute, then the one clicked is selected.
  unfoldable pub click_single : ℕ → List Row → List Row
  unfolding choose on_option
  click_single i rs = choose i (map (on_option (remove_attr "selected")) rs)

  -- The branch for many: the option clicked is toggled.
  unfoldable pub toggle_row : Row → Row
  unfolding on_option
  toggle_row r = on_option (if is_selected r then remove_attr "selected" else mark) r

  unfoldable pub row_at : ℕ → List Row → Option Row
  row_at i [] = none
  row_at zero (r ∷ rs) = some r
  row_at (suc i) (r ∷ rs) = row_at i rs

  -- the picker after the click on an item that is not disabled, before 'change' is triggered
  unfoldable pub taken : ℕ → Row → Picker → Picker
  unfolding click_single toggle_row at_index
  taken i r p = record p {
    rows = if p.multiple then at_index i toggle_row p.rows else click_single i p.rows;
    filter_option = r.text;
  }

  -- What a click on the link of an item does, for the row if there is one. `not(':disabled')` gives
  -- an object in every case, so the item's own class decides; the trigger of 'change' ends in `render`.
  unfoldable pub clicked : ℕ → Picker → Option Row → Picker
  unfolding taken render
  clicked i p none = p
  clicked i p (some r) = if has_class "disabled" r.item then p else render (taken i r p)

  -- the handler of 'click' on the link of the item with a number
  unfoldable pub on_click : ℕ → Picker → Picker
  unfolding clicked row_at
  on_click i p = clicked i p (row_at i p.rows)

  -- `val` with a value, which the browser turns into the options' properties.
  unfoldable pub assigned : (j.Node → j.Node) → Picker → Picker
  unfolding on_option
  assigned assign p = record p { rows = map (on_option assign) p.rows }

  unfoldable pub val : (j.Node → j.Node) → Picker → Picker
  unfolding assigned render
  val assign p = render (assigned assign p)

  -- The end of `createLi`: the first option is selected if none is and there is no title.
  unfoldable pub select_first : Picker → Picker
  unfolding at_index on_option
  select_first p =
      if not (any is_selected p.rows) && is_untitled p.title
      then record p { rows = at_index 0 (on_option mark) p.rows }
      else p

  renew : (Row → j.Node) → Row → Row
  renew make r = record r { item = make r }

  -- `reloadLi`, with the items that `$(html)` makes
  unfoldable pub renewed : (Row → j.Node) → Picker → Picker
  unfolding select_first renew
  renewed make p = let p1 = select_first p in record p1 { rows = map (renew make) p1.rows }

  unfoldable pub reload_li : (Row → j.Node) → Picker → Picker
  unfolding renewed render
  reload_li make p = render (renewed make p)
