-- ===== src/Picker/Markup.antt =====
-- The HTML of the list: `createLi`, `createA` and `createDropdown` of
-- gatling-rest/static/src/assets/js/bootstrap-select.js.
use Prim.Native.String.{◌++◌ as append}
use dist_gatling.Shared.Decimal.{decimal}
use dist_gatling.Shared.{
  ℕ, suc, Bool, not, String, Option, none, some, List, [], ◌∷◌, ◌==◌, if◌then◌else◌,
}

-- `undefined` read as no text
abbrev or_empty : Option String → String
or_empty none = ""
or_empty (some s) = s

-- A group of options: its label, and the datum `subtext`.
pub record OptGroup : Type 0 where
  pub label : String
  pub subtext : Option String

-- What `createLi` reads of an `option`: its class, text and data, its group if it has one, whether it
-- is the first there, and its index in the `select`.
pub record Entry : Type 0 where
  pub classes : Option String
  pub text : String
  pub subtext : Option String
  pub divider : Bool
  pub hidden : Bool
  pub group : Option OptGroup
  pub first : Bool
  pub index : ℕ

-- `createA`
unfoldable pub create_a : String → String → String
create_a test classes =
    append "<a tabindex=\"-1\" href=\"#\" class=\""
      (append classes (append "\"><span class=\"\">" (append test "</span></a>")))

-- the datum `subtext` in its element
unfoldable pub small : Option String → String
small none = ""
small (some s) = append "<small class=\"muted\">" (append s "</small>")

-- What `createLi` pushes for an option of a group.
unfoldable pub grouped : OptGroup → Entry → String
unfolding create_a small
grouped g e =
    let link = create_a (append e.text (small e.subtext)) (append "opt " (or_empty e.classes)) in
    let heading = append "<dt>" (append (append g.label (small g.subtext)) "</dt>") in
    if e.first
    then (if not (e.index == 0)
        then append "<div class=\"divider\"></div>" (append heading link)
        else append heading link)
    else link

unfoldable pub li_content : Entry → String
unfolding grouped create_a small
li_content e =
    let plain =
      if e.divider
      then "<div class=\"divider\"></div>"
      else if e.hidden
      then ""
      else create_a (append e.text (small e.subtext)) (or_empty e.classes) in
    elim e.group [ none ↦ plain | some g ↦ if not e.divider then grouped g e else plain ]

-- The loop that joins the items, from the one with a number on.
unfoldable pub li_loop : ℕ → String → List Entry → String
unfolding li_content decimal
li_loop i html [] = html
li_loop i html (e ∷ es) =
    li_loop (suc i)
      (append html
        (append "<li rel=" (append (decimal i) (append ">" (append (li_content e) "</li>")))))
      es

unfoldable pub create_li : List Entry → String
unfolding li_loop
create_li es = li_loop 0 "" es
