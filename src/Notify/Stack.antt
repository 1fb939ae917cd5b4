-- ===== src/Notify/Stack.antt =====
-- Where notifications stand on the page: `placement` and `reposition` of
-- gatling-rest/static/src/assets/js/bootstrap-notify.js. Lengths are whole pixels from the edge
-- `placement.from`, and the heights are the browser's.
pub mod Column
pub mod Gap
use dist_gatling.Shared.{
  ℕ, zero, suc, ◌+◌, max, Bool, true, false, not, ◌&&◌, List, [], ◌∷◌, ◌++◌, ◌==◌, if◌then◌else◌,
  reverse, Option, none, some,
}

pub data From : Type 0 where
  top bottom : From

pub data Align : Type 0 where
  left center right : Align

pub record Place : Type 0 where
  pub from : From
  pub align : Align

-- One notification's element: its number, the attribute `data-notify-position`, the element that it
-- was appended to, its distance from the edge and its height, and whether the attribute
-- `data-closing` is "true". `close` writes no such attribute: it stores a datum of that name.
pub record Notice : Type 0 where
  pub id : ℕ
  pub place : Place
  pub host : ℕ
  pub edge : ℕ
  pub height : ℕ
  pub closing_attr : Bool
  pub closing_datum : Bool

-- The settings that `placement` reads.
pub record Layout : Type 0 where
  pub place : Place
  pub host : ℕ
  pub offset_x : ℕ
  pub offset_y : ℕ
  pub spacing : ℕ
  pub newest_on_top : Bool

abbrev pub same_from : From → From → Bool
same_from top top = true
same_from bottom bottom = true
same_from _ _ = false

abbrev pub same_align : Align → Align → Bool
same_align left left = true
same_align center center = true
same_align right right = true
same_align _ _ = false

-- `[data-notify-position="…"]:not([data-closing="true"])`
pub matches : Place → Notice → Bool
matches p n =
    same_from n.place.from p.from && same_align n.place.align p.align && not n.closing_attr

-- The loop of `placement`, over the page in document order.
pub offset_from : Place → ℕ → ℕ → List Notice → ℕ
unfolding matches
offset_from p spacing amount [] = amount
offset_from p spacing amount (n ∷ ns) =
    offset_from p spacing (if matches p n then max amount (n.edge + n.height + spacing) else amount)
      ns

-- What `placement` writes across: the distance from one side, or 0 from both.
pub data Across : Type 0 where
  side : Align → ℕ → Across
  both : Across

unfoldable pub across : Layout → Across
across l = elim l.place.align [
  | center ↦ both
  | left ↦ side left l.offset_x
  | right ↦ side right l.offset_x
]

-- The loop of `reposition`, over the siblings in the order in which jQuery gives them.
pub restack : (Notice → Bool) → ℕ → ℕ → List Notice → List Notice
restack m spacing pos [] = []
restack m spacing pos (n ∷ ns) =
    let hit = m n in
    (if hit then record n { edge = pos } else n)
    ∷ restack m spacing (if hit then pos + spacing + n.height else pos) ns

-- The part of a list that follows the element with a number is rewritten.
pub after_id : ℕ → (List Notice → List Notice) → List Notice → List Notice
after_id i f [] = []
after_id i f (n ∷ ns) = if n.id == i then n ∷ f ns else n ∷ after_id i f ns

-- A sibling that `nextAll` or `prevAll` with the selector gives: in the same parent element.
unfoldable pub is_sibling : Layout → Notice → Bool
unfolding matches
is_sibling l n = n.host == l.host && matches l.place n

-- `reposition(pos)` of the notification with a number: the siblings behind it, or those before it,
-- the nearest first.
unfoldable pub reposition : Layout → ℕ → ℕ → List Notice → List Notice
unfolding restack after_id is_sibling
reposition l i pos page =
    let walk = after_id i (restack (is_sibling l) l.spacing pos) in
    if l.newest_on_top then reverse (walk (reverse page)) else walk page

-- the new element, at a distance from the edge
abbrev pub new_notice : Layout → ℕ → ℕ → ℕ → Notice
new_notice l i height amount = record {
  id = i;
  place = l.place;
  host = l.host;
  edge = amount;
  height = height;
  closing_attr = false;
  closing_datum = false;
}

-- `placement` of a new element with a number and a height: the page with it, and what is written
-- across.
unfoldable pub placement : Layout → ℕ → ℕ → List Notice → List Notice × Across
unfolding offset_from reposition across
placement l i height page =
    let found = offset_from l.place l.spacing l.offset_y page in
    let amount = if l.newest_on_top then l.offset_y else found in
    let appended = page ++ new_notice l i height amount ∷ [] in
    (
      if l.newest_on_top then reposition l i (amount + l.spacing + height) appended else appended,
      across l,
    )

-- the element with a number, if it is on the page
unfoldable pub find_id : ℕ → List Notice → Option Notice
find_id i [] = none
find_id i (n ∷ ns) = let rest = find_id i ns in if n.id == i then some n else rest

-- `.remove()`
unfoldable pub remove_id : ℕ → List Notice → List Notice
remove_id i [] = []
remove_id i (n ∷ ns) = let rest = remove_id i ns in if n.id == i then ns else n ∷ rest

-- `.data('closing', 'true')`
pub mark_closing : ℕ → List Notice → List Notice
mark_closing i [] = []
mark_closing i (n ∷ ns) =
    (if n.id == i then record n { closing_datum = true } else n) ∷ mark_closing i ns

-- What `close` does to the page at once. An element that is gone has no siblings.
unfoldable pub close_page : Layout → ℕ → List Notice → List Notice
unfolding reposition mark_closing find_id
close_page l i page = elim (find_id i page) [
  | none ↦ page
  | some x ↦ reposition l i x.edge (mark_closing i page)
]

-- The last two lines of `update`, after its commands.
unfoldable pub update_page : Layout → ℕ → List Notice → List Notice
unfolding reposition find_id
update_page l i page = elim (find_id i page) [
  | none ↦ page
  | some x ↦ reposition l i (x.height + l.spacing + l.offset_y) page
]
