-- ===== src/Picker/Size.antt =====
-- The size of the menu: the part of `init` in
-- gatling-rest/static/src/assets/js/bootstrap-select.js for the option `size`. The numbers are what
-- jQuery and `parseInt` give: whole pixels.
use dist_gatling.Shared.{
  ℕ, zero, suc, ◌+◌, ◌*◌, ◌≡◌, Bool, true, false, not, Option, none, some, List, [], ◌∷◌, ltb, leb,
  ◌≤◌, length, if◌then◌else◌, arith, ◌==◌, subst, sym,
}
use dist_gatling.Shared.Int.{ℤ, pos, negsuc, ◌+ℤ◌, ◌-ℤ◌, ◌≤ℤ◌, leb_ℤ, +ℤ_parts, -ℤ_parts}

-- What `getSize` reads: the top of the list on the page, how far the page is scrolled, the heights of
-- the window and of the list, the padding and the borders of the menu, its margins, the height of an
-- item, and the class `dropup`.
pub record Geometry : Type 0 where
  pub offset_top : ℕ
  pub scroll_top : ℕ
  pub window_height : ℕ
  pub select_height : ℕ
  pub padding : ℕ
  pub margins : ℕ
  pub li_height : ℕ
  pub dropup : Bool

unfoldable pub extras : Geometry → ℤ
extras g = pos (g.padding + g.margins + 2)

-- the top of the list in the window
unfoldable pub offset_scroll : Geometry → ℤ
offset_scroll g = pos g.offset_top -ℤ pos g.scroll_top

abbrev limited : ℤ → ℤ
limited h = if leb_ℤ (pos 300) h then pos 300 else h

-- The limits of the menu's height in pixels; without a greatest height it is `none`.
pub record Css : Type 0 where
  pub max_height : Option ℕ
  pub min_height : ℕ

-- A negative height is no value of `max-height`: the browser keeps the one that holds.
unfoldable pub set_max_height : ℤ → Option ℕ → Option ℕ
set_max_height (pos n) old = some n
set_max_height (negsuc n) old = old

-- `getSize`, once its wait is over, on a menu with the limits set before
unfoldable pub get_size : Geometry → Css → Css
unfolding extras offset_scroll set_max_height
get_size g css =
    let bottom = pos g.window_height -ℤ offset_scroll g -ℤ pos g.select_height -ℤ extras g in
    let height = if g.dropup then offset_scroll g -ℤ extras g else bottom in
    record {
      max_height = set_max_height (limited height) css.max_height;
      min_height = g.li_height * 3;
    }

unfoldable pub cut : Option ℕ → ℕ → ℕ
cut none content = content
cut (some m) content = if leb content m then content else m

-- The height that CSS gives a menu whose items need the height `content`: not over `max-height`, but
-- at least `min-height`, which goes before it.
unfoldable pub shown_height : Css → ℕ → ℕ
unfolding cut
shown_height css content =
    let height = cut css.max_height content in
    if leb css.min_height height then height else css.min_height

-- The option `size`, where `off` is null, 0 or false.
pub data Size : Type 0 where
  auto off : Size
  number : ℕ → Size

-- For each item of the list, which of its children are dividers: the numbers of the items of those
-- that are not.
item_numbers : List Bool → ℕ → List ℕ → List ℕ
item_numbers [] i rest = rest
item_numbers (b ∷ bs) i rest = let later = item_numbers bs i rest in if b then later else i ∷ later

pub parents : ℕ → List (List Bool) → List ℕ
unfolding item_numbers
parents i [] = []
parents i (bs ∷ items) = item_numbers bs i (parents (suc i) items)

-- `slice(0, size).last().parent().index() + 1`, where the index of nothing is -1
pub last_of_first : ℕ → ℕ → List ℕ → ℕ
last_of_first zero found is = found
last_of_first (suc n) found [] = found
last_of_first (suc n) found (i ∷ is) = last_of_first n (suc i) is

count_true : List Bool → ℕ
count_true [] = 0
count_true (b ∷ bs) = let rest = count_true bs in if b then suc rest else rest

-- the dividers in the first items
pub dividers : ℕ → List (List Bool) → ℕ
unfolding count_true
dividers zero items = 0
dividers (suc n) [] = 0
dividers (suc n) (bs ∷ items) = count_true bs + dividers n items

-- What `init` sets at once: nothing for `auto`, since `getSize;` is no call.
unfoldable pub first_height : Size → ℕ → Geometry → List (List Bool) → Option ℕ
unfolding parents last_of_first dividers
first_height auto div_height g items = none
first_height off div_height g items = none
first_height (number size) div_height g items =
    if not (size == 0)
    then (if ltb size (length items)
        then some (
            g.li_height * size
            + dividers (last_of_first size 0 (parents 0 items)) items * div_height
            + g.padding)
        else none)
    else none

limited_le : (h : ℤ) → (limited h ≤ℤ pos 300) × (limited h ≤ℤ h)
limited_le h = ground arith

abbrev limits : ℤ → ℕ → Option ℕ → Css
limits h least old = record { max_height = set_max_height (limited h) old; min_height = least }

shown_height_within :
    (m least content bound : ℕ)
    → m ≤ bound
    → least ≤ bound
    → shown_height (record { max_height = some m; min_height = least }) content ≤ bound
unfolding shown_height cut
shown_height_within m least content bound k le = ground (arith, k, le)

-- The height set where there is room.
abbrev capped : ℕ → ℕ
capped n = if leb 300 n then 300 else n

limited_pos : (n : ℕ) → limited (pos n) ≡ pos (capped n)
limited_pos n = ground arith

capped_le : (n : ℕ) → (capped n ≤ 300) × (capped n ≤ n)
capped_le n = ground arith

-- Where the room `h` takes the least height, the menu takes at most the room.
shown_height_le :
    (h : ℤ) (least : ℕ) (old : Option ℕ) (content : ℕ)
    → pos least ≤ℤ h
    → (pos (shown_height (limits h least old) content) ≤ℤ h)
      × (least ≤ 300 → shown_height (limits h least old) content ≤ 300)
unfolding set_max_height
shown_height_le (pos n) least old content le =
    let set = capped_le n in
    subst
      (λ h.
        (pos (
            shown_height (record { max_height = set_max_height h old; min_height = least }) content)
          ≤ℤ pos n)
        × (least ≤ 300
            → shown_height (record { max_height = set_max_height h old; min_height = least })
                content
              ≤ 300))
      (sym (limited_pos n))
      (
        omega (arith, shown_height_within (capped n) least content n set.1 (omega (arith, le))),
        λ small. shown_height_within (capped n) least content 300 set.0 small,
      )
shown_height_le (negsuc n) least old content le = absurd (omega (arith, le))

least_le : (css : Css) (content : ℕ) → css.min_height ≤ shown_height css content
unfolding shown_height
least_le css content = ground arith

fits_below : (w o s x h : ℤ) → h ≤ℤ w -ℤ o -ℤ s -ℤ x → o +ℤ s +ℤ h +ℤ x ≤ℤ w
fits_below w o s x h le = omega (
  arith,
  -ℤ_parts w o,
  -ℤ_parts (w -ℤ o) s,
  -ℤ_parts (w -ℤ o -ℤ s) x,
  +ℤ_parts o s,
  +ℤ_parts (o +ℤ s) h,
  +ℤ_parts (o +ℤ s +ℤ h) x,
)

room_below : (w o s x h : ℤ) → o +ℤ s +ℤ h +ℤ x ≤ℤ w → h ≤ℤ w -ℤ o -ℤ s -ℤ x
room_below w o s x h le = omega (
  arith,
  le,
  -ℤ_parts w o,
  -ℤ_parts (w -ℤ o) s,
  -ℤ_parts (w -ℤ o -ℤ s) x,
  +ℤ_parts o s,
  +ℤ_parts (o +ℤ s) h,
  +ℤ_parts (o +ℤ s +ℤ h) x,
)

fits_above : (o x h : ℤ) → h ≤ℤ o -ℤ x → h +ℤ x ≤ℤ o
fits_above o x h le = omega (arith, -ℤ_parts o x, +ℤ_parts h x)

room_above : (o x h : ℤ) → h +ℤ x ≤ℤ o → h ≤ℤ o -ℤ x
room_above o x h le = omega (arith, le, -ℤ_parts o x, +ℤ_parts h x)

-- For every geometry, all limits that a menu had before and every height that its items need, once
-- `getSize` has run: the menu is at least as high as three items. Where a menu of three items with its
-- margins fits between the list and the lower edge of the window and the menu opens below the list, the
-- menu ends with its margins above that edge; where one fits between the upper edge of the window and
-- the top of the list and the menu opens above the list, it begins with its margins below that edge;
-- and in both cases, if three items are not higher than 300 pixels, nor is the menu.
pub get_size_fits :
    (g : Geometry) (css : Css) (content : ℕ)
    → let height = shown_height (get_size g css) content in
      let three = g.li_height * 3 in
      (three ≤ height)
      × (g.dropup ≡ false
          → offset_scroll g +ℤ pos g.select_height +ℤ pos three +ℤ extras g ≤ℤ pos g.window_height
          → (offset_scroll g +ℤ pos g.select_height +ℤ pos height +ℤ extras g
              ≤ℤ pos g.window_height)
            × (three ≤ 300 → height ≤ 300))
      × (g.dropup ≡ true
          → pos three +ℤ extras g ≤ℤ offset_scroll g
          → (pos height +ℤ extras g ≤ℤ offset_scroll g) × (three ≤ 300 → height ≤ 300))
unfolding get_size
get_size_fits g css content =
    let window = pos g.window_height in
    let select = pos g.select_height in
    let three = pos (g.li_height * 3) in
    let shown : ℤ → ℤ =
      λ room. pos (shown_height (limits room (g.li_height * 3) css.max_height) content) in
    let below = window -ℤ offset_scroll g -ℤ select -ℤ extras g in
    let above = offset_scroll g -ℤ extras g in
    (
      least_le (get_size g css) content,
      λ down room. rw down (
          let h =
            shown_height_le below (g.li_height * 3) css.max_height content
              (room_below window (offset_scroll g) select (extras g) three room) in
          (fits_below window (offset_scroll g) select (extras g) (shown below) h.0, h.1)),
      λ up room. rw up (
          let h =
            shown_height_le above (g.li_height * 3) css.max_height content
              (room_above (offset_scroll g) (extras g) three room) in
          (fits_above (offset_scroll g) (extras g) (shown above) h.0, h.1)),
    )
