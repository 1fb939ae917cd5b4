-- ===== src/Notify/Stack/Gap.antt =====
-- What `close` and `update` do to the notifications behind one.
use dist_gatling.Shared.{
  ℕ, ◌+◌, ◌<◌, ◌≡◌, refl, Bool, true, false, List, [], ◌∷◌, ◌==◌, if◌then◌else◌, Option, none, some,
  arith, Bool-cases, inl, inr, ap, ◌∙◌,
}
use dist_gatling.Notify.Stack.{
  Notice, Layout, is_sibling, restack, after_id, find_id, remove_id, mark_closing, close_page,
  update_page,
}
use dist_gatling.Notify.Stack.Column.{IsStacked, is_sibling-IgnoresEdge, remove-after_id-IsStacked}

-- Marking an element changes neither what the tests see nor where it stands.
mark_closing-IsStacked :
    (l : Layout) (spacing low i : ℕ) (ns : List Notice)
    → IsStacked (is_sibling l) spacing low ns
    → IsStacked (is_sibling l) spacing low (mark_closing i ns)
unfolding mark_closing is_sibling
mark_closing-IsStacked l spacing low i [] h = tt
mark_closing-IsStacked l spacing low i (n ∷ ns) h = elim (Bool-cases (n.id == i)) [
  | inl e ↦ rw e (
    h.0,
    mark_closing-IsStacked l spacing (if is_sibling l n then n.edge + n.height + spacing else low) i
        ns h.1,
  )
  | inr e ↦ rw e (
    h.0,
    mark_closing-IsStacked l spacing (if is_sibling l n then n.edge + n.height + spacing else low) i
        ns h.1,
  )
]

find_id-mark_closing :
    (i : ℕ) (ns : List Notice) (x : Notice)
    → find_id i ns ≡ some x
    → find_id i (mark_closing i ns) ≡ some (record x { closing_datum = true })
unfolding find_id mark_closing
find_id-mark_closing i [] x h = cc
find_id-mark_closing i (n ∷ ns) x h = ground (arith, find_id-mark_closing i ns x)

is_sibling-datum :
    (l : Layout) (x : Notice) → is_sibling l (record x { closing_datum = true }) ≡ is_sibling l x
unfolding is_sibling
is_sibling-datum l x = refl

close_page_found :
    (l : Layout) (i : ℕ) (page : List Notice) (x : Notice)
    → l.newest_on_top ≡ false
    → find_id i page ≡ some x
    → close_page l i page
      ≡ after_id i (restack (is_sibling l) l.spacing x.edge) (mark_closing i page)
unfolding close_page
close_page_found l i page x below found = ground arith

-- With the newest at the end: from siblings that are stacked, once a notification among them has
-- been closed and its element is gone, the rest is stacked with the same spacing.
pub remove-close_page-IsStacked :
    (l : Layout) (i : ℕ) (page : List Notice) (x : Notice)
    → l.newest_on_top ≡ false
    → find_id i page ≡ some x
    → is_sibling l x ≡ true
    → IsStacked (is_sibling l) l.spacing 0 page
    → IsStacked (is_sibling l) l.spacing 0 (remove_id i (close_page l i page))
remove-close_page-IsStacked l i page x below found hit h =
    rw (close_page_found l i page x below found) (
      remove-after_id-IsStacked (is_sibling l) l.spacing 0 i (mark_closing i page)
        (record x { closing_datum = true }) (is_sibling-IgnoresEdge l)
        (find_id-mark_closing i page x found) (is_sibling-datum l x ∙ hit)
        (mark_closing-IsStacked l l.spacing 0 i page h))

-- Of the notifications behind the one with a number, the first that the test picks.
pub first : (Notice → Bool) → List Notice → Option Notice
first m [] = none
first m (n ∷ ns) = let rest = first m ns in if m n then some n else rest

unfoldable pub next_sibling : (Notice → Bool) → ℕ → List Notice → Option Notice
unfolding first
next_sibling m i [] = none
next_sibling m i (n ∷ ns) = let rest = next_sibling m i ns in if n.id == i then first m ns else rest

first-restack :
    (l : Layout) (pos : ℕ) (ns : List Notice) (y : Notice)
    → first (is_sibling l) ns ≡ some y
    → first (is_sibling l) (restack (is_sibling l) l.spacing pos ns)
      ≡ some (record y { edge = pos })
unfolding first restack is_sibling
first-restack l pos [] y h = cc
first-restack l pos (n ∷ ns) y h = elim (Bool-cases (is_sibling l n)) [
  | inl e ↦
      rw (e, e)
        (let q : n ≡ y = ground arith in ap (λ (z : Notice). some (record z { edge = pos })) q)
  | inr e ↦ rw (e, e) (first-restack l pos ns y (rw e at h))
]

next_sibling-after_id :
    (l : Layout) (i pos : ℕ) (ns : List Notice) (y : Notice)
    → next_sibling (is_sibling l) i ns ≡ some y
    → next_sibling (is_sibling l) i (after_id i (restack (is_sibling l) l.spacing pos) ns)
      ≡ some (record y { edge = pos })
unfolding next_sibling after_id
next_sibling-after_id l i pos [] y h = cc
next_sibling-after_id l i pos (n ∷ ns) y h = elim (Bool-cases (n.id == i)) [
  | inl e ↦ rw (e, e) (first-restack l pos ns y (rw e at h))
  | inr e ↦ rw (e, e) (next_sibling-after_id l i pos ns y (rw e at h))
]

find_id-after_id :
    (i : ℕ) (f : List Notice → List Notice) (ns : List Notice) (x : Notice)
    → find_id i ns ≡ some x
    → find_id i (after_id i f ns) ≡ some x
unfolding find_id after_id
find_id-after_id i f [] x h = cc
find_id-after_id i f (n ∷ ns) x h = ground (arith, find_id-after_id i f ns x)

update_page_found :
    (l : Layout) (i : ℕ) (page : List Notice) (x : Notice)
    → l.newest_on_top ≡ false
    → find_id i page ≡ some x
    → update_page l i page
      ≡ after_id i (restack (is_sibling l) l.spacing (x.height + l.spacing + l.offset_y)) page
unfolding update_page
update_page_found l i page x below found = ground arith

-- With the newest at the end: `update` of a notification that stands more than the spacing behind
-- its offset, as every one but the first does, leaves it where it was, and puts the next one behind
-- it where the two overlap.
update_page_overlaps :
    (l : Layout) (i : ℕ) (page : List Notice) (x y : Notice)
    → l.newest_on_top ≡ false
    → find_id i page ≡ some x
    → next_sibling (is_sibling l) i page ≡ some y
    → l.offset_y + l.spacing < x.edge
    → (find_id i (update_page l i page) ≡ some x)
      × (y' : Notice) × (next_sibling (is_sibling l) i (update_page l i page) ≡ some y')
      × (y'.edge < x.edge + x.height)
update_page_overlaps l i page x y below found next far =
    let pos = x.height + l.spacing + l.offset_y in
    rw (update_page_found l i page x below found) (
      find_id-after_id i (restack (is_sibling l) l.spacing pos) page x found,
      record y { edge = pos },
      next_sibling-after_id l i pos page y next,
      omega arith,
    )
