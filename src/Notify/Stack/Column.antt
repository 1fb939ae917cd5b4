-- ===== src/Notify/Stack/Column.antt =====
-- Notifications do not overlap.
use dist_gatling.Shared.{
  ℕ, ◌+◌, ◌≤◌, max, ◌≡◌, refl, Bool, true, false, List, [], ◌∷◌, ◌++◌, ◌==◌, if◌then◌else◌, reverse,
  arith, Bool-cases, inl, inr, ◌∙◌, ap, some, subst,
}
use dist_gatling.Notify.Stack.{
  Place, Notice, Layout, matches, is_sibling, offset_from, restack, after_id, reposition, placement,
  find_id, remove_id, new_notice,
}
use mathlib.Core.List.{reverse-append, reverse-reverse}

-- Of the notifications that a test picks, each begins at or behind where the one before it ends,
-- with the spacing between them, and the first one at or behind a given place.
abbrev pub IsStacked : (Notice → Bool) → ℕ → ℕ → List Notice → Type 0
IsStacked m spacing low [] = Unit
IsStacked m spacing low (n ∷ ns) =
    (m n ≡ true → low ≤ n.edge)
    × IsStacked m spacing (if m n then n.edge + n.height + spacing else low) ns

-- A test that does not look at the distance from the edge.
abbrev pub IgnoresEdge : (Notice → Bool) → Type 0
IgnoresEdge m = (n : Notice) (e : ℕ) → m (record n { edge = e }) ≡ m n

pub matches-IgnoresEdge : (p : Place) → IgnoresEdge (matches p)
unfolding matches
matches-IgnoresEdge p n e = refl

pub is_sibling-IgnoresEdge : (l : Layout) → IgnoresEdge (is_sibling l)
unfolding is_sibling
is_sibling-IgnoresEdge l n e = refl

offset_from-append :
    (p : Place) (spacing low amount : ℕ) (ns : List Notice) (x : Notice)
    → low ≤ amount
    → x.edge ≡ offset_from p spacing amount ns
    → IsStacked (matches p) spacing low ns
    → IsStacked (matches p) spacing low (ns ++ x ∷ [])
unfolding offset_from
offset_from-append p spacing low amount [] x le e h = (λ hit. omega arith, tt)
offset_from-append p spacing low amount (n ∷ ns) x le e h =
    let end = n.edge + n.height + spacing in
    let hit = matches p n in
    (
      h.0,
      offset_from-append p spacing (if hit then end else low)
          (if hit then max amount end else amount) ns x (ground arith) e h.1,
    )

-- Another position's list does not change where it misses the new element.
append_miss :
    (m : Notice → Bool) (spacing low : ℕ) (ns : List Notice) (x : Notice)
    → m x ≡ false
    → IsStacked m spacing low ns
    → IsStacked m spacing low (ns ++ x ∷ [])
append_miss m spacing low [] x miss h = (λ hit. cc, tt)
append_miss m spacing low (n ∷ ns) x miss h =
    (h.0, append_miss m spacing (if m n then n.edge + n.height + spacing else low) ns x miss h.1)

-- What `restack` leaves is stacked from its start on.
restack-IsStacked :
    (m : Notice → Bool) (spacing low pos : ℕ) (ns : List Notice)
    → IgnoresEdge m
    → low ≤ pos
    → IsStacked m spacing low (restack m spacing pos ns)
unfolding restack
restack-IsStacked m spacing low pos [] ignores le = tt
restack-IsStacked m spacing low pos (n ∷ ns) ignores le = elim (Bool-cases (m n)) [
  | inl hit ↦
      rw (hit, ignores n pos ∙ hit)
        (
          λ _. le,
          restack-IsStacked m spacing (pos + n.height + spacing) (pos + spacing + n.height) ns
              ignores (omega arith),
        )
  | inr miss ↦ rw (miss, miss) (λ hit. cc, restack-IsStacked m spacing low pos ns ignores le)
]

-- What stands behind an element moves up to where the element began; once the element is gone, the
-- rest is stacked.
pub remove-after_id-IsStacked :
    (m : Notice → Bool) (spacing low i : ℕ) (ns : List Notice) (x : Notice)
    → IgnoresEdge m
    → find_id i ns ≡ some x
    → m x ≡ true
    → IsStacked m spacing low ns
    → IsStacked m spacing low (remove_id i (after_id i (restack m spacing x.edge) ns))
unfolding find_id remove_id after_id
remove-after_id-IsStacked m spacing low i [] x ignores found hit h = cc
remove-after_id-IsStacked m spacing low i (n ∷ ns) x ignores found hit h =
    elim (Bool-cases (n.id == i)) [
      | inl e ↦
          rw (e, e)
            (let q : n ≡ x = ground arith in
              restack-IsStacked m spacing low x.edge ns ignores
                (subst (λ y. m y ≡ true → low ≤ y.edge) q h.0 hit))
      | inr e ↦
          rw (e, e)
            (
              h.0,
              remove-after_id-IsStacked m spacing (if m n then n.edge + n.height + spacing else low)
                  i ns x ignores (rw e at found) hit h.1,
            )
    ]

-- Two positions are the same if the test takes one for the other.
matches_place : (p : Place) (n : Notice) → matches p n ≡ true → n.place ≡ p
unfolding matches
matches_place p n h = ground arith

-- Every position's notifications on the page are stacked.
abbrev pub IsTidy : ℕ → List Notice → Type 0
IsTidy spacing page = (p : Place) → IsStacked (matches p) spacing 0 page

matches-new_notice :
    (p : Place) (l : Layout) (i height e : ℕ)
    → matches p (new_notice l i height e) ≡ true
    → l.place ≡ p
matches-new_notice p l i height e h = matches_place p (new_notice l i height e) h

placement_below :
    (l : Layout) (i height : ℕ) (page : List Notice)
    → l.newest_on_top ≡ false
    → (placement l i height page).0
      ≡ page ++ new_notice l i height (offset_from l.place l.spacing l.offset_y page) ∷ []
unfolding placement
placement_below l i height page below = ground arith

-- `placement` with the newest at the end, on any page whose notifications are stacked with the same
-- spacing at every position: they are so again.
pub placement-IsTidy :
    (l : Layout) (i height : ℕ) (page : List Notice)
    → l.newest_on_top ≡ false
    → IsTidy l.spacing page
    → IsTidy l.spacing (placement l i height page).0
placement-IsTidy l i height page below h p =
    let amount = offset_from l.place l.spacing l.offset_y page in
    let new = new_notice l i height amount in
    rw (placement_below l i height page below) (elim (Bool-cases (matches p new)) [
      | inl hit ↦
          offset_from-append p l.spacing 0 l.offset_y page new (omega arith)
            (ap (λ q. offset_from q l.spacing l.offset_y page)
              (matches-new_notice p l i height amount hit))
            (h p)
      | inr miss ↦ append_miss (matches p) l.spacing 0 page new miss (h p)
    ])

is_sibling-new_notice :
    (l : Layout) (i height e : ℕ) → is_sibling l (new_notice l i height e) ≡ true
unfolding is_sibling
is_sibling-new_notice l i height e = ground arith

after_id_first :
    (i : ℕ) (f : List Notice → List Notice) (n : Notice) (ns : List Notice)
    → n.id ≡ i
    → after_id i f (n ∷ ns) ≡ n ∷ f ns
unfolding after_id
after_id_first i f n ns h = ground arith

placement_reversed :
    (l : Layout) (i height : ℕ) (page : List Notice)
    → l.newest_on_top ≡ true
    → (placement l i height page).0
      ≡ reverse (
          after_id i
            (restack (is_sibling l) l.spacing (l.offset_y + l.spacing + height))
            (reverse (page ++ new_notice l i height l.offset_y ∷ [])))
unfolding placement reposition
placement_reversed l i height page top = ground arith

placement_top :
    (l : Layout) (i height : ℕ) (page : List Notice)
    → l.newest_on_top ≡ true
    → reverse (placement l i height page).0
      ≡ new_notice l i height l.offset_y
        ∷ restack (is_sibling l) l.spacing (l.offset_y + l.spacing + height) (reverse page)
placement_top l i height page top =
    let new = new_notice l i height l.offset_y in
    let f = restack (is_sibling l) l.spacing (l.offset_y + l.spacing + height) in
    ap reverse (placement_reversed l i height page top)
    ∙ reverse-reverse (after_id i f (reverse (page ++ new ∷ [])))
    ∙ ap (after_id i f) (reverse-append page (new ∷ []))
    ∙ after_id_first i f new (reverse page) refl

-- `placement` with the newest on top, on any page at all: from the newest back to the oldest, the
-- notifications of its element and position are stacked from its offset on.
placement_on_top-IsStacked :
    (l : Layout) (i height : ℕ) (page : List Notice)
    → l.newest_on_top ≡ true
    → IsStacked (is_sibling l) l.spacing l.offset_y (reverse (placement l i height page).0)
placement_on_top-IsStacked l i height page on_top =
    rw (placement_top l i height page on_top, is_sibling-new_notice l i height l.offset_y)
      (
        λ _. omega arith,
        restack-IsStacked (is_sibling l) l.spacing (l.offset_y + height + l.spacing)
            (l.offset_y + l.spacing + height) (reverse page) (is_sibling-IgnoresEdge l)
            (omega arith),
      )
