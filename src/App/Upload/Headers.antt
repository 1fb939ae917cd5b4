-- ===== src/App/Upload/Headers.antt =====
-- `_parseHeaders` in gatling-rest/static/src/app/dashboard/run/multipart-uploader.ts, on a text as
-- the list of its code units, which are bytes in what `getAllResponseHeaders` gives.
pub mod Print
use dist_gatling.Shared.{
  ℕ, zero, suc, ◌+◌, ◌-◌, Bool, true, false, not, ◌&&◌, ◌||◌, Option, none, some, List, [], ◌∷◌,
  ◌++◌, map, reverse, length, leb, ◌==◌, if◌then◌else◌,
}
use dist_gatling.Shared.Names.{codes, same_codes}

abbrev pub Text : Type 0
Text = List ℕ

-- `toLowerCase` on code units below 256
abbrev pub lower_unit : ℕ → ℕ
lower_unit c =
    if leb b'A' c && leb c b'Z' || leb 192 c && leb c 222 && not (c == 215) then c + 32 else c

unfoldable pub to_lower_case : Text → Text
to_lower_case s = map lower_unit s

-- what `trim` takes off, below 256
unfoldable pub is_white : ℕ → Bool
is_white c = leb 9 c && leb c 13 || c == 32 || c == 160

unfoldable pub trim_left : Text → Text
unfolding is_white
trim_left [] = []
trim_left (c ∷ s) = let rest = trim_left s in if is_white c then rest else c ∷ s

-- `trim`
unfoldable pub trim : Text → Text
unfolding trim_left
trim s = reverse (trim_left (reverse (trim_left s)))

-- A line that goes on with a character: the first of the lines is longer.
abbrev pub longer : ℕ → List Text → List Text
longer c [] = (c ∷ []) ∷ []
longer c (l ∷ ls) = (c ∷ l) ∷ ls

-- `split('\n')`
unfoldable pub split : Text → List Text
split [] = [] ∷ []
split (c ∷ s) = let rest = split s in if c == 10 then [] ∷ rest else longer c rest

-- `indexOf(':')`, where `none` is -1
unfoldable pub index_of : Text → Option ℕ
index_of [] = none
index_of (c ∷ s) =
    let rest = index_of s in
    if c == b':' then some 0 else elim rest [ none ↦ none | some i ↦ some (suc i) ]

-- `slice(0, i)` and `slice(i)` for an index
unfoldable pub slice_to : ℕ → Text → Text
slice_to zero s = []
slice_to (suc i) [] = []
slice_to (suc i) (c ∷ s) = c ∷ slice_to i s

unfoldable pub slice_from : ℕ → Text → Text
slice_from zero s = s
slice_from (suc i) [] = []
slice_from (suc i) (c ∷ s) = slice_from i s

-- The own properties of `parsed`, in the order in which they were made. An object lists names that are
-- whole numbers first, an order that nothing here depends on.
abbrev pub Parsed : Type 0
Parsed = List (Text × Text)

unfoldable pub own : Text → Parsed → Option Text
own k [] = none
own k ((j, v) ∷ d) = let rest = own k d in if same_codes j k then some v else rest

unfoldable pub put : Text → Text → Parsed → Parsed
put k v [] = (k, v) ∷ []
put k v ((j, w) ∷ d) = let rest = put k v d in if same_codes j k then (j, v) ∷ d else (j, w) ∷ rest

-- an assignment to `__proto__` of a text does nothing
unfoldable pub assign : Text → Text → Parsed → Parsed
unfolding put
assign k v d = if same_codes k (codes "__proto__") then d else put k v d

-- The text of a property that every object inherits, such as `constructor`: the browser's, so it is a
-- parameter.
module _ (inherited : Text → Option Text) where
  abbrev pub or_inherited : Text → Option Text → Option Text
  or_inherited k none = inherited k
  or_inherited k (some v) = some v

  -- `parsed[key]`, as a text
  unfoldable pub get : Text → Parsed → Option Text
  unfolding own
  get k d = or_inherited k (own k d)

  -- `parsed[key] ? parsed[key] + ', ' + val : val`
  abbrev pub joined : Option Text → Text → Text
  joined none v = v
  joined (some []) v = v
  joined (some (c ∷ s)) v = (c ∷ s) ++ codes ", " ++ v

  -- `if (key)`
  unfoldable pub add : Text → Text → Parsed → Parsed
  unfolding assign get
  add [] v d = d
  add (c ∷ k) v d = assign (c ∷ k) (joined (get (c ∷ k) d) v) d

  -- One line: for the index -1, `slice(0, -1)` is the line without its last character, and
  -- `slice(0)` is the line.
  abbrev pub key_text : Text → Option ℕ → Text
  key_text line none = slice_to (length line - 1) line
  key_text line (some i) = slice_to i line

  abbrev pub val_text : Text → Option ℕ → Text
  val_text line none = line
  val_text line (some i) = slice_from (suc i) line

  unfoldable pub parse_line : Text → Parsed → Parsed
  unfolding index_of slice_to slice_from trim to_lower_case add
  parse_line line d =
      let i = index_of line in
      add (to_lower_case (trim (key_text line i))) (trim (val_text line i)) d

  unfoldable pub parse_lines : List Text → Parsed → Parsed
  unfolding parse_line
  parse_lines [] d = d
  parse_lines (l ∷ ls) d = parse_lines ls (parse_line l d)

  -- `_parseHeaders`, where `none` is null
  unfoldable pub parse_headers : Option Text → Parsed
  unfolding split parse_lines
  parse_headers none = []
  parse_headers (some []) = []
  parse_headers (some (c ∷ s)) = parse_lines (split (c ∷ s)) []
