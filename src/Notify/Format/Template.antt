-- ===== src/Notify/Format/Template.antt =====
-- `String.format` fills the holes of a template.
use dist_gatling.Shared.{
  ℕ, suc, ◌+◌, ◌<◌, ◌≤◌, ◌≡◌, ◌≢◌, refl, List, [], ◌∷◌, ◌++◌, ◌==◌, length, if◌then◌else◌, arith,
  All, ap, ◌∙◌, Option, none, some, Bool-cases, inl, inr, ==_iff, sym,
}
use dist_gatling.Notify.Format.{placeholder, expand, replace_from, replace_all, format_from, format}

-- A template: code units that open no placeholder, and holes.
pub data Piece : Type 0 where
  unit hole : ℕ → Piece

pub render : List Piece → List ℕ
render [] = []
render (unit c ∷ ps) = c ∷ render ps
render (hole i ∷ ps) = placeholder i ++ render ps

-- No brace opens in the text, and it has no dollar.
abbrev pub IsPlain : List ℕ → Type 0
IsPlain = All (λ c. (c ≢ b'{') × (c ≢ b'$'))

-- Units are no opening braces, and the holes are numbered below 10.
abbrev pub IsTemplate : List Piece → Type 0
IsTemplate [] = Unit
IsTemplate (unit c ∷ ps) = (c ≢ b'{') × IsTemplate ps
IsTemplate (hole i ∷ ps) = (i < 10) × IsTemplate ps

expand_plain : (before match after arg : List ℕ) → IsPlain arg → expand before match after arg ≡ arg
unfolding expand
expand_plain before match after [] h = refl
expand_plain before match after (c ∷ []) h = refl
expand_plain before match after (c ∷ d ∷ cs) h =
    ground (arith, expand_plain before match after (d ∷ cs) h.1)

placeholder_digit : (i : ℕ) → i < 10 → placeholder i ≡ b'{' ∷ (b'0' + i) ∷ b'}' ∷ []
unfolding placeholder
placeholder_digit i h = ground arith

-- The text of a piece or of an argument, put in for a hole.
pub units : List ℕ → List Piece
units [] = []
units (c ∷ cs) = unit c ∷ units cs

-- The template after one round of the loop.
pub fill : ℕ → List ℕ → List Piece → List Piece
unfolding units
fill i arg [] = []
fill i arg (unit c ∷ ps) = unit c ∷ fill i arg ps
fill i arg (hole k ∷ ps) = if k == i then units arg ++ fill i arg ps else hole k ∷ fill i arg ps

abbrev pattern3 : ℕ → List ℕ
pattern3 i = b'{' ∷ (b'0' + i) ∷ b'}' ∷ []

render-units : (arg : List ℕ) (ps : List Piece) → render (units arg ++ ps) ≡ arg ++ render ps
unfolding render units
render-units [] ps = refl
render-units (c ∷ cs) ps = ap (c ∷◌) (render-units cs ps)

module _ (i : ℕ) (arg : List ℕ) (plain : IsPlain arg) where
  -- No match begins at a unit other than an opening brace.
  pass :
      (before : List ℕ) (c : ℕ) (xs : List ℕ)
      → c ≢ b'{'
      → replace_from (pattern3 i) arg 0 before (c ∷ xs)
        ≡ c ∷ replace_from (pattern3 i) arg 0 (before ++ c ∷ []) xs
  unfolding replace_from
  pass before c xs h = ground arith

  pass_brace :
      (before : List ℕ) (k : ℕ) (xs : List ℕ)
      → k ≢ i
      → replace_from (pattern3 i) arg 0 before (b'{' ∷ (b'0' + k) ∷ xs)
        ≡ b'{' ∷ replace_from (pattern3 i) arg 0 (before ++ b'{' ∷ []) ((b'0' + k) ∷ xs)
  unfolding replace_from
  pass_brace before k xs ne = ground arith

  -- The text that `replace` has passed when it is behind a hole.
  abbrev behind : List ℕ → ℕ → List ℕ
  behind before k = ((before ++ b'{' ∷ []) ++ (b'0' + k) ∷ []) ++ b'}' ∷ []

  -- A hole of another number is passed.
  pass_hole :
      (before : List ℕ) (k : ℕ) (xs : List ℕ)
      → k < 10
      → k ≢ i
      → replace_from (pattern3 i) arg 0 before (pattern3 k ++ xs)
        ≡ pattern3 k ++ replace_from (pattern3 i) arg 0 (behind before k) xs
  pass_hole before k xs h ne =
      let before1 = before ++ b'{' ∷ [] in
      let before2 = before1 ++ (b'0' + k) ∷ [] in
      pass_brace before k (b'}' ∷ xs) ne
      ∙ ap (b'{' ∷◌) (
          pass before1 (b'0' + k) (b'}' ∷ xs) (omega arith)
          ∙ ap ((b'0' + k) ∷◌) (pass before2 b'}' xs (omega arith)))

  -- A hole of this number is filled.
  fill_hole :
      (before xs : List ℕ)
      → replace_from (pattern3 i) arg 0 before (pattern3 i ++ xs)
        ≡ arg ++ replace_from (pattern3 i) arg 0 (behind before i) xs
  unfolding replace_from
  fill_hole before xs = ground (arith, expand_plain before (pattern3 i) xs arg plain)

  replace-render :
      (before : List ℕ) (ps : List Piece)
      → IsTemplate ps
      → replace_from (pattern3 i) arg 0 before (render ps) ≡ render (fill i arg ps)
  unfolding render fill
  replace-render before [] h = unfold replace_from in refl
  replace-render before (unit c ∷ ps) (ne, h) =
      pass before c (render ps) ne ∙ ap (c ∷◌) (replace-render (before ++ c ∷ []) ps h)
  replace-render before (hole k ∷ ps) (lt, h) = elim (Bool-cases (k == i)) [
    | inl e ↦
        rw (e, placeholder_digit k lt)
          (rw ((==_iff k i).0 e) (
            fill_hole before (render ps)
            ∙ ap (arg ++◌) (replace-render (behind before i) ps h)
            ∙ sym (render-units arg (fill i arg ps))))
    | inr e ↦
        rw (e, placeholder_digit k lt)
          (pass_hole before k (render ps) lt (ground arith)
            ∙ ap (pattern3 k ++◌) (replace-render (behind before k) ps h))
  ]

  -- A filled template is one.
  units-IsTemplate :
      (cs : List ℕ) (ps : List Piece) → IsPlain cs → IsTemplate ps → IsTemplate (units cs ++ ps)
  unfolding units
  units-IsTemplate [] ps c h = h
  units-IsTemplate (c ∷ cs) ps (p, q) h = (p.0, units-IsTemplate cs ps q h)

  fill-IsTemplate : (ps : List Piece) → IsTemplate ps → IsTemplate (fill i arg ps)
  unfolding fill
  fill-IsTemplate [] h = tt
  fill-IsTemplate (unit c ∷ ps) (ne, h) = (ne, fill-IsTemplate ps h)
  fill-IsTemplate (hole k ∷ ps) (lt, h) = elim (Bool-cases (k == i)) [
    | inl e ↦ rw e (units-IsTemplate arg (fill i arg ps) plain (fill-IsTemplate ps h))
    | inr e ↦ rw e (lt, fill-IsTemplate ps h)
  ]

-- The argument with a number, where the list begins with the one numbered `i`.
pub numbered : ℕ → List (List ℕ) → ℕ → Option (List ℕ)
numbered i [] k = none
numbered i (arg ∷ args) k = let rest = numbered (suc i) args k in if k == i then some arg else rest

abbrev hole_text : ℕ → Option (List ℕ) → List ℕ
hole_text k none = placeholder k
hole_text k (some arg) = arg

-- The reference: every hole at once, a hole without an argument as it is.
pub instantiate : ℕ → List (List ℕ) → List Piece → List ℕ
instantiate i args [] = []
instantiate i args (unit c ∷ ps) = c ∷ instantiate i args ps
instantiate i args (hole k ∷ ps) = hole_text k (numbered i args k) ++ instantiate i args ps

instantiate_none : (i : ℕ) (ps : List Piece) → instantiate i [] ps ≡ render ps
unfolding instantiate numbered render
instantiate_none i [] = refl
instantiate_none i (unit c ∷ ps) = ap (c ∷◌) (instantiate_none i ps)
instantiate_none i (hole k ∷ ps) = ap (placeholder k ++◌) (instantiate_none i ps)

instantiate-units :
    (i : ℕ) (args : List (List ℕ)) (cs : List ℕ) (ps : List Piece)
    → instantiate i args (units cs ++ ps) ≡ cs ++ instantiate i args ps
unfolding instantiate units
instantiate-units i args [] ps = refl
instantiate-units i args (c ∷ cs) ps = ap (c ∷◌) (instantiate-units i args cs ps)

instantiate-fill :
    (i : ℕ) (arg : List ℕ) (args : List (List ℕ)) (ps : List Piece)
    → instantiate (suc i) args (fill i arg ps) ≡ instantiate i (arg ∷ args) ps
unfolding instantiate fill numbered
instantiate-fill i arg args [] = refl
instantiate-fill i arg args (unit c ∷ ps) = ap (c ∷◌) (instantiate-fill i arg args ps)
instantiate-fill i arg args (hole k ∷ ps) = elim (Bool-cases (k == i)) [
  | inl e ↦ rw e (
      instantiate-units (suc i) args arg (fill i arg ps)
      ∙ ap (arg ++◌) (instantiate-fill i arg args ps))
  | inr e ↦ rw e (ap (hole_text k (numbered (suc i) args k) ++◌) (instantiate-fill i arg args ps))
]

format_from-instantiate :
    (i : ℕ) (ps : List Piece) (args : List (List ℕ))
    → i + length args ≤ 10
    → All IsPlain args
    → IsTemplate ps
    → format_from i (render ps) args ≡ instantiate i args ps
unfolding format_from replace_all
format_from-instantiate i ps [] le plain h = sym (instantiate_none i ps)
format_from-instantiate i ps (arg ∷ args) le (p, plain) h =
    rw (placeholder_digit i (omega arith), replace-render i arg p [] ps h)
      (format_from-instantiate (suc i) (fill i arg ps) args (omega arith) plain
          (fill-IsTemplate i arg p ps h)
        ∙ instantiate-fill i arg args ps)

-- For every template with holes below 10, and at most ten arguments without opening braces and
-- dollars: `String.format`, which replaces one placeholder after the other, gives the text in which
-- every hole has been filled at once with the argument of its number, and a hole without an argument
-- stands as it was.
pub format-instantiate :
    (ps : List Piece) (args : List (List ℕ))
    → length args ≤ 10
    → All IsPlain args
    → IsTemplate ps
    → format (render ps) args ≡ instantiate 0 args ps
unfolding format
format-instantiate ps args le plain h = format_from-instantiate 0 ps args (omega arith) plain h
