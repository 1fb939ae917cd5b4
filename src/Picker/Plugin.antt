-- ===== src/Picker/Plugin.antt =====
-- The call of `$.fn.selectpicker` of gatling-rest/static/src/assets/js/bootstrap-select.js with the name
-- of a method, for elements whose objects are built already. What the call returns is left out.
use dist_gatling.Shared.{
  ◌≡◌, refl, ap, String, Option, none, some, List, [], ◌∷◌, map, if◌then◌else◌, str_eq,
}
use dist_gatling.Jquery.{Jquery}
use dist_gatling.Picker.{Picker, render, val}

-- `[].shift.apply(args)`. The arguments are those of the outer function, so that what comes first next
-- is its parameter `option` too; where nothing is left, the parameter keeps its value.
unfoldable pub shift : List String → List String
shift [] = []
shift (a ∷ args) = args

unfoldable pub shifted_option : String → List String → String
shifted_option option (a ∷ b ∷ args) = b
shifted_option option _ = option

-- How the browser assigns a value to the options, and the other methods of the object, by their names.
module _ ⦃j : Jquery⦄ (assign : String → j.Node → j.Node)
    (method : String → Option (List String → Picker → Picker)) where
  -- `val` with the arguments that are left; without one it only reads.
  unfoldable pub call_val : List String → Picker → Picker
  unfolding val
  call_val [] p = p
  call_val (v ∷ args) p = val (assign v) p

  -- `data[property]`, if it is a function
  unfoldable pub find_method : String → Option (List String → Picker → Picker)
  unfolding call_val render
  find_method property =
      if str_eq property "val"
      then some call_val
      else if str_eq property "render"
      then some (λ args. render)
      else method property

  -- The loop over the elements. A text as `option` is copied to the object, character by character,
  -- to numbers that nothing reads.
  unfoldable pub each_picker : String → List String → List Picker → List Picker
  unfolding find_method shift shifted_option
  each_picker option args [] = []
  each_picker option args (p ∷ ps) = elim (find_method option) [
    | none ↦ p ∷ each_picker option args ps
    | some f ↦ f (shift args) p ∷ each_picker (shifted_option option args) (shift args) ps
  ]

  -- `$.fn.selectpicker`, for the name of a method and what it is to be given
  unfoldable pub selectpicker : String → List String → List Picker → List Picker
  unfolding each_picker
  selectpicker option given = each_picker option (option ∷ given)

  each_picker-none :
      (option : String) (args : List String) (ps : List Picker)
      → find_method option ≡ none
      → each_picker option args ps ≡ ps
  unfolding each_picker
  each_picker-none option args [] h = refl
  each_picker-none option args (p ∷ ps) h =
      rw (each_picker, h) (ap (λ qs. p ∷ qs) (each_picker-none option args ps h))

  each_picker-render : (ps : List Picker) → each_picker "render" [] ps ≡ map render ps
  unfolding each_picker
  each_picker-render [] = refl
  each_picker-render (p ∷ ps) = ap (λ qs. render p ∷ qs) (each_picker-render ps)

  -- `render` is called on all elements; but a value that is not the name of a method is given to the
  -- first element alone.
  pub selectpicker_first :
      (v : String) (p : Picker) (ps : List Picker)
      → find_method v ≡ none
      → (selectpicker "render" [] (p ∷ ps) ≡ map render (p ∷ ps))
        × (selectpicker "val" (v ∷ []) (p ∷ ps) ≡ val (assign v) p ∷ ps)
  unfolding selectpicker each_picker call_val
  selectpicker_first v p ps h = (
    ap (λ qs. render p ∷ qs) (each_picker-render ps),
    ap (λ qs. val (assign v) p ∷ qs) (each_picker-none v (v ∷ []) ps h),
  )
