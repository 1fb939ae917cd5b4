-- ===== src/Notify/Format.antt =====
-- `String.format` of gatling-rest/static/src/assets/js/bootstrap-notify.js, over the code units of
-- a text, with the special patterns of a replacement in `String.prototype.replace`.
pub mod Template
use dist_gatling.Shared.{
  ℕ, zero, suc, ◌+◌, ◌-◌, ◌/◌, ◌%◌, Bool, true, false, ◌&&◌, List, [], ◌∷◌, ◌++◌, ltb, ◌==◌, length,
  if◌then◌else◌,
}

-- The decimal digits of a number, with fuel: a number has at most as many digits as its value and 1.
decimal_fuel : ℕ → ℕ → List ℕ
decimal_fuel zero n = []
decimal_fuel (suc f) n =
    let rest = decimal_fuel f (n / 10) in
    if ltb n 10 then (b'0' + n) ∷ [] else rest ++ (b'0' + n % 10) ∷ []

-- What `RegExp("\\{" + i + "\\}")` matches, and no other text.
pub placeholder : ℕ → List ℕ
unfolding decimal_fuel
placeholder i = b'{' ∷ decimal_fuel (suc i) i ++ b'}' ∷ []

-- The text begins with the pattern.
pub begins : List ℕ → List ℕ → Bool
begins [] xs = true
begins (p ∷ ps) [] = false
begins (p ∷ ps) (x ∷ xs) = p == x && begins ps xs

-- A replacement as `replace` reads it: `$$` is a dollar, `$&` the match, and a dollar with a
-- backquote or a quote is the text before or after it. There are no groups.
pub expand : List ℕ → List ℕ → List ℕ → List ℕ → List ℕ
expand before match after [] = []
expand before match after (c ∷ []) = c ∷ []
expand before match after (c ∷ d ∷ cs) =
    let plain = c ∷ expand before match after (d ∷ cs) in
    let rest = expand before match after cs in
    if c == b'$'
    then (if d == b'$'
        then b'$' ∷ rest
        else if d == b'&'
        then match ++ rest
        else if d == 96
        then before ++ rest
        else if d == 39
        then after ++ rest
        else plain)
    else plain

drop : ℕ → List ℕ → List ℕ
drop zero xs = xs
drop (suc n) [] = []
drop (suc n) (x ∷ xs) = drop n xs

-- `replace` with the flag `g`: the code units of a match that are still to be passed over, the text
-- before this place, and the text from here on.
pub replace_from : List ℕ → List ℕ → ℕ → List ℕ → List ℕ → List ℕ
unfolding begins expand drop
replace_from pat arg skip before [] = []
replace_from pat arg (suc skip) before (x ∷ xs) = replace_from pat arg skip (before ++ x ∷ []) xs
replace_from pat arg zero before (x ∷ xs) =
    let found = begins pat (x ∷ xs) in
    let rest = replace_from pat arg (if found then length pat - 1 else 0) (before ++ x ∷ []) xs in
    if found then expand before pat (drop (length pat) (x ∷ xs)) arg ++ rest else x ∷ rest

pub replace_all : List ℕ → List ℕ → List ℕ → List ℕ
unfolding replace_from
replace_all pat arg str = replace_from pat arg 0 [] str

-- The loop over `arguments`, from the placeholder with this number on.
pub format_from : ℕ → List ℕ → List (List ℕ) → List ℕ
unfolding replace_all placeholder
format_from i str [] = str
format_from i str (arg ∷ args) = format_from (suc i) (replace_all (placeholder i) arg str) args

unfoldable pub format : List ℕ → List (List ℕ) → List ℕ
unfolding format_from
format str args = format_from 0 str args
