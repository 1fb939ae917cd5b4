-- ===== src/App/Upload/Headers/Print.antt =====
-- Headers in the format of `getAllResponseHeaders`, read back.
use dist_gatling.Shared.{
  ℕ, ◌≡◌, Bool, false, Option, none, [], ◌∷◌, ◌++◌, reverse, length, ◌==◌, All,
}
use dist_gatling.Shared.Names.{codes, same_codes}
use dist_gatling.App.Upload.Headers.{Text, lower_unit, is_white, Parsed, own}

-- A name, a colon, a blank, a value, and the first character of the end of the line.
abbrev pub header_line : Text → Text → Text
header_line k v = k ++ (b':' ∷ 32 ∷ (v ++ 13 ∷ []))

pub print : Parsed → Text
print [] = []
print ((k, v) ∷ hs) = header_line k v ++ 10 ∷ print hs

abbrev pub white_first : Text → Bool
white_first [] = false
white_first (c ∷ s) = is_white c

abbrev pub IsInner : ℕ → Type 0
IsInner c = (c == 10) ≡ false

-- a character of a name: in lower case, no colon, no white space
pub record IsToken (c : ℕ) : Type 0 where
  pub lowered : lower_unit c ≡ c
  pub plain : (c == b':') ≡ false
  pub dark : is_white c ≡ false

-- A header: a name that is not empty, and a value on one line without white space at its ends.
pub record IsHeader (h : Text × Text) : Type 0 where
  pub named : (length h.0 == 0) ≡ false
  pub name : All IsToken h.0
  pub inner : All IsInner h.1
  pub starts : white_first h.1 ≡ false
  pub ends : white_first (reverse h.1) ≡ false
  pub ordinary : same_codes h.0 (codes "__proto__") ≡ false

-- Each name differs from those before it.
abbrev pub AreNew : Parsed → Parsed → Type 0
AreNew d [] = Unit
AreNew d ((k, v) ∷ hs) = (own k d ≡ none) × AreNew (d ++ (k, v) ∷ []) hs

module _ (inherited : Text → Option Text) where
  -- No header has the name of a property that every object inherits.
  abbrev pub IsOwn : Text × Text → Type 0
  IsOwn h = inherited h.0 ≡ none
