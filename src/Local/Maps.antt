-- ===== src/Local/Maps.antt =====
-- A `HashMap` with texts as keys, of which the program asks for the value of a key, and once for all
-- values in whatever order.
use di_pecs.Base.{String, Bool, Option, none, some, List, [], ◌∷◌, any, if◌then◌else◌}
use di_pecs.Base.Text.{str_eq}
use di_pecs.Base.Maps.{Map}

module _ {ℓ} {V : Type ℓ} where
  unfoldable pub get : Map V → String → Option V
  get [] key = none
  get ((k, v) ∷ rest) key = let found = get rest key in if str_eq k key then some v else found

  -- `insert`
  unfoldable pub put : String → V → Map V → Map V
  put key v [] = (key, v) ∷ []
  put key v ((k, w) ∷ rest) =
      let other = put key v rest in if str_eq k key then (k, v) ∷ rest else (k, w) ∷ other

  abbrev pub contains_key : Map V → String → Bool
  contains_key entries key = any (λ e. str_eq e.0 key) entries

  abbrev pub value_or : V → Option V → V
  value_or default none = default
  value_or default (some v) = v

  unfoldable pub put_all : List (String × V) → Map V → Map V
  put_all [] entries = entries
  put_all ((key, v) ∷ rest) entries = put_all rest (put key v entries)
