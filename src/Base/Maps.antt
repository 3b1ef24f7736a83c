-- ===== src/Base/Maps.antt =====
-- `std::map<std::string, V>` and `std::set<std::string>`: lists in the order of their keys.
use mathlib.Core.Path.{◌≡◌, refl}
use mathlib.Core.List.{List, [], ◌∷◌}
use mathlib.Core.Option.{Option, none, some}
use native.Mathlib.Omega.{arith}
use arango_cpp.Base.Tests.{if◌then◌else◌}
use arango_cpp.Base.Texts.{Text, text_eq, text_lt, text_eq_iff}

abbrev pub Map : Type 0 → Type 0
Map V = List (Text × V)

module _ {V : Type 0} where
  -- `m.find(key)`
  unfoldable pub lookup : Text → Map V → Option V
  lookup k [] = none
  lookup k ((j, v) ∷ m) = if text_eq k j then some v else lookup k m

  -- `m[key] = value`
  unfoldable pub insert : Text → V → Map V → Map V
  insert k v [] = (k, v) ∷ []
  insert k v ((j, w) ∷ m) =
      let rest = insert k v m in
      if text_eq k j then (k, v) ∷ m else if text_lt k j then (k, v) ∷ (j, w) ∷ m else (j, w) ∷ rest

  -- `m.erase(key)`
  unfoldable pub erase : Text → Map V → Map V
  erase k [] = []
  erase k ((j, w) ∷ m) = let rest = erase k m in if text_eq k j then rest else (j, w) ∷ rest

  pub lookup-insert :
      (j k : Text) (v : V) (m : Map V)
      → lookup j (insert k v m) ≡ (if text_eq j k then some v else lookup j m)
  unfolding lookup insert
  lookup-insert j k v [] = refl
  lookup-insert j k v ((i, w) ∷ m) =
      ground (arith, text_eq_iff j k, text_eq_iff k i, text_eq_iff j i, lookup-insert j k v m)

  pub lookup-erase :
      (j k : Text) (m : Map V) → lookup j (erase k m) ≡ (if text_eq j k then none else lookup j m)
  unfolding lookup erase
  lookup-erase j k [] = ground arith
  lookup-erase j k ((i, w) ∷ m) =
      ground (arith, text_eq_iff j k, text_eq_iff k i, text_eq_iff j i, lookup-erase j k m)

-- `names.insert(x)`
unfoldable pub set_insert : Text → List Text → List Text
set_insert x [] = x ∷ []
set_insert x (y ∷ s) =
    let rest = set_insert x s in
    if text_eq x y then y ∷ s else if text_lt x y then x ∷ y ∷ s else y ∷ rest
