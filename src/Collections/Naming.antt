-- ===== src/Collections/Naming.antt =====
-- `collectionNames`: which names are in the set.
use arango_cpp.Base.{
  ℕ, ◌+◌, Bool, true, false, ◌&&◌, ◌||◌, not, List, [], ◌∷◌, ◌≡◌, refl, arith, Text, lit, text_eq,
  text_eq_iff, if◌then◌else◌, length, ℤ, pos, int_eq, ok, Bool-cases, inl, inr,
}
use arango_cpp.Base.Maps.{set_insert}
use arango_cpp.Detail.{contains}
use arango_cpp.Velocypack.{VPack, value, attempt}
use arango_cpp.Query.{CollectionTypes, vertex, edge, selects}
use arango_cpp.Api.{Client}
use arango_cpp.Collections.{type_is, add_collection, collection_names_loop}

pub contains-set_insert :
    (x y : Text) (s : List Text) → contains (set_insert x s) y ≡ (text_eq y x || contains s y)
unfolding contains set_insert
contains-set_insert x y [] = ground arith
contains-set_insert x y (z ∷ s) =
    ground (arith, text_eq_iff x z, text_eq_iff y x, text_eq_iff y z, contains-set_insert x y s)

-- What the server says of a collection: a system collection or not, its type and its name.
abbrev pub Entry : Type 0
Entry = Bool × ℤ × Text

-- The collections that are asked for: no system collections, and those of a type that is selected
-- (2 is a document collection, 3 an edge collection).
abbrev pub is_wanted : CollectionTypes → Entry → Bool
is_wanted ctype (system, type, name) =
    not system
    && ((selects ctype vertex && int_eq type (pos 2))
        || (selects ctype edge && int_eq type (pos 3)))

unfoldable pub wanted : CollectionTypes → List Entry → Text → Bool
wanted ctype [] x = false
wanted ctype (e ∷ es) x = (is_wanted ctype e && text_eq x e.2) || wanted ctype es x

-- A slice gives these data.
pub record Describes (vp : VPack) (slice : vp.Slice) (e : Entry) : Type 0 where
  pub system : vp.Slice
  pub get_system : vp.get slice (lit "isSystem") ≡ value system
  pub system_value : vp.get_bool system ≡ value e.0
  pub type : vp.Slice
  pub get_type : vp.get slice (lit "type") ≡ value type
  pub type_value : vp.get_int type ≡ value e.1
  pub name : vp.Slice
  pub get_name : vp.get slice (lit "name") ≡ value name
  pub name_value : vp.copy_string name ≡ value e.2

abbrev pub Lists : (vp : VPack) → vp.Slice → ℕ → List Entry → Type 0
Lists vp list ii [] = Unit
Lists vp list ii (e ∷ es) =
    ((s : vp.Slice) × (vp.elem list ii ≡ value s) × Describes vp s e) × Lists vp list (ii + 1) es

module _ {vp : VPack} {S : Type 0} (c : Client vp S) where
  type_is_lem :
      (bit : Bool) (slice : vp.Slice) (e : Entry) (n : ℕ) (s : S)
      → Describes vp slice e
      → type_is c bit slice n s ≡ (ok (bit && int_eq e.1 (pos n)), s)
  unfolding attempt
  type_is_lem false slice e n s h = refl
  type_is_lem true slice e n s h = rw (h.get_type, h.type_value) refl

  -- The entry is in, under its name, or left out.
  add_collection-Describes :
      (ctype : CollectionTypes) (slice : vp.Slice) (e : Entry) (names : List Text) (s : S)
      → Describes vp slice e
      → add_collection c ctype slice names s
        ≡ (ok (if is_wanted ctype e then set_insert e.2 names else names), s)
  unfolding add_collection attempt
  add_collection-Describes ctype slice (true, type, name) names s h =
      rw (h.get_system, h.system_value) refl
  add_collection-Describes ctype slice (false, type, name) names s h =
      let wanted_vertex = selects ctype vertex && int_eq type (pos 2) in
      let wanted_edge = selects ctype edge && int_eq type (pos 3) in
      elim (Bool-cases wanted_vertex) [
        | inl v ↦
            rw
              (
                h.get_system,
                h.system_value,
                type_is_lem (selects ctype vertex) slice (false, type, name) 2 s h,
                v,
                h.get_name,
                h.name_value,
              )
              refl
        | inr v ↦ elim (Bool-cases wanted_edge) [
          | inl w ↦
              rw
                (
                  h.get_system,
                  h.system_value,
                  type_is_lem (selects ctype vertex) slice (false, type, name) 2 s h,
                  v,
                  type_is_lem (selects ctype edge) slice (false, type, name) 3 s h,
                  w,
                  h.get_name,
                  h.name_value,
                )
                refl
          | inr w ↦
              rw
                (
                  h.get_system,
                  h.system_value,
                  type_is_lem (selects ctype vertex) slice (false, type, name) 2 s h,
                  v,
                  type_is_lem (selects ctype edge) slice (false, type, name) 3 s h,
                  w,
                )
                refl
        ]
      ]

  contains-is_wanted :
      (b : Bool) (x y : Text) (names : List Text)
      → contains (if b then set_insert y names else names) x
        ≡ ((b && text_eq x y) || contains names x)
  contains-is_wanted true x y names = contains-set_insert y x names
  contains-is_wanted false x y names = refl

  -- The loop of `collectionNames` over a list of the server: it does not throw, and a name is in
  -- the set if it was there, or if an entry of the list that is asked for has it.
  pub collection_names_loop_lem :
      (ctype : CollectionTypes) (list : vp.Slice) (ii : ℕ) (es : List Entry) (names : List Text)
      (s : S)
      → Lists vp list ii es
      → (found : List Text) × (collection_names_loop c ctype list ii (length es) names s
          ≡ (ok found, s))
        × ((x : Text) → contains found x ≡ (wanted ctype es x || contains names x))
  unfolding collection_names_loop attempt wanted
  collection_names_loop_lem ctype list ii [] names s h = (names, refl, λ x. refl)
  collection_names_loop_lem ctype list ii (e ∷ es) names s ((slice, he, hd), hs) =
      let names' = if is_wanted ctype e then set_insert e.2 names else names in
      let (found, ran, all) = collection_names_loop_lem ctype list (ii + 1) es names' s hs in
      (
        found,
        rw (he, add_collection-Describes ctype slice e names s hd) ran,
        λ x. ground (arith, all x, contains-is_wanted (is_wanted ctype e) x e.2 names),
      )
