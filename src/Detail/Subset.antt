-- ===== src/Detail/Subset.antt =====
-- `getSubset` of src/arangodetail.h.
use mathlib.Core.List.{Sublist}
use mathlib.Core.List.Sublist
use arango_cpp.Base.{◌&&◌, List, [], ◌∷◌, ◌≡◌, refl, inl, inr, arith, Text, text_eq_iff, Bool-cases}
use arango_cpp.Detail.{contains, get_subset}

-- The names that stand in both arguments, and no others.
pub contains-get_subset :
    (test_vector full_set : List Text) (x : Text)
    → contains (get_subset test_vector full_set) x ≡ (contains test_vector x && contains full_set x)
unfolding get_subset
contains-get_subset [] full_set x = refl
contains-get_subset (v ∷ vs) full_set x =
    ground (arith, text_eq_iff x v, contains-get_subset vs full_set x)

-- They keep their order and their number.
pub get_subset-sublist :
    (test_vector full_set : List Text) → Sublist (get_subset test_vector full_set) test_vector
unfolding get_subset
get_subset-sublist [] full_set = Sublist.refl []
get_subset-sublist (v ∷ vs) full_set = elim (Bool-cases (contains full_set v)) [
  | inl e ↦ rw e (Sublist.cons-cons v (get_subset-sublist vs full_set))
  | inr e ↦ rw e (Sublist.cons v (get_subset-sublist vs full_set))
]
