-- ===== src/Query/Comparing.antt =====
-- The empty query and the comparison of queries: include/arango-cpp/arangoquery.h and
-- src/arangoquery.cpp.
use arango_cpp.Base.{
  Bool, true, false, ◌||◌, not, ◌≡◌, ◌↔◌, refl, sym, ap, ◌∙◌, ◌==◌, if◌then◌else◌, arith, text_eq,
  text_eq_iff, ℤ, pos, negsuc, int_eq,
}
use arango_cpp.Query.{
  QueryType, undef, template, all, edges_from, edges_to, edges_all, aql, ArangoDbQuery,
  query_of_type,
}

-- The values of the enumeration.
unfoldable pub type_value : QueryType → ℤ
type_value undef = negsuc 0
type_value template = pos 0
type_value all = pos 1
type_value edges_from = pos 2
type_value edges_to = pos 3
type_value edges_all = pos 4
type_value aql = pos 6

-- `empty()`
unfoldable pub empty : ArangoDbQuery → Bool
unfolding type_value
empty q = int_eq (type_value q.query_type) (type_value undef)

-- `emptyQuery`
unfoldable pub empty_query : ArangoDbQuery
empty_query = query_of_type undef

-- `operator !=`
unfoldable pub query_ne : ArangoDbQuery → ArangoDbQuery → Bool
query_ne el er =
    not (int_eq (type_value el.query_type) (type_value er.query_type))
    || not (text_eq el.find_condition er.find_condition)

int_eq_iff : (x y : ℤ) → (int_eq x y ≡ true) ↔ (x ≡ y)
unfolding int_eq
int_eq_iff (pos a) (pos b) = grind arith
int_eq_iff (pos a) (negsuc b) = grind arith
int_eq_iff (negsuc a) (pos b) = grind arith
int_eq_iff (negsuc a) (negsuc b) = grind arith

type_at : ℤ → QueryType
type_at (negsuc n) = undef
type_at (pos n) =
    if n == 0
    then template
    else if n == 1
    then all
    else if n == 2
    then edges_from
    else if n == 3
    then edges_to
    else if n == 4
    then edges_all
    else aql

type_at-type_value : (a : QueryType) → type_at (type_value a) ≡ a
unfolding type_at type_value
type_at-type_value undef = refl
type_at-type_value template = refl
type_at-type_value all = refl
type_at-type_value edges_from = refl
type_at-type_value edges_to = refl
type_at-type_value edges_all = refl
type_at-type_value aql = refl

type_value-eq : (a b : QueryType) → (int_eq (type_value a) (type_value b) ≡ true) ↔ (a ≡ b)
type_value-eq a b =
    let iff = int_eq_iff (type_value a) (type_value b) in
    (
      λ e. sym (type_at-type_value a) ∙ ap type_at (iff.0 e) ∙ type_at-type_value b,
      λ e. iff.1 (ap type_value e),
    )

-- Two queries are not told apart exactly if their types and their conditions agree: the bind
-- variables, the options and the fields are not compared.
pub query_ne_iff :
    (a b : ArangoDbQuery)
    → (query_ne a b ≡ false)
      ↔ ((a.query_type ≡ b.query_type) × (a.find_condition ≡ b.find_condition))
unfolding query_ne
query_ne_iff a b =
    ground (
      arith,
      type_value-eq a.query_type b.query_type,
      text_eq_iff a.find_condition b.find_condition,
    )
