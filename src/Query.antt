-- ===== src/Query.antt =====
-- include/arango-cpp/arangoquery.h and src/arangoquery.cpp: queries and the AQL text for them.
pub mod Generate
pub mod Comparing
use arango_cpp.Base.{
  ℕ, Bool, true, false, ◌||◌, not, List, [], ◌∷◌, ◌++◌, Text, String, lit, text_eq, ◌==◌, is_empty,
  if◌then◌else◌,
}
use arango_cpp.Base.Maps.{Map}

pub data CollectionTypes : Type 0 where
  vertex edge all : CollectionTypes

-- `operator&`: whether a bit is shared. The values are 1, 2 and 3.
unfoldable pub selects : CollectionTypes → CollectionTypes → Bool
selects vertex edge = false
selects edge vertex = false
selects _ _ = true

pub data QueryType : Type 0 where
  undef template all edges_from edges_to edges_all aql : QueryType

pub record ArangoDbQuery : Type 0 where
  pub query_type : QueryType
  pub find_condition : Text
  pub bind_vars : Text
  pub query_options : Text
  pub query_fields : Map Text

-- `ArangoDBQuery(condition, atype)`
unfoldable pub query : Text → QueryType → ArangoDbQuery
query condition atype = record {
  query_type = if is_empty condition then QueryType.all else atype;
  find_condition = condition;
  bind_vars = [];
  query_options = [];
  query_fields = [];
}

-- `ArangoDBQuery(atype)`
unfoldable pub query_of_type : QueryType → ArangoDbQuery
query_of_type atype = record {
  query_type = atype;
  find_condition = [];
  bind_vars = [];
  query_options = [];
  query_fields = [];
}

unfoldable pub set_bind_vars : Text → ArangoDbQuery → ArangoDbQuery
set_bind_vars json q = record q { bind_vars = json }

unfoldable pub set_options : Text → ArangoDbQuery → ArangoDbQuery
set_options json q = record q { query_options = json }

unfoldable pub set_query_fields : Map Text → ArangoDbQuery → ArangoDbQuery
set_query_fields fields q = record q { query_fields = fields }

-- The separator that both loops write before an entry: nothing before the first.
unfoldable pub separator : Text → Text → Text
separator sep generated = if is_empty generated then [] else sep

-- The loop over `mapFields` in `generateRETURN`.
return_fields : Text → Map Text → Text → Text
unfolding separator
return_fields collvalue [] fldslst = fldslst
return_fields collvalue ((first, second) ∷ fields) fldslst = return_fields collvalue fields (
    (fldslst ++ separator (lit ", ") fldslst)
    ++ (lit " \"" ++ (second ++ (lit "\" : " ++ (collvalue ++ (lit "." ++ first))))))

-- `generateRETURN(isDistinct, mapFields, collvalue)`
unfoldable pub generate_return : Bool → Map Text → Text → Text
unfolding return_fields
generate_return is_distinct map_fields collvalue =
    let retdata = lit "\nRETURN " ++ (if is_distinct then lit "DISTINCT " else []) in
    if is_empty map_fields
    then retdata ++ (collvalue ++ lit " ")
    else (retdata ++ lit " { ") ++ (return_fields collvalue map_fields [] ++ lit " } ")

-- The member function takes the fields of the query.
unfoldable pub generate_return_of : ArangoDbQuery → Bool → Text → Text
unfolding generate_return
generate_return_of q is_distinct collvalue = generate_return is_distinct q.query_fields collvalue

template_fields : Map Text → Text → Text
unfolding separator
template_fields [] generated = generated
template_fields ((first, second) ∷ fields) generated = template_fields fields (
    (generated ++ separator (lit ", ") generated)
    ++ (lit " \"" ++ (first ++ (lit "\" : " ++ (second ++ lit " ")))))

filter_fields : Text → Map Text → Text → Text
unfolding separator
filter_fields collvalue [] generated = generated
filter_fields collvalue ((first, second) ∷ fields) generated = filter_fields collvalue fields (
    (generated ++ separator (lit " && ") generated)
    ++ (collvalue ++ (lit "." ++ (first ++ (lit " == " ++ second)))))

-- `generateFILTER(fldvalues, asTemplate, collvalue)`
unfoldable pub generate_filter : Map Text → Bool → Text → Text
unfolding template_fields filter_fields
generate_filter fldvalues as_template collvalue =
    if is_empty fldvalues
    then []
    else if as_template
    then template_fields fldvalues []
    else lit "\nFILTER " ++ (filter_fields collvalue fldvalues [] ++ lit " ")
