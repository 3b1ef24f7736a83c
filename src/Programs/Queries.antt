-- ===== src/Programs/Queries.antt =====
-- examples/exampleOptions.cpp, examples/exampleQuery.cpp and examples/exampleSelection.cpp.
use arango_cpp.Base.{
  ℕ, zero, suc, ◌+◌, ◌%◌, ◌==◌, List, [], ◌∷◌, ◌++◌, Text, lit, pos, ok, M, ◌>>=◌, ◌>>◌, pure,
  if◌then◌else◌,
}
use arango_cpp.Velocypack.{VPack, call}
use arango_cpp.Requests.{Settings, HttpMessage}
use arango_cpp.Query.{ArangoDbQuery, QueryType, query, query_of_type, set_bind_vars, set_options}
use arango_cpp.Connection.{ArangoDbConnection}
use arango_cpp.Api.{Client}
use arango_cpp.Collections.{create_collection, create_document}
use arango_cpp.Select.{lift_client, keep, select_query, select_all, lookup_by_keys, collect_query}
use arango_cpp.Removal.{remove_by_template, remove_by_keys}
use arango_cpp.Programs.{print, on_first, reporting, from_config}
use arango_cpp.Programs.Substances.{aql_fun_substances_reactions_ids}

-- `printData`: each value on a line.
unfoldable pub value_lines : List Text → Text
value_lines [] = lit "\n"
value_lines (x ∷ xs) = x ++ (lit "\n" ++ value_lines xs)

-- `recjsonValues` is the list beside the state and the console.
module _ {S : Type 0} where
  unfoldable pub print_values : Text → M ((S × Text) × List Text) (Unit {0})
  print_values title (s, values) =
      on_first (print (title ++ (lit "\n" ++ value_lines values))) (s, values)

  unfoldable pub clear : M ((S × Text) × List Text) (Unit {0})
  clear (s, values) = (ok tt, (s, []))

  -- A session that begins with an empty list.
  unfoldable pub with_values : M ((S × Text) × List Text) (Unit {0}) → M (S × Text) (Unit {0})
  with_values session s = let (r, (s', values)) = session (s, []) in (r, s')

-- `options` of exampleOptions.cpp
unfoldable pub plan_options : Text
plan_options =
    lit "{ \"maxPlans\" : 1, "
    ++ lit "  \"optimizer\" : { \"rules\" : [ \"-all\", \"+remove-unnecessary-filters\" ]  } } "

unfoldable pub substances_query : ArangoDbQuery
substances_query = set_options plan_options (
    set_bind_vars
      (lit
        "{ \"ids\": [\"reactions/ZrF2(OH)2@;18:MINES;0\",\"substances/(NpO2)2(OH)2+2;2:SC_AQSOLUTE;15:PSI_NAGRA\"] }")
      (query aql_fun_substances_reactions_ids QueryType.aql))

-- The queries of the other two programs.
unfoldable pub values_query : ArangoDbQuery
values_query =
    query
      ((lit "FOR u IN " ++ lit "test")
        ++ (lit "\nFILTER u.properties.value > 50 \n"
            ++ lit "RETURN { \"_id\": u._id, \"name\":u.name, \"index\":u.index }"))
      QueryType.aql

unfoldable pub names_query : ArangoDbQuery
names_query =
    query ((lit "FOR u IN " ++ lit "test") ++ (lit "\nFILTER u.name == 'a' \n" ++ lit "RETURN u"))
      QueryType.aql

module _ (vp : VPack) (scaled : ℕ → vp.Slice) where
  -- The document with number `ii`; `scaled ii` is the double `10.01 * ii`.
  unfoldable pub numbered : ℕ → vp.Slice
  numbered ii = vp.of_object (
      (lit "name", vp.of_string (if ii % 2 == 0 then lit "b" else lit "a"))
      ∷ (lit "index", vp.of_int (pos ii))
      ∷ (lit "task", vp.of_string (lit "exampleQuery"))
      ∷ (lit "properties", vp.of_object ((lit "value", scaled ii) ∷ []))
      ∷ [])

  -- The loop that creates the documents from number `ii` on, with `left` to go.
  unfoldable pub insert_loop : {T : Type 0} → Client vp T → ℕ → ℕ → List Text → M T (List Text)
  insert_loop connect ii zero rec_keys = pure rec_keys
  insert_loop connect ii (suc left) rec_keys = do
    json ← call (vp.to_json (numbered ii))
    rkey ← create_document connect (lit "test") json
    insert_loop connect (ii + 1) left (rec_keys ++ rkey ∷ [])

module _ {vp : VPack} {S : Type 0} where
  unfoldable pub options_session : ℕ → Client vp (S × Text) → M (S × Text) (Unit {0})
  options_session fuel c = with_values (do
    let connect = lift_client (List Text) c
    select_query connect fuel (lit "elements") substances_query keep
    print_values (lit "Select records by AQL query")
    on_first (print (lit "End \n")))

  module _ (send : Settings → ArangoDbConnection → HttpMessage vp → M S (HttpMessage vp))
      (settings : Settings) where
    -- `main` of exampleOptions.cpp
    unfoldable pub options_main : ℕ → (Text → Text) → M (S × Text) (Unit {0})
    options_main fuel read_all_file s = reporting [] (lit " std::exception") (
        (print (lit "Start \n") >> from_config send read_all_file settings (options_session fuel))
          s)

  module _ (scaled : ℕ → vp.Slice) where
    unfoldable pub query_session : ℕ → Client vp (S × Text) → M (S × Text) (Unit {0})
    query_session fuel c = with_values (do
      let connect = lift_client (List Text) c
      create_collection connect (lit "test") (lit "vertex")
      rec_keys ← insert_loop vp scaled connect 0 10 []
      clear
      let allquery = query_of_type QueryType.all
      select_query connect fuel (lit "test") allquery keep
      print_values (lit "Select all records")
      clear
      select_query connect fuel (lit "test") (query (lit "{ \"name\" : \"a\" }") QueryType.template)
          keep
      print_values (lit "Select records by template")
      clear
      select_query connect fuel (lit "test") values_query keep
      print_values (lit "Select records by AQL query")
      remove_by_template connect (lit "test") (lit "{ \"name\" : \"a\" }")
      clear
      select_query connect fuel (lit "test") allquery keep
      print_values (lit "All after removing")
      remove_by_template connect (lit "test") (lit "{ \"name\" : \"b\" }")
      on_first (print (lit "Finish test \n")))

    unfoldable pub selection_session : ℕ → Client vp (S × Text) → M (S × Text) (Unit {0})
    selection_session fuel c = with_values (do
      let connect = lift_client (List Text) c
      create_collection connect (lit "test") (lit "vertex")
      rec_keys ← insert_loop vp scaled connect 0 10 []
      lookup_by_keys connect (lit "test") rec_keys keep
      print_values (lit "Load by keys list")
      clear
      select_query connect fuel (lit "test") names_query keep
      print_values (lit "Load by query")
      clear
      select_all connect fuel (lit "test") [] (λ json id. keep json)
      print_values (lit "Fetches all documents keys")
      clear
      select_all connect fuel (lit "test")
          ((lit "_id", lit "_id") ∷ (lit "index", lit "index") ∷ []) (λ json id. keep json)
      print_values (lit "Fetches all documents keys")
      clear
      collect_query c fuel (lit "test") (lit "name")
      print_values (lit "Select field values 'name'")
      clear
      collect_query c fuel (lit "test") (lit "properties.value")
      print_values (lit "Select field values 'properties.value'")
      remove_by_keys connect (lit "test") rec_keys
      on_first (print (lit "Finish test \n")))

    module _ (send : Settings → ArangoDbConnection → HttpMessage vp → M S (HttpMessage vp))
        (settings : Settings) where
      -- `main` of the other two programs
      unfoldable pub query_main : ℕ → (Text → Text) → M (S × Text) (Unit {0})
      query_main fuel read_all_file s =
          reporting (lit "ArangoDBCollectionAPI") (lit "ArangoDBCollectionAPI std::exception")
            (from_config send read_all_file settings (query_session fuel) s)

      unfoldable pub selection_main : ℕ → (Text → Text) → M (S × Text) (Unit {0})
      selection_main fuel read_all_file s =
          reporting (lit "TDBJsonDocument API") (lit "TDBJsonDocument API std::exception")
            (from_config send read_all_file settings (selection_session fuel) s)
