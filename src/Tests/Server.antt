-- ===== src/Tests/Server.antt =====
-- The operations over a server with prepared answers.
use arango_cpp.Select.{query_edges_to_from}
use arango_cpp.Select.Edges.{outbound, edge_aql, query_edges_to_from_lem}
use arango_cpp.Query.Generate.{join}
use arango_cpp.Base.Maps.{set_insert}
use arango_cpp.Base.{text_lt}
use arango_cpp.Query.{edges_from, selects}
use arango_cpp.Collections.{collection_names}
use arango_cpp.Tests.Samples.{listing}
use arango_cpp.Base.{
  Bool, true, false, ◌||◌, List, [], ◌∷◌, ◌≡◌, refl, Text, lit, text_eq, int_eq, to_int, ℤ, pos, ok,
  M,
}
use arango_cpp.Detail.{contains}
use arango_cpp.Velocypack.{attempt}
use arango_cpp.Requests.{HttpMessage, front, read_slices}
use arango_cpp.Query.{CollectionTypes}
use arango_cpp.Connection.{default_user, ArangoDbConnection, default_connection, connection_eq}
use arango_cpp.Api.{ApiBase, reset_db_connection, test_connection}
use arango_cpp.Api.Resetting.{reset_db_connection_lem}
use arango_cpp.Collections.{exist_collection, drop_collection, collection_names_loop}
use arango_cpp.Collections.Naming.{Entry, wanted, Describes, collection_names_loop_lem}
use arango_cpp.Base.{◌↔◌}
use arango_cpp.Requests.{arango_error_throw}
use arango_cpp.Connection.{connection_ne}
use arango_cpp.Api.{throw_error}
use arango_cpp.Tests.Samples.{failure, absent}
use arango_cpp.Existence.{collection as collection_of, exists_of, remove_of, refuses, remove_lem}
use arango_cpp.Tests.Samples.{
  flag, number, text, collection, collections, doc_vp, doc_get, doc_elem, some_settings, answer,
  prepared, server,
}

abbrev pub Answers : Type 0
Answers = List (HttpMessage doc_vp)

-- `sendREQUEST` for any connection data.
abbrev pub send : ArangoDbConnection → HttpMessage doc_vp → M Answers (HttpMessage doc_vp)
send connect_data = prepared

abbrev api : ApiBase
api = record { connect_data = default_connection; batch_size = pos 500; connected_message = [] }

abbrev other : ArangoDbConnection
other = record default_connection { database_name = lit "other" }

abbrev changed : ApiBase
changed = record api {
  connect_data = other;
  connected_message = lit "An error occurs in ArangoDB server: down";
}

reset_db_connection_lem_example :
    (connection_eq other other ≡ true) × (changed.batch_size ≡ pos 500)
unfolding reset_db_connection connection_ne test_connection throw_error arango_error_throw attempt
    prepared doc_get lit text_eq int_eq to_int read_slices
reset_db_connection_lem_example =
    reset_db_connection_lem send some_settings other api
      (answer 500 (failure (pos 7) (lit "down")) ∷ []) changed refl

abbrev secret : ArangoDbConnection
secret = record default_connection { user = record default_user { password = lit "secret" } }

abbrev found : Answers
found = answer 200 (collection false (pos 3) (lit "c")) ∷ []

exist_collection_test : exist_collection server (lit "c") found ≡ (ok true, [])
unfolding exist_collection front attempt prepared doc_get lit text_eq int_eq to_int read_slices
exist_collection_test = refl

abbrev found_and_refused : Answers
found_and_refused = answer 200 (collection false (pos 3) (lit "c")) ∷ answer 403 absent ∷ []

exist_collection_refused :
    exist_collection server (lit "c") found_and_refused ≡ (ok true, answer 403 absent ∷ [])
unfolding exist_collection front attempt prepared doc_get lit text_eq int_eq to_int read_slices
exist_collection_refused = refl

remove_lem_example :
    ((drop_collection server (lit "c") found_and_refused).1 ≡ [])
    × (((drop_collection server (lit "c") found_and_refused).0 ≡ ok tt) ↔ (true ≡ false))
unfolding exists_of remove_of refuses prepared
remove_lem_example =
    remove_lem server (collection_of (lit "edge")) (lit "c") found_and_refused
      (answer 403 absent ∷ []) [] (answer 403 absent) exist_collection_refused refl

abbrev entries : List Entry
entries = (false, pos 2, lit "v") ∷ (false, pos 3, lit "e") ∷ (true, pos 3, lit "s") ∷ []

collection-Describes :
    (system : Bool) (type : ℤ) (name : Text)
    → Describes doc_vp (collection system type name) (system, type, name)
unfolding doc_get lit text_eq
collection-Describes system type name = record {
  system = flag system;
  get_system = refl;
  system_value = refl;
  type = number type;
  get_type = refl;
  type_value = refl;
  name = text name;
  get_name = refl;
  name_value = refl;
}

collection_names_loop_lem_example :
    (names : List Text) × (collection_names_loop server CollectionTypes.edge
        (collections entries)
        0
        3
        []
        []
      ≡ (ok names, []))
    × ((x : Text) → contains names x ≡ (wanted CollectionTypes.edge entries x || contains [] x))
unfolding doc_elem
collection_names_loop_lem_example =
    collection_names_loop_lem server CollectionTypes.edge (collections entries) 0 entries [] [] (
      (_, refl, collection-Describes false (pos 2) (lit "v")),
      (
        (_, refl, collection-Describes false (pos 3) (lit "e")),
        ((_, refl, collection-Describes true (pos 3) (lit "s")), tt),
      ),
    )

abbrev edge_names : List Text
edge_names = lit "e" ∷ []

collection_names_test :
    collection_names server CollectionTypes.edge (answer 200 (listing entries) ∷ [])
    ≡ (ok edge_names, [])
unfolding collection_names prepared front attempt doc_get doc_elem read_slices lit text_eq int_eq
    text_lt set_insert selects collection_names_loop
collection_names_test = refl

query_edges_to_from_lem_example :
    (query_edges_to_from server edges_from (lit "c/7") (lit "f") (answer 200 (listing entries) ∷ [])
      ≡ (ok (edge_aql (lit "OUTBOUND") (lit "c/7") (lit "f")), answer 200 (listing entries) ∷ []))
    × (query_edges_to_from server edges_from (lit "c/7") [] (answer 200 (listing entries) ∷ [])
        ≡ (ok (edge_aql (lit "OUTBOUND") (lit "c/7") (join (lit ", ") edge_names)), []))
unfolding lit
query_edges_to_from_lem_example =
    query_edges_to_from_lem server edges_from (lit "OUTBOUND") (lit "c/7") (lit "f") edge_names
      (answer 200 (listing entries) ∷ []) [] outbound (λ e. cc) collection_names_test (refl, tt)
