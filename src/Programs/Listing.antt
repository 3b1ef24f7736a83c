-- ===== src/Programs/Listing.antt =====
-- examples/exampleCollections.cpp, examples/exampleGraphCRUD.cpp and examples/exampleRoot.cpp.
use arango_cpp.Base.{Bool, List, [], ◌∷◌, ◌++◌, Text, lit, M, ◌>>=◌, ◌>>◌}
use arango_cpp.Base.Maps.{Map}
use arango_cpp.Velocypack.{VPack}
use arango_cpp.Requests.{Settings, HttpMessage}
use arango_cpp.Query.{CollectionTypes}
use arango_cpp.Connection.{ArangoDbConnection, connection}
use arango_cpp.Api.{Client}
use arango_cpp.Collections.{collection_names, create_collection, exist_collection, drop_collection}
use arango_cpp.Graph.{
  create_graph, exist_graph, graph_collection_names, create_record, read_record, delete_record,
}
use arango_cpp.Users.{
  database_names, databases_of, exist_database, create_database, user_names, create_user,
  update_user, remove_user, remove_database, grant_user_to_database,
}
use arango_cpp.Programs.{digit, print, spaced, reporting, connected, from_config}
use arango_cpp.Programs.Crud.{arango_user}

-- `printData` for a set
unfoldable pub print_set : {S : Type 0} → Text → List Text → M (S × Text) (Unit {0})
print_set title values = print (title ++ (lit "\n" ++ spaced values))

-- `printData` of exampleGraphCRUD.cpp
unfoldable pub print_inline : {S : Type 0} → Text → List Text → M (S × Text) (Unit {0})
print_inline title values = print (title ++ spaced values)

-- `printData` for a map
unfoldable pub pairs : Map Text → Text
pairs [] = lit "\n"
pairs ((first, second) ∷ values) = first ++ (lit " : " ++ (second ++ (lit ";  " ++ pairs values)))

unfoldable pub print_map : {S : Type 0} → Text → Map Text → M (S × Text) (Unit {0})
print_map title values = print (title ++ (lit "\n" ++ pairs values))

-- A line that says whether something exists.
unfoldable pub print_exist : {S : Type 0} → Text → M (S × Text) Bool → M (S × Text) (Unit {0})
print_exist label test = do print label; exist ← test; print (digit exist ++ lit "\n")

unfoldable pub edge_definition : Text
edge_definition =
    (lit "[ {  \"collection\" : \"" ++ lit "linkEdge")
    ++ ((lit "\"," ++ (lit "     \"from\" : [ \"" ++ lit "startVertex"))
        ++ ((lit "\" ]," ++ (lit "     \"to\" :   [ \"" ++ lit "endVertex")) ++ lit "\"  ] } ] "))

module _ {vp : VPack} {S : Type 0} where
  unfoldable pub collections_session : Client vp (S × Text) → M (S × Text) (Unit {0})
  collections_session connect = do
    let name = lit "createTestCollection"
    let label = (lit "Collection : " ++ name) ++ lit " exist "
    collections ← collection_names connect CollectionTypes.all
    print_set (lit "Start Collections list : ") collections
    create_collection connect name (lit "vertex")
    print_exist label (exist_collection connect name)
    created ← collection_names connect CollectionTypes.all
    print_set (lit "After create collection list : ") created
    drop_collection connect name
    print_exist label (exist_collection connect name)
    dropped ← collection_names connect CollectionTypes.all
    print_set (lit "After drop collection list : ") dropped

  unfoldable pub graph_session : Client vp (S × Text) → M (S × Text) (Unit {0})
  graph_session grconnect = do
    let graph = lit "links"
    create_graph grconnect graph edge_definition
    print_exist (lit "Graph : links exist ") (exist_graph grconnect graph)
    vertexnames ← graph_collection_names grconnect graph (lit "vertex")
    print_inline (lit "Get all vertex list : ") vertexnames
    edgenames ← graph_collection_names grconnect graph (lit "edge")
    print_inline (lit "Get all edge list : ") edgenames
    id1 ←
        create_record grconnect graph (lit "vertex") (lit "startVertex")
          (lit "{ \"_key\": \"v_from\", \"name\": \"vertex\" , \"a\": 1  }")
    id2 ←
        create_record grconnect graph (lit "vertex") (lit "endVertex")
          (lit "{ \"_key\": \"v_to\", \"name\": \"vertex\" , \"b\": 2  }")
    let edgerecord =
        (lit "{ \"_key\": \"g_11\", \"_from\": \"" ++ id1)
        ++ ((lit "\",  \"_to\": \"" ++ id2) ++ lit "\", \"ab\": 12  }")
    id3 ← create_record grconnect graph (lit "edge") (lit "linkEdge") edgerecord
    vertex ← read_record grconnect graph (lit "vertex") (lit "startVertex") id1
    print (lit "Read vertex : \n" ++ (vertex ++ lit "\n"))
    edge ← read_record grconnect graph (lit "edge") (lit "linkEdge") id3
    print (lit "Read edge : \n" ++ (edge ++ lit "\n"))
    first ← delete_record grconnect graph (lit "vertex") (lit "startVertex") id1
    second ← delete_record grconnect graph (lit "vertex") (lit "endVertex") id2
    print (lit "Finish test \n")

  unfoldable pub users_session : Client vp (S × Text) → M (S × Text) (Unit {0})
  users_session rootconnect = do
    let name = lit "test_db_api"
    let user1 = arango_user (lit "user1_test") (lit "passwd1") (lit "rw")
    let user2 = arango_user (lit "user2_test") (lit "passwd2") (lit "ro")
    databases ← database_names rootconnect
    print_set (lit "Start databases list : ") databases
    print_exist (lit "Database : test_db_api exist ") (exist_database rootconnect name)
    create_database rootconnect name (user1 ∷ [])
    created ← database_names rootconnect
    print_set (lit "After create databases list : ") created
    print_exist (lit "After create Database : test_db_api exist ") (exist_database rootconnect name)
    users ← user_names rootconnect
    print_set (lit "Fetches data about all users : ") users
    create_user rootconnect user2
    more_users ← user_names rootconnect
    print_set (lit "Fetches data about all users after create : ") more_users
    grand ← databases_of rootconnect user2.name
    print_map (lit "The map contains the databases names : ") grand
    grant_user_to_database rootconnect name user2.name (lit "rw")
    granted ← databases_of rootconnect user2.name
    print_map (lit "The map contains the databases names (after grand user2) : ") granted
    update_user rootconnect (record user2 { password = lit "passwd3"; access = lit "rw" })
    remove_user rootconnect user1.name
    remove_user rootconnect user2.name
    left_users ← user_names rootconnect
    print_set (lit "Fetches data about all users after remove: ") left_users
    remove_database rootconnect name
    print_exist (lit "After delete Database : test_db_api exist ") (exist_database rootconnect name)

  module _ (send : Settings → ArangoDbConnection → HttpMessage vp → M S (HttpMessage vp))
      (settings : Settings) where
    -- What `main` of the first two programs does around such a session.
    unfoldable pub listing_main :
        (Text → Text) → (Client vp (S × Text) → M (S × Text) (Unit {0})) → M (S × Text) (Unit {0})
    listing_main read_all_file session s =
        reporting (lit "TDBJsonDocument API") (lit "TDBJsonDocument API std::exception")
          (from_config send read_all_file settings session s)

    -- `main` of exampleCollections.cpp
    unfoldable pub collections_main : (Text → Text) → M (S × Text) (Unit {0})
    collections_main read_all_file = listing_main read_all_file collections_session

    -- `main` of exampleGraphCRUD.cpp
    unfoldable pub graph_main : (Text → Text) → M (S × Text) (Unit {0})
    graph_main read_all_file = listing_main read_all_file graph_session

    -- `main` of exampleRoot.cpp
    unfoldable pub users_main : M (S × Text) (Unit {0})
    users_main s =
        let rootdata = connection (lit "http://localhost:8529") (lit "root") [] (lit "_system") in
        reporting (lit "TDBJsonDocument API") (lit "TDBJsonDocument API std::exception")
          (connected send rootdata settings users_session s)
