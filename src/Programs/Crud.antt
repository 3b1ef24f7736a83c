-- ===== src/Programs/Crud.antt =====
-- examples/exampleCRUD.cpp and main.cpp.
use arango_cpp.Base.{true, [], ◌∷◌, ◌++◌, Text, lit, M, ◌>>=◌, ◌>>◌, pure}
use arango_cpp.Velocypack.{VPack, Attempt, call}
use arango_cpp.Requests.{Settings, HttpMessage}
use arango_cpp.Connection.{ArangoDbConnection, ArangoDbUser, connection}
use arango_cpp.Api.{Client}
use arango_cpp.Collections.{
  create_collection, create_document, read_document, update_document, delete_document,
  exists_document,
}
use arango_cpp.Root.{root_client, root_create_database}
use arango_cpp.Programs.{digit, print, on_first, reporting, connected, from_config}

-- `ArangoDBUser(aname, apassword, aaccess)`
unfoldable pub arango_user : Text → Text → Text → ArangoDbUser
arango_user aname apassword aaccess = record {
  name = aname;
  password = apassword;
  access = aaccess;
  active = true;
  extra = [];
}

unfoldable pub crud_document : Text
crud_document =
    lit "{ \"_key\" : \"eCRUD\", "
    ++ (lit "  \"task\" : \"exampleCRUD\", "
        ++ (lit "  \"properties\" : { \"level\": \"insert record\" } " ++ lit "}"))

unfoldable pub crud_patch : Text
crud_patch =
    lit
      "{\"comment\":\"test update\",\"properties\":{\"dvalue\":1.5,\"ivalue\":1,\"level\":\"update record\"} }"

unfoldable pub demo_document : Text
demo_document =
    lit "{ \"_key\" : \"CRUD\", "
    ++ (lit "  \"baz\": [1, 2, 3], " ++ (lit "  \"foo\" : { \"baz\": \"boo\" } " ++ lit "}"))

unfoldable pub demo_patch : Text
demo_patch = lit "{\"add\":\"test update\",\"foo\":{\"add\":1.5 } }"

module _ (vp : VPack) (merge : vp.Slice → vp.Slice → Attempt vp.Slice) {S : Type 0} where
  -- `Collection::merge` of the two documents, `merge` here, with objects merged and nulls kept.
  unfoldable pub merged : Text → Text → M S Text
  merged json patch = do
    srecord ← call (vp.from_json json)
    saddrecord ← call (vp.from_json patch)
    bilder ← call (merge srecord saddrecord)
    call (vp.to_json bilder)

module _ {vp : VPack} (merge : vp.Slice → vp.Slice → Attempt vp.Slice) {S : Type 0} where
  -- What exampleCRUD.cpp does with its API object.
  unfoldable pub crud_session : Client vp (S × Text) → M (S × Text) (Unit {0})
  crud_session connect = do
    create_collection connect (lit "test") (lit "vertex")
    print (lit "Document : <test/eCRUD> exist ")
    exist ← exists_document connect (lit "test") (lit "test/eCRUD")
    print (digit exist ++ lit "\n")
    rkey ← create_document connect (lit "test") crud_document
    inserted ← read_document connect (lit "test") rkey
    print ((lit "Inserted document : " ++ rkey) ++ (lit "\n" ++ (inserted ++ lit "\n")))
    modified ← merged vp merge inserted crud_patch
    print (lit "Modified document : \n" ++ (modified ++ lit "\n"))
    handle ← update_document connect (lit "test") rkey modified
    updated ← read_document connect (lit "test") rkey
    print ((lit "Updated document :\n" ++ updated) ++ (lit "\n" ++ (rkey ++ lit "\n")))
    deleted ← delete_document connect (lit "test") rkey
    pure tt

  -- What main.cpp does with its second API object.
  unfoldable pub demo_session : Client vp (S × Text) → M (S × Text) (Unit {0})
  demo_session mydb_connect = do
    create_collection mydb_connect (lit "mydocuments") (lit "vertex")
    document_handle ← create_document mydb_connect (lit "mydocuments") demo_document
    created ← read_document mydb_connect (lit "mydocuments") document_handle
    print ((lit "Created document : " ++ document_handle) ++ (lit "\n" ++ (created ++ lit "\n")))
    modified ← merged vp merge created demo_patch
    print (lit "Modified document : \n" ++ (modified ++ lit "\n"))
    handle ← update_document mydb_connect (lit "mydocuments") document_handle modified
    updated ← read_document mydb_connect (lit "mydocuments") document_handle
    print (lit "Updated document :\n" ++ (updated ++ lit "\n"))
    deleted ← delete_document mydb_connect (lit "mydocuments") document_handle
    pure tt

  module _ (send : Settings → ArangoDbConnection → HttpMessage vp → M S (HttpMessage vp))
      (settings : Settings) where
    -- `main` of exampleCRUD.cpp
    unfoldable pub crud_main : (Text → Text) → M (S × Text) (Unit {0})
    crud_main read_all_file s =
        reporting (lit "TDBJsonDocument API ") (lit "TDBJsonDocument API  std::exception ")
          ((print (lit "Start \n") >> from_config send read_all_file settings crud_session) s)

    -- The part of main.cpp that works with two API objects.
    unfoldable pub demo_body : M (S × Text) (Unit {0})
    demo_body = do
      let root_data = connection (lit "http://localhost:8529") (lit "root") [] (lit "_system")
      root_connect ← on_first (root_client (send settings) settings root_data)
      let dbuser = arango_user (lit "myuser") (lit "mypasswd") (lit "rw")
      on_first (
          root_create_database (send settings) settings root_connect (lit "mydatabase")
            (dbuser ∷ []))
      let mydb_data =
          connection (lit "http://localhost:8529") dbuser.name dbuser.password (lit "mydatabase")
      connected send mydb_data settings demo_session

    -- `main` of main.cpp
    unfoldable pub demo_main : M (S × Text) (Unit {0})
    demo_main s = reporting [] (lit " std::exception") (demo_body s)
