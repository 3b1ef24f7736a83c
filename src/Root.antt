-- ===== src/Root.antt =====
-- `ArangoDBRootClient` of include/arango-cpp/arangoconnect.h and src/arangoconnect.cpp.
use arango_cpp.Base.{Bool, true, List, [], ◌≡◌, refl, arith, Text, lit, pos, ok, M, ◌>>=◌, pure}
use arango_cpp.Base.Maps.{Map}
use arango_cpp.Velocypack.{VPack}
use arango_cpp.Requests.{Settings, HttpMessage}
use arango_cpp.Connection.{
  ArangoDbUser, ArangoDbConnection, connection, default_connection, connection_eq,
}
use arango_cpp.Api.{ApiBase, Client, client_of, new_api}
use arango_cpp.Api.Resetting.{reset_db_connection_lem, new_api_default_user}
use arango_cpp.Users.{
  exist_database, database_names, databases_of, create_database, create_user, user_names,
}

-- `pusers` is the users API that the object owns.
pub record RootClient : Type 0 where
  pub root_data : ArangoDbConnection
  pub pusers : ApiBase

module _ {vp : VPack} {S : Type 0}
    (send : ArangoDbConnection → HttpMessage vp → M S (HttpMessage vp)) (settings : Settings) where
  -- `resetDBConnection`, and the constructor, which calls it.
  unfoldable pub root_client : ArangoDbConnection → M S RootClient
  root_client aconnect_data = do
    users ← new_api send settings aconnect_data
    pure (record { root_data = aconnect_data; pusers = users })

  abbrev pub users_client : RootClient → Client vp S
  users_client root = client_of send settings root.pusers

  -- The operations, which the users API does.
  unfoldable pub root_exist_database : RootClient → Text → M S Bool
  root_exist_database root dbname = exist_database (users_client root) dbname

  unfoldable pub root_database_names : RootClient → M S (List Text)
  root_database_names root = database_names (users_client root)

  unfoldable pub root_create_database : RootClient → Text → List ArangoDbUser → M S (Unit {0})
  root_create_database root dbname users = create_database (users_client root) dbname users

  unfoldable pub root_create_user : RootClient → ArangoDbUser → M S (Unit {0})
  root_create_user root userdata = create_user (users_client root) userdata

  unfoldable pub root_databases_of : RootClient → Text → M S (Map Text)
  root_databases_of root user = databases_of (users_client root) user

  unfoldable pub root_user_names : RootClient → M S (List Text)
  root_user_names root = user_names (users_client root)

  -- A root client has the data that it is given, and its users API works with a connection that
  -- counts as those data.
  pub root_client_lem :
      (data_given : ArangoDbConnection) (s : S) (root : RootClient)
      → (root_client data_given s).0 ≡ ok root
      → (root.root_data ≡ data_given) × (connection_eq root.pusers.connect_data data_given ≡ true)
  unfolding root_client new_api
  root_client_lem data_given s root e =
      let lem =
        reset_db_connection_lem send settings data_given
          (record {
            connect_data = default_connection;
            batch_size = pos 500;
            connected_message = [];
          })
          s in
      grind (arith, e, lem)

  -- For the default server and database and the root user the two differ where a password is
  -- given: the data hold the password, and the users API works with the empty one.
  pub root_client_password :
      (password : Text) (s : S)
      → let data_given =
          connection (lit "http://localhost:8529") (lit "root") password (lit "_system") in
        root_client data_given s ≡ (
          ok (record {
            root_data = data_given;
            pusers = record {
              connect_data = default_connection;
              batch_size = pos 500;
              connected_message = [];
            };
          }),
          s,
        )
  unfolding root_client
  root_client_password password s = rw (new_api_default_user send settings password s) refl
