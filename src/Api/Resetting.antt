-- ===== src/Api/Resetting.antt =====
-- `resetDBConnection` and the constructor of an API object.
use arango_cpp.Base.{
  true, [], ◌≡◌, ◌≢◌, refl, arith, Text, lit, ℤ, pos, ok, err, M, velocypack, arango,
}
use arango_cpp.Velocypack.{VPack}
use arango_cpp.Requests.{Settings, HttpMessage}
use arango_cpp.Connection.{
  ArangoDbConnection, connection, default_connection, connection_eq, connection_ne,
}
use arango_cpp.Connection.Equality.{connection_eq_iff}
use arango_cpp.Api.{ApiBase, Client, test_connection, reset_db_connection, new_api}

connection_eq_refl : (a : ArangoDbConnection) → connection_eq a a ≡ true
connection_eq_refl a = (connection_eq_iff a a).1 (refl, refl, refl, refl)

module _ {vp : VPack} {S : Type 0}
    (send : ArangoDbConnection → HttpMessage vp → M S (HttpMessage vp)) (settings : Settings) where
  reset_db_connection_same :
      (new : ArangoDbConnection) (api : ApiBase) (s : S)
      → connection_eq api.connect_data new ≡ true
      → reset_db_connection send settings new api s ≡ (ok api, s)
  unfolding reset_db_connection connection_ne
  reset_db_connection_same new api s e = rw e

  -- After a reset that returns, the object works with a connection that counts as the given one,
  -- and its batch size is unchanged.
  pub reset_db_connection_lem :
      (new : ArangoDbConnection) (api : ApiBase) (s : S) (api' : ApiBase)
      → (reset_db_connection send settings new api s).0 ≡ ok api'
      → (connection_eq api'.connect_data new ≡ true) × (api'.batch_size ≡ api.batch_size)
  unfolding reset_db_connection connection_ne
  reset_db_connection_lem new api s api' e = ground (arith, connection_eq_refl new)

  -- A reset to a connection that differs in the password alone is ignored: the object keeps its
  -- old password, and no request is sent.
  pub reset_db_connection_password :
      (new : ArangoDbConnection) (api : ApiBase) (s : S)
      → new.server_url ≡ api.connect_data.server_url
      → new.database_name ≡ api.connect_data.database_name
      → new.user.name ≡ api.connect_data.user.name
      → new.user.access ≡ api.connect_data.user.access
      → reset_db_connection send settings new api s ≡ (ok api, s)
  reset_db_connection_password new api s url db name access =
      reset_db_connection_same new api s
        ((connection_eq_iff api.connect_data new).1 (cc, cc, cc, cc))

  -- So an object that is made for the default server, database and user keeps the empty default
  -- password, whatever password it is given, and does not test the connection.
  pub new_api_default_user :
      (password : Text) (s : S)
      → new_api send settings
          (connection (lit "http://localhost:8529") (lit "root") password (lit "_system"))
          s
        ≡ (
          ok (record {
            connect_data = default_connection;
            batch_size = pos 500;
            connected_message = [];
          }),
          s,
        )
  unfolding new_api connection
  new_api_default_user password s = reset_db_connection_password _ _ s refl refl refl refl

module _ {vp : VPack} {S : Type 0} (c : Client vp S) where
  -- `testConnection` throws neither an exception of the library nor one of Velocypack.
  pub test_connection_caught :
      (s : S) (title message what : Text) (id : ℤ)
      → ((test_connection c s).0 ≢ err (arango title id message))
        × ((test_connection c s).0 ≢ err (velocypack what))
  unfolding test_connection
  test_connection_caught s title message what id = (ground arith, ground arith)
