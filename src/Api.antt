-- ===== src/Api.antt =====
-- src/arangocollection.cpp and include/arango-cpp/arangocollection.h: what every API object
-- shares (`ArangoDBAPIBase`), and `sendREQUEST` of src/arangodbusers.cpp.
pub mod Sanitize
pub mod Ids
pub mod Sending
pub mod Resetting
pub mod Pool
pub mod Reuse
pub mod Stack
pub mod Threads
use arango_cpp.Base.{
  ℕ, Bool, true, false, not, List, [], ◌∷◌, ◌++◌, Text, String, lit, ◌==◌, if◌then◌else◌, ℤ, pos,
  Fault, arango, velocypack, undefined_behaviour, unfinished, Result, ok, err, M, ◌>>=◌, ◌>>◌, pure,
  throw, lift, and_then,
}
use arango_cpp.Velocypack.{VPack, call}
use arango_cpp.Requests.{
  Settings, HttpMessage, RestVerb, status_code, status_ok, create_request, is_content_type_vpack,
  front, slices_of, arango_error_throw,
}
use arango_cpp.Connection.{ArangoDbConnection, default_connection, full_url, connection_ne}
use arango_cpp.Curl.{Net, CurlObject, new_curl_object, set_connect_data, send_request, get_response}

-- What the operations of an API object use: the virtual `sendREQUEST` over some state, the static
-- members, and `batch_size`.
pub record Client (vp : VPack) (S : Type 0) : Type 0 where
  pub send : HttpMessage vp → M S (HttpMessage vp)
  pub settings : Settings
  pub batch_size : ℤ

module _ {vp : VPack} {S : Type 0} where
  -- `createREQUEST(verb, path)`
  abbrev pub new_request : Client vp S → RestVerb → Text → HttpMessage vp
  new_request c verb path = create_request vp c.settings verb path []

  -- `ARANGO_ERROR_THROW(result->slices(), message)`
  unfoldable pub throw_error : {A : Type 0} → HttpMessage vp → Text → M S A
  throw_error result message = do
    slices ← lift (slices_of vp result)
    arango_error_throw vp slices message

-- The pool `CurlPool`, its stack with the top first, and the world that curl works in.
pub record NetState (net : Net) : Type 0 where
  pub pool : List CurlObject
  pub world : net.World

module _ (net : Net) where
  -- An action on the world alone.
  unfoldable pub on_world : {A : Type 0} → M net.World A → M (NetState net) A
  on_world m s = let (r, w) = m s.world in (r, record s { world = w })

  take_top : List CurlObject → M (NetState net) CurlObject
  take_top [] = on_world (new_curl_object net)
  take_top (o ∷ pool) = λ s. (ok o, record s { pool = pool })

  -- `get_resource`: an empty pool gets a new object, which is taken off again.
  unfoldable pub get_resource : M (NetState net) CurlObject
  unfolding take_top on_world
  get_resource s = take_top s.pool s

  -- `return_resource`
  unfoldable pub return_resource : CurlObject → M (NetState net) (Unit {0})
  return_resource o s = (ok tt, record s { pool = o ∷ s.pool })

module _ (vp : VPack) (net : Net) (settings : Settings) where
  -- The checks of `sendREQUEST` on a response.
  unfoldable pub check_response : {S : Type 0} → Text → Text → HttpMessage vp → M S (HttpMessage vp)
  check_response title the_url result =
      if not (is_content_type_vpack vp result)
      then throw (arango title (pos 3) (lit "Illegal content type"))
      else if status_code vp result == 0
      then throw (arango title (pos 2) (lit "Connections error to " ++ the_url))
      else pure result

  -- The body of `sendREQUEST`. The object that a call has taken goes back to the pool unless the
  -- request or the reading of the response throws.
  unfoldable pub exchange :
      Text → Text → ArangoDbConnection → HttpMessage vp → M (NetState net) (HttpMessage vp)
  unfolding check_response
  exchange title the_url connect_data rq = do
    o ← get_resource net
    let ready = set_connect_data connect_data.user.name connect_data.user.password o
    sent ← on_world net (send_request vp net settings the_url rq ready)
    result ← get_response vp settings sent
    return_resource net sent
    check_response title the_url result

  -- `ArangoDBAPIBase::sendREQUEST`
  unfoldable pub send_base : ArangoDbConnection → HttpMessage vp → M (NetState net) (HttpMessage vp)
  unfolding exchange
  send_base connect_data rq =
      exchange (lit "ArangoDB") (full_url connect_data rq.header.path) connect_data rq

  -- `ArangoDBUsersAPI::sendREQUEST`: the path follows the server's URL at once.
  unfoldable pub send_users :
      ArangoDbConnection → HttpMessage vp → M (NetState net) (HttpMessage vp)
  unfolding exchange
  send_users connect_data rq =
      exchange (lit "ArangoDBAPIBase") (connect_data.server_url ++ rq.header.path) connect_data rq

-- `e.what()`, for an exception that `catch (std::exception&)` takes.
what_of : Fault → Text
what_of (arango title id message) = message
what_of (velocypack what) = what
what_of _ = []

module _ {vp : VPack} {S : Type 0} (c : Client vp S) where
  -- The body of the `try` block of `testConnection`: the message for a connection that works.
  version_message : M S Text
  version_message = do
    result ← c.send (new_request c RestVerb.get (lit "/_api/version"))
    if not (status_code vp result == status_ok)
        then throw_error result (lit "An error occurs in ArangoDB server: ")
        else (do
          slice ← front vp result
          v ← call (vp.get slice (lit "version"))
          version ← call (vp.copy_string v)
          n ← call (vp.get slice (lit "server"))
          server ← call (vp.copy_string n)
          pure (
              lit "The client is connected to the "
              ++ (server ++ (lit " server version " ++ version))))

  caught : Result Text × S → Result (Bool × Text) × S
  unfolding what_of
  caught (ok message, s) = (ok (true, message), s)
  caught (err (arango title id message), s) = (ok (false, message), s)
  caught (err (velocypack what), s) = (ok (false, what), s)
  caught (err undefined_behaviour, s) = (err undefined_behaviour, s)
  caught (err unfinished, s) = (err unfinished, s)

  -- `testConnection`: whether the server answers, and the message.
  unfoldable pub test_connection : M S (Bool × Text)
  unfolding version_message caught
  test_connection s = caught (version_message s)

-- The fields of an API object.
pub record ApiBase : Type 0 where
  pub connect_data : ArangoDbConnection
  pub batch_size : ℤ
  pub connected_message : Text

-- The API object as a client, for a `sendREQUEST` that reads the connection data.
abbrev pub client_of :
    {vp : VPack} {S : Type 0}
    → (ArangoDbConnection → HttpMessage vp → M S (HttpMessage vp))
    → Settings
    → ApiBase
    → Client vp S
client_of send settings api = record {
  send = send api.connect_data;
  settings = settings;
  batch_size = api.batch_size;
}

module _ {vp : VPack} {S : Type 0}
    (send : ArangoDbConnection → HttpMessage vp → M S (HttpMessage vp)) (settings : Settings) where
  -- `resetDBConnection`
  unfoldable pub reset_db_connection : ArangoDbConnection → ApiBase → M S ApiBase
  reset_db_connection connect_data api =
      if not (connection_ne api.connect_data connect_data) then pure api else (do
        let changed = record api { connect_data = connect_data }
        answer ← test_connection (client_of send settings changed)
        pure (record changed { connected_message = answer.1 }))

  -- The constructor: default data, a batch of 500, and a reset.
  unfoldable pub new_api : ArangoDbConnection → M S ApiBase
  unfolding reset_db_connection
  new_api connect_data =
      reset_db_connection connect_data
        (record { connect_data = default_connection; batch_size = pos 500; connected_message = [] })

-- `updateBatchSize`
unfoldable pub update_batch_size : ℤ → ApiBase → ApiBase
update_batch_size newsize api = record api { batch_size = newsize }
