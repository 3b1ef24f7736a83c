-- ===== src/Connection.antt =====
-- include/arango-cpp/arangoconnect.h and src/arangoconnect.cpp: connection data and its settings.
pub mod Equality
pub mod FromSettings
pub mod WellFormed
use arango_cpp.Base.{
  Bool, true, false, ◌&&◌, not, List, [], ◌∷◌, ◌++◌, Text, String, lit, text_eq, if◌then◌else◌, pos,
  Fault, arango, M, ◌>>=◌, ◌>>◌, Result, ok, catching, pure,
}
use arango_cpp.Velocypack.{VPack, call, string_at, bool_at}
use arango_cpp.Requests.{Settings}

pub record ArangoDbUser : Type 0 where
  pub name : Text
  pub password : Text
  pub access : Text
  pub active : Bool
  pub extra : Text

-- `ArangoDBUser()`
abbrev pub default_user : ArangoDbUser
default_user = record {
  name = lit "root";
  password = [];
  access = lit "rw";
  active = true;
  extra = [];
}

pub record ArangoDbConnection : Type 0 where
  pub server_url : Text
  pub database_name : Text
  pub user : ArangoDbUser

-- `ArangoDBConnection(theURL, theUser, thePasswd, theDBname)`
unfoldable pub connection : Text → Text → Text → Text → ArangoDbConnection
connection url user passwd dbname = record {
  server_url = url;
  database_name = dbname;
  user = record { name = user; password = passwd; access = lit "rw"; active = true; extra = [] };
}

-- `ArangoDBConnection()`
abbrev pub default_connection : ArangoDbConnection
default_connection = record {
  server_url = lit "http://localhost:8529";
  database_name = lit "_system";
  user = default_user;
}

unfoldable pub full_host : ArangoDbConnection → Text
full_host c = (c.server_url ++ lit "/_db/") ++ c.database_name

unfoldable pub full_url : ArangoDbConnection → Text → Text
unfolding full_host
full_url c localpath = full_host c ++ localpath

unfoldable pub readonly_db_access : ArangoDbConnection → Bool
readonly_db_access c = text_eq c.user.access (lit "ro")

-- `operator==(ArangoDBUser, ArangoDBUser)`
unfoldable pub user_eq : ArangoDbUser → ArangoDbUser → Bool
user_eq lhs rhs = text_eq lhs.name rhs.name && text_eq lhs.access rhs.access

-- `operator!=(ArangoDBUser, ArangoDBUser)`
unfoldable pub user_ne : ArangoDbUser → ArangoDbUser → Bool
unfolding user_eq
user_ne lhs rhs = not (user_eq lhs rhs)

-- `operator==(ArangoDBConnection, ArangoDBConnection)`
unfoldable pub connection_eq : ArangoDbConnection → ArangoDbConnection → Bool
unfolding user_eq
connection_eq lhs rhs =
    text_eq lhs.server_url rhs.server_url
    && (user_eq lhs.user rhs.user && text_eq lhs.database_name rhs.database_name)

-- `operator!=(ArangoDBConnection, ArangoDBConnection)`
unfoldable pub connection_ne : ArangoDbConnection → ArangoDbConnection → Bool
unfolding connection_eq
connection_ne lhs rhs = not (connection_eq lhs rhs)

module _ (vp : VPack) where
  -- The assignments to the static members of `ArangoDBConnection`.
  set_use_put : Bool → M Settings (Unit {0})
  set_use_put b s = (ok tt, record s { use_velocypack_put = b })

  set_use_get : Bool → M Settings (Unit {0})
  set_use_get b s = (ok tt, record s { use_velocypack_get = b })

  -- The fields of one instance, for the root user or for the common one.
  read_instance : {S : Type 0} → Bool → vp.Slice → M S ArangoDbConnection
  read_instance true slicedb = do
    url ← string_at vp slicedb (lit "DB_URL")
    dbname ← string_at vp slicedb (lit "DBRootName")
    user ← string_at vp slicedb (lit "DBRootUser")
    password ← string_at vp slicedb (lit "DBRootPassword")
    pure (record {
      server_url = url;
      database_name = dbname;
      user = record default_user { name = user; password = password; access = lit "rw" };
    })
  read_instance false slicedb = do
    url ← string_at vp slicedb (lit "DB_URL")
    dbname ← string_at vp slicedb (lit "DBName")
    user ← string_at vp slicedb (lit "DBUser")
    password ← string_at vp slicedb (lit "DBUserPassword")
    access ← string_at vp slicedb (lit "DBAccess")
    pure (record {
      server_url = url;
      database_name = dbname;
      user = record default_user { name = user; password = password; access = access };
    })

  -- The body of the `try` block.
  read_settings : Text → Bool → M Settings ArangoDbConnection
  unfolding read_instance set_use_put set_use_get
  read_settings jsonstr rootdata = do
    slice ← call (vp.from_json jsonstr)
    slicedb ← call (vp.get slice (lit "arangodb"))
    if vp.is_object slicedb
        then (do
          inst ← string_at vp slicedb (lit "UseArangoDBInstance")
          put ← bool_at vp slicedb (lit "UseVelocypackPut")
          set_use_put put
          get ← bool_at vp slicedb (lit "UseVelocypackGet")
          set_use_get get
          chosen ← call (vp.get slicedb inst)
          if vp.is_object chosen then read_instance rootdata chosen else pure default_connection)
        else pure default_connection

  abbrev pub settings_error : Text → Fault
  settings_error what =
      arango (lit "ArangoDBRootClient") (pos 4) (lit "Read configuration file error: " ++ what)

  -- `connectFromSettings`: the state is that of the static members.
  unfoldable pub connect_from_settings : Text → Bool → M Settings ArangoDbConnection
  unfolding read_settings catching
  connect_from_settings jsonstr rootdata = catching settings_error (read_settings jsonstr rootdata)

  -- `connectFromConfig` and `rootClientFromConfig`, over the contents of the files.
  unfoldable pub connect_from_config : (Text → Text) → Text → M Settings ArangoDbConnection
  unfolding connect_from_settings
  connect_from_config read_all_file cfgfile = connect_from_settings (read_all_file cfgfile) false

  unfoldable pub root_client_from_config : (Text → Text) → Text → M Settings ArangoDbConnection
  unfolding connect_from_settings
  root_client_from_config read_all_file cfgfile = connect_from_settings (read_all_file cfgfile) true
