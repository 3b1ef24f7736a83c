-- ===== src/Tests/Settings.antt =====
-- A settings file, the pool in use, and ids in place of keys.
use arango_cpp.Base.{
  true, false, ◌+◌, ◌≤◌, [], ◌≡◌, refl, arith, Text, lit, text_eq, length, ok, if◌then◌else◌, none,
}
use arango_cpp.Velocypack.{VPack, Attempt, value, exception}
use arango_cpp.Connection.{connection, default_user, connect_from_settings}
use arango_cpp.Connection.WellFormed.{
  HasText, HasBool, IsSettings, connect_from_settings-IsSettings,
}
use arango_cpp.Curl.{new_curl_object}
use arango_cpp.Api.{NetState, get_resource, return_resource}
use arango_cpp.Api.Ids.{get_id}
use arango_cpp.Api.Pool.{Steps, none, step, take, give, Steps-IsBounded}
use arango_cpp.Collections.{read_document, update_document, delete_document, exists_document}
use arango_cpp.Removal.{remove_edges}
use arango_cpp.Graph.{read_record, update_record, delete_record}
use arango_cpp.Handles.{get_id_accepted}
use arango_cpp.Tests.Samples.{server, some_settings, some_net}

-- Settings with one instance: the slices are the levels of the file, and texts.
data Level : Type 0 where
  file database chosen : Level
  yes : Level
  field : Text → Level

level_get : Level → Text → Attempt Level
level_get file key = value database
level_get database key =
    if text_eq key (lit "UseArangoDBInstance")
    then value (field (lit "local"))
    else if text_eq key (lit "local")
    then value chosen
    else value yes
level_get chosen key = value (field key)
level_get _ key = exception key

abbrev level_vp : VPack
level_vp = record {
  Slice = Level;
  from_json = λ t. value file;
  to_json = λ s. exception [];
  is_none = λ s. false;
  is_object = λ s. true;
  has_key = λ s key. value true;
  get = level_get;
  get_int = λ s. exception [];
  get_bool = λ s. value true;
  copy_string = λ s. elim s [ field t ↦ value t | _ ↦ exception [] ];
  count = λ s. exception [];
  elem = λ s ii. exception [];
  key_at = λ s ii. exception [];
  value_at = λ s ii. exception [];
  bytes = λ s. [];
  byte_size = λ s. 1;
  at_cursor = λ t. file;
  reset_to = λ t n. t;
  of_string = field;
  of_bool = λ b. yes;
  of_int = λ i. yes;
  of_array = λ ss. yes;
  of_object = λ fields. yes;
}

chosen-HasText : (key : Text) → HasText level_vp chosen key key
unfolding level_get
chosen-HasText key = record { field = field key; get_field = refl; field_value = refl }

database-HasBool :
    (key : Text) → level_get database key ≡ value yes → HasBool level_vp database key true
database-HasBool key e = record { field = yes; get_field = e; field_value = refl }

file-IsSettings : IsSettings level_vp [] true true chosen
unfolding level_get lit text_eq
file-IsSettings = record {
  slice = file;
  parsed = refl;
  slicedb = database;
  get_slicedb = refl;
  object = refl;
  instance_name = lit "local";
  has_instance = record { field = field (lit "local"); get_field = refl; field_value = refl };
  has_put = database-HasBool (lit "UseVelocypackPut") refl;
  has_get = database-HasBool (lit "UseVelocypackGet") refl;
  get_chosen = refl;
  chosen_object = refl;
}

connect_from_settings-IsSettings_example :
    (connect_from_settings level_vp [] false some_settings ≡ (
      ok (record {
        server_url = lit "DB_URL";
        database_name = lit "DBName";
        user = record default_user {
          name = lit "DBUser";
          password = lit "DBUserPassword";
          access = lit "DBAccess";
        };
      }),
      some_settings,
    ))
    × (connect_from_settings level_vp [] true some_settings ≡ (
      ok (connection (lit "DB_URL") (lit "DBRootUser") (lit "DBRootPassword") (lit "DBRootName")),
      some_settings,
    ))
connect_from_settings-IsSettings_example =
    connect_from_settings-IsSettings level_vp [] true true chosen (lit "DB_URL") (lit "DBName")
      (lit "DBUser") (lit "DBUserPassword") (lit "DBAccess") (lit "DBRootName") (lit "DBRootUser")
      (lit "DBRootPassword") some_settings file-IsSettings
      (record {
        has_url = chosen-HasText _;
        has_dbname = chosen-HasText _;
        has_user = chosen-HasText _;
        has_password = chosen-HasText _;
        has_access = chosen-HasText _;
      })
      (record {
        has_url = chosen-HasText _;
        has_dbname = chosen-HasText _;
        has_user = chosen-HasText _;
        has_password = chosen-HasText _;
      })

abbrev idle : NetState some_net
idle = record { pool = []; world = 0 }

-- One handle, taken and given back.
used :
    Steps some_net 1 0 idle 0
      (return_resource some_net
        (record {
          target = [];
          db_user = [];
          db_passwd = [];
          response_headers = [];
          response_body = [];
          curl = [];
          status = 0;
        })
        (get_resource some_net idle).1).1
unfolding get_resource new_curl_object
used = step (take (omega arith) refl) (step (give _) none)

Steps-IsBounded_example :
    length
        (return_resource some_net
          (record {
            target = [];
            db_user = [];
            db_passwd = [];
            response_headers = [];
            response_body = [];
            curl = [];
            status = 0;
          })
          (get_resource some_net idle).1).1.pool
      + 0
    ≤ 1
Steps-IsBounded_example = Steps-IsBounded some_net {threads = 1} used (omega arith)

abbrev seven : Text
seven = lit "7"

get_id_accepted_example :
    (read_document server (lit "c") (get_id (lit "c") seven) []
      ≡ read_document server (lit "c") seven [])
    × ((json : Text)
        → update_document server (lit "c") (get_id (lit "c") seven) json []
          ≡ update_document server (lit "c") seven json [])
    × (delete_document server (lit "c") (get_id (lit "c") seven) []
        ≡ delete_document server (lit "c") seven [])
    × (exists_document server (lit "c") (get_id (lit "c") seven) []
        ≡ exists_document server (lit "c") seven [])
    × (remove_edges server (lit "c") (get_id (lit "c") seven) []
        ≡ remove_edges server (lit "c") seven [])
    × ((g t : Text)
        → read_record server g t (lit "c") (get_id (lit "c") seven) []
          ≡ read_record server g t (lit "c") seven [])
    × ((g t json : Text)
        → update_record server g t (lit "c") (get_id (lit "c") seven) json []
          ≡ update_record server g t (lit "c") seven json [])
    × ((g t : Text)
        → delete_record server g t (lit "c") (get_id (lit "c") seven) []
          ≡ delete_record server g t (lit "c") seven [])
get_id_accepted_example = get_id_accepted server (lit "c") seven []
