-- ===== src/Connection/WellFormed.antt =====
-- `connectFromSettings` on settings as the documentation describes them.
use arango_cpp.Base.{Bool, true, false, ◌≡◌, refl, Text, lit, ok}
use arango_cpp.Velocypack.{VPack, value, attempt}
use arango_cpp.Requests.{Settings}
use arango_cpp.Connection.{connection, default_user, connect_from_settings}

module _ (vp : VPack) where
  -- A slice has a text, or a Boolean, under a key.
  pub record HasText (slice : vp.Slice) (key value_of : Text) : Type 0 where
    pub field : vp.Slice
    pub get_field : vp.get slice key ≡ value field
    pub field_value : vp.copy_string field ≡ value value_of

  pub record HasBool (slice : vp.Slice) (key : Text) (value_of : Bool) : Type 0 where
    pub field : vp.Slice
    pub get_field : vp.get slice key ≡ value field
    pub field_value : vp.get_bool field ≡ value value_of

  -- The text is a settings file whose chosen instance is the object `chosen`.
  pub record IsSettings (jsonstr : Text) (put get : Bool) (chosen : vp.Slice) : Type 0 where
    pub slice : vp.Slice
    pub parsed : vp.from_json jsonstr ≡ value slice
    pub slicedb : vp.Slice
    pub get_slicedb : vp.get slice (lit "arangodb") ≡ value slicedb
    pub object : vp.is_object slicedb ≡ true
    pub instance_name : Text
    pub has_instance : HasText slicedb (lit "UseArangoDBInstance") instance_name
    pub has_put : HasBool slicedb (lit "UseVelocypackPut") put
    pub has_get : HasBool slicedb (lit "UseVelocypackGet") get
    pub get_chosen : vp.get slicedb instance_name ≡ value chosen
    pub chosen_object : vp.is_object chosen ≡ true

  -- The fields of an instance for the common user and for the root user.
  pub record HasUser (chosen : vp.Slice) (url dbname user password access : Text) : Type 0 where
    pub has_url : HasText chosen (lit "DB_URL") url
    pub has_dbname : HasText chosen (lit "DBName") dbname
    pub has_user : HasText chosen (lit "DBUser") user
    pub has_password : HasText chosen (lit "DBUserPassword") password
    pub has_access : HasText chosen (lit "DBAccess") access

  pub record HasRoot (chosen : vp.Slice) (url dbname user password : Text) : Type 0 where
    pub has_url : HasText chosen (lit "DB_URL") url
    pub has_dbname : HasText chosen (lit "DBRootName") dbname
    pub has_user : HasText chosen (lit "DBRootUser") user
    pub has_password : HasText chosen (lit "DBRootPassword") password

  -- For settings with an instance that is chosen the connection has the instance's data: those of
  -- the common user with its access, or those of the root user with all access. Both static
  -- members take the values of the settings.
  pub connect_from_settings-IsSettings :
      (jsonstr : Text) (put get : Bool) (chosen : vp.Slice)
      (url dbname user password access rootdb root rootpassword : Text) (s : Settings)
      → IsSettings jsonstr put get chosen
      → HasUser chosen url dbname user password access
      → HasRoot chosen url rootdb root rootpassword
      → let s' : Settings = record s { use_velocypack_put = put; use_velocypack_get = get } in
        (connect_from_settings vp jsonstr false s ≡ (
          ok (record {
            server_url = url;
            database_name = dbname;
            user = record default_user { name = user; password = password; access = access };
          }),
          s',
        ))
        × (connect_from_settings vp jsonstr true s
            ≡ (ok (connection url root rootpassword rootdb), s'))
  unfolding connect_from_settings attempt connection
  connect_from_settings-IsSettings jsonstr put get chosen url dbname user password access rootdb
        root rootpassword s h u r =
      (
        rw
            (
              h.parsed, h.get_slicedb, h.object, h.has_instance.get_field,
              h.has_instance.field_value, h.has_put.get_field, h.has_put.field_value,
              h.has_get.get_field, h.has_get.field_value, h.get_chosen, h.chosen_object,
              u.has_url.get_field, u.has_url.field_value, u.has_dbname.get_field,
              u.has_dbname.field_value, u.has_user.get_field, u.has_user.field_value,
              u.has_password.get_field, u.has_password.field_value, u.has_access.get_field,
              u.has_access.field_value,
            )
            refl,
        rw
            (
              h.parsed, h.get_slicedb, h.object, h.has_instance.get_field,
              h.has_instance.field_value, h.has_put.get_field, h.has_put.field_value,
              h.has_get.get_field, h.has_get.field_value, h.get_chosen, h.chosen_object,
              r.has_url.get_field, r.has_url.field_value, r.has_dbname.get_field,
              r.has_dbname.field_value, r.has_user.get_field, r.has_user.field_value,
              r.has_password.get_field, r.has_password.field_value,
            )
            refl,
      )
