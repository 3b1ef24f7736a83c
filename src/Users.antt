-- ===== src/Users.antt =====
-- src/arangodbusers.cpp: `ArangoDBUsersAPI`, databases and users; its `sendREQUEST` is in Api.
pub mod Grants
pub mod Accounts
pub mod Refines
pub mod Listing
use arango_cpp.Base.{
  ℕ, zero, suc, ◌+◌, Bool, not, List, [], ◌∷◌, ◌++◌, Text, lit, is_empty, ◌==◌, if◌then◌else◌, pos,
  Fault, arango, catching, M, ◌>>=◌, pure,
}
use arango_cpp.Base.Maps.{Map, insert}
use arango_cpp.Velocypack.{VPack, call, string_at}
use arango_cpp.Requests.{
  RestVerb, status_code, status_ok, status_created, status_accepted, status_not_found, front,
}
use arango_cpp.Connection.{ArangoDbUser}
use arango_cpp.Api.{Client, new_request, throw_error}
use arango_cpp.Collections.{request_with}
use arango_cpp.Graph.{names_loop}

abbrev pub users_error : Text → Fault
users_error what = arango (lit "ArangoDBUsersAPI") (pos 41) (lit "Velocypack error: " ++ what)

module _ {vp : VPack} {S : Type 0} (c : Client vp S) where
  unfoldable pub database_names : M S (List Text)
  database_names = do
    result ← c.send (new_request c RestVerb.get (lit "/_api/database"))
    if status_code vp result == status_ok
        then (do
          slice ← front vp result
          collst ← call (vp.get slice (lit "result"))
          numb ← call (vp.count collst)
          names_loop c (λ entry. call (vp.copy_string entry)) collst 0 numb [])
        else pure []

  -- The loop over an object of databases and privileges.
  unfoldable pub grants_loop : vp.Slice → ℕ → ℕ → Map Text → M S (Map Text)
  grants_loop collst ii zero dbnames = pure dbnames
  grants_loop collst ii (suc left) dbnames = do
    v ← call (vp.value_at collst ii)
    grant ← call (vp.copy_string v)
    k ← call (vp.key_at collst ii)
    dbname ← call (vp.copy_string k)
    grants_loop collst (ii + 1) left (insert dbname grant dbnames)

  -- `databaseNames(user)`
  unfoldable pub databases_of : Text → M S (Map Text)
  unfolding grants_loop
  databases_of user = do
    result ← c.send (new_request c RestVerb.get ((lit "/_api/user/" ++ user) ++ lit "/database/"))
    if status_code vp result == status_ok
        then (do
          slice ← front vp result
          collst ← call (vp.get slice (lit "result"))
          numb ← call (vp.count collst)
          grants_loop collst 0 numb [])
        else pure []

  unfoldable pub exist_database : Text → M S Bool
  exist_database dbname = do
    result ←
        c.send
          (new_request c RestVerb.get ((lit "/_db/" ++ dbname) ++ lit "/_api/database/current"))
    pure (not (status_code vp result == status_not_found))

  -- The entry for the extra data of a user, if there are any.
  unfoldable pub extra_fields : Text → M S (List (Text × vp.Slice))
  extra_fields extra =
      if not (is_empty extra)
      then (do slice ← call (vp.from_json extra); pure ((lit "extra", slice) ∷ []))
      else pure []

  -- The loop over the users of a new database.
  unfoldable pub user_objects : List ArangoDbUser → M S (List vp.Slice)
  unfolding extra_fields
  user_objects [] = pure []
  user_objects (user ∷ users) = do
    more ← extra_fields user.extra
    rest ← user_objects users
    pure (
        vp.of_object (
          ((lit "username", vp.of_string user.name)
            ∷ (lit "passwd", vp.of_string user.password)
            ∷ (lit "active", vp.of_bool user.active)
            ∷ [])
          ++ more)
        ∷ rest)

  -- The entry for the users, if there are any.
  unfoldable pub users_fields : List ArangoDbUser → M S (List (Text × vp.Slice))
  unfolding user_objects
  users_fields users =
      if not (is_empty users)
      then (do objects ← user_objects users; pure ((lit "users", vp.of_array objects) ∷ []))
      else pure []

  post_database : Text → List ArangoDbUser → M S (Unit {0})
  unfolding users_fields
  post_database dbname users = do
    more ← users_fields users
    result ← c.send (
        request_with c RestVerb.post (lit "/_api/database")
          (vp.of_object ((lit "name", vp.of_string dbname) ∷ more)))
    if not (status_code vp result == status_created)
        then throw_error result (lit "Error when create database: ")
        else pure tt

  unfoldable pub create_database : Text → List ArangoDbUser → M S (Unit {0})
  unfolding post_database catching
  create_database dbname users = do
    exists ← exist_database dbname
    if exists then pure tt else catching users_error (post_database dbname users)

  unfoldable pub remove_database : Text → M S (Unit {0})
  remove_database dbname = do
    exists ← exist_database dbname
    if not exists then pure tt else (do
      result ← c.send (new_request c RestVerb.delete (lit "/_api/database/" ++ dbname))
      if not (status_code vp result == status_ok)
          then throw_error result (lit "Error when drop database: ")
          else pure tt)

  unfoldable pub exist_user : Text → M S Bool
  exist_user username = do
    result ← c.send (new_request c RestVerb.get (lit "/_api/user/" ++ username))
    pure (status_code vp result == status_ok)

  -- The `try` block of `createUser`.
  unfoldable pub post_user : ArangoDbUser → M S (Unit {0})
  unfolding extra_fields
  post_user userdata = do
    more ← extra_fields userdata.extra
    result ← c.send (
        request_with c RestVerb.post (lit "/_api/user") (
          vp.of_object (
            ((lit "user", vp.of_string userdata.name)
              ∷ (lit "passwd", vp.of_string userdata.password)
              ∷ (lit "active", vp.of_bool userdata.active)
              ∷ [])
            ++ more)))
    if not (status_code vp result == status_created)
        then throw_error result (lit "Error when create user: ")
        else pure tt

  unfoldable pub create_user : ArangoDbUser → M S (Unit {0})
  unfolding post_user catching
  create_user userdata = catching users_error (post_user userdata)

  -- The `try` block of `updateUser`.
  unfoldable pub patch_user : ArangoDbUser → M S (Unit {0})
  unfolding extra_fields
  patch_user userdata = do
    more ← extra_fields userdata.extra
    result ← c.send (
        request_with c RestVerb.patch (lit "/_api/user/" ++ userdata.name) (
          vp.of_object (
            ((lit "passwd", vp.of_string userdata.password)
              ∷ (lit "active", vp.of_bool userdata.active)
              ∷ [])
            ++ more)))
    if not (status_code vp result == status_ok)
        then throw_error result (lit "Error when update user data: ")
        else pure tt

  unfoldable pub update_user : ArangoDbUser → M S (Unit {0})
  unfolding patch_user catching
  update_user userdata = catching users_error (patch_user userdata)

  unfoldable pub remove_user : Text → M S (Unit {0})
  remove_user username = do
    result ← c.send (new_request c RestVerb.delete (lit "/_api/user/" ++ username))
    if not (status_code vp result == status_accepted)
        then throw_error result (lit "Error when drop user: ")
        else pure tt

  unfoldable pub grant_user_to_database : Text → Text → Text → M S (Unit {0})
  grant_user_to_database dbname username grant = do
    result ← c.send (
        request_with c RestVerb.put
          ((lit "/_api/user/" ++ username) ++ (lit "/database/" ++ dbname))
          (vp.of_object ((lit "grant", vp.of_string grant) ∷ [])))
    if not (status_code vp result == status_ok)
        then throw_error result (lit "Error when grant user: ")
        else pure tt

  unfoldable pub user_names : M S (List Text)
  user_names = do
    result ← c.send (new_request c RestVerb.get (lit "/_api/user/"))
    if status_code vp result == status_ok
        then (do
          slice ← front vp result
          collst ← call (vp.get slice (lit "result"))
          numb ← call (vp.count collst)
          names_loop c (λ entry. string_at vp entry (lit "user")) collst 0 numb [])
        else pure []
