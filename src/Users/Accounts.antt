-- ===== src/Users/Accounts.antt =====
-- The users of a server as a map from names to accounts: the operations of src/arangodbusers.cpp on
-- users, and what they do to such a map.
use arango_cpp.Base.{
  ℕ, Bool, true, false, Option, none, some, List, [], ◌∷◌, ◌++◌, ◌≡◌, Text, lit, ◌==◌, Result, ok,
  err, Fault, arango, velocypack, undefined_behaviour, unfinished,
}
use arango_cpp.Base.Maps.{Map, lookup, insert, erase}
use arango_cpp.Velocypack.{VPack, Attempt, value, exception}
use arango_cpp.Requests.{
  HttpMessage, RestVerb, status_code, status_ok, status_created, status_accepted,
}
use arango_cpp.Connection.{ArangoDbUser}
use arango_cpp.Api.{Client, new_request}
use arango_cpp.Collections.{request_with}
use arango_cpp.Documents.Server.{IsRefusal}
use arango_cpp.Users.{exist_user, create_user, update_user, remove_user}

pub data Op : Type 0 where
  create : ArangoDbUser → Op
  update : ArangoDbUser → Op
  remove : Text → Op
  exists : Text → Op

-- What a caller sees: a return, a Boolean, an exception, or neither.
pub data Outcome : Type 0 where
  done : Outcome
  answer : Bool → Outcome
  refused : Outcome
  broken : Outcome

fault_outcome : Fault → Outcome
fault_outcome (arango title id message) = refused
fault_outcome (velocypack what) = refused
fault_outcome undefined_behaviour = broken
fault_outcome unfinished = broken

unfoldable pub unit_outcome : Result (Unit {0}) → Outcome
unfolding fault_outcome
unit_outcome (ok u) = done
unit_outcome (err e) = fault_outcome e

unfoldable pub flag_outcome : Result Bool → Outcome
unfolding fault_outcome
flag_outcome (ok b) = answer b
flag_outcome (err e) = fault_outcome e

abbrev pub seen : {S A : Type 0} → (Result A → Outcome) → Result A × S → Outcome × S
seen outcome (r, s) = (outcome r, s)

module _ {vp : VPack} {S : Type 0} (c : Client vp S) where
  -- The call of the code.
  unfoldable pub perform : Op → S → Outcome × S
  perform (create user) s = seen unit_outcome (create_user c user s)
  perform (update user) s = seen unit_outcome (update_user c user s)
  perform (remove name) s = seen unit_outcome (remove_user c name s)
  perform (exists name) s = seen flag_outcome (exist_user c name s)

  unfoldable pub perform_all : List Op → S → List Outcome × S
  perform_all [] s = ([], s)
  perform_all (op ∷ ops) s =
      let (o, s') = perform op s in let (os, s'') = perform_all ops s' in (o ∷ os, s'')

module _ (vp : VPack) where
  -- What the server keeps of a user.
  pub record Account : Type 0 where
    pub passwd : Text
    pub active : Bool
    pub extra : Option vp.Slice

  abbrev pub Accounts : Type 0
  Accounts = Map Account

  -- The extra data of a user: none, or JSON.
  unfoldable pub read_extra : Text → Attempt (Option vp.Slice)
  read_extra [] = value none
  read_extra (c ∷ json) = elim (vp.from_json (c ∷ json)) [
    | value slice ↦ value (some slice)
    | exception what ↦ exception what
  ]

  abbrev pub account_of : ArangoDbUser → Option vp.Slice → Account
  account_of user extra = record { passwd = user.password; active = user.active; extra = extra }

  -- An update without extra data keeps the old ones.
  unfoldable pub patched : ArangoDbUser → Option vp.Slice → Account → Account
  patched user none old = account_of user old.extra
  patched user (some slice) old = account_of user (some slice)

  apply_create : ArangoDbUser → Option vp.Slice → Option Account → Accounts → Outcome × Accounts
  apply_create user extra none accounts = (done, insert user.name (account_of user extra) accounts)
  apply_create user extra (some old) accounts = (refused, accounts)

  apply_update : ArangoDbUser → Option vp.Slice → Option Account → Accounts → Outcome × Accounts
  unfolding patched
  apply_update user extra none accounts = (refused, accounts)
  apply_update user extra (some old) accounts =
      (done, insert user.name (patched user extra old) accounts)

  apply_remove : Text → Option Account → Accounts → Outcome × Accounts
  apply_remove name none accounts = (refused, accounts)
  apply_remove name (some old) accounts = (done, erase name accounts)

  apply_exists : Option Account → Accounts → Outcome × Accounts
  apply_exists none accounts = (answer false, accounts)
  apply_exists (some old) accounts = (answer true, accounts)

  -- The call on a map: bad JSON in the extra data is refused; a new user needs a free name, the
  -- others need one that is there.
  unfoldable pub apply : Op → Accounts → Outcome × Accounts
  unfolding apply_create apply_update apply_remove apply_exists
  apply (create user) accounts = elim (read_extra user.extra) [
    | exception what ↦ (refused, accounts)
    | value extra ↦ apply_create user extra (lookup user.name accounts) accounts
  ]
  apply (update user) accounts = elim (read_extra user.extra) [
    | exception what ↦ (refused, accounts)
    | value extra ↦ apply_update user extra (lookup user.name accounts) accounts
  ]
  apply (remove name) accounts = apply_remove name (lookup name accounts) accounts
  apply (exists name) accounts = apply_exists (lookup name accounts) accounts

  unfoldable pub apply_all : List Op → Accounts → List Outcome × Accounts
  apply_all [] accounts = ([], accounts)
  apply_all (op ∷ ops) accounts =
      let (o, accounts') = apply op accounts in
      let (os, accounts'') = apply_all ops accounts' in (o ∷ os, accounts'')

  -- The field for the extra data, if there are any.
  abbrev pub extra_of : Option vp.Slice → List (Text × vp.Slice)
  extra_of none = []
  extra_of (some slice) = (lit "extra", slice) ∷ []

  abbrev pub HasStatus : ℕ → HttpMessage vp → Type 0
  HasStatus status m = (status_code vp m == status) ≡ true

  abbrev pub IsMissing : HttpMessage vp → Type 0
  IsMissing m = (status_code vp m == status_ok) ≡ false

module _ {vp : VPack} {S : Type 0} (c : Client vp S) (view : S → Accounts vp) where
  -- The request is answered by a message with `P`, and the users are `accounts` afterwards.
  pub record Gives (request : HttpMessage vp) (s : S) (P : HttpMessage vp → Type 0)
      (accounts : Accounts vp) : Type 0 where
    pub reply : HttpMessage vp
    pub after : S
    pub sent : c.send request s ≡ (ok reply, after)
    pub fits : P reply
    pub now : view after ≡ accounts

  abbrev pub user_path : Text → Text
  user_path name = lit "/_api/user/" ++ name

  abbrev pub posting : ArangoDbUser → Option vp.Slice → HttpMessage vp
  posting user extra = request_with c RestVerb.post (lit "/_api/user") (
      vp.of_object (
        ((lit "user", vp.of_string user.name)
          ∷ (lit "passwd", vp.of_string user.password)
          ∷ (lit "active", vp.of_bool user.active)
          ∷ [])
        ++ extra_of vp extra))

  abbrev pub patching : ArangoDbUser → Option vp.Slice → HttpMessage vp
  patching user extra = request_with c RestVerb.patch (user_path user.name) (
      vp.of_object (
        ((lit "passwd", vp.of_string user.password) ∷ (lit "active", vp.of_bool user.active) ∷ [])
        ++ extra_of vp extra))

  -- What the server promises for requests about users, as its documentation describes them.
  pub record IsServer : Type 0 where
    pub post_new :
        (user : ArangoDbUser) (extra : Option vp.Slice) (s : S)
        → lookup user.name (view s) ≡ none
        → Gives
            (posting user extra)
            s
            (HasStatus vp status_created)
            (insert user.name (account_of vp user extra) (view s))
    pub post_taken :
        (user : ArangoDbUser) (extra : Option vp.Slice) (old : Account vp) (s : S)
        → lookup user.name (view s) ≡ some old
        → Gives (posting user extra) s (IsRefusal vp) (view s)
    pub patch_found :
        (user : ArangoDbUser) (extra : Option vp.Slice) (old : Account vp) (s : S)
        → lookup user.name (view s) ≡ some old
        → Gives
            (patching user extra)
            s
            (HasStatus vp status_ok)
            (insert user.name (patched vp user extra old) (view s))
    pub patch_missing :
        (user : ArangoDbUser) (extra : Option vp.Slice) (s : S)
        → lookup user.name (view s) ≡ none
        → Gives (patching user extra) s (IsRefusal vp) (view s)
    pub delete_found :
        (name : Text) (old : Account vp) (s : S)
        → lookup name (view s) ≡ some old
        → Gives
            (new_request c RestVerb.delete (user_path name))
            s
            (HasStatus vp status_accepted)
            (erase name (view s))
    pub delete_missing :
        (name : Text) (s : S)
        → lookup name (view s) ≡ none
        → Gives (new_request c RestVerb.delete (user_path name)) s (IsRefusal vp) (view s)
    pub get_found :
        (name : Text) (old : Account vp) (s : S)
        → lookup name (view s) ≡ some old
        → Gives (new_request c RestVerb.get (user_path name)) s (HasStatus vp status_ok) (view s)
    pub get_missing :
        (name : Text) (s : S)
        → lookup name (view s) ≡ none
        → Gives (new_request c RestVerb.get (user_path name)) s (IsMissing vp) (view s)
