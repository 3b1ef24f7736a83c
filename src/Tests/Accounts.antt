-- ===== src/Tests/Accounts.antt =====
-- A server that keeps users, and a sequence of calls on it.
use arango_cpp.Base.{
  ℕ, Bool, true, false, Option, none, some, List, [], ◌∷◌, ◌++◌, ◌≡◌, refl, ap, Text, lit, text_eq,
  leb, ◌==◌, length, take, drop, take-append, drop-append, pos, ok,
}
use arango_cpp.Base.Maps.{lookup, insert, erase}
use arango_cpp.Velocypack.{VPack}
use arango_cpp.Requests.{
  HttpMessage, RestVerb, empty_header, response, create_request, add_vpack, read_slices,
}
use arango_cpp.Connection.{ArangoDbUser, default_user}
use arango_cpp.Api.{Client}
use arango_cpp.Documents.Server.{IsRefusal}
use arango_cpp.Users.Accounts.{
  Op, create, update, remove, exists, perform_all, Account, Accounts, account_of, patched, extra_of,
  apply_all, IsServer,
}
use arango_cpp.Users.Refines.{users_refine}
use arango_cpp.Tests.Samples.{some_settings}
use arango_cpp.Tests.Store.{text_vp}

-- An object as its values, each with its length in front.
fields_text : List (Text × Text) → Text
fields_text [] = []
fields_text ((key, v) ∷ fields) = length v ∷ (v ++ fields_text fields)

-- The first value, and the rest.
first_value : Text → Text × Text
first_value [] = ([], [])
first_value (n ∷ rest) = (take n rest, drop n rest)

first_value_lem :
    (key v : Text) (fields : List (Text × Text))
    → first_value (fields_text ((key, v) ∷ fields)) ≡ (v, fields_text fields)
unfolding first_value fields_text
first_value_lem key v fields =
    rw (take-append v (fields_text fields), drop-append v (fields_text fields)) refl

abbrev digit : Bool → Text
digit true = 1 ∷ []
digit false = 0 ∷ []

abbrev user_vp : VPack
user_vp = record text_vp { of_bool = digit; of_object = fields_text }

abbrev Users : Type 0
Users = Accounts user_vp

extra_in : Text → Option Text
unfolding first_value
extra_in [] = none
extra_in (n ∷ rest) = some (first_value (n ∷ rest)).0

-- The account in the fields that a new user and an update share.
account_in : Text → Account user_vp
unfolding first_value extra_in
account_in body =
    let (passwd, more) = first_value body in
    let (active, extra) = first_value more in
    record { passwd = passwd; active = text_eq active (1 ∷ []); extra = extra_in extra }

digit_lem : (b : Bool) → text_eq (digit b) (1 ∷ []) ≡ b
unfolding text_eq
digit_lem true = refl
digit_lem false = refl

extra_in_lem : (extra : Option Text) → extra_in (fields_text (extra_of user_vp extra)) ≡ extra
unfolding extra_in fields_text
extra_in_lem none = refl
extra_in_lem (some slice) = ap some (take-append slice [])

account_in_lem :
    (user : ArangoDbUser) (extra : Option Text)
    → account_in (
        fields_text (
          (lit "passwd", user.password)
          ∷ (lit "active", digit user.active)
          ∷ extra_of user_vp extra))
      ≡ account_of user_vp user extra
unfolding account_in
account_in_lem user extra =
    let fields = (lit "active", digit user.active) ∷ extra_of user_vp extra in
    rw
      (
        first_value_lem (lit "passwd") user.password fields,
        first_value_lem (lit "active") (digit user.active) (extra_of user_vp extra),
        digit_lem user.active,
        extra_in_lem extra,
      )
      refl

abbrev answer : ℕ → HttpMessage user_vp
answer status = record {
  header = record empty_header { type = response; response_code = status };
  payload = [];
  payload_length = 0;
  slices = [] ∷ [];
}

-- An update of an account.
merged : Account user_vp → Account user_vp → Account user_vp
merged old new = record new { extra = elim new.extra [ none ↦ old.extra | some e ↦ some e ] }

merged_lem :
    (user : ArangoDbUser) (extra : Option Text) (old : Account user_vp)
    → merged old (account_of user_vp user extra) ≡ patched user_vp user extra old
unfolding merged patched
merged_lem user none old = refl
merged_lem user (some slice) old = refl

handle : RestVerb → Text → Text → Option (Account user_vp) → Users → HttpMessage user_vp × Users
handle RestVerb.post name body none users = (answer 201, insert name (account_in body) users)
handle RestVerb.post name body (some old) users = (answer 409, users)
handle RestVerb.patch name body none users = (answer 404, users)
handle RestVerb.patch name body (some old) users =
    (answer 200, insert name (merged old (account_in body)) users)
handle RestVerb.delete name body none users = (answer 404, users)
handle RestVerb.delete name body (some old) users = (answer 202, erase name users)
handle _ name body none users = (answer 404, users)
handle _ name body (some old) users = (answer 200, users)

-- The name of the user and the other fields: a new user has the name in the body, others have it
-- behind `/_api/user/`.
target : RestVerb → Text → Text → Text × Text
unfolding first_value
target RestVerb.post path body = first_value body
target _ path body = (drop 11 path, body)

serve : HttpMessage user_vp → Users → HttpMessage user_vp × Users
unfolding handle target
serve m users =
    let (name, body) = target m.header.rest_verb m.header.path m.payload in
    handle m.header.rest_verb name body (lookup name users) users

abbrev user_client : Client user_vp Users
user_client = record {
  send = λ m users. let (reply, users') = serve m users in (ok reply, users');
  settings = some_settings;
  batch_size = pos 500;
}

refusal :
    (status : ℕ)
    → leb 400 status ≡ true
    → (status == 200) ≡ false
    → IsRefusal user_vp (answer status)
unfolding read_slices
refusal status e n = record {
  error = e;
  not_ok = n;
  slice = [];
  has_body = record { others = []; body = refl };
}

abbrev kept : Users → Users
kept users = users

user_IsServer : IsServer user_client kept
unfolding serve create_request add_vpack read_slices lit
user_IsServer = record {
  post_new = λ user extra users n. record {
    reply = answer 201;
    after = insert user.name (account_of user_vp user extra) users;
    sent =
        rw
          (
            first_value_lem (lit "user") user.name (
                (lit "passwd", user.password)
                ∷ (lit "active", digit user.active)
                ∷ extra_of user_vp extra),
            n,
            account_in_lem user extra,
          )
          refl;
    fits = refl;
    now = refl;
  };
  post_taken = λ user extra old users f. record {
    reply = answer 409;
    after = users;
    sent =
        rw
          (
            first_value_lem (lit "user") user.name (
                (lit "passwd", user.password)
                ∷ (lit "active", digit user.active)
                ∷ extra_of user_vp extra),
            f,
          )
          refl;
    fits = refusal 409 refl refl;
    now = refl;
  };
  patch_found = λ user extra old users f. record {
    reply = answer 200;
    after = insert user.name (patched user_vp user extra old) users;
    sent = rw (f, account_in_lem user extra, merged_lem user extra old) refl;
    fits = refl;
    now = refl;
  };
  patch_missing = λ user extra users n. record {
    reply = answer 404;
    after = users;
    sent = rw n refl;
    fits = refusal 404 refl refl;
    now = refl;
  };
  delete_found = λ name old users f. record {
    reply = answer 202;
    after = erase name users;
    sent = rw f refl;
    fits = refl;
    now = refl;
  };
  delete_missing = λ name users n. record {
    reply = answer 404;
    after = users;
    sent = rw n refl;
    fits = refusal 404 refl refl;
    now = refl;
  };
  get_found = λ name old users f. record {
    reply = answer 200;
    after = users;
    sent = rw f refl;
    fits = refl;
    now = refl;
  };
  get_missing = λ name users n. record {
    reply = answer 404;
    after = users;
    sent = rw n refl;
    fits = refl;
    now = refl;
  };
}

abbrev ann : ArangoDbUser
ann = record default_user { name = lit "ann"; password = lit "secret" }

abbrev user_calls : List Op
user_calls =
    exists (lit "ann")
    ∷ create ann
    ∷ create ann
    ∷ update (record ann { active = false; extra = lit "{}" })
    ∷ remove (lit "bob")
    ∷ remove (lit "ann")
    ∷ []

users_refine_example :
    ((perform_all user_client user_calls []).0 ≡ (apply_all user_vp user_calls []).0)
    × ((perform_all user_client user_calls []).1 ≡ (apply_all user_vp user_calls []).1)
users_refine_example = users_refine user_client user_IsServer user_calls []
