-- ===== src/Tests/Promises.antt =====
-- The server of Store keeps its promises, and a sequence of calls on it.
use arango_cpp.Base.{Option, none, some, sym, List, [], ◌∷◌, ◌++◌, ◌≡◌, refl, Text, lit, text_eq}
use arango_cpp.Base.Maps.{lookup, insert, erase}
use arango_cpp.Requests.{read_slices, create_request, erase_meta, add_vpack}
use arango_cpp.Api.Ids.{head}
use arango_cpp.Documents.{Op, create, read, update, delete, exists}
use arango_cpp.Documents.Server.{IsServer}
use arango_cpp.Tests.Store.{
  answer_of, sent_to, store_client, database, Keeps, choice, choice-IsFair, kept_text, key_for,
}

pub store-IsServer : (asks : Text → Option Text) → IsServer (store_client asks) database asks Keeps
unfolding text_eq sent_to create_request erase_meta add_vpack read_slices lit
store-IsServer asks = record {
  chosen = choice asks;
  fair = choice-IsFair asks;
  get_found = λ id json s f. record {
    answer = answer_of 200 json;
    after = s;
    sent = rw f refl;
    fits = record {
      accepted = refl;
      slice = json;
      has_body = record { others = []; body = refl };
      text = refl;
    };
    now = refl;
  };
  get_missing = λ id s n. record {
    answer = answer_of 404 [];
    after = s;
    sent = rw n refl;
    fits = record {
      error = refl;
      not_ok = refl;
      slice = [];
      has_body = record { others = []; body = refl };
    };
    now = refl;
  };
  post_new = λ coll id doc s k e n. record {
    answer = answer_of 201 id;
    after = insert id (kept_text s doc) s;
    sent =
        let free : lookup (head coll ++ key_for (asks doc) s) s ≡ none = rw e n in
        rw (sym e, k, free) refl;
    fits = record {
      accepted = refl;
      slice = id;
      has_body = record { others = []; body = refl };
      field = id;
      get_field = refl;
      field_value = refl;
    };
    now = refl;
  };
  post_unknown = λ coll doc s k. record {
    answer = answer_of 404 [];
    after = s;
    sent = rw k refl;
    fits = record {
      error = refl;
      not_ok = refl;
      slice = [];
      has_body = record { others = []; body = refl };
    };
    now = refl;
  };
  post_taken = λ coll doc json s k f. record {
    answer = answer_of 409 [];
    after = s;
    sent = rw (k, f) refl;
    fits = record {
      error = refl;
      not_ok = refl;
      slice = [];
      has_body = record { others = []; body = refl };
    };
    now = refl;
  };
  put_found = λ id doc json s f. record {
    answer = answer_of 201 id;
    after = insert id (kept_text s doc) s;
    sent = rw f refl;
    fits = record {
      accepted = refl;
      slice = id;
      has_body = record { others = []; body = refl };
      field = id;
      get_field = refl;
      field_value = refl;
    };
    now = refl;
  };
  put_missing = λ id doc s n. record {
    answer = answer_of 404 [];
    after = s;
    sent = rw n refl;
    fits = record {
      error = refl;
      not_ok = refl;
      slice = [];
      has_body = record { others = []; body = refl };
    };
    now = refl;
  };
  delete_found = λ id json s f. record {
    answer = answer_of 200 [];
    after = erase id s;
    sent = rw f refl;
    fits = refl;
    now = refl;
  };
  delete_missing = λ id s n. record {
    answer = answer_of 404 [];
    after = s;
    sent = rw n refl;
    fits = record {
      error = refl;
      not_ok = refl;
      slice = [];
      has_body = record { others = []; body = refl };
    };
    now = refl;
  };
  head_found = λ id json s f. record {
    answer = answer_of 200 [];
    after = s;
    sent = rw f refl;
    fits = refl;
    now = refl;
  };
  head_missing = λ id s n. record {
    answer = answer_of 404 [];
    after = s;
    sent = rw n refl;
    fits = refl;
    now = refl;
  };
}

abbrev pub calls : List Op
calls =
    exists (lit "c") (lit "7")
    ∷ create (lit "none") (lit "7")
    ∷ create (lit "c") (lit "7")
    ∷ create (lit "c") (lit "7")
    ∷ update (lit "c") (lit "7") (lit "{}")
    ∷ read (lit "c") (lit "7")
    ∷ delete (lit "c") (lit "7")
    ∷ []

-- A document asks to be its own key.
abbrev pub own : Text → Option Text
own doc = some doc
