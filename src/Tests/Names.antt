-- ===== src/Tests/Names.antt =====
-- A server with a set of collections, and a sequence of calls on it.
use arango_cpp.Base.{
  ℕ, true, false, List, [], ◌∷◌, ◌≡◌, refl, Text, lit, drop, pos, ok, int_eq, to_int, if◌then◌else◌,
}
use arango_cpp.Velocypack.{VPack}
use arango_cpp.Requests.{
  HttpMessage, RestVerb, empty_header, response, read_slices, create_request, add_vpack,
}
use arango_cpp.Api.{Client}
use arango_cpp.Collections.{collection_object}
use arango_cpp.Existence.Names.{Call, create, test, Names, put, apply_all, perform_all, Keeps}
use arango_cpp.Existence.Refines.{perform_all-apply_all}
use arango_cpp.Tests.Samples.{some_settings}
use arango_cpp.Tests.Store.{text_vp}

first_value : List (Text × Text) → Text
first_value [] = []
first_value (f ∷ fields) = f.1

abbrev named_vp : VPack
named_vp = record text_vp { of_object = first_value }

abbrev status : ℕ → HttpMessage named_vp
status code = record {
  header = record empty_header { type = response; response_code = code };
  payload = [];
  payload_length = 0;
  slices = lit "loaded" ∷ [];
}

-- The name behind `/_api/collection/`; a new collection has its name in the body.
reply : RestVerb → Text → Text → Names → HttpMessage named_vp × Names
reply RestVerb.get path body names =
    (if names (drop 17 path) then status 200 else status 404, names)
reply RestVerb.post path body names =
    if names body then (status 409, names) else (status 200, put body true names)
reply RestVerb.delete path body names =
    if names (drop 17 path)
    then (status 200, put (drop 17 path) false names)
    else (status 404, names)
reply _ path body names = (status 405, names)

abbrev names_client : Client named_vp Names
names_client = record {
  send = λ m names.
      let (r, names') = reply m.header.rest_verb m.header.path m.payload names in (ok r, names');
  settings = some_settings;
  batch_size = pos 500;
}

abbrev contents : Names → Names
contents names = names

names-Keeps : Keeps names_client contents
unfolding reply create_request add_vpack collection_object first_value read_slices lit int_eq to_int
names-Keeps = record {
  get_found = λ name s e. record {
    result = status 200;
    after = s;
    sent = rw e refl;
    fits = record {
      found = refl;
      slice = lit "loaded";
      others = [];
      body = refl;
      field = lit "loaded";
      get_field = refl;
      status = pos 3;
      field_value = refl;
      not_deleted = refl;
    };
    now = λ key. refl;
  };
  get_missing = λ name s e. record {
    result = status 404;
    after = s;
    sent = rw e refl;
    fits = refl;
    now = λ key. refl;
  };
  post_new = λ name ctype s e. record {
    result = status 200;
    after = put name true s;
    sent = rw e refl;
    fits = refl;
    now = λ key. refl;
  };
  delete_found = λ name s e. record {
    result = status 200;
    after = put name false s;
    sent = rw e refl;
    fits = refl;
    now = λ key. refl;
  };
}

abbrev calls : List Call
calls =
    test (lit "c")
    ∷ create (lit "c") (lit "edge")
    ∷ test (lit "c")
    ∷ Call.drop (lit "c")
    ∷ test (lit "c")
    ∷ []

abbrev empty_names : Names
empty_names key = false

perform_all-apply_all_example :
    ((perform_all names_client calls empty_names).0 ≡ (apply_all calls empty_names).0)
    × ((key : Text)
        → (perform_all names_client calls empty_names).1 key ≡ (apply_all calls empty_names).1 key)
perform_all-apply_all_example =
    perform_all-apply_all names_client names-Keeps calls empty_names empty_names (λ key. refl)
