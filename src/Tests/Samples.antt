-- ===== src/Tests/Samples.antt =====
-- Concrete stand-ins for Velocypack and curl, for the tests.
use arango_cpp.Base.{
  ℕ, zero, suc, Bool, true, false, List, [], ◌∷◌, ◌++◌, refl, arith, Text, lit, text_eq,
  if◌then◌else◌, length, ℤ, pos, Result, ok, err, undefined_behaviour,
}
use arango_cpp.Velocypack.{Attempt, value, exception, VPack, IsLawful}
use arango_cpp.Requests.{Settings, HttpMessage, response, empty_header}
use arango_cpp.Curl.{Net}
use arango_cpp.Api.{Client}

-- Values of one byte.
abbrev pub byte_vp : VPack
byte_vp = record {
  Slice = ℕ;
  from_json = λ t. exception t;
  to_json = λ s. value (s ∷ []);
  is_none = λ s. false;
  is_object = λ s. false;
  has_key = λ s key. exception key;
  get = λ s key. exception key;
  get_int = λ s. value (pos s);
  get_bool = λ s. exception [];
  copy_string = λ s. exception [];
  count = λ s. exception [];
  elem = λ s ii. exception [];
  key_at = λ s ii. exception [];
  value_at = λ s ii. exception [];
  bytes = λ s. s ∷ [];
  byte_size = λ s. 1;
  at_cursor = λ t. elim t [ [] ↦ 0 | c ∷ _ ↦ c ];
  reset_to = λ t n. t;
  of_string = λ t. 0;
  of_bool = λ b. 0;
  of_int = λ i. 0;
  of_array = λ ss. 0;
  of_object = λ fields. 0;
}

pub byte_lawful : IsLawful byte_vp
byte_lawful = record {
  byte_size_pos = λ s. omega arith;
  byte_size-length = λ s. refl;
  at_cursor-bytes = λ s rest. refl;
  reset_to_same = λ t. refl;
}

-- Values of three bytes: a buffer of two is too short.
abbrev pub wide_vp : VPack
wide_vp = record byte_vp { byte_size = λ s. 3 }

-- Values as the server sends them, as far as the tests need them.
pub data Doc : Type 0 where
  absent : Doc
  flag : Bool → Doc
  number : ℤ → Doc
  text : Text → Doc
  texts : List Text → Doc
  page : Bool → Text → List Text → Doc
  failure : ℤ → Text → Doc
  collection : Bool → ℤ → Text → Doc
  collections : List (Bool × ℤ × Text) → Doc
  listing : List (Bool × ℤ × Text) → Doc

nth_text : List Text → ℕ → Attempt Doc
nth_text [] ii = exception []
nth_text (t ∷ ts) zero = value (text t)
nth_text (t ∷ ts) (suc ii) = nth_text ts ii

nth_collection : List (Bool × ℤ × Text) → ℕ → Attempt Doc
nth_collection [] ii = exception []
nth_collection ((b, i, t) ∷ es) zero = value (collection b i t)
nth_collection (e ∷ es) (suc ii) = nth_collection es ii

unfoldable pub doc_get : Doc → Text → Attempt Doc
doc_get (page more id docs) key =
    if text_eq key (lit "hasMore")
    then value (flag more)
    else if text_eq key (lit "id")
    then (if more then value (text id) else exception (lit "no id"))
    else if text_eq key (lit "result")
    then value (texts docs)
    else if text_eq key (lit "documents")
    then value (texts docs)
    else value absent
doc_get (failure num message) key =
    if text_eq key (lit "error")
    then value (flag true)
    else if text_eq key (lit "errorNum")
    then value (number num)
    else if text_eq key (lit "errorMessage")
    then value (text message)
    else value absent
doc_get (collection system type name) key =
    if text_eq key (lit "isSystem")
    then value (flag system)
    else if text_eq key (lit "type")
    then value (number type)
    else if text_eq key (lit "status")
    then value (number type)
    else if text_eq key (lit "name")
    then value (text name)
    else value absent
doc_get (listing es) key =
    if text_eq key (lit "result") then value (collections es) else value absent
doc_get (text t) key =
    if text_eq key (lit "_id")
    then value (text (lit "c/" ++ t))
    else exception (lit "Expecting Object")
doc_get _ key = exception (lit "Expecting Object")

unfoldable pub doc_elem : Doc → ℕ → Attempt Doc
unfolding nth_text nth_collection
doc_elem (texts ts) ii = nth_text ts ii
doc_elem (collections es) ii = nth_collection es ii
doc_elem _ ii = exception []

abbrev pub doc_vp : VPack
doc_vp = record {
  Slice = Doc;
  from_json = λ t. value (text t);
  to_json = λ d. elim d [ text t ↦ value t | _ ↦ exception [] ];
  is_none = λ d. elim d [ absent ↦ true | _ ↦ false ];
  is_object =
      λ d. elim d [ page _ _ _ ↦ true | failure _ _ ↦ true | collection _ _ _ ↦ true | _ ↦ false ];
  has_key = λ d key. elim d [ failure _ _ ↦ value true | _ ↦ value false ];
  get = doc_get;
  get_int = λ d. elim d [ number i ↦ value i | _ ↦ exception [] ];
  get_bool = λ d. elim d [ flag b ↦ value b | _ ↦ exception [] ];
  copy_string = λ d. elim d [ text t ↦ value t | _ ↦ exception [] ];
  count = λ d. elim d [
    | texts ts ↦ value (length ts)
    | collections es ↦ value (length es)
    | _ ↦ exception []
  ];
  elem = doc_elem;
  key_at = doc_elem;
  value_at = λ d ii. value (text (lit "rw"));
  bytes = λ d. 0 ∷ [];
  byte_size = λ d. 1;
  at_cursor = λ t. absent;
  reset_to = λ t n. t;
  of_string = text;
  of_bool = flag;
  of_int = number;
  of_array = λ ds. absent;
  of_object = λ fields. absent;
}

abbrev pub some_settings : Settings
some_settings = record {
  full_list_of_edges = [];
  use_velocypack_put = true;
  use_velocypack_get = true;
}

-- A response with a status and a value.
abbrev pub answer : ℕ → Doc → HttpMessage doc_vp
answer status d = record {
  header = record empty_header { type = response; response_code = status };
  payload = [];
  payload_length = 0;
  slices = d ∷ [];
}

-- A server that gives prepared answers, one for each request.
unfoldable pub prepared :
    HttpMessage doc_vp
    → List (HttpMessage doc_vp)
    → Result (HttpMessage doc_vp) × List (HttpMessage doc_vp)
prepared m [] = (err undefined_behaviour, [])
prepared m (r ∷ rs) = (ok r, rs)

abbrev pub server : Client doc_vp (List (HttpMessage doc_vp))
server = record { send = prepared; settings = some_settings; batch_size = pos 500 }

-- A network whose transfers succeed, with a content type and a body of one byte.
abbrev pub some_net : Net
some_net = record {
  World = ℕ;
  easy_init = λ w. (true, w);
  perform = λ opts w. (
    record {
      code = 0;
      header_calls = lit "Content-Type: application/x-velocypack" ∷ [];
      body_calls = (b'x' ∷ []) ∷ [];
      response_code = 200;
    },
    suc w,
  );
}
