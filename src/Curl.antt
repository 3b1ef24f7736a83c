-- ===== src/Curl.antt =====
-- src/arangocurl.h, src/arangocurl.cpp and src/curlobjects_pool.h: requests over libcurl, and the
-- pool of handles. libcurl is a parameter: the calls of `curl_easy_setopt` on a handle are kept in
-- a list, oldest first, and a transfer depends on that list and on the world outside.
pub mod Handles
pub mod Options
pub mod Stale
pub mod Replies
pub mod ResponseHeaders
use arango_cpp.Base.{
  ℕ, zero, suc, ◌+◌, Bool, true, false, ◌&&◌, ◌||◌, not, Option, none, some, List, [], ◌∷◌, ◌++◌,
  map, Text, String, lit, text_eq, leb, ltb, ◌==◌, if◌then◌else◌, is_empty, length, take, drop, pos,
  Fault, Result, ok, err, arango, M, ◌>>=◌, ◌>>◌, pure, throw, lift,
}
use arango_cpp.Base.Maps.{Map}
use arango_cpp.Detail.{trim, split, find_first_of}
use arango_cpp.Velocypack.{VPack, call}
use arango_cpp.Requests.{
  Settings, HttpMessage, RestVerb, fu_content_type_key, fu_content_type_vpack, add_meta,
  create_response, add_vpack, add_buffer, is_content_type_json, payload_as_string, verb_to_string,
}

-- The options that the code sets. `custom_request none` is a `NULL` argument.
pub data CurlOpt : Type 0 where
  http_header : List Text → CurlOpt
  no_header_in_body : CurlOpt
  url : Text → CurlOpt
  error_buffer : CurlOpt
  http_get : CurlOpt
  post : CurlOpt
  custom_request : Option Text → CurlOpt
  no_body : CurlOpt
  http_auth_basic : CurlOpt
  username : Text → CurlOpt
  password : Text → CurlOpt
  post_field_size : ℕ → CurlOpt
  copy_post_fields : Text → CurlOpt
  write_callbacks : CurlOpt

-- What `curl_easy_perform` gives: its code, the calls of the two callbacks, and the status code
-- that `curl_easy_getinfo` reports afterwards.
pub record Transfer : Type 0 where
  pub code : ℕ
  pub header_calls : List Text
  pub body_calls : List Text
  pub response_code : ℕ

pub record Net : Type 1 where
  pub World : Type 0
  pub easy_init : World → Bool × World
  pub perform : List CurlOpt → World → Transfer × World

-- `headerCallback`: the bytes and a semicolon are appended to the buffer.
unfoldable pub header_callback : Text → Text → Text
header_callback buffer bytes = (buffer ++ bytes) ++ lit ";"

-- `bodyCallback`
unfoldable pub body_callback : Text → Text → Text
body_callback buffer bytes = buffer ++ bytes

unfoldable pub collect : (Text → Text → Text) → Text → List Text → Text
collect callback buffer [] = buffer
collect callback buffer (c ∷ cs) = collect callback (callback buffer c) cs

-- The options that the constructor sets on every handle.
abbrev pub constructor_options : List CurlOpt
constructor_options = write_callbacks ∷ []

-- `RequestCurlObject`; `curl` stands for the handle `_curl`, by the options that have been set since
-- the constructor, and `status` for the code of the last transfer that the handle keeps. `_request` is only kept alive and is left out.
pub record CurlObject : Type 0 where
  pub target : Text
  pub db_user : Text
  pub db_passwd : Text
  pub response_headers : Text
  pub response_body : Text
  pub curl : List CurlOpt
  pub status : ℕ

abbrev curl_failed : Fault
curl_failed = arango (lit "RequestCurlObject") (pos 2) (lit "Curl did not initialize!")

module _ (net : Net) where
  -- The constructor; an object that exists has a handle.
  unfoldable pub new_curl_object : M net.World CurlObject
  new_curl_object w =
      let (created, w') = net.easy_init w in
      if created
      then pure
          (record {
            target = [];
            db_user = [];
            db_passwd = [];
            response_headers = [];
            response_body = [];
            curl = [];
            status = 0;
          })
          w'
      else throw curl_failed w'

-- `setConnectData`
unfoldable pub set_connect_data : Text → Text → CurlObject → CurlObject
set_connect_data user passwd o = record o {
  db_user = user;
  db_passwd = passwd;
  curl = o.curl ++ (http_auth_basic ∷ username user ∷ password passwd ∷ []);
}

-- The loop over the meta data: `name: value`, without the content type if JSON is sent.
unfoldable pub header_lines : Bool → Map Text → List Text
header_lines send_json [] = []
header_lines send_json ((name, value) ∷ meta) =
    let rest = header_lines send_json meta in
    if text_eq name fu_content_type_key && send_json
    then rest
    else (name ++ (lit ": " ++ value)) ∷ rest

-- The `switch` on the verb.
unfoldable pub verb_options : RestVerb → Result (List CurlOpt)
verb_options RestVerb.post = ok (post ∷ custom_request none ∷ [])
verb_options RestVerb.put = ok (custom_request (some (lit "PUT")) ∷ [])
verb_options RestVerb.delete = ok (custom_request (some (lit "DELETE")) ∷ [])
verb_options RestVerb.head = ok (custom_request (some (lit "HEAD")) ∷ no_body ∷ [])
verb_options RestVerb.patch = ok (custom_request (some (lit "PATCH")) ∷ [])
verb_options RestVerb.options = ok (custom_request (some (lit "OPTIONS")) ∷ [])
verb_options RestVerb.get = ok (custom_request none ∷ [])
verb_options RestVerb.illegal = err (
    arango (lit "RequestCurlObject") (pos 3)
      (lit "Invalid request type " ++ verb_to_string RestVerb.illegal))

-- The body, if there is one: its size first, then the bytes.
unfoldable pub body_options : Text → List CurlOpt
body_options body =
    if is_empty body then [] else post_field_size (length body) ∷ copy_post_fields body ∷ []

module _ (vp : VPack) (net : Net) (settings : Settings) where
  -- What is sent as the body: the payload, or its JSON text.
  unfoldable pub request_body : {S : Type 0} → HttpMessage vp → M S Text
  request_body m =
      if settings.use_velocypack_put
      then pure (take m.payload_length m.payload)
      else payload_as_string m

  -- All options of a request.
  unfoldable pub request_options :
      {S : Type 0} → Text → Text → Text → HttpMessage vp → M S (List CurlOpt)
  request_options target user passwd m = do
    let lines = header_lines (not settings.use_velocypack_put) m.header.meta
    verb ← lift (verb_options m.header.rest_verb)
    body ← request_body m
    pure (
        (http_header lines ∷ no_header_in_body ∷ url target ∷ error_buffer ∷ http_get ∷ [])
        ++ (verb
            ++ ((http_auth_basic ∷ username user ∷ password passwd ∷ []) ++ body_options body)))

  -- `sendRequest`. The code that curl returns is only logged.
  unfoldable pub send_request : Text → HttpMessage vp → CurlObject → M net.World CurlObject
  unfolding request_options collect header_callback body_callback
  send_request the_url m o = do
    opts ← request_options the_url o.db_user o.db_passwd m
    transferred (o.curl ++ opts)
    where
      transferred : List CurlOpt → M net.World CurlObject
      transferred opts w =
          let (t, w') = net.perform (constructor_options ++ opts) w in
          pure
            (record o {
              target = the_url;
              response_headers = collect header_callback [] t.header_calls;
              response_body = collect body_callback [] t.body_calls;
              curl = opts;
              status = t.response_code;
            })
            w'

-- `std::transform(…, ::tolower)` in the C locale
unfoldable pub to_lower : Text → Text
to_lower [] = []
to_lower (c ∷ s) = (if leb b'A' c && leb c b'Z' then c + 32 else c) ∷ to_lower s

-- One round of the loop over the header lines in `getResponse`.
unfoldable pub parse_header : Text → Option (Text × Text)
unfolding find_first_of to_lower trim
parse_header header = elim (find_first_of (lit ":") header) [
  | none ↦ none
  | some pit ↦
      if leb (length header) (pit + 2)
      then none
      else some (to_lower (take pit header), trim (drop (pit + 2) header))
]

module _ (vp : VPack) where
  unfoldable pub add_header : Option (Text × Text) → HttpMessage vp → HttpMessage vp
  add_header none m = m
  add_header (some (key, value)) m = record m { header = add_meta m.header key value }

  unfoldable pub add_headers : List Text → HttpMessage vp → HttpMessage vp
  unfolding add_header parse_header
  add_headers [] m = m
  add_headers (line ∷ lines) m = add_headers lines (add_header (parse_header line) m)

  unfoldable pub set_vpack_type : HttpMessage vp → HttpMessage vp
  set_vpack_type m = record m {
    header = add_meta m.header fu_content_type_key fu_content_type_vpack;
  }

  -- The body of the response: JSON is parsed, anything else is kept as it is, and without a body
  -- the content type is set.
  unfoldable pub add_body : {S : Type 0} → Text → HttpMessage vp → M S (HttpMessage vp)
  unfolding set_vpack_type
  add_body body m =
      if is_empty body
      then pure (set_vpack_type m)
      else if is_content_type_json vp m
      then (do
        data_slice ← call (vp.from_json body)
        pure (set_vpack_type (add_vpack vp m data_slice)))
      else pure (add_buffer vp m body)

  -- `getResponse`
  unfoldable pub get_response : {S : Type 0} → Settings → CurlObject → M S (HttpMessage vp)
  unfolding add_headers add_body
  get_response settings o =
      let m = create_response vp settings in
      let response = record m { header = record (m.header) { response_code = o.status } } in
      add_body o.response_body (add_headers (split o.response_headers (lit ";")) response)

  -- `jsonBody()`: the JSON text of the body, which is read as Velocypack; empty without a body.
  unfoldable pub json_body : {S : Type 0} → CurlObject → M S Text
  json_body o =
      if is_empty o.response_body then pure [] else call (vp.to_json (vp.at_cursor o.response_body))
