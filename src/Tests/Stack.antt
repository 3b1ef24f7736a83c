-- ===== src/Tests/Stack.antt =====
-- A server of documents behind curl, and the operations on documents over it.
use arango_cpp.Base.{
  ℕ, suc, Bool, true, ◌||◌, Option, none, some, List, [], ◌∷◌, ◌++◌, Text, lit, text_eq,
  if◌then◌else◌, length, drop, take, pos,
}
use arango_cpp.Base.Maps.{Map, lookup, insert, erase}
use arango_cpp.Velocypack.{VPack, value}
use arango_cpp.Requests.{HttpMessage}
use arango_cpp.Connection.{default_connection}
use arango_cpp.Curl.{Net, CurlOpt, Transfer}
use arango_cpp.Curl.Handles.{HandleView, sent_method, sent_body}
use arango_cpp.Curl.Options.{set_all}
use arango_cpp.Curl.Replies.{Reply, body_of}
use arango_cpp.Api.{Client, NetState, ApiBase}
use arango_cpp.Api.Ids.{head}
use arango_cpp.Documents.{Store}
use arango_cpp.Documents.Http.{stack_client, Replies}
use arango_cpp.Tests.Samples.{some_settings}
use arango_cpp.Tests.Store.{text_vp, known, kept_text, Keeps, database}
use arango_cpp.Tests.Transport.{plain_curl, used}
use arango_cpp.Tests.Promises.{own}

-- Texts with their length in front.
at_bytes : Text → Text
at_bytes [] = []
at_bytes (n ∷ rest) = take n rest

abbrev sized_vp : VPack
sized_vp = record text_vp {
  bytes = λ s. length s ∷ s;
  byte_size = λ s. suc (length s);
  at_cursor = at_bytes;
  copy_string = λ s. value (drop 1 s);
}

abbrev answer : ℕ → Text → Reply sized_vp
answer status body = record { status = status; content = some body }

abbrev bare : ℕ → Reply sized_vp
bare status = record { status = status; content = none }

-- The answer as JSON, or as Velocypack.
abbrev transfer_of : Bool → Reply sized_vp → Transfer
transfer_of as_json r = record {
  code = 0;
  header_calls =
      (if as_json
        then lit "Content-Type: application/json"
        else lit "Content-Type: application/x-velocypack")
      ∷ [];
  body_calls =
      (if as_json then elim r.content [ none ↦ [] | some t ↦ t ] else body_of sized_vp r.content)
      ∷ [];
  response_code = r.status;
}

-- The id of a document as a value, and an error.
abbrev quoted : Text → Text
quoted id = 34 ∷ id

abbrev wrong : Text
wrong = 33 ∷ []

-- The answer to a method for the document with this id, and the documents afterwards.
handle : Text → Bool → Text → Text → Option Text → Map Text → Reply sized_vp × Map Text
handle method found id doc none store =
    if text_eq method (lit "POST")
    then (if found
        then (answer 201 (quoted id), insert id doc store)
        else (answer 404 wrong, store))
    else if text_eq method (lit "HEAD")
    then (bare 404, store)
    else (answer 404 wrong, store)
handle method found id doc (some json) store =
    if text_eq method (lit "POST")
    then (if found then (answer 409 wrong, store) else (answer 404 wrong, store))
    else if text_eq method (lit "PUT")
    then (answer 201 (quoted id), insert id doc store)
    else if text_eq method (lit "DELETE")
    then (answer 200 [], erase id store)
    else if text_eq method (lit "HEAD")
    then (bare 200, store)
    else (answer 200 json, store)

-- What stands behind `http://localhost:8529/_db/_system/_api/document/`.
about : Text → Text
about target = drop 48 target

-- The id. A new document is its own key.
id_in : Text → Text → Text → Text
unfolding about
id_in method target doc =
    if text_eq method (lit "POST") then head (about target) ++ doc else about target

-- The answers to writes come as JSON, the others as Velocypack.
unfoldable serve : Text → Text → Text → Map Text → Transfer × Map Text
unfolding handle id_in about
serve method target body store =
    let id = id_in method target (drop 1 body) in
    let (r, store') =
      handle method (known (about target)) id (kept_text store (drop 1 body)) (lookup id store)
        store in
    (transfer_of (text_eq method (lit "POST") || text_eq method (lit "PUT")) r, store')

abbrev behind : List CurlOpt → HandleView
behind opts = plain_curl.view (set_all plain_curl opts used)

abbrev server_net : Net
server_net = record {
  World = Map Text;
  easy_init = λ w. (true, w);
  perform =
      λ opts w. serve (sent_method (behind opts)) (behind opts).target (sent_body (behind opts)) w;
}

abbrev api : ApiBase
api = record { connect_data = default_connection; batch_size = pos 500; connected_message = [] }

abbrev Served :
    Text → HttpMessage sized_vp → Text → Map Text → (Reply sized_vp → Type 0) → Store → Type 0
Served = Replies sized_vp server_net some_settings plain_curl used api database own Keeps

-- The answer to a POST, where the collection is there, or not.
posted : Text → Text → Option Text → Map Text → Bool → Transfer × Map Text
posted id doc old w found =
    let (r, store) = handle (lit "POST") found id (kept_text w doc) old w in
    (transfer_of true r, store)

abbrev over_curl : Client sized_vp (NetState server_net)
over_curl = stack_client sized_vp server_net some_settings plain_curl used api database own Keeps
