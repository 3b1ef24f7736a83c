-- ===== src/Tests/Reuse.antt =====
-- Requests on handles that have been used before.
use arango_cpp.Base.{
  ℕ, suc, Bool, true, false, ◌&&◌, if◌then◌else◌, none, List, [], ◌∷◌, ◌≡◌, refl, Text, lit, ok,
}
use arango_cpp.Requests.{HttpMessage}
use arango_cpp.Connection.{default_connection}
use arango_cpp.Curl.{
  Net, CurlOpt, Transfer, CurlObject, request_body, request_options, no_body, post_field_size,
  copy_post_fields,
}
use arango_cpp.Curl.Handles.{HandleView, get_kind, sent_method, sent_body, posts}
use arango_cpp.Curl.Options.{set_all}
use arango_cpp.Curl.Stale.{request_options-stale}
use arango_cpp.Api.{exchange}
use arango_cpp.Api.Reuse.{Documented, exchange-same}
use arango_cpp.Tests.Samples.{byte_vp, some_settings, some_net}
use arango_cpp.Tests.Transport.{plain_curl, used, post_message, braces-ne}

abbrev pub fresh : HandleView
fresh = record {
  kind = get_kind;
  custom = none;
  size = 0;
  fields = [];
  headers = [];
  target = [];
  user = [];
  passwd = [];
  awaits = true;
  collects = false;
}

-- A server that sends the body back, if one is awaited and the callbacks are set.
unfoldable pub echo : Text → Bool → Transfer
echo body wanted = record {
  code = 0;
  header_calls = lit "Content-Type: application/x-velocypack" ∷ [];
  body_calls = if wanted then body ∷ [] else [];
  response_code = 200;
}

abbrev pub echo_net : Net
echo_net = record {
  World = ℕ;
  easy_init = λ w. (true, w);
  perform = λ opts w.
      let v = plain_curl.view (set_all plain_curl opts fresh) in
      (echo (sent_body v) (v.awaits && v.collects), suc w);
}

pub echo-Documented : Documented plain_curl echo_net
echo-Documented = record {
  fresh = fresh;
  same = λ opts opts' w word body target user passwd lines awaits sends sends'.
      rw
        (
          sends.payload, sends'.payload, sends.reply, sends'.reply, sends.collected,
          sends'.collected,
        )
        refl;
}

abbrev object : List CurlOpt → CurlObject
object opts = record {
  target = [];
  db_user = [];
  db_passwd = [];
  response_headers = lit "old";
  response_body = lit "old";
  curl = opts;
  status = 500;
}

abbrev new_object : CurlObject
new_object = object []

abbrev old_object : CurlObject
old_object = object (no_body ∷ post_field_size 3 ∷ copy_post_fields (lit "old") ∷ [])

echo_body : request_body byte_vp echo_net some_settings {S = ℕ} post_message 0 ≡ (ok (lit "{}"), 0)
unfolding request_body lit
echo_body = refl

exchange-same_example :
    let x =
      exchange byte_vp echo_net some_settings []
        (lit "u")
        default_connection
        post_message
        (record { pool = new_object ∷ []; world = 0 }) in
    let y =
      exchange byte_vp echo_net some_settings []
        (lit "u")
        default_connection
        post_message
        (record { pool = old_object ∷ new_object ∷ []; world = 0 }) in
    (x.0 ≡ y.0) × (x.1.world ≡ y.1.world)
exchange-same_example =
    exchange-same byte_vp echo_net some_settings plain_curl echo-Documented [] (lit "u") (lit "{}")
      (lit "POST") default_connection post_message new_object old_object [] (new_object ∷ []) 0
      echo_body (posts (braces-ne))

abbrev bare_post : HttpMessage byte_vp
bare_post = record post_message { payload = []; payload_length = 0 }

bare_body : request_body byte_vp some_net some_settings {S = ℕ} bare_post 0 ≡ (ok [], 0)
unfolding request_body
bare_body = refl

request_options-stale_example :
    (opts : List CurlOpt) × (request_options byte_vp some_net some_settings {S = ℕ}
        (lit "http://h")
        (lit "u")
        (lit "p")
        bare_post
        0
      ≡ (ok opts, 0))
    × (sent_method (plain_curl.view (set_all plain_curl opts used)) ≡ lit "POST")
    × (sent_body (plain_curl.view (set_all plain_curl opts used)) ≡ lit "old")
request_options-stale_example =
    request_options-stale plain_curl byte_vp some_net some_settings used (lit "http://h") (lit "u")
      (lit "p") bare_post 0 bare_body refl
