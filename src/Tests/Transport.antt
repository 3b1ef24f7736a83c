-- ===== src/Tests/Transport.antt =====
-- Options on a used handle, root clients, and printed headers.
use arango_cpp.Base.{true, false, ℕ, some, List, [], ◌∷◌, ◌≡◌, ◌≢◌, refl, arith, lit, not, pos, ok}
use arango_cpp.Requests.{HttpMessage, RestVerb, empty_header, request}
use arango_cpp.Requests.{verb_to_string, content_type_string}
use arango_cpp.Requests.Printing.{decimal, type_number, item_lines, header_to_string}
use arango_cpp.Connection.{connection, default_connection}
use arango_cpp.Curl.{CurlOpt, header_lines, request_body, request_options}
use arango_cpp.Curl.Handles.{HandleView, post_kind, documented, CurlLib, awaits_body, posts, Sends}
use arango_cpp.Curl.Options.{set_all, request_options-Sends}
use arango_cpp.Root.{root_client, root_client_password}
use arango_cpp.Tests.Server.{send}
use arango_cpp.Tests.Samples.{byte_vp, some_settings, some_net}

-- A library whose handles are what the documentation says that they keep.
abbrev pub plain_curl : CurlLib
plain_curl = record {
  Handle = HandleView;
  set_opt = documented;
  view = λ h. h;
  view-set_opt = λ o h. refl;
}

-- A handle behind a POST.
abbrev pub used : HandleView
used = record {
  kind = post_kind;
  custom = some (lit "PUT");
  size = 3;
  fields = lit "old";
  headers = lit "Accept: text" ∷ [];
  target = lit "http://elsewhere";
  user = lit "other";
  passwd = lit "old";
  awaits = false;
  collects = false;
}

abbrev pub post_message : HttpMessage byte_vp
post_message = record {
  header = record empty_header { type = request; rest_verb = RestVerb.post };
  payload = lit "{}";
  payload_length = 2;
  slices = [];
}

post_body : request_body byte_vp some_net some_settings {S = ℕ} post_message 0 ≡ (ok (lit "{}"), 0)
unfolding request_body lit
post_body = refl

pub braces-ne : lit "{}" ≢ []
unfolding lit
braces-ne e = ground (arith, e)

request_options-Sends_example :
    (opts : List CurlOpt) × (request_options byte_vp some_net some_settings {S = ℕ}
        (lit "http://h")
        (lit "u")
        (lit "p")
        post_message
        0
      ≡ (ok opts, 0))
    × Sends
        (plain_curl.view (set_all plain_curl opts used))
        (lit "POST")
        (lit "{}")
        (lit "http://h")
        (lit "u")
        (lit "p")
        (header_lines (not some_settings.use_velocypack_put) post_message.header.meta)
        true
        false
unfolding awaits_body
request_options-Sends_example =
    request_options-Sends plain_curl byte_vp some_net some_settings used (lit "http://h") (lit "u")
      (lit "p") (lit "{}") (lit "POST") post_message 0 post_body (posts (braces-ne))

printed_header_test :
    header_to_string (record empty_header { type = request; path = lit "/p" })
    ≡ lit
        "version: 0\ntype: 1\nresponseCode: 0\nrestVerb: delete\npath: /p\nmeta:\n\ncontentType: \n"
unfolding header_to_string decimal lit type_number verb_to_string item_lines content_type_string
printed_header_test = refl

root_client_password_example :
    root_client send some_settings
      (connection (lit "http://localhost:8529") (lit "root") (lit "secret") (lit "_system"))
      []
    ≡ (
      ok (record {
        root_data =
            connection (lit "http://localhost:8529") (lit "root") (lit "secret") (lit "_system");
        pusers = record {
          connect_data = default_connection;
          batch_size = pos 500;
          connected_message = [];
        };
      }),
      [],
    )
root_client_password_example = root_client_password send some_settings (lit "secret") []
