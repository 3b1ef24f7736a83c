-- ===== src/Tests/Messages.antt =====
-- Messages, connection data and the handles of curl.
use arango_cpp.Base.{
  Result, ℕ, true, ◌==◌, if◌then◌else◌, List, [], ◌∷◌, ◌≡◌, ◌≢◌, refl, lit, text_eq, length, pos,
  ok, err, unfinished,
}
use arango_cpp.Base.Maps.{lookup, insert}
use arango_cpp.Base.{text_lt}
use arango_cpp.Detail.{split}
use arango_cpp.Velocypack.{VPack}
use arango_cpp.Curl.{new_curl_object, send_request, get_response, verb_options, request_body}
use arango_cpp.Requests.{is_content_type_json, create_response, add_buffer}
use arango_cpp.Api.{get_resource, return_resource}
use arango_cpp.Requests.{
  HttpMessage, RestVerb, empty_header, read_slices, scan_slices, slices_loop, create_request,
  is_content_type_vpack, status_code,
}
use arango_cpp.Requests.Slices.{
  add_all, read_slices-add_all, read_slices_ends_iff, Stalls, read_slices_after_throw,
}
use arango_cpp.Connection.{connection, default_connection, full_url}
use arango_cpp.Api.{NetState, exchange}
use arango_cpp.Api.Sending.{exchange-pool}
use arango_cpp.Tests.Samples.{byte_vp, byte_lawful, wide_vp, some_settings, some_net}

abbrev empty_message : HttpMessage byte_vp
empty_message = record { header = empty_header; payload = []; payload_length = 0; slices = [] }

read_slices-add_all_example :
    (read_slices byte_vp (add_all byte_vp empty_message (3 ∷ 4 ∷ []))).0 ≡ ok (3 ∷ 4 ∷ [])
read_slices-add_all_example =
    read_slices-add_all byte_vp byte_lawful empty_message (3 ∷ 4 ∷ []) refl refl refl

abbrev two_bytes : HttpMessage wide_vp
two_bytes = record { header = empty_header; payload = 3 ∷ 4 ∷ []; payload_length = 2; slices = [] }

-- Two bytes of which the second is given the size 0.
abbrev zero_vp : VPack
zero_vp = record byte_vp { byte_size = λ s. if s == 0 then 0 else 1 }

abbrev zero_byte : HttpMessage zero_vp
zero_byte = record { header = empty_header; payload = 3 ∷ 0 ∷ []; payload_length = 2; slices = [] }

read_slices_ends_iff_example :
    (Stalls zero_vp (3 ∷ 0 ∷ []) 2
      → (fuel : ℕ) → (slices_loop zero_vp fuel (3 ∷ 0 ∷ []) 2 []).0 ≡ err unfinished)
    × (¬ Stalls zero_vp (3 ∷ 0 ∷ []) 2 → (read_slices zero_vp zero_byte).0 ≢ err unfinished)
read_slices_ends_iff_example = read_slices_ends_iff zero_vp zero_byte refl

read_slices_after_throw_example :
    (ss : List ℕ) × ((read_slices wide_vp (read_slices wide_vp two_bytes).1).0 ≡ ok ss) × (ss ≢ [])
unfolding read_slices scan_slices lit
read_slices_after_throw_example =
    read_slices_after_throw wide_vp two_bytes {title = lit "HttpMessage"}
      {message = lit "Invalid buffer"} {id = pos 1} refl

full_url_test :
    full_url (connection (lit "http://localhost:8529") (lit "u") (lit "p") (lit "db")) (lit "/_api")
    ≡ lit "http://localhost:8529/_db/db/_api"
unfolding full_url connection lit
full_url_test = refl

abbrev idle : NetState some_net
idle = record { pool = []; world = 0 }

abbrev version_request : HttpMessage byte_vp
version_request = create_request byte_vp some_settings RestVerb.get (lit "/_api/version") []

abbrev exchanged : Result (HttpMessage byte_vp) × NetState some_net
exchanged =
    exchange byte_vp some_net some_settings [] (lit "u") default_connection version_request idle

reply_of : Result (HttpMessage byte_vp) → HttpMessage byte_vp
reply_of (ok m) = m
reply_of (err e) = empty_message

exchange-pool_example :
    (length exchanged.1.pool ≡ 1)
    × (is_content_type_vpack byte_vp (reply_of exchanged.0) ≡ true)
    × (status_code byte_vp (reply_of exchanged.0) ≢ 0)
unfolding exchange reply_of lit get_resource new_curl_object send_request create_request
    get_response is_content_type_json text_eq split insert create_response text_lt lookup
    return_resource is_content_type_vpack add_buffer verb_options request_body
exchange-pool_example =
    exchange-pool byte_vp some_net some_settings [] (lit "u") default_connection version_request
      idle (reply_of exchanged.0) refl
