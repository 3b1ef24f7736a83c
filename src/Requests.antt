-- ===== src/Requests.antt =====
-- src/arangorequests.h and src/arangorequests.cpp: HTTP messages with a Velocypack body.
mod Header
pub mod Slices
pub mod Headers
pub mod Printing
pub mod Errors
unfoldable pub use Header.*
use mathlib.Core.Option
use arango_cpp.Base.{
  ℕ, zero, suc, ◌+◌, ◌-◌, ◌<◌, Bool, true, false, ◌||◌, ◌&&◌, not, Option, none, some, List, [],
  ◌∷◌, ◌++◌, Text, String, lit, text_eq, ltb, ◌==◌, if◌then◌else◌, is_empty, length, drop, ℤ, pos,
  to_int, Result, ok, err, arango, undefined_behaviour, unfinished, M, ◌>>=◌, lift, pure, throw,
}
use arango_cpp.Base.Maps.{Map, lookup, insert, erase}
use arango_cpp.Velocypack.{VPack, attempt, call}

-- The payload is `_payload`, its length `_payloadLength`; `slices` is the cache `_slices`.
pub record HttpMessage (vp : VPack) : Type 0 where
  pub header : MessageHeader
  pub payload : Text
  pub payload_length : ℕ
  pub slices : List vp.Slice

module _ (vp : VPack) where
  unfoldable pub http_message : Settings → MessageHeader → Map Text → HttpMessage vp
  unfolding set_content_type
  http_message settings h header_strings = record {
    header = set_content_type settings (record h { meta = header_strings; type = undefined });
    payload = [];
    payload_length = 0;
    slices = [];
  }

  unfoldable pub is_content_type_vpack : HttpMessage vp → Bool
  unfolding content_type_string
  is_content_type_vpack m =
      text_eq (content_type_string m.header) fu_content_type_vpack || ltb 0 m.payload_length

  unfoldable pub is_content_type_json : HttpMessage vp → Bool
  unfolding content_type_string
  is_content_type_json m = text_eq (content_type_string m.header) fu_content_type_json

  abbrev pub status_code : HttpMessage vp → ℕ
  status_code m = m.header.response_code

  -- `addVPack(Buffer&&)`
  unfoldable pub add_buffer : HttpMessage vp → Text → HttpMessage vp
  add_buffer m buffer =
      let size = m.payload_length + length buffer in
      record m { slices = []; payload_length = size; payload = vp.reset_to buffer size }

  -- `addVPack(Slice const&)`: the builder over `_payload` appends the bytes of the slice.
  unfoldable pub add_vpack : HttpMessage vp → vp.Slice → HttpMessage vp
  add_vpack m slice =
      let size = m.payload_length + vp.byte_size slice in
      record m {
        slices = [];
        payload_length = size;
        payload = vp.reset_to (m.payload ++ vp.bytes slice) size;
      }

  -- The loop of `slices()`: the bytes at `cursor`, the `length` left, the slices so far. A throw
  -- leaves those in the cache, the last one included.
  unfoldable pub slices_loop : ℕ → Text → ℕ → List vp.Slice → Result (Unit {0}) × List vp.Slice
  slices_loop zero cursor left found = (err unfinished, found)
  slices_loop (suc fuel) cursor left found =
      let slice = vp.at_cursor cursor in
      let slice_size = vp.byte_size slice in
      let found' = found ++ slice ∷ [] in
      let rest = slices_loop fuel (drop slice_size cursor) (left - slice_size) found' in
      if left == 0
      then (ok tt, found)
      else if ltb left slice_size
      then (err (arango (lit "HttpMessage") (pos 1) (lit "Invalid buffer")), found')
      else rest

  -- The loop over the whole payload, with a round for each byte and one more.
  unfoldable pub scan_slices : Text → Result (Unit {0}) × List vp.Slice
  unfolding slices_loop
  scan_slices payload = slices_loop (suc (length payload)) payload (length payload) []

  answered : Result (Unit {0}) → List vp.Slice → Result (List vp.Slice)
  answered (ok _) found = ok found
  answered (err e) found = err e

  -- `slices()`: the message with its cache, and whether it threw.
  unfoldable pub read_slices : HttpMessage vp → Result (List vp.Slice) × HttpMessage vp
  unfolding answered
  read_slices m =
      let (done, found) = scan_slices m.payload in
      if is_empty m.slices
      then (answered done found, record m { slices = found })
      else (ok m.slices, m)

  -- The result of `slices()`; the code uses each message once after it has been received.
  abbrev pub slices_of : HttpMessage vp → Result (List vp.Slice)
  slices_of m = (read_slices m).0

  -- `slices().front()`: the front of an empty vector is undefined.
  unfoldable pub front_of : List vp.Slice → Result vp.Slice
  front_of [] = err undefined_behaviour
  front_of (s ∷ _) = ok s

  unfoldable pub front : {S : Type 0} → HttpMessage vp → M S vp.Slice
  unfolding front_of
  front m = do all ← lift (slices_of m); lift (front_of all)

-- `createRequest(verb, path, parameters)`
unfoldable pub create_request :
    (vp : VPack) → Settings → RestVerb → Text → Map Text → HttpMessage vp
unfolding http_message
create_request vp settings verb path parameters =
    let m = http_message vp settings empty_header [] in
    record m {
      header = record (m.header) {
        rest_verb = verb;
        type = request;
        path = path;
        parameters = parameters;
      };
    }

-- `createResponse()`
unfoldable pub create_response : (vp : VPack) → Settings → HttpMessage vp
unfolding http_message
create_response vp settings =
    let m = http_message vp settings empty_header [] in
    record m { header = record (m.header) { type = response } }

-- `request->header.meta.erase(key)`
unfoldable pub erase_meta : {vp : VPack} → Text → HttpMessage vp → HttpMessage vp
erase_meta key m = record m { header = record (m.header) { meta = erase key m.header.meta } }

-- `to_string(RestVerb)`
unfoldable pub verb_to_string : RestVerb → Text
verb_to_string illegal = lit "illegal"
verb_to_string delete = lit "delete"
verb_to_string get = lit "get"
verb_to_string post = lit "post"
verb_to_string put = lit "put"
verb_to_string head = lit "head"
verb_to_string patch = lit "patch"
verb_to_string options = lit "options"

-- `payloadAsString()`: the JSON text of the first slice, or the bytes as they are.
unfoldable pub payload_as_string : {vp : VPack} {S : Type 0} → HttpMessage vp → M S Text
unfolding is_content_type_vpack front
payload_as_string {vp} m =
    if ltb 0 m.payload_length
    then if is_content_type_vpack vp m
      then (do s ← front vp m; call (vp.to_json s))
      else pure m.payload
    else pure []

module _ (vp : VPack) where
  -- `slice.isObject() && slice.hasKey("error") && slice.get("error").getBool()`
  has_error : {S : Type 0} → vp.Slice → M S Bool
  has_error slice =
      if vp.is_object slice
      then (do
        found ← call (vp.has_key slice (lit "error"))
        if found
            then (do e ← call (vp.get slice (lit "error")); call (vp.get_bool e))
            else pure false)
      else pure false

  -- The number and the message of the server's error record; zero and empty without one.
  error_of : {S : Type 0} → List vp.Slice → M S (ℤ × Text)
  unfolding has_error
  error_of [] = pure (pos 0, [])
  error_of (slice ∷ _) = do
    flagged ← has_error slice
    if flagged
        then (do
          n ← call (vp.get slice (lit "errorNum"))
          number ← call (vp.get_int n)
          m ← call (vp.get slice (lit "errorMessage"))
          last_error ← call (vp.copy_string m)
          pure (to_int number, last_error))
        else pure (pos 0, [])

  -- `ARANGO_ERROR_THROW(slices, message)`
  unfoldable pub arango_error_throw : {S A : Type 0} → List vp.Slice → Text → M S A
  unfolding error_of
  arango_error_throw slices message = do
    (number, last_error) ← error_of slices
    throw (arango (lit "ArangoDB") number (message ++ last_error))
