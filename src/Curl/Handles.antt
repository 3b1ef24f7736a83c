-- ===== src/Curl/Handles.antt =====
-- What the documentation of libcurl says of a handle and of the options that the code sets.
use arango_cpp.Base.{ℕ, Bool, true, false, Option, none, some, List, [], ◌≡◌, ◌≢◌, Text, lit, take}
use arango_cpp.Requests.{RestVerb}
use arango_cpp.Curl.{
  CurlOpt, http_header, no_header_in_body, url, error_buffer, http_get, post, custom_request,
  no_body, http_auth_basic, username, password, post_field_size, copy_post_fields, write_callbacks,
}

-- The kind of a request; its word may be replaced.
pub data Kind : Type 0 where
  get_kind post_kind head_kind : Kind

-- What the documentation of `curl_easy_setopt` says that a handle keeps.
pub record HandleView : Type 0 where
  pub kind : Kind
  pub custom : Option Text
  pub size : ℕ
  pub fields : Text
  pub headers : List Text
  pub target : Text
  pub user : Text
  pub passwd : Text
  -- Whether the bytes of a response body are awaited.
  pub awaits : Bool
  -- Whether header lines and bytes go to the two callbacks, with the buffers of the object.
  pub collects : Bool

-- What it says of each option. `CURLOPT_HTTPGET` makes the request a GET, whatever it was before;
-- `CURLOPT_COPYPOSTFIELDS` copies as many bytes as `CURLOPT_POSTFIELDSIZE` says at that time, and
-- makes the request a POST. `CURLOPT_NOBODY` asks for no response body, and makes the request a
-- HEAD; `CURLOPT_HTTPGET` and `CURLOPT_POST` take that back, and a custom word does not.
unfoldable pub documented : CurlOpt → HandleView → HandleView
documented (http_header lines) v = record v { headers = lines }
documented no_header_in_body v = v
documented (url t) v = record v { target = t }
documented error_buffer v = v
documented http_get v = record v { kind = get_kind; awaits = true }
documented post v = record v { kind = post_kind; awaits = true }
documented (custom_request word) v = record v { custom = word }
documented no_body v = record v { kind = head_kind; awaits = false }
documented http_auth_basic v = v
documented (username name) v = record v { user = name }
documented (password secret) v = record v { passwd = secret }
documented (post_field_size n) v = record v { size = n }
documented (copy_post_fields body) v = record v { fields = take v.size body; kind = post_kind }
documented write_callbacks v = record v { collects = true }

kind_word : Kind → Text
kind_word get_kind = lit "GET"
kind_word post_kind = lit "POST"
kind_word head_kind = lit "HEAD"

word_of : Option Text → Kind → Text
unfolding kind_word
word_of (some word) kind = word
word_of none kind = kind_word kind

unfoldable pub fields_of : Kind → Text → Text
fields_of post_kind fields = fields
fields_of _ fields = []

-- The method and the body that are sent.
unfoldable pub sent_method : HandleView → Text
unfolding word_of
sent_method v = word_of v.custom v.kind

unfoldable pub sent_body : HandleView → Text
unfolding fields_of
sent_body v = fields_of v.kind v.fields

-- libcurl: handles, `curl_easy_setopt`, and that it does what is documented.
pub record CurlLib : Type 1 where
  pub Handle : Type 0
  pub set_opt : CurlOpt → Handle → Handle
  pub view : Handle → HandleView
  pub view-set_opt : (o : CurlOpt) (h : Handle) → view (set_opt o h) ≡ documented o (view h)

-- The method of a request with this body. A POST has a body; a GET has none.
pub data HasMethod : RestVerb → Text → Text → Type 0 where
  posts : {body : Text} → body ≢ [] → HasMethod RestVerb.post body (lit "POST")
  gets : HasMethod RestVerb.get [] (lit "GET")
  puts : {body : Text} → HasMethod RestVerb.put body (lit "PUT")
  deletes : {body : Text} → HasMethod RestVerb.delete body (lit "DELETE")
  heads : {body : Text} → HasMethod RestVerb.head body (lit "HEAD")
  patches : {body : Text} → HasMethod RestVerb.patch body (lit "PATCH")
  asks : {body : Text} → HasMethod RestVerb.options body (lit "OPTIONS")

-- A response to a HEAD has no body.
unfoldable pub awaits_body : RestVerb → Bool
awaits_body RestVerb.head = false
awaits_body _ = true

-- What a handle with this view sends is this request, and what comes back is awaited and collected
-- as these flags say.
pub record Sends (v : HandleView) (word body target user passwd : Text) (lines : List Text)
    (awaits collects : Bool) : Type 0 where
  pub method : sent_method v ≡ word
  pub payload : sent_body v ≡ body
  pub headers : v.headers ≡ lines
  pub address : v.target ≡ target
  pub name : v.user ≡ user
  pub secret : v.passwd ≡ passwd
  pub reply : v.awaits ≡ awaits
  pub collected : v.collects ≡ collects
