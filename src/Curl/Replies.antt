-- ===== src/Curl/Replies.antt =====
-- `getResponse` on what a server sent, as Velocypack or as JSON: the message for its status and its
-- value.
use arango_cpp.Base.{
  ℕ, ◌<◌, ◌==◌, Bool, true, false, Option, Option-cases, inl, inr, none, some, List, [], ◌∷◌,
  append-nil, ◌≡◌, refl, sym, ap, ◌∙◌, arith, Text, lit, is_empty, text_eq, text_eq_iff, length, ok,
}
use arango_cpp.Base.Maps.{Map, lookup, insert, lookup-insert}
use arango_cpp.Detail.{split}
use arango_cpp.Velocypack.{VPack, IsLawful, value, attempt, call}
use arango_cpp.Requests.{
  Settings, HttpMessage, fu_content_type_key, fu_content_type_vpack, create_response, add_buffer,
  add_vpack, status_code, is_content_type_vpack, is_content_type_json, slices_of, add_meta,
  content_type_string, meta_by_key,
}
use arango_cpp.Requests.Slices.{encoded, add_vpack-payload, read_slices-encoded}
use arango_cpp.Curl.{
  CurlObject, Transfer, parse_header, collect, header_callback, body_callback, add_header,
  add_headers, add_body, set_vpack_type, get_response, json_body,
}

text_eq_refl : (x : Text) → text_eq x x ≡ true
text_eq_refl x = (text_eq_iff x x).1 refl

found-is_empty : (key value : Text) (m : Map Text) → lookup key m ≡ some value → is_empty m ≡ false
unfolding lookup
found-is_empty key found [] e = absurd cc
found-is_empty key found (entry ∷ m) e = refl

length-is_empty : (t : Text) → 0 < length t → is_empty t ≡ false
length-is_empty [] h = absurd (omega arith)
length-is_empty (c ∷ t) h = refl

module _ (vp : VPack) where
  -- An answer: its status, and the value in its body, if it has one.
  pub record Reply : Type 0 where
    pub status : ℕ
    pub content : Option vp.Slice

  abbrev pub values_of : Option vp.Slice → List vp.Slice
  values_of none = []
  values_of (some slice) = slice ∷ []

  abbrev pub body_of : Option vp.Slice → Text
  body_of none = []
  body_of (some slice) = vp.bytes slice

  -- The response with the status and the header lines, before the body.
  abbrev pub headed : Settings → Text → ℕ → HttpMessage vp
  headed settings headers status =
      let m = create_response vp settings in
      add_headers vp (split headers (lit ";"))
        (record m { header = record (m.header) { response_code = status } })

  -- How a body carries a value: not at all; as its encoding, where the header lines do not call it
  -- JSON; or, where they do, as a text that Velocypack reads as the value.
  pub data Carries (is_json : Bool) (body : Text) (content : Option vp.Slice) : Type 0 where
    nothing : body ≡ [] → content ≡ none → Carries is_json body content
    binary :
        (slice : vp.Slice)
        → is_json ≡ false
        → body ≡ vp.bytes slice
        → content ≡ some slice
        → Carries is_json body content
    json_text :
        (slice : vp.Slice)
        → is_json ≡ true
        → is_empty body ≡ false
        → vp.from_json body ≡ value slice
        → content ≡ some slice
        → Carries is_json body content

  -- The transfer brought this answer: the status is not 0, and the body carries the value.
  pub record Brings (settings : Settings) (t : Transfer) (reply : Reply) : Type 0 where
    pub code : t.response_code ≡ reply.status
    pub not_zero : (reply.status == 0) ≡ false
    pub body :
        Carries
          (is_content_type_json vp
            (headed settings (collect header_callback [] t.header_calls) reply.status))
          (collect body_callback [] t.body_calls)
          reply.content

  -- The message says what the answer says.
  pub record Says (m : HttpMessage vp) (reply : Reply) : Type 0 where
    pub status : status_code vp m ≡ reply.status
    pub values : slices_of vp m ≡ ok (values_of reply.content)

  abbrev with_meta : HttpMessage vp → Map Text → HttpMessage vp
  with_meta m meta = record m { header = record (m.header) { meta = meta } }

  -- Header lines change the meta data alone.
  add_headers-with_meta :
      (lines : List Text) (m : HttpMessage vp)
      → (meta : Map Text) × (add_headers vp lines m ≡ with_meta m meta)
  unfolding add_headers add_header add_meta
  add_headers-with_meta [] m = (m.header.meta, refl)
  add_headers-with_meta (line ∷ lines) m = elim (Option-cases (parse_header line)) [
    | inl e ↦ let (meta, same) = add_headers-with_meta lines m in (meta, rw e same)
    | inr ((key, text), e) ↦
        let (meta, same) =
          add_headers-with_meta lines (with_meta m (insert key text m.header.meta)) in
        (meta, rw e same)
  ]

  -- The content type that is set when there is no body.
  set_vpack_type_lem : (m : HttpMessage vp) → is_content_type_vpack vp (set_vpack_type vp m) ≡ true
  unfolding is_content_type_vpack set_vpack_type content_type_string meta_by_key add_meta
  set_vpack_type_lem m =
      let l = insert fu_content_type_key fu_content_type_vpack m.header.meta in
      let found : lookup fu_content_type_key l ≡ some fu_content_type_vpack =
        lookup-insert fu_content_type_key fu_content_type_key fu_content_type_vpack m.header.meta
        ∙ rw (text_eq_refl fu_content_type_key) refl in
      rw (found-is_empty _ _ l found, found, text_eq_refl fu_content_type_vpack) refl

  -- A message with a status and no body.
  record IsBare (m : HttpMessage vp) (status : ℕ) : Type 0 where
    code : status_code vp m ≡ status
    payload : m.payload ≡ []
    payload_length : m.payload_length ≡ 0
    slices : m.slices ≡ []

  headed-IsBare :
      (settings : Settings) (headers : Text) (status : ℕ)
      → IsBare (headed settings headers status) status
  unfolding create_response
  headed-IsBare settings headers status =
      let m = create_response vp settings in
      let (meta, same) =
        add_headers-with_meta (split headers (lit ";"))
          (record m { header = record (m.header) { response_code = status } }) in
      rw same (record { code = refl; payload = refl; payload_length = refl; slices = refl })

  -- What `sendREQUEST` needs of a message for an answer.
  pub record IsRead (m : HttpMessage vp) (reply : Reply) : Type 0 where
    pub says : Says m reply
    pub vpack : is_content_type_vpack vp m ≡ true
    pub not_zero : (status_code vp m == 0) ≡ false

  module _ (L : IsLawful vp) where
    bytes-pos : (slice : vp.Slice) → 0 < length (vp.bytes slice)
    bytes-pos slice = omega (arith, L.byte_size_pos slice, L.byte_size-length slice)

    bytes-is_empty : (slice : vp.Slice) → is_empty (vp.bytes slice) ≡ false
    bytes-is_empty slice = length-is_empty (vp.bytes slice) (bytes-pos slice)

    add_body-IsRead :
        {S : Type 0} (m : HttpMessage vp) (status : ℕ) (body : Text) (content : Option vp.Slice)
        (s : S)
        → IsBare m status
        → (status == 0) ≡ false
        → Carries (is_content_type_json vp m) body content
        → (n : HttpMessage vp) × (add_body vp body m s ≡ (ok n, s))
          × IsRead n (record { status = status; content = content })
    unfolding add_body set_vpack_type add_meta add_buffer encoded is_content_type_vpack
    add_body-IsRead m status body content s bare z (nothing b c) = (
      set_vpack_type vp m,
      rw b refl,
      rw c (record {
        says = record {
          status = bare.code;
          values = read_slices-encoded vp L (set_vpack_type vp m) [] bare.payload bare.slices;
        };
        vpack = set_vpack_type_lem m;
        not_zero = ap (λ n. n == 0) bare.code ∙ z;
      }),
    )
    add_body-IsRead m status body content s bare z (binary slice j b c) = (
      add_buffer vp m (vp.bytes slice),
      rw (b, bytes-is_empty slice, j) refl,
      rw c (record {
        says = record {
          status = bare.code;
          values =
              read_slices-encoded vp L (add_buffer vp m (vp.bytes slice)) (slice ∷ [])
                (ap (vp.reset_to (vp.bytes slice)) (omega (arith, bare.payload_length))
                  ∙ L.reset_to_same (vp.bytes slice)
                  ∙ sym (append-nil (vp.bytes slice)))
                refl;
        };
        vpack = rw bare.payload_length (ground (arith, bytes-pos slice));
        not_zero = ap (λ n. n == 0) bare.code ∙ z;
      }),
    )
    add_body-IsRead m status body content s bare z (json_text slice j n b c) =
        let full = add_vpack vp m slice in
        let (payload, size, slices) =
          add_vpack-payload vp L m slice [] bare.payload bare.payload_length in
        (
          set_vpack_type vp full,
          unfold attempt in rw (n, j, b) refl,
          rw c (record {
            says = record {
              status = unfold add_vpack in bare.code;
              values =
                  read_slices-encoded vp L (set_vpack_type vp full) (slice ∷ [])
                    (payload ∙ sym (append-nil (vp.bytes slice))) slices;
            };
            vpack = set_vpack_type_lem full;
            not_zero = unfold add_vpack in ap (λ n. n == 0) bare.code ∙ z;
          }),
        )

    -- A response that brings an answer is read without an exception, says what the answer says,
    -- and passes the checks of `sendREQUEST`.
    pub get_response-Brings :
        {S : Type 0} (settings : Settings) (o : CurlObject) (t : Transfer) (reply : Reply) (s : S)
        → Brings settings t reply
        → o.response_headers ≡ collect header_callback [] t.header_calls
        → o.response_body ≡ collect body_callback [] t.body_calls
        → o.status ≡ t.response_code
        → (m : HttpMessage vp) × (get_response vp settings o s ≡ (ok m, s)) × IsRead m reply
    unfolding get_response
    get_response-Brings settings o t reply s b h e c =
        let headers = collect header_callback [] t.header_calls in
        let (m, ran, read) =
          add_body-IsRead (headed settings headers reply.status) reply.status
            (collect body_callback [] t.body_calls) reply.content s
            (headed-IsBare settings headers reply.status) b.not_zero b.body in
        (m, rw (h, e, c, b.code) ran, read)

    -- The JSON text of a body that is the encoding of a value is that of the value.
    pub json_body-bytes :
        {S : Type 0} (o : CurlObject) (content : Option vp.Slice) (s : S)
        → o.response_body ≡ body_of content
        → json_body vp o s
          ≡ elim content [ none ↦ (ok [], s) | some slice ↦ call (vp.to_json slice) s ]
    unfolding json_body
    json_body-bytes o none s e = rw e refl
    json_body-bytes o (some slice) s e =
        let whole : vp.at_cursor (vp.bytes slice) ≡ slice =
          ap vp.at_cursor (sym (append-nil (vp.bytes slice))) ∙ L.at_cursor-bytes slice [] in
        rw (e, bytes-is_empty slice, whole) refl
