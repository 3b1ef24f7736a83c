-- ===== src/Curl/Options.antt =====
-- The options of a request on a handle that has been used before: what libcurl then sends.
use arango_cpp.Base.{
  Bool, true, false, not, Option, none, some, List, [], ◌∷◌, ◌++◌, ◌≡◌, ◌≢◌, refl, ap, ◌∙◌, Text,
  lit, length, take, ok,
}
use arango_cpp.Velocypack.{VPack}
use arango_cpp.Requests.{Settings, HttpMessage, RestVerb}
use arango_cpp.Curl.{
  Net, CurlOpt, http_header, no_header_in_body, url, error_buffer, http_get, post, custom_request,
  no_body, http_auth_basic, username, password, post_field_size, copy_post_fields, write_callbacks,
  header_lines, verb_options, body_options, request_body, request_options,
}
use arango_cpp.Curl.Handles.{
  Kind, get_kind, post_kind, head_kind, HandleView, documented, fields_of, sent_method, sent_body,
  CurlLib, awaits_body, HasMethod, posts, gets, puts, deletes, heads, patches, asks, Sends,
}

unfoldable pub apply_all : List CurlOpt → HandleView → HandleView
apply_all [] v = v
apply_all (o ∷ opts) v = apply_all opts (documented o v)

take_all : (body : Text) → take (length body) body ≡ body
take_all [] = refl
take_all (c ∷ body) = ap (◌∷◌ c) (take_all body)

unfoldable pub options_of : List Text → Text → List CurlOpt → Text → Text → Text → List CurlOpt
options_of lines target verbs user passwd body =
    (http_header lines ∷ no_header_in_body ∷ url target ∷ error_buffer ∷ http_get ∷ [])
    ++ (verbs ++ ((http_auth_basic ∷ username user ∷ password passwd ∷ []) ++ body_options body))

-- The last options, where a word of its own is set and the kind sends no body by itself.
end_Sends :
    (body user passwd word : Text) (v : HandleView)
    → v.custom ≡ some word
    → ((fields : Text) → fields_of v.kind fields ≡ [])
    → Sends
        (apply_all
          ((http_auth_basic ∷ username user ∷ password passwd ∷ []) ++ body_options body)
          v)
        word
        body
        v.target
        user
        passwd
        v.headers
        v.awaits
        v.collects
unfolding apply_all documented body_options sent_method sent_body
end_Sends [] user passwd word v e h = record {
  method = rw e refl;
  payload = h v.fields;
  headers = refl;
  address = refl;
  name = refl;
  secret = refl;
  reply = refl;
  collected = refl;
}
end_Sends (c ∷ body) user passwd word v e h = record {
  method = rw e refl;
  payload = take_all (c ∷ body);
  headers = refl;
  address = refl;
  name = refl;
  secret = refl;
  reply = refl;
  collected = refl;
}

-- The same for a POST with a body.
post_Sends :
    (body user passwd : Text) (v : HandleView)
    → v.custom ≡ none
    → body ≢ []
    → Sends
        (apply_all
          ((http_auth_basic ∷ username user ∷ password passwd ∷ []) ++ body_options body)
          v)
        (lit "POST")
        body
        v.target
        user
        passwd
        v.headers
        v.awaits
        v.collects
unfolding apply_all documented body_options sent_method sent_body
post_Sends [] user passwd v e n = absurd (n refl)
post_Sends (c ∷ body) user passwd v e n = record {
  method = rw e refl;
  payload = take_all (c ∷ body);
  headers = refl;
  address = refl;
  name = refl;
  secret = refl;
  reply = refl;
  collected = refl;
}

-- A handle behind the first options and those of the verb.
abbrev set_up : List Text → Text → Kind → Option Text → Bool → HandleView → HandleView
set_up lines target kind custom awaits v = record v {
  headers = lines;
  target = target;
  kind = kind;
  custom = custom;
  awaits = awaits;
}

-- The options of a verb on any handle.
options_of-Sends :
    (verb : RestVerb) (lines : List Text) (target user passwd body word : Text) (v : HandleView)
    → HasMethod verb body word
    → (verbs : List CurlOpt) × (verb_options verb ≡ ok verbs)
      × Sends
          (apply_all (options_of lines target verbs user passwd body) v)
          word
          body
          target
          user
          passwd
          lines
          (awaits_body verb)
          v.collects
unfolding options_of verb_options apply_all documented fields_of awaits_body
options_of-Sends _ lines target user passwd body word v (posts n) =
    (_, refl, post_Sends body user passwd (set_up lines target post_kind none true v) refl n)
options_of-Sends _ lines target user passwd body word v gets = (
  _,
  refl,
  unfold body_options sent_method sent_body in
      record {
        method = refl;
        payload = refl;
        headers = refl;
        address = refl;
        name = refl;
        secret = refl;
        reply = refl;
        collected = refl;
      },
)
options_of-Sends _ lines target user passwd body word v puts = (
  _,
  refl,
  end_Sends body user passwd word (set_up lines target get_kind (some (lit "PUT")) true v) refl
      (λ fields. refl),
)
options_of-Sends _ lines target user passwd body word v deletes = (
  _,
  refl,
  end_Sends body user passwd word (set_up lines target get_kind (some (lit "DELETE")) true v) refl
      (λ fields. refl),
)
options_of-Sends _ lines target user passwd body word v heads = (
  _,
  refl,
  end_Sends body user passwd word (set_up lines target head_kind (some (lit "HEAD")) false v) refl
      (λ fields. refl),
)
options_of-Sends _ lines target user passwd body word v patches = (
  _,
  refl,
  end_Sends body user passwd word (set_up lines target get_kind (some (lit "PATCH")) true v) refl
      (λ fields. refl),
)
options_of-Sends _ lines target user passwd body word v asks = (
  _,
  refl,
  end_Sends body user passwd word (set_up lines target get_kind (some (lit "OPTIONS")) true v) refl
      (λ fields. refl),
)

module _ (curl : CurlLib) where
  -- The calls of `curl_easy_setopt`, in order.
  unfoldable pub set_all : List CurlOpt → curl.Handle → curl.Handle
  set_all [] h = h
  set_all (o ∷ opts) h = set_all opts (curl.set_opt o h)

  pub view-set_all :
      (opts : List CurlOpt) (h : curl.Handle)
      → curl.view (set_all opts h) ≡ apply_all opts (curl.view h)
  unfolding set_all apply_all
  view-set_all [] h = refl
  view-set_all (o ∷ opts) h =
      view-set_all opts (curl.set_opt o h) ∙ ap (apply_all opts) (curl.view-set_opt o h)

  -- No option takes the callbacks back.
  documented-collects :
      (o : CurlOpt) (v : HandleView) → v.collects ≡ true → (documented o v).collects ≡ true
  unfolding documented
  documented-collects (http_header lines) v e = e
  documented-collects no_header_in_body v e = e
  documented-collects (url t) v e = e
  documented-collects error_buffer v e = e
  documented-collects http_get v e = e
  documented-collects post v e = e
  documented-collects (custom_request word) v e = e
  documented-collects no_body v e = e
  documented-collects http_auth_basic v e = e
  documented-collects (username name) v e = e
  documented-collects (password secret) v e = e
  documented-collects (post_field_size n) v e = e
  documented-collects (copy_post_fields body) v e = e
  documented-collects write_callbacks v e = refl

  pub set_all-collects :
      (opts : List CurlOpt) (h : curl.Handle)
      → (curl.view h).collects ≡ true
      → (curl.view (set_all opts h)).collects ≡ true
  unfolding set_all
  set_all-collects [] h e = e
  set_all-collects (o ∷ opts) h e = set_all-collects opts (curl.set_opt o h) (
      ap (λ (v : HandleView). v.collects) (curl.view-set_opt o h)
      ∙ documented-collects o (curl.view h) e)

  module _ (vp : VPack) (net : Net) (settings : Settings) where
    pub request_options-verb :
        {S : Type 0} (target user passwd body : Text) (verbs : List CurlOpt) (m : HttpMessage vp)
        (s : S)
        → request_body vp net settings m s ≡ (ok body, s)
        → verb_options m.header.rest_verb ≡ ok verbs
        → request_options vp net settings target user passwd m s ≡ (
          ok (
              options_of
                (header_lines (not settings.use_velocypack_put) m.header.meta)
                target
                verbs
                user
                passwd
                body),
          s,
        )
    unfolding request_options options_of
    request_options-verb target user passwd body verbs m s e v = rw (v, e) refl

    -- On a handle in any state, whatever requests it was used for, the options of a request make
    -- libcurl send that request: the method of the verb, exactly the body (none if it is empty),
    -- the header lines, the address and the user; a response body is awaited unless it is a HEAD,
    -- and what comes back goes where the handle sent it before. A POST has a body here, and a GET
    -- has none.
    pub request_options-Sends :
        {S : Type 0} (h : curl.Handle) (target user passwd body word : Text) (m : HttpMessage vp)
        (s : S)
        → request_body vp net settings m s ≡ (ok body, s)
        → HasMethod m.header.rest_verb body word
        → (opts : List CurlOpt) × (request_options vp net settings target user passwd m s
            ≡ (ok opts, s))
          × Sends
              (curl.view (set_all opts h))
              word
              body
              target
              user
              passwd
              (header_lines (not settings.use_velocypack_put) m.header.meta)
              (awaits_body m.header.rest_verb)
              (curl.view h).collects
    request_options-Sends h target user passwd body word m s e w =
        let lines = header_lines (not settings.use_velocypack_put) m.header.meta in
        let (verbs, v, sends) =
          options_of-Sends m.header.rest_verb lines target user passwd body word (curl.view h) w in
        let opts = options_of lines target verbs user passwd body in
        (
          opts,
          request_options-verb target user passwd body verbs m s e v,
          rw (view-set_all opts h) sends,
        )
