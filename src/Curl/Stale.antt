-- ===== src/Curl/Stale.antt =====
-- A POST without a body: the code sets no body option, so the handle's last body is still there.
use arango_cpp.Base.{not, none, List, [], ◌∷◌, ◌≡◌, refl, Text, lit, ok}
use arango_cpp.Velocypack.{VPack}
use arango_cpp.Requests.{Settings, HttpMessage, RestVerb}
use arango_cpp.Curl.{
  Net, CurlOpt, post, custom_request, header_lines, verb_options, body_options, request_body,
  request_options,
}
use arango_cpp.Curl.Handles.{documented, CurlLib, sent_method, sent_body}
use arango_cpp.Curl.Options.{set_all, view-set_all, apply_all, options_of, request_options-verb}

module _ (curl : CurlLib) (vp : VPack) (net : Net) (settings : Settings) where
  -- A POST with an empty body on a used handle sends the body that was copied to the handle last,
  -- whatever request that was for.
  pub request_options-stale :
      {S : Type 0} (h : curl.Handle) (target user passwd : Text) (m : HttpMessage vp) (s : S)
      → request_body vp net settings m s ≡ (ok [], s)
      → m.header.rest_verb ≡ RestVerb.post
      → (opts : List CurlOpt) × (request_options vp net settings target user passwd m s
          ≡ (ok opts, s))
        × (sent_method (curl.view (set_all curl opts h)) ≡ lit "POST")
        × (sent_body (curl.view (set_all curl opts h)) ≡ (curl.view h).fields)
  unfolding apply_all documented options_of body_options sent_method sent_body verb_options
  request_options-stale h target user passwd m s e v =
      let lines = header_lines (not settings.use_velocypack_put) m.header.meta in
      let verbs : List CurlOpt = post ∷ custom_request none ∷ [] in
      let opts = options_of lines target verbs user passwd [] in
      (
        opts,
        request_options-verb curl vp net settings target user passwd [] verbs m s e (rw v refl),
        rw (view-set_all curl opts h) refl,
        rw (view-set_all curl opts h) refl,
      )
