-- ===== src/Api/Reuse.antt =====
-- `sendREQUEST` with handles that have been used before: what is left on them has no effect.
use arango_cpp.Base.{
  Bool, true, not, List, [], ◌∷◌, ◌++◌, ◌≡◌, refl, sym, ap, ◌∙◌, arith, Text, Result, ok, err, M,
  and_then, ◌>>=◌, ◌>>◌,
}
use arango_cpp.Velocypack.{VPack}
use arango_cpp.Requests.{Settings, HttpMessage}
use arango_cpp.Connection.{ArangoDbConnection}
use arango_cpp.Curl.{
  Net, CurlObject, CurlOpt, Transfer, constructor_options, write_callbacks, new_curl_object,
  header_lines, request_body, request_options, set_connect_data, send_request, collect,
  header_callback, body_callback, get_response,
}
use arango_cpp.Curl.Handles.{HandleView, documented, CurlLib, awaits_body, HasMethod, Sends}
use arango_cpp.Curl.Options.{set_all, set_all-collects, request_options-Sends}
use arango_cpp.Api.Sending.{get_response-state}
use arango_cpp.Api.{
  NetState, on_world, get_resource, take_top, return_resource, check_response, exchange,
}

-- A transfer depends on the request that the options of its handle make, on whether a response body
-- is awaited, and on the world: options for which libcurl documents the same of these, and with
-- which what comes back goes to the callbacks, give the same transfer.
pub record Documented (curl : CurlLib) (net : Net) : Type 0 where
  pub fresh : curl.Handle
  pub same :
      (opts opts' : List CurlOpt) (w : net.World) (word body target user passwd : Text)
      (lines : List Text) (awaits : Bool)
      → Sends (curl.view (set_all curl opts fresh)) word body target user passwd lines awaits true
      → Sends (curl.view (set_all curl opts' fresh)) word body target user passwd lines awaits true
      → net.perform opts w ≡ net.perform opts' w

module _ (curl : CurlLib) where
  set_all-append :
      (opts more : List CurlOpt) (h : curl.Handle)
      → set_all curl (opts ++ more) h ≡ set_all curl more (set_all curl opts h)
  unfolding set_all
  set_all-append [] more h = refl
  set_all-append (o ∷ opts) more h = set_all-append opts more (curl.set_opt o h)

module _ (curl : CurlLib) where
  constructed-collects :
      (h : curl.Handle) → (curl.view (set_all curl constructor_options h)).collects ≡ true
  unfolding set_all documented
  constructed-collects h = ap (λ (v : HandleView). v.collects) (curl.view-set_opt write_callbacks h)

-- What the constructor makes.
abbrev pub new_object : CurlObject
new_object = record {
  target = [];
  db_user = [];
  db_passwd = [];
  response_headers = [];
  response_body = [];
  curl = [];
  status = 0;
}

module _ (vp : VPack) (net : Net) (settings : Settings) where
  -- Reading a response depends on what the transfer gave, and on nothing else.
  pub get_response-anywhere :
      {S T : Type 0} (o : CurlObject) (s : S) (t : T)
      → (get_response vp settings o s).0 ≡ (get_response vp settings o t).0
  unfolding get_response
  get_response-anywhere o s t = ground arith

  get_response-same :
      {S T : Type 0} (o o' : CurlObject) (s : S) (t : T)
      → o.response_headers ≡ o'.response_headers
      → o.response_body ≡ o'.response_body
      → o.status ≡ o'.status
      → (get_response vp settings o s).0 ≡ (get_response vp settings o' t).0
  unfolding get_response
  get_response-same o o' s t h b c =
      (λ i.
        (get_response vp settings
          (record o { response_headers = h i; response_body = b i; status = c i }) s).0)
      ∙ get_response-anywhere o' s t

  -- The end of `sendREQUEST`, behind the transfer.
  unfoldable pub settle : Text → Text → CurlObject → M (NetState net) (HttpMessage vp)
  settle title the_url sent = do
    result ← get_response vp settings sent
    return_resource net sent
    check_response vp net settings title the_url result

  unfoldable pub settled : Text → Text → Result (HttpMessage vp) → Result (HttpMessage vp)
  settled title the_url (ok m) =
      (check_response vp net settings {S = Unit {0}} title the_url m tt).0
  settled title the_url (err e) = err e

  pub check_response-anywhere :
      {S T : Type 0} (title the_url : Text) (m : HttpMessage vp) (s : S) (t : T)
      → (check_response vp net settings title the_url m s).0
        ≡ (check_response vp net settings title the_url m t).0
  unfolding check_response
  check_response-anywhere title the_url m s t = ground arith

  pub settle-then :
      (title the_url : Text) (sent : CurlObject) (x : Result (HttpMessage vp) × NetState net)
      → (and_then x (λ result.
          return_resource net sent >> check_response vp net settings title the_url result)).0
        ≡ settled title the_url x.0
  unfolding settled return_resource
  settle-then title the_url sent (ok m, s) = check_response-anywhere title the_url m _ tt
  settle-then title the_url sent (err e, s) = refl

  pub settle-world :
      (title the_url : Text) (sent : CurlObject) (x : Result (HttpMessage vp) × NetState net)
      → (and_then x (λ result.
          return_resource net sent >> check_response vp net settings title the_url result)).1.world
        ≡ x.1.world
  unfolding return_resource check_response
  settle-world title the_url sent (ok m, s) = ground arith
  settle-world title the_url sent (err e, s) = refl

  -- A handle behind a transfer.
  unfoldable pub behind : Text → List CurlOpt → Transfer → CurlObject → CurlObject
  behind the_url opts t o = record o {
    target = the_url;
    response_headers = collect header_callback [] t.header_calls;
    response_body = collect body_callback [] t.body_calls;
    curl = opts;
    status = t.response_code;
  }

  settle-same :
      (title the_url : Text) (opts opts' : List CurlOpt) (x y : Transfer × net.World)
      (o o' : CurlObject) (pool pool' : List CurlObject)
      → x ≡ y
      → let r =
          settle title the_url (behind the_url opts x.0 o) (record { pool = pool; world = x.1 }) in
        let r' =
          settle title the_url
            (behind the_url opts' y.0 o')
            (record { pool = pool'; world = y.1 }) in
        (r.0 ≡ r'.0) × (r.1.world ≡ r'.1.world)
  unfolding settle behind
  settle-same title the_url opts opts' x y o o' pool pool' e =
      let sent = behind the_url opts x.0 o in
      let sent' = behind the_url opts' y.0 o' in
      let s : NetState net = record { pool = pool; world = x.1 } in
      let s' : NetState net = record { pool = pool'; world = y.1 } in
      (
        settle-then title the_url sent (get_response vp settings sent s)
            ∙ ap (settled title the_url) (
                get_response-same sent sent' s s'
                  (ap (λ (z : Transfer × net.World). collect header_callback [] z.0.header_calls) e)
                  (ap (λ (z : Transfer × net.World). collect body_callback [] z.0.body_calls) e)
                  (ap (λ (z : Transfer × net.World). z.0.response_code) e))
            ∙ sym (settle-then title the_url sent' (get_response vp settings sent' s')),
        settle-world title the_url sent (get_response vp settings sent s)
            ∙ ap (λ (z : NetState net). z.world) (get_response-state vp net settings sent s)
            ∙ ap (λ (z : Transfer × net.World). z.1) e
            ∙ sym (ap (λ (z : NetState net). z.world) (get_response-state vp net settings sent' s'))
            ∙ sym (settle-world title the_url sent' (get_response vp settings sent' s')),
      )

  pub exchange-transfer :
      (title the_url : Text) (connect_data : ArangoDbConnection) (rq : HttpMessage vp)
      (o : CurlObject) (pool : List CurlObject) (w : net.World) (opts : List CurlOpt)
      → request_options vp net settings the_url connect_data.user.name connect_data.user.password rq
          w
        ≡ (ok opts, w)
      → let ready = set_connect_data connect_data.user.name connect_data.user.password o in
        let x = net.perform (constructor_options ++ (ready.curl ++ opts)) w in
        exchange vp net settings title the_url connect_data rq
          (record { pool = o ∷ pool; world = w })
        ≡ settle title the_url
            (behind the_url (ready.curl ++ opts) x.0 ready)
            (record { pool = pool; world = x.1 })
  unfolding exchange get_resource take_top on_world send_request set_connect_data settle behind
  exchange-transfer title the_url connect_data rq o pool w opts e = rw e refl

  -- A new handle is taken as if it had been in the pool.
  pub exchange-new :
      (title the_url : Text) (connect_data : ArangoDbConnection) (rq : HttpMessage vp)
      (w w' : net.World)
      → net.easy_init w ≡ (true, w')
      → exchange vp net settings title the_url connect_data rq (record { pool = []; world = w })
        ≡ exchange vp net settings title the_url connect_data rq
            (record { pool = new_object ∷ []; world = w' })
  unfolding exchange get_resource take_top on_world new_curl_object
  exchange-new title the_url connect_data rq w w' e = rw e refl

  module _ (curl : CurlLib) (fresh : curl.Handle) where
    -- Whatever was done on a handle, the options of a request end in those that send it.
    pub ready-Sends :
        (the_url user passwd body word : Text) (rq : HttpMessage vp) (o : CurlObject)
        (w : net.World)
        → request_body vp net settings rq w ≡ (ok body, w)
        → HasMethod rq.header.rest_verb body word
        → (opts : List CurlOpt) × (request_options vp net settings the_url user passwd rq w
            ≡ (ok opts, w))
          × Sends
              (curl.view (
                set_all curl
                  (constructor_options ++ ((set_connect_data user passwd o).curl ++ opts))
                  fresh))
              word
              body
              the_url
              user
              passwd
              (header_lines (not settings.use_velocypack_put) rq.header.meta)
              (awaits_body rq.header.rest_verb)
              true
    unfolding documented
    ready-Sends the_url user passwd body word rq o w b m =
        let ready = set_connect_data user passwd o in
        let constructed = set_all curl constructor_options fresh in
        let (opts, e, sends) =
          request_options-Sends curl vp net settings (set_all curl ready.curl constructed) the_url
            user passwd body word rq w b m in
        (
          opts,
          e,
          rw
              (
                set_all-append curl constructor_options (ready.curl ++ opts) fresh,
                set_all-append curl ready.curl opts constructed,
                sym (
                    set_all-collects curl ready.curl constructed (constructed-collects curl fresh)),
              )
              sends,
        )

  module _ (curl : CurlLib) (lib : Documented curl net) where
    -- A request gives the same response, or the same exception, and leaves the same world, on
    -- whichever handle of the pool, whatever that handle was used for before. A POST has a body
    -- here, and a GET has none.
    pub exchange-same :
        (title the_url body word : Text) (connect_data : ArangoDbConnection) (rq : HttpMessage vp)
        (o o' : CurlObject) (pool pool' : List CurlObject) (w : net.World)
        → request_body vp net settings rq w ≡ (ok body, w)
        → HasMethod rq.header.rest_verb body word
        → let x =
            exchange vp net settings title the_url connect_data rq
              (record { pool = o ∷ pool; world = w }) in
          let y =
            exchange vp net settings title the_url connect_data rq
              (record { pool = o' ∷ pool'; world = w }) in
          (x.0 ≡ y.0) × (x.1.world ≡ y.1.world)
    exchange-same title the_url body word connect_data rq o o' pool pool' w b m =
        let user = connect_data.user.name in
        let passwd = connect_data.user.password in
        let (opts, e, sends) =
          ready-Sends curl lib.fresh the_url user passwd body word rq o w b m in
        let (opts', e', sends') =
          ready-Sends curl lib.fresh the_url user passwd body word rq o' w b m in
        let same = lib.same _ _ w word body the_url user passwd _ _ sends sends' in
        rw
          (
            exchange-transfer title the_url connect_data rq o pool w opts e,
            exchange-transfer title the_url connect_data rq o' pool' w opts' e',
          )
          (settle-same title the_url _ _ _ _ _ _ pool pool' same)
