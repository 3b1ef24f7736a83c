-- ===== src/Api/Stack.antt =====
-- `sendREQUEST` over a world that answers requests: the pool, the options of a request, the transfer
-- and the reading of its response together.
use arango_cpp.Base.{not, true, List, [], ◌∷◌, ◌++◌, ◌≡◌, refl, ap, ◌∙◌, Text, lit, ok}
use arango_cpp.Velocypack.{VPack, IsLawful}
use arango_cpp.Requests.{Settings, HttpMessage}
use arango_cpp.Connection.{ArangoDbConnection, full_url}
use arango_cpp.Curl.{
  Net, CurlObject, CurlOpt, Transfer, constructor_options, header_lines, request_body,
  set_connect_data,
}
use arango_cpp.Curl.Handles.{CurlLib, awaits_body, HasMethod, Sends}
use arango_cpp.Curl.Options.{set_all}
use arango_cpp.Curl.Replies.{Reply, Brings, IsRead, get_response-Brings}
use arango_cpp.Api.{NetState, return_resource, check_response, send_base}
use arango_cpp.Api.Reuse.{settle, behind, exchange-transfer, ready-Sends, new_object, exchange-new}

module _ (vp : VPack) (net : Net) (settings : Settings) (curl : CurlLib) (fresh : curl.Handle)
    (connect_data : ArangoDbConnection) {D : Type 0} (view : net.World → D) where
  -- However its options were set, a handle that sends this request, with this method and body,
  -- brings an answer with `P`, and the data of the world are `store` afterwards.
  pub record Answers (rq : HttpMessage vp) (word body : Text) (w : net.World)
      (P : Reply vp → Type 0) (store : D) : Type 0 where
    pub reply : Reply vp
    pub transfer : Transfer
    pub after : net.World
    pub performed :
        (opts : List CurlOpt)
        → Sends
            (curl.view (set_all curl opts fresh))
            word
            body
            (full_url connect_data rq.header.path)
            connect_data.user.name
            connect_data.user.password
            (header_lines (not settings.use_velocypack_put) rq.header.meta)
            (awaits_body rq.header.rest_verb)
            true
        → net.perform opts w ≡ (transfer, after)
    pub brings : Brings vp settings transfer reply
    pub fits : P reply
    pub now : view after ≡ store

  -- A new handle can be made, and making it does not touch the world.
  abbrev pub MakesHandles : Type 0
  MakesHandles = (w : net.World) → net.easy_init w ≡ (true, w)

  -- `sendREQUEST` returns a message for an answer with `P`, and the data are `store` afterwards.
  pub record Returns (rq : HttpMessage vp) (s : NetState net) (P : Reply vp → Type 0) (store : D)
      : Type 0 where
    pub answer : HttpMessage vp
    pub after : NetState net
    pub sent : send_base vp net settings connect_data rq s ≡ (ok answer, after)
    pub reply : Reply vp
    pub read : IsRead vp answer reply
    pub fits : P reply
    pub now : view after.world ≡ store

  module _ (L : IsLawful vp) where
    settle-Brings :
        (title the_url : Text) (opts : List CurlOpt) (t : Transfer) (o : CurlObject)
        (s : NetState net) (reply : Reply vp)
        → Brings vp settings t reply
        → (m : HttpMessage vp) × (settle vp net settings title the_url
              (behind vp net settings the_url opts t o)
              s
            ≡ (ok m, record s { pool = behind vp net settings the_url opts t o ∷ s.pool }))
          × IsRead vp m reply
    unfolding settle behind return_resource check_response
    settle-Brings title the_url opts t o s reply b =
        let sent = behind vp net settings the_url opts t o in
        let (m, ran, read) = get_response-Brings vp L settings sent t reply s b refl refl refl in
        (m, rw (ran, read.vpack, read.not_zero) refl, read)

    -- With a handle in the pool.
    send_base-handle :
        (rq : HttpMessage vp) (word body : Text) (o : CurlObject) (pool : List CurlObject)
        (w : net.World) (P : Reply vp → Type 0) (store : D)
        → request_body vp net settings rq w ≡ (ok body, w)
        → HasMethod rq.header.rest_verb body word
        → Answers rq word body w P store
        → Returns rq (record { pool = o ∷ pool; world = w }) P store
    unfolding send_base
    send_base-handle rq word body o pool w P store b h a =
        let user = connect_data.user.name in
        let passwd = connect_data.user.password in
        let the_url = full_url connect_data rq.header.path in
        let ready = set_connect_data user passwd o in
        let (opts, made, sends) =
          ready-Sends vp net settings curl fresh the_url user passwd body word rq o w b h in
        let done = a.performed (constructor_options ++ (ready.curl ++ opts)) sends in
        let state : NetState net = record { pool = pool; world = a.after } in
        let (m, ran, read) =
          settle-Brings (lit "ArangoDB") the_url (ready.curl ++ opts) a.transfer ready state a.reply
            a.brings in
        record {
          answer = m;
          after = _;
          sent =
              exchange-transfer vp net settings (lit "ArangoDB") the_url connect_data rq o pool w
                opts made
              ∙ ap
                  (λ (x : Transfer × net.World).
                    settle vp net settings (lit "ArangoDB") the_url
                      (behind vp net settings the_url (ready.curl ++ opts) x.0 ready)
                      (record { pool = pool; world = x.1 }))
                  done
              ∙ ran;
          reply = a.reply;
          read = read;
          fits = a.fits;
          now = a.now;
        }

    -- The whole of `sendREQUEST`, with any pool: it returns the message for the answer.
    pub send_base-Answers :
        (rq : HttpMessage vp) (word body : Text) (s : NetState net) (P : Reply vp → Type 0)
        (store : D)
        → MakesHandles
        → ((w : net.World) → request_body vp net settings rq w ≡ (ok body, w))
        → HasMethod rq.header.rest_verb body word
        → Answers rq word body s.world P store
        → Returns rq s P store
    unfolding send_base
    send_base-Answers rq word body s P store makes b h a = at_pool s.pool s.world a
      where
        at_pool :
            (pool : List CurlObject) (w : net.World)
            → Answers rq word body w P store
            → Returns rq (record { pool = pool; world = w }) P store
        at_pool (o ∷ pool) w a = send_base-handle rq word body o pool w P store (b w) h a
        at_pool [] w a =
            let new =
              exchange-new vp net settings (lit "ArangoDB") (full_url connect_data rq.header.path)
                connect_data rq w w (makes w) in
            let r = send_base-handle rq word body new_object [] w P store (b w) h a in
            record {
              answer = r.answer;
              after = r.after;
              sent = new ∙ r.sent;
              reply = r.reply;
              read = r.read;
              fits = r.fits;
              now = r.now;
            }
