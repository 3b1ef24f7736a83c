-- ===== src/Api/Threads.antt =====
-- `sendREQUEST` of several threads over one pool: the calls of the pool and the transfers between
-- them come in any order.
pub mod Serial
use arango_cpp.Base.{
  ℕ, ◌==◌, Bool, true, Option, none, some, List, [], ◌∷◌, map, ◌≡◌, refl, sym, ap, ◌∙◌, arith, Text,
  Fault, Result, ok, err, and_then, ◌>>◌, if◌then◌else◌,
}
use arango_cpp.Velocypack.{VPack}
use arango_cpp.Requests.{Settings, HttpMessage}
use arango_cpp.Connection.{ArangoDbConnection}
use arango_cpp.Curl.{
  Net, CurlObject, set_connect_data, new_curl_object, send_request, get_response, request_body,
}
use arango_cpp.Curl.Handles.{CurlLib, HasMethod}
use arango_cpp.Api.{
  NetState, on_world, get_resource, take_top, return_resource, check_response, exchange,
}
use arango_cpp.Api.Sending.{get_response-state}
use arango_cpp.Api.Reuse.{
  Documented, exchange-same, settled, settle-then, settle-world, check_response-anywhere,
  get_response-anywhere, new_object, exchange-new,
}

module _ (vp : VPack) (net : Net) (settings : Settings) where
  -- A call of `sendREQUEST`, with the title of its exceptions and its URL.
  pub record Job : Type 0 where
    pub title : Text
    pub the_url : Text
    pub connect_data : ArangoDbConnection
    pub rq : HttpMessage vp

  abbrev pub Answer : Type 0
  Answer = Result (HttpMessage vp)

  abbrev pub run_job : Job → NetState net → Answer × NetState net
  run_job j = exchange vp net settings j.title j.the_url j.connect_data j.rq

  -- What a call does between taking a handle and giving it back: its answer, and the handle, which
  -- an exception of the request or of the reading of the response loses.
  answered : Job → CurlObject → Answer × net.World → (Answer × Option CurlObject) × net.World
  answered j sent (err e, w) = ((err e, none), w)
  answered j sent (ok m, w) =
      (((check_response vp net settings j.title j.the_url m w).0, some sent), w)

  finish : Job → Result CurlObject × net.World → (Answer × Option CurlObject) × net.World
  unfolding answered
  finish j (err e, w) = ((err e, none), w)
  finish j (ok sent, w) = answered j sent (get_response vp settings sent w)

  unfoldable pub transfer : Job → CurlObject → net.World → (Answer × Option CurlObject) × net.World
  unfolding finish
  transfer j o w = finish j (
      send_request vp net settings j.the_url j.rq
        (set_connect_data j.connect_data.user.name j.connect_data.user.password o) w)

  -- A request that can be sent: a POST has a body, and a GET has none.
  pub record IsSendable (j : Job) : Type 0 where
    pub body : Text
    pub word : Text
    pub made : (w : net.World) → request_body vp net settings j.rq w ≡ (ok body, w)
    pub method : HasMethod j.rq.header.rest_verb body word

  -- Making a handle succeeds, and does not touch the world.
  abbrev pub MakesHandles : Type 0
  MakesHandles = (w : net.World) → net.easy_init w ≡ (true, w)

  abbrev pub Held : Type 0
  Held = ℕ → Option CurlObject

  unfoldable pub put : ℕ → Option CurlObject → Held → Held
  put i o held k = if k == i then o else held k

  -- Steps of any threads in any order, with the handle that each holds, and the calls with their
  -- answers in the order of the transfers.
  pub data Run : Held → NetState net → List (Job × Answer) → Held → NetState net → Type 0 where
    stop : {held : Held} {s : NetState net} → Run held s [] held s
    take :
        {held held' : Held} {s s' s'' : NetState net} {log : List (Job × Answer)} (i : ℕ)
        (o : CurlObject)
        → held i ≡ none
        → get_resource net s ≡ (ok o, s')
        → Run (put i (some o) held) s' log held' s''
        → Run held s log held' s''
    send :
        {held held' : Held} {s s' : NetState net} {log : List (Job × Answer)} (i : ℕ)
        (o : CurlObject) (j : Job)
        → held i ≡ some o
        → Run
            (put i (transfer j o s.world).0.1 held)
            (record s { world = (transfer j o s.world).1 })
            log
            held'
            s'
        → Run held s ((j, (transfer j o s.world).0.0) ∷ log) held' s'
    give :
        {held held' : Held} {s s' : NetState net} {log : List (Job × Answer)} (i : ℕ)
        (o : CurlObject)
        → held i ≡ some o
        → Run (put i none held) (return_resource net o s).1 log held' s'
        → Run held s log held' s'

  -- The calls one after another, each as a whole.
  unfoldable pub one_by_one : List (Job × Answer) → NetState net → List Answer × NetState net
  one_by_one [] s = ([], s)
  one_by_one ((j, _) ∷ log) s =
      let (a, s') = run_job j s in let (as', s'') = one_by_one log s' in (a ∷ as', s'')

  abbrev pub answers : List (Job × Answer) → List Answer
  answers [] = []
  answers ((_, a) ∷ log) = a ∷ answers log

  abbrev pub AreSendable : List (Job × Answer) → Type 0
  AreSendable [] = Unit
  AreSendable ((j, _) ∷ log) = IsSendable j × AreSendable log
