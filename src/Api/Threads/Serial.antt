-- ===== src/Api/Threads/Serial.antt =====
-- Calls of `sendREQUEST` of several threads, interleaved, against the same calls one after another.
use arango_cpp.Base.{List, [], ◌∷◌, ◌≡◌, refl, sym, ap, ◌∙◌, Result, ok, err, and_then, ◌>>◌}
use arango_cpp.Velocypack.{VPack}
use arango_cpp.Requests.{Settings}
use arango_cpp.Curl.{Net, CurlObject, new_curl_object, send_request, get_response}
use arango_cpp.Curl.Handles.{CurlLib}
use arango_cpp.Api.{
  NetState, on_world, get_resource, take_top, return_resource, check_response, exchange,
}
use arango_cpp.Api.Sending.{get_response-state}
use arango_cpp.Api.Reuse.{
  Documented, exchange-same, settled, settle-then, settle-world, check_response-anywhere,
  get_response-anywhere, new_object, exchange-new,
}
use arango_cpp.Api.Threads.{
  Job, Answer, run_job, answered, finish, transfer, IsSendable, MakesHandles, Held, Run, stop, take,
  send, give, one_by_one, answers, AreSendable,
}

module _ (vp : VPack) (net : Net) (settings : Settings) where
  answered-settled :
      (j : Job vp net settings) (sent : CurlObject) (x : Answer vp net settings × net.World)
      → ((answered vp net settings j sent x).0.0 ≡ settled vp net settings j.title j.the_url x.0)
        × ((answered vp net settings j sent x).1 ≡ x.1)
  unfolding answered settled
  answered-settled j sent (err e, w) = (refl, refl)
  answered-settled j sent (ok m, w) =
      (check_response-anywhere vp net settings j.title j.the_url m w tt, refl)

  -- The end of a call, behind the transfer.
  after_transfer :
      Job vp net settings → CurlObject → NetState net → Answer vp net settings × NetState net
  after_transfer j sent s = and_then (get_response vp settings sent s) (λ result.
      return_resource net sent >> check_response vp net settings j.title j.the_url result)

  after_transfer-answered :
      (j : Job vp net settings) (sent : CurlObject) (pool : List CurlObject) (w : net.World)
      → let x = after_transfer j sent (record { pool = pool; world = w }) in
        let y = answered vp net settings j sent (get_response vp settings sent w) in
        (x.0 ≡ y.0.0) × (x.1.world ≡ y.1)
  unfolding after_transfer
  after_transfer-answered j sent pool w =
      let s : NetState net = record { pool = pool; world = w } in
      let (same, still) = answered-settled j sent (get_response vp settings sent w) in
      (
        settle-then vp net settings j.title j.the_url sent (get_response vp settings sent s)
            ∙ ap (settled vp net settings j.title j.the_url)
                (get_response-anywhere vp net settings sent s w)
            ∙ sym same,
        settle-world vp net settings j.title j.the_url sent (get_response vp settings sent s)
            ∙ ap (λ (z : NetState net). z.world) (get_response-state vp net settings sent s)
            ∙ sym (still ∙ get_response-state vp net settings sent w),
      )

  -- A call on its own is these steps in a row.
  exchange-transfer :
      (j : Job vp net settings) (o : CurlObject) (pool : List CurlObject) (w : net.World)
      → ((run_job vp net settings j (record { pool = o ∷ pool; world = w })).0
          ≡ (transfer vp net settings j o w).0.0)
        × ((run_job vp net settings j (record { pool = o ∷ pool; world = w })).1.world
            ≡ (transfer vp net settings j o w).1)
  unfolding exchange get_resource take_top on_world transfer finish after_transfer
  exchange-transfer j o pool w = sent_by (send_request vp net settings j.the_url j.rq _ w)
    where
      sent_by :
          (x : Result CurlObject × net.World)
          → let y = and_then (x.0, record { pool = pool; world = x.1 }) (after_transfer j) in
            (y.0 ≡ (finish vp net settings j x).0.0) × (y.1.world ≡ (finish vp net settings j x).1)
      sent_by (err e, w') = (refl, refl)
      sent_by (ok sent, w') = after_transfer-answered j sent pool w'

  module _ (curl : CurlLib) (lib : Documented curl net) (makes : MakesHandles vp net settings) where
    -- On whichever handle a thread sends, its call does what it does as a whole on any pool.
    transfer-run_job :
        (j : Job vp net settings) (o : CurlObject) (pool : List CurlObject) (w : net.World)
        → IsSendable vp net settings j
        → let x = run_job vp net settings j (record { pool = pool; world = w }) in
          (x.0 ≡ (transfer vp net settings j o w).0.0)
          × (x.1.world ≡ (transfer vp net settings j o w).1)
    transfer-run_job j o (o' ∷ pool) w h =
        let (a, b) = exchange-transfer j o [] w in
        let (same, still) =
          exchange-same vp net settings curl lib j.title j.the_url h.body h.word j.connect_data j.rq
            o' o pool [] w (h.made w) h.method in
        (same ∙ a, still ∙ b)
    transfer-run_job j o [] w h =
        let (a, b) = exchange-transfer j o [] w in
        let new =
          exchange-new vp net settings j.title j.the_url j.connect_data j.rq w w (makes w) in
        let (same, still) =
          exchange-same vp net settings curl lib j.title j.the_url h.body h.word j.connect_data j.rq
            new_object o [] [] w (h.made w) h.method in
        (
          ap (λ (x : Answer vp net settings × NetState net). x.0) new ∙ same ∙ a,
          ap (λ (x : Answer vp net settings × NetState net). x.1.world) new ∙ still ∙ b,
        )

    take_top-world :
        (pool : List CurlObject) (s : NetState net) → (take_top net pool s).1.world ≡ s.world
    unfolding take_top on_world new_curl_object
    take_top-world [] s = rw (makes s.world) refl
    take_top-world (o ∷ pool) s = refl

    get_resource-world :
        (s s' : NetState net) (o : CurlObject)
        → get_resource net s ≡ (ok o, s')
        → s'.world ≡ s.world
    unfolding get_resource
    get_resource-world s s' o e =
        sym (ap (λ (x : Result CurlObject × NetState net). x.1.world) e) ∙ take_top-world s.pool s

    -- The steps of several threads, in any order, give the answers that the calls give one after
    -- another in the order of their transfers, on any pool, and leave the same world.
    pub Run-one_by_one :
        {held held' : Held vp net settings} {s s' : NetState net}
        {log : List (Job vp net settings × Answer vp net settings)}
        (run : Run vp net settings held s log held' s') (pool : List CurlObject)
        → AreSendable vp net settings log
        → let x = one_by_one vp net settings log (record { pool = pool; world = s.world }) in
          (answers vp net settings log ≡ x.0) × (s'.world ≡ x.1.world)
    unfolding one_by_one return_resource
    Run-one_by_one stop pool h = (refl, refl)
    Run-one_by_one {s} (take {s' = s1} {log = calls} i o free got run) pool h =
        let (same, now) = Run-one_by_one run pool h in
        let e = get_resource-world s s1 o got in
        (
          same
              ∙ ap (λ w. (one_by_one vp net settings calls (record { pool = pool; world = w })).0)
                  e,
          now
              ∙ ap
                  (λ w.
                    (one_by_one vp net settings calls (record { pool = pool; world = w })).1.world)
                  e,
        )
    Run-one_by_one {s} (send {log = calls} i o j has run) pool (h, hs) =
        let x = run_job vp net settings j (record { pool = pool; world = s.world }) in
        let (a, b) = transfer-run_job j o pool s.world h in
        let (same, now) = Run-one_by_one run x.1.pool hs in
        let e : record { pool = x.1.pool; world = (transfer vp net settings j o s.world).1 } ≡ x.1 =
          λ i. record { pool = x.1.pool; world = sym b i } in
        let rest = same ∙ ap (λ t. (one_by_one vp net settings calls t).0) e in
        (λ k. sym a k ∷ rest k, now ∙ ap (λ t. (one_by_one vp net settings calls t).1.world) e)
    Run-one_by_one (give i o has run) pool h = Run-one_by_one run pool h
