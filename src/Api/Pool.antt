-- ===== src/Api/Pool.antt =====
-- `CurlPool` under requests of several threads: each call of the pool is one step, as its mutex
-- makes it, and the steps of the threads come in any order.
use arango_cpp.Base.{ℕ, suc, ◌+◌, ◌≤◌, ◌<◌, ◌≡◌, arith, length, Fault, ok, err}
use arango_cpp.Curl.{Net, CurlObject}
use arango_cpp.Api.{NetState, get_resource, return_resource}
use arango_cpp.Api.Sending.{get_resource-pool, return_resource-pool}

module _ (net : Net) where
  -- A step of a thread, with the number of handles that are out before and after it. At most
  -- `threads` are out at a time. A thread takes a handle, or does not get one; gives one back, as
  -- the request has left it; loses one by an exception; or acts on the world.
  pub data Step (threads : ℕ) : ℕ → NetState net → ℕ → NetState net → Type 0 where
    take :
        {out : ℕ} {s s' : NetState net} {o : CurlObject}
        → out < threads
        → get_resource net s ≡ (ok o, s')
        → Step threads out s (suc out) s'
    fail :
        {out : ℕ} {s s' : NetState net} {e : Fault}
        → get_resource net s ≡ (err e, s')
        → Step threads out s out s'
    give :
        {out : ℕ} {s : NetState net} (o : CurlObject)
        → Step threads (suc out) s out (return_resource net o s).1
    lose : {out : ℕ} {s : NetState net} → Step threads (suc out) s out s
    act :
        {out : ℕ} {s : NetState net} (w : net.World)
        → Step threads out s out (record s { world = w })

  pub data Steps (threads : ℕ) : ℕ → NetState net → ℕ → NetState net → Type 0 where
    none : {out : ℕ} {s : NetState net} → Steps threads out s out s
    step :
        {out out' out'' : ℕ} {s s' s'' : NetState net}
        → Step threads out s out' s'
        → Steps threads out' s' out'' s''
        → Steps threads out s out'' s''

  -- The handles that exist, idle or out, are no more than the threads.
  abbrev pub IsBounded : ℕ → ℕ → NetState net → Type 0
  IsBounded threads out s = length s.pool + out ≤ threads

  Step-IsBounded :
      {threads out out' : ℕ} {s s' : NetState net}
      → Step threads out s out' s'
      → IsBounded threads out s
      → IsBounded threads out' s'
  Step-IsBounded (take {out} {s} {s'} room got) h = grind (arith, get_resource-pool net s, got)
  Step-IsBounded (fail {out} {s} {s'} got) h = grind (arith, get_resource-pool net s, got)
  Step-IsBounded (give {out} {s} o) h = grind (arith, return_resource-pool net o s)
  Step-IsBounded (lose {out} {s}) h = omega arith
  Step-IsBounded (act w) h = h

  -- The pool makes no more handles than threads use it at a time, in whatever order they take
  -- them, give them back and lose them: this holds from every state in which it does, such as the
  -- empty pool.
  pub Steps-IsBounded :
      {threads out out' : ℕ} {s s' : NetState net}
      → Steps threads out s out' s'
      → IsBounded threads out s
      → IsBounded threads out' s'
  Steps-IsBounded none h = h
  Steps-IsBounded (step a rest) h = Steps-IsBounded rest (Step-IsBounded a h)
