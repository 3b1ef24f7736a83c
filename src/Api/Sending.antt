-- ===== src/Api/Sending.antt =====
-- `sendREQUEST`: the pool of handles over a request, and what a response that is returned is like.
use Prim.Native.Nat.{max}
use arango_cpp.Base.{suc, ◌≤◌, true, List, [], ◌∷◌, ◌≡◌, ◌≢◌, refl, arith, Text, length, ok, M}
use arango_cpp.Velocypack.{VPack}
use arango_cpp.Requests.{Settings, HttpMessage, is_content_type_vpack, status_code}
use arango_cpp.Connection.{ArangoDbConnection}
use arango_cpp.Curl.{Net, CurlObject, get_response}
use arango_cpp.Api.{
  NetState, on_world, get_resource, take_top, return_resource, exchange, check_response,
}

-- A handle that is taken: the pool has one object less, if it had any.
pub get_resource-pool :
    (net : Net) (s : NetState net)
    → suc (length (get_resource net s).1.pool) ≡ max 1 (length s.pool)
unfolding get_resource
get_resource-pool net s = take_top-pool s.pool s refl
  where
    take_top-pool :
        (pool : List CurlObject) (s : NetState net)
        → s.pool ≡ pool
        → suc (length (take_top net pool s).1.pool) ≡ max 1 (length pool)
    take_top-pool [] s e = ground arith
    take_top-pool (o ∷ pool) s e = ground arith

on_world-pool :
    (net : Net) {A : Type 0} (m : M net.World A) (s : NetState net)
    → (on_world net m s).1.pool ≡ s.pool
unfolding on_world
on_world-pool net m s = refl

pub return_resource-pool :
    (net : Net) (o : CurlObject) (s : NetState net) → (return_resource net o s).1.pool ≡ o ∷ s.pool
unfolding return_resource
return_resource-pool net o s = refl

module _ (vp : VPack) (net : Net) (settings : Settings) where
  -- Reading a response changes no state.
  pub get_response-state :
      {S : Type 0} (o : CurlObject) (s : S) → (get_response vp settings o s).1 ≡ s
  unfolding get_response
  get_response-state o s = ground arith

  -- Nor does the check of one, and what passes it has a status and a body that can be read.
  check_response_lem :
      {S : Type 0} (title the_url : Text) (m : HttpMessage vp) (s : S) (result : HttpMessage vp)
      → ((check_response vp net settings title the_url m s).1 ≡ s)
        × ((check_response vp net settings title the_url m s).0 ≡ ok result
            → (is_content_type_vpack vp result ≡ true) × (status_code vp result ≢ 0))
  unfolding check_response
  check_response_lem title the_url m s result = (ground arith, λ e. ground arith)

  -- A request that returns gives the handle that it took back to the pool: the pool then has as
  -- many handles as before, or one if it was empty. The response that it returns is Velocypack, or
  -- has a body, and its status is not 0.
  pub exchange-pool :
      (title the_url : Text) (connect_data : ArangoDbConnection) (rq : HttpMessage vp)
      (s : NetState net) (result : HttpMessage vp)
      → (exchange vp net settings title the_url connect_data rq s).0 ≡ ok result
      → (length (exchange vp net settings title the_url connect_data rq s).1.pool
          ≡ max 1 (length s.pool))
        × (is_content_type_vpack vp result ≡ true)
        × (status_code vp result ≢ 0)
  unfolding exchange
  exchange-pool title the_url connect_data rq s result e = grind (
    arith, get_resource-pool, on_world-pool, return_resource-pool, get_response-state,
    check_response_lem,
  )

  -- However a request ends, the pool has lost at most one handle.
  pub length-exchange :
      (title the_url : Text) (connect_data : ArangoDbConnection) (rq : HttpMessage vp)
      (s : NetState net)
      → length s.pool
        ≤ suc (length (exchange vp net settings title the_url connect_data rq s).1.pool)
  unfolding exchange
  length-exchange title the_url connect_data rq s = grind (
    arith, get_resource-pool, on_world-pool, return_resource-pool, get_response-state,
    check_response_lem,
  )
