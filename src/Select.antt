-- ===== src/Select.antt =====
-- src/arangocollection.cpp: queries over a collection and the cursor that their results come by.
mod Building
pub mod Aql
pub mod Edges
pub mod Cursor
pub mod Pages
pub mod Collecting
pub mod Finite
unfoldable pub use Building.*
use arango_cpp.Base.{
  ℕ, zero, suc, ◌+◌, Bool, true, false, not, Option, none, some, List, [], ◌∷◌, ◌++◌, map, Text,
  String, lit, text_eq, is_empty, ◌==◌, if◌then◌else◌, ℤ, pos, twice, Fault, arango, unfinished,
  Result, ok, err, catching, M, ◌>>=◌, ◌>>◌, pure, throw, lift,
}
use arango_cpp.Base.Maps.{Map}
use arango_cpp.Detail.{find, get_subset}
use arango_cpp.Velocypack.{VPack, call, string_at, bool_at}
use arango_cpp.Requests.{HttpMessage, RestVerb, front}
use arango_cpp.Query.{
  CollectionTypes, QueryType, ArangoDbQuery, query, set_query_fields, separator, generate_return,
  generate_return_of,
}
use arango_cpp.Api.{Client, new_request}
use arango_cpp.Collections.{is_error, request_with, velocypack_error, collection_names}

-- An API object over a state with something added.
abbrev pub lift_client : {vp : VPack} {S : Type 0} (D : Type 0) → Client vp S → Client vp (S × D)
lift_client D c = record {
  send = λ m s. let (r, s') = c.send m s.0 in (r, (s', s.1));
  settings = c.settings;
  batch_size = c.batch_size;
}

module _ {vp : VPack} {S : Type 0} (c : Client vp S) where
  -- `extractData`: the entries from index `ii` on, with `left` to go, each handed to `visit`.
  unfoldable pub extract_loop : (vp.Slice → M S (Unit {0})) → vp.Slice → ℕ → ℕ → M S (Unit {0})
  extract_loop visit sresult ii zero = pure tt
  extract_loop visit sresult ii (suc left) = do
    entry ← call (vp.elem sresult ii)
    visit entry
    extract_loop visit sresult (ii + 1) left

  unfoldable pub extract_data : (vp.Slice → M S (Unit {0})) → vp.Slice → M S (Unit {0})
  unfolding extract_loop
  extract_data visit sresult = do numb ← call (vp.count sresult); extract_loop visit sresult 0 numb

  -- What the two kinds of callbacks are given.
  unfoldable pub visit_json : (Text → M S (Unit {0})) → vp.Slice → M S (Unit {0})
  visit_json setfnc entry = do json ← call (vp.to_json entry); setfnc json

  unfoldable pub visit_id : (Text → Text → M S (Unit {0})) → vp.Slice → M S (Unit {0})
  visit_id setfnc entry = do
    id ← string_at vp entry (lit "_id")
    json ← call (vp.to_json entry)
    setfnc json id

  -- One answer of the server: its entries are visited; what is left is the answer and `hasMore`.
  unfoldable pub read_batch : (vp.Slice → M S (Unit {0})) → HttpMessage vp → M S (vp.Slice × Bool)
  unfolding extract_data
  read_batch visit result = do
    slice ← front vp result
    has_more ← bool_at vp slice (lit "hasMore")
    query_result ← call (vp.get slice (lit "result"))
    extract_data visit query_result
    pure (slice, has_more)

  -- `while( hasMore )`, for at most `fuel` rounds: the server decides how many there are.
  unfoldable pub cursor_loop : (vp.Slice → M S (Unit {0})) → ℕ → vp.Slice × Bool → M S (Unit {0})
  unfolding read_batch
  cursor_loop visit fuel (slice, false) = pure tt
  cursor_loop visit zero (slice, true) = throw unfinished
  cursor_loop visit (suc fuel) (slice, true) = do
    id ← string_at vp slice (lit "id")
    result ← c.send (new_request c RestVerb.put (lit "/_api/cursor/" ++ id))
    if is_error vp result
        then pure tt
        else (do next ← read_batch visit result; cursor_loop visit fuel next)

  -- What both `selectQuery` and `selectAll` do with their request.
  unfoldable pub run_request : (vp.Slice → M S (Unit {0})) → ℕ → HttpMessage vp → M S (Unit {0})
  run_request visit fuel request = do
    result ← c.send request
    if is_error vp result
        then pure tt
        else (do first ← read_batch visit result; cursor_loop visit fuel first)

  -- `selectQuery` with a callback
  unfoldable pub select_query : ℕ → Text → ArangoDbQuery → (Text → M S (Unit {0})) → M S (Unit {0})
  select_query fuel collname q setfnc = do
    request ← query_request c collname q q.query_type
    run_request (visit_json setfnc) fuel request

  -- `selectAll` with a callback
  unfoldable pub select_all : ℕ → Text → Map Text → (Text → Text → M S (Unit {0})) → M S (Unit {0})
  unfolding select_all_request visit_id
  select_all fuel collname query_fields setfnc = do
    request ← select_all_request c collname query_fields
    run_request (visit_id setfnc) fuel request

  -- `lookupByKeys` with a callback
  unfoldable pub lookup_by_keys : Text → List Text → (Text → M S (Unit {0})) → M S (Unit {0})
  unfolding extract_data visit_json
  lookup_by_keys collname keys setfnc = do
    result ← c.send (
        request_with c RestVerb.put (lit "/_api/simple/lookup-by-keys") (
          vp.of_object (
            (lit "collection", vp.of_string collname)
            ∷ (lit "keys", vp.of_array (map vp.of_string keys))
            ∷ [])))
    if is_error vp result then pure tt else (do
      slice ← front vp result
      query_result ← call (vp.get slice (lit "documents"))
      extract_data (visit_json setfnc) query_result)

-- `resultData.emplace_back(jsondata)`, on the list beside the state.
abbrev pub keep : {S : Type 0} → Text → M (S × List Text) (Unit {0})
keep json (s, kept) = (ok tt, (s, kept ++ json ∷ []))

-- An action that fills a list of its own, and returns it.
gathered : {S : Type 0} → Result (Unit {0}) × (S × List Text) → Result (List Text) × S
gathered (ok _, (s, kept)) = (ok kept, s)
gathered (err e, (s, kept)) = (err e, s)

unfoldable pub gather : {S : Type 0} → M (S × List Text) (Unit {0}) → M S (List Text)
unfolding gathered
gather action s = gathered (action (s, []))

module _ {vp : VPack} {S : Type 0} (c : Client vp S) where
  -- The versions that return a vector.
  unfoldable pub select_query_list : ℕ → Text → ArangoDbQuery → M S (List Text)
  unfolding gather select_query
  select_query_list fuel collname q =
      gather (select_query (lift_client (List Text) c) fuel collname q keep)

  unfoldable pub select_all_list : ℕ → Text → Map Text → M S (List Text)
  unfolding gather select_all
  select_all_list fuel collname query_fields =
      gather
        (select_all (lift_client (List Text) c) fuel collname query_fields (λ json id. keep json))

  unfoldable pub lookup_by_keys_list : Text → List Text → M S (List Text)
  unfolding gather lookup_by_keys
  lookup_by_keys_list collname keys =
      gather (lookup_by_keys (lift_client (List Text) c) collname keys keep)

  -- The callback of `collectQuery`: `values` gets what is not null.
  unfoldable pub keep_value : Text → M (S × List Text) (Unit {0})
  keep_value json (s, values) =
      (ok tt, (s, if text_eq json (lit "null") then values else values ++ json ∷ []))

  -- `collectQuery`, which fills the caller's vector.
  unfoldable pub collect_query : ℕ → Text → Text → M (S × List Text) (Unit {0})
  collect_query fuel collname fpath =
      select_query (lift_client (List Text) c) fuel collname
        (query ((lit "FOR doc IN " ++ collname) ++ (lit " RETURN DISTINCT doc." ++ fpath))
          QueryType.aql)
        keep_value
