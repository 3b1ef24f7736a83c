-- ===== src/Select/Collecting.antt =====
-- `selectAll`, `collectQuery` and `lookupByKeys`: what they collect from what the server serves.
use mathlib.Core.List.{flatten}
use arango_cpp.Base.{
  ℕ, ◌≤◌, true, false, List, [], ◌∷◌, ◌++◌, map, append-nil, append_assoc, ◌≡◌, refl, sym, ap, ◌∙◌,
  Bool-cases, inl, inr, Text, lit, text_eq, length, ok, M, and_then, if◌then◌else◌, is_empty,
}
use arango_cpp.Base.Maps.{Map}
use arango_cpp.Velocypack.{VPack, value, attempt}
use arango_cpp.Requests.{HttpMessage, RestVerb, slices_of, front}
use arango_cpp.Query.{ArangoDbQuery, QueryType, query, set_query_fields}
use arango_cpp.Api.{Client}
use arango_cpp.Collections.{request_with, is_error}
use arango_cpp.Select.{
  lift_client, keep, keep_value, visit_json, visit_id, run_request, simple_all_request, aql_request,
  completed, bind_fields, option_fields, select_all_request, select_all_list, collect_query,
  select_query, lookup_by_keys_list, query_request,
}
use arango_cpp.Select.Pages.{
  ServesAs, ListedAs, deliver, Ends-ok, beside, run_request-ServesAs, extract_loop-ListedAs,
}
use arango_cpp.Select.Cursor.{HasJson, put, visit_json-put, deliver-put}

-- An entry has this JSON text and this id.
pub record HasJsonAndId (vp : VPack) (e : vp.Slice) (document : Text × Text) : Type 0 where
  pub field : vp.Slice
  pub get_field : vp.get e (lit "_id") ≡ value field
  pub field_value : vp.copy_string field ≡ value document.1
  pub json : vp.to_json e ≡ value document.0

-- The values that are not null.
unfoldable pub non_null : List Text → List Text
non_null [] = []
non_null (v ∷ vs) = let rest = non_null vs in if text_eq v (lit "null") then rest else v ∷ rest

-- The query of `selectAll` with fields.
unfoldable pub all_query : Text → Map Text → ArangoDbQuery
all_query collname query_fields =
    set_query_fields query_fields (query (lit "FOR u IN " ++ collname) QueryType.aql)

-- The query of `collectQuery`.
unfoldable pub distinct_query : Text → Text → ArangoDbQuery
distinct_query collname fpath =
    query ((lit "FOR doc IN " ++ collname) ++ (lit " RETURN DISTINCT doc." ++ fpath)) QueryType.aql

module _ {vp : VPack} {S : Type 0} (c : Client vp S) where
  abbrev d : Client vp (S × List Text)
  d = lift_client (List Text) c

  -- The request for a query without bind variables and options.
  unfoldable pub plain_aql : ArangoDbQuery → HttpMessage vp
  plain_aql q = request_with c RestVerb.post (lit "/_api/cursor") (
      vp.of_object (
        (lit "query", vp.of_string (completed q))
        ∷ (lit "count", vp.of_bool true)
        ∷ (lit "batchSize", vp.of_int c.batch_size)
        ∷ []))

  -- The request of `selectAll`.
  unfoldable pub all_message : Text → Map Text → HttpMessage vp
  all_message collname query_fields =
      if is_empty query_fields
      then simple_all_request c collname
      else plain_aql (all_query collname query_fields)

  aql_request_plain :
      (collname : Text) (q : ArangoDbQuery) (s : S × List Text)
      → q.bind_vars ≡ []
      → q.query_options ≡ []
      → aql_request d collname q s ≡ (ok (plain_aql q), s)
  unfolding aql_request plain_aql bind_fields option_fields
  aql_request_plain collname q s b o = rw (b, o) refl

  select_all_request_lem :
      (collname : Text) (query_fields : Map Text) (s : S × List Text)
      → select_all_request d collname query_fields s ≡ (ok (all_message collname query_fields), s)
  unfolding all_message all_query query set_query_fields simple_all_request
  select_all_request_lem collname [] s = unfold select_all_request in refl
  select_all_request_lem collname (x ∷ xs) s =
      unfold select_all_request in
      aql_request_plain collname (all_query collname (x ∷ xs)) s refl refl

  put_json : Text × Text → M (List Text) (Unit {0})
  put_json (json, id) kept = (ok tt, kept ++ json ∷ [])

  visit_id-put_json :
      (e : vp.Slice) (document : Text × Text) (s : S) (kept : List Text)
      → HasJsonAndId vp e document
      → visit_id d (λ json id. keep json) e (s, kept) ≡ beside s (put_json document kept)
  unfolding visit_id attempt put_json
  visit_id-put_json e document s kept h = rw (h.get_field, h.field_value, h.json) refl

  deliver-put_json :
      (docs : List (Text × Text)) (kept : List Text)
      → deliver put_json docs kept ≡ (ok tt, kept ++ map (λ x. x.0) docs)
  unfolding deliver put_json
  deliver-put_json [] kept = ap (λ k. (ok tt, k)) (sym (append-nil kept))
  deliver-put_json ((json, id) ∷ docs) kept =
      deliver-put_json docs (kept ++ json ∷ [])
      ∙ ap (λ k. (ok tt, k)) (append_assoc kept (json ∷ []) (map (λ x. x.0) docs))

  -- `selectAll` sends the request for all documents, or, with fields, for those fields, and
  -- returns the documents of all pages that the server serves for it, in order.
  pub select_all_list_lem :
      (fuel : ℕ) (collname : Text) (query_fields : Map Text) {s s' : S}
      (pages : List (List (Text × Text)))
      → ServesAs (HasJsonAndId vp) c (all_message collname query_fields) s pages s'
      → length pages ≤ fuel
      → select_all_list c fuel collname query_fields s ≡ (ok (map (λ x. x.0) (flatten pages)), s')
  unfolding select_all_list
  select_all_list_lem fuel collname query_fields {s} pages served h =
      rw
        (
          select_all_request_lem collname query_fields (s, []),
          Ends-ok
              (run_request-ServesAs (HasJsonAndId vp) c (visit_id d (λ json id. keep json)) put_json
                visit_id-put_json pages fuel [] served h)
              (deliver-put_json (flatten pages) []),
        )
        refl

  -- What `collectQuery` does with a value.
  put_value : Text → M (List Text) (Unit {0})
  put_value json values = (ok tt, if text_eq json (lit "null") then values else values ++ json ∷ [])

  visit_json-put_value :
      (e : vp.Slice) (json : Text) (s : S) (values : List Text)
      → HasJson vp e json
      → visit_json d (keep_value c) e (s, values) ≡ beside s (put_value json values)
  unfolding visit_json attempt put_value keep_value
  visit_json-put_value e json s values h = rw h refl

  deliver-put_value :
      (vs values : List Text) → deliver put_value vs values ≡ (ok tt, values ++ non_null vs)
  unfolding deliver put_value non_null
  deliver-put_value [] values = ap (λ k. (ok tt, k)) (sym (append-nil values))
  deliver-put_value (v ∷ vs) values = elim (Bool-cases (text_eq v (lit "null"))) [
    | inl e ↦ rw e (deliver-put_value vs values)
    | inr e ↦ rw e (
        deliver-put_value vs (values ++ v ∷ [])
        ∙ ap (λ k. (ok tt, k)) (append_assoc values (v ∷ []) (non_null vs)))
  ]

  distinct_query_type :
      (collname fpath : Text) → (distinct_query collname fpath).query_type ≡ QueryType.aql
  unfolding distinct_query query lit
  distinct_query_type collname fpath = refl

  select_query_aql :
      (fuel : ℕ) (collname : Text) (q : ArangoDbQuery)
      (setfnc : Text → M (S × List Text) (Unit {0})) (s : S × List Text)
      → q.query_type ≡ QueryType.aql
      → q.bind_vars ≡ []
      → q.query_options ≡ []
      → select_query d fuel collname q setfnc s
        ≡ run_request d (visit_json d setfnc) fuel (plain_aql q) s
  unfolding select_query query_request
  select_query_aql fuel collname q setfnc s e b o =
      let run = λ (request : HttpMessage vp). run_request d (visit_json d setfnc) fuel request in
      ap (λ t. and_then (query_request d collname q t s) run) e
      ∙ ap (λ r. and_then r run) (aql_request_plain collname q s b o)

  -- `collectQuery` sends the query for the distinct values of the field, and puts the values of
  -- all pages that the server serves for it, except nulls, behind those of the caller's vector.
  pub collect_query_lem :
      (fuel : ℕ) (collname fpath : Text) (values : List Text) {s s' : S} (pages : List (List Text))
      → ServesAs (HasJson vp) c (plain_aql (distinct_query collname fpath)) s pages s'
      → length pages ≤ fuel
      → collect_query c fuel collname fpath (s, values)
        ≡ (ok tt, (s', values ++ non_null (flatten pages)))
  unfolding collect_query distinct_query query
  collect_query_lem fuel collname fpath values {s} pages served h =
      select_query_aql fuel collname (distinct_query collname fpath) (keep_value c) (s, values)
        (distinct_query_type collname fpath) refl refl
      ∙ Ends-ok
          (run_request-ServesAs (HasJson vp) c (visit_json d (keep_value c)) put_value
            visit_json-put_value pages fuel values served h)
          (deliver-put_value (flatten pages) values)

  -- `lookupByKeys` returns the documents of an answer that is no error, in the order of its list.
  pub lookup_by_keys_list_lem :
      (collname : Text) (keys : List Text) (s s' : S) (result : HttpMessage vp)
      (slice found : vp.Slice) (others : List vp.Slice) (docs : List Text)
      → c.send
          (request_with c RestVerb.put (lit "/_api/simple/lookup-by-keys") (
            vp.of_object (
              (lit "collection", vp.of_string collname)
              ∷ (lit "keys", vp.of_array (map vp.of_string keys))
              ∷ [])))
          s
        ≡ (ok result, s')
      → is_error vp result ≡ false
      → slices_of vp result ≡ ok (slice ∷ others)
      → vp.get slice (lit "documents") ≡ value found
      → vp.count found ≡ value (length docs)
      → ListedAs vp (HasJson vp) found 0 docs
      → lookup_by_keys_list c collname keys s ≡ (ok docs, s')
  unfolding lookup_by_keys_list attempt front
  lookup_by_keys_list_lem collname keys s s' result slice found others docs sent fine body got
        number listed =
      rw
        (
          sent,
          fine,
          body,
          got,
          number,
          extract_loop-ListedAs (HasJson vp) c (visit_json d keep) (put c) (visit_json-put c) found
              0 docs s' [] listed,
          deliver-put c docs [],
        )
        refl
