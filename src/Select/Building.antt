-- ===== src/Select/Building.antt =====
-- src/arangocollection.cpp: the requests that the queries over a collection send.
use arango_cpp.Base.{
  true, false, not, none, some, List, [], ◌∷◌, ◌++◌, Text, lit, is_empty, if◌then◌else◌, pos, twice,
  arango, catching, M, ◌>>=◌, pure, throw,
}
use arango_cpp.Base.Maps.{Map}
use arango_cpp.Detail.{find, get_subset}
use arango_cpp.Velocypack.{VPack, call, string_at}
use arango_cpp.Requests.{HttpMessage, RestVerb}
use arango_cpp.Query.{
  CollectionTypes, QueryType, ArangoDbQuery, query, set_query_fields, separator, generate_return,
  generate_return_of,
}
use arango_cpp.Api.{Client}
use arango_cpp.Collections.{request_with, velocypack_error, collection_names}

-- The AQL text that is sent: a query without a RETURN gets one.
unfoldable pub completed : ArangoDbQuery → Text
completed q = elim (find (lit "RETURN") q.find_condition) [
  | none ↦ q.find_condition ++ generate_return_of q false (lit "u")
  | some at ↦ q.find_condition
]

-- The loop that joins the names of the edge collections.
unfoldable pub join_edges : List Text → Text → Text
unfolding separator
join_edges [] edge_collections = edge_collections
join_edges (e ∷ edges) edge_collections =
    join_edges edges ((edge_collections ++ separator (lit ", ") edge_collections) ++ e)

-- The word for the direction in an edge query.
unfoldable pub direction : {S : Type 0} → QueryType → M S Text
direction QueryType.edges_all = pure (lit "ANY '")
direction QueryType.edges_from = pure (lit "OUTBOUND '")
direction QueryType.edges_to = pure (lit "INBOUND '")
direction _ = throw (arango (lit "ArangoDBCollectionAPI") (pos 19) (lit "Illegal query type"))

module _ {vp : VPack} {S : Type 0} (c : Client vp S) where
  unfoldable pub simple_all_request : Text → HttpMessage vp
  simple_all_request collname = request_with c RestVerb.put (lit "/_api/simple/all") (
      vp.of_object (
        (lit "collection", vp.of_string collname) ∷ (lit "batchSize", vp.of_int c.batch_size) ∷ []))

  unfoldable pub by_example_request : Text → Text → M S (HttpMessage vp)
  unfolding catching
  by_example_request collname jsontempl = catching velocypack_error (do
    example ← call (vp.from_json jsontempl)
    pure (
        request_with c RestVerb.put (lit "/_api/simple/by-example") (
          vp.of_object (
            (lit "collection", vp.of_string collname)
            ∷ (lit "example", example)
            ∷ (lit "batchSize", vp.of_int c.batch_size)
            ∷ []))))

  -- The entries for the bind variables, with the batch size, and for the options.
  unfoldable pub bind_fields : Text → M S (List (Text × vp.Slice))
  bind_fields bind_vars =
      if not (is_empty bind_vars)
      then (do
        vars ← call (vp.from_json bind_vars)
        pure ((lit "bindVars", vars) ∷ (lit "batchSize", vp.of_int (twice c.batch_size)) ∷ []))
      else pure ((lit "batchSize", vp.of_int c.batch_size) ∷ [])

  unfoldable pub option_fields : Text → M S (List (Text × vp.Slice))
  option_fields query_options =
      if not (is_empty query_options)
      then (do opts ← call (vp.from_json query_options); pure ((lit "options", opts) ∷ []))
      else pure []

  -- `createAQLRequest`; the name of the collection is not used.
  unfoldable pub aql_request : Text → ArangoDbQuery → M S (HttpMessage vp)
  unfolding catching completed bind_fields option_fields
  aql_request collname q = catching velocypack_error (do
    binds ← bind_fields q.bind_vars
    opts ← option_fields q.query_options
    pure (
        request_with c RestVerb.post (lit "/_api/cursor") (
          vp.of_object (
            ((lit "query", vp.of_string (completed q)) ∷ (lit "count", vp.of_bool true) ∷ [])
            ++ (binds ++ opts)))))

  -- The edge collections of a query: those that it names, or all that exist, or those of the full
  -- list that exist.
  unfoldable pub edge_collections : Text → M S Text
  edge_collections given =
      if is_empty given
      then (do
        edgesexist ← collection_names c CollectionTypes.edge
        let full_list = c.settings.full_list_of_edges
        let edges = if is_empty full_list then edgesexist else get_subset full_list edgesexist
        pure (join_edges edges given))
      else pure given

  unfoldable pub query_edges_to_from : QueryType → Text → Text → M S ArangoDbQuery
  query_edges_to_from atype start_vertex edge_collectionsdefault = do
    edges ← edge_collections edge_collectionsdefault
    way ← direction atype
    pure (
        query
          (((lit "FOR v,e IN 1..1 " ++ way) ++ (start_vertex ++ lit "' \n"))
            ++ (edges ++ generate_return true [] (lit "e")))
          QueryType.aql)

  -- The start and the edge collections that the text of an edge query gives.
  unfoldable pub edge_query : Text → M S (Text × Text)
  edge_query text = do
    slice ← call (vp.from_json text)
    slicelabel ← call (vp.get slice (lit "edgeCollections"))
    edges ← (if not (vp.is_none slicelabel) then call (vp.copy_string slicelabel) else pure [])
    start_vertex ← string_at vp slice (lit "startVertex")
    pure (start_vertex, edges)

  -- `createEdgeRequest`
  unfoldable pub edge_request : Text → ArangoDbQuery → M S (HttpMessage vp)
  unfolding edge_query query_edges_to_from aql_request catching
  edge_request collname q = do
    found ← catching velocypack_error (edge_query q.find_condition)
    querytofrom ← query_edges_to_from q.query_type found.0 found.1
    aql_request collname querytofrom

  -- The `switch` on the type of a query.
  unfoldable pub query_request : Text → ArangoDbQuery → QueryType → M S (HttpMessage vp)
  query_request collname q QueryType.template = by_example_request collname q.find_condition
  query_request collname q QueryType.all = pure (simple_all_request collname)
  query_request collname q QueryType.edges_all = edge_request collname q
  query_request collname q QueryType.edges_from = edge_request collname q
  query_request collname q QueryType.edges_to = edge_request collname q
  query_request collname q QueryType.aql = aql_request collname q
  query_request collname q QueryType.undef =
      throw (arango (lit "ArangoDBCollectionAPI") (pos 18) (lit "Illegal query type "))

  -- The request of `selectAll`.
  unfoldable pub select_all_request : Text → Map Text → M S (HttpMessage vp)
  unfolding simple_all_request query set_query_fields
  select_all_request collname query_fields =
      if is_empty query_fields
      then pure (simple_all_request collname)
      else aql_request collname
          (set_query_fields query_fields (query (lit "FOR u IN " ++ collname) QueryType.aql))
