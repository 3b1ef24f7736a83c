-- ===== src/Select/Edges.antt =====
-- `queryEdgesToFrom`: the AQL text for the edges of a vertex.
use arango_cpp.Base.{
  List, [], ◌∷◌, ◌++◌, ◌≡◌, ◌≢◌, refl, ap, ◌∙◌, Text, lit, All, is_empty, if◌then◌else◌, ok,
}
use arango_cpp.Detail.{get_subset}
use arango_cpp.Velocypack.{VPack}
use arango_cpp.Query.{
  CollectionTypes, QueryType, edges_all, edges_from, edges_to, ArangoDbQuery, query,
  generate_return,
}
use arango_cpp.Query.Generate.{join, accumulate, accumulate-join, IsFilled}
use arango_cpp.Api.{Client}
use arango_cpp.Collections.{collection_names}
use arango_cpp.Select.{join_edges, direction, edge_collections, query_edges_to_from}

join_edges-accumulate :
    (edges : List Text) (acc : Text) → join_edges edges acc ≡ accumulate (lit ", ") edges acc
unfolding join_edges accumulate
join_edges-accumulate [] acc = refl
join_edges-accumulate (e ∷ edges) acc = join_edges-accumulate edges _

-- The word of AQL for a direction.
pub data HasWord : QueryType → Text → Type 0 where
  any : HasWord edges_all (lit "ANY")
  outbound : HasWord edges_from (lit "OUTBOUND")
  inbound : HasWord edges_to (lit "INBOUND")

-- The query for the edges of a start vertex.
unfoldable pub edge_aql : Text → Text → Text → ArangoDbQuery
edge_aql word start_vertex edges = record {
  query_type = QueryType.aql;
  find_condition =
      lit "FOR v,e IN 1..1 "
      ++ (word
          ++ (lit " '" ++ ((start_vertex ++ lit "' \n") ++ (edges ++ lit "\nRETURN DISTINCT e "))));
  bind_vars = [];
  query_options = [];
  query_fields = [];
}

module _ {vp : VPack} {S : Type 0} (c : Client vp S) where
  -- The edge collections that a query without a list of its own uses.
  abbrev pub chosen : List Text → List Text
  chosen names =
      if is_empty c.settings.full_list_of_edges
      then names
      else get_subset c.settings.full_list_of_edges names

  edge_collections-All :
      (names : List Text) (s s' : S)
      → collection_names c CollectionTypes.edge s ≡ (ok names, s')
      → All IsFilled (chosen names)
      → edge_collections c [] s ≡ (ok (join (lit ", ") (chosen names)), s')
  unfolding edge_collections
  edge_collections-All names s s' e h = rw e (
      ap (λ t. (ok t, s'))
        (join_edges-accumulate (chosen names) [] ∙ accumulate-join (lit ", ") (chosen names) h))

  edge_collections_given :
      (given : Text) (s : S) → given ≢ [] → edge_collections c given s ≡ (ok given, s)
  unfolding edge_collections
  edge_collections_given [] s h = absurd (h refl)
  edge_collections_given (x ∷ given) s h = refl

  query_edges_to_from-edge_collections :
      (atype : QueryType) (word start_vertex given edges : Text) (s s' : S)
      → HasWord atype word
      → edge_collections c given s ≡ (ok edges, s')
      → query_edges_to_from c atype start_vertex given s
        ≡ (ok (edge_aql word start_vertex edges), s')
  unfolding query_edges_to_from direction query generate_return edge_aql lit
  query_edges_to_from-edge_collections atype word start_vertex given edges s s' any e = rw e refl
  query_edges_to_from-edge_collections atype word start_vertex given edges s s' outbound e =
      rw e refl
  query_edges_to_from-edge_collections atype word start_vertex given edges s s' inbound e =
      rw e refl

  -- The query for the edges of a vertex names its direction, the vertex and the edge collections:
  -- those that are given; and if none are, all edge collections that exist, or those of the full
  -- list that exist if there is such a list, with commas between them.
  pub query_edges_to_from_lem :
      (atype : QueryType) (word start_vertex given : Text) (names : List Text) (s s' : S)
      → HasWord atype word
      → given ≢ []
      → collection_names c CollectionTypes.edge s ≡ (ok names, s')
      → All IsFilled (chosen names)
      → (query_edges_to_from c atype start_vertex given s
          ≡ (ok (edge_aql word start_vertex given), s))
        × (query_edges_to_from c atype start_vertex [] s
            ≡ (ok (edge_aql word start_vertex (join (lit ", ") (chosen names))), s'))
  query_edges_to_from_lem atype word start_vertex given names s s' w n e h = (
    query_edges_to_from-edge_collections atype word start_vertex given given s s w
        (edge_collections_given given s n),
    query_edges_to_from-edge_collections atype word start_vertex [] _ s s' w
        (edge_collections-All names s s' e h),
  )
