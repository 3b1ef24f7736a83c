-- ===== src/Graph.antt =====
-- src/arangograph.cpp: `ArangoDBGraphAPI`.
pub mod Records
pub mod Refines
use arango_cpp.Base.{
  ℕ, zero, suc, ◌+◌, Bool, true, not, List, [], ◌∷◌, ◌++◌, Text, lit, ltb, ◌==◌, if◌then◌else◌, pos,
  Fault, arango, catching, M, ◌>>=◌, pure, throw,
}
use arango_cpp.Base.Maps.{set_insert}
use arango_cpp.Velocypack.{VPack, call, string_at}
use arango_cpp.Requests.{
  RestVerb, status_code, status_ok, status_accepted, status_not_found, front, erase_meta,
}
use arango_cpp.Api.{Client, new_request, throw_error}
use arango_cpp.Api.Ids.{get_id}
use arango_cpp.Collections.{is_error, request_with}

abbrev pub graph_error : Text → Fault
graph_error what = arango (lit "ArangoDBGraphAPI") (pos 31) (lit "Velocypack error: " ++ what)

-- The paths of the graph API.
abbrev pub graph_path : Text → Text
graph_path graphname = lit "/_api/gharial/" ++ graphname

abbrev pub graph_collection_path : Text → Text → Text
graph_collection_path graphname colltype = graph_path graphname ++ (lit "/" ++ colltype)

abbrev pub record_path : Text → Text → Text → Text
record_path graphname colltype rid = graph_collection_path graphname colltype ++ (lit "/" ++ rid)

module _ {vp : VPack} {S : Type 0} (c : Client vp S) where
  -- The loops that put the names of a list into a set, with what they read of an entry.
  unfoldable pub names_loop : (vp.Slice → M S Text) → vp.Slice → ℕ → ℕ → List Text → M S (List Text)
  names_loop name_of list ii zero names = pure names
  names_loop name_of list ii (suc left) names = do
    entry ← call (vp.elem list ii)
    name ← name_of entry
    names_loop name_of list (ii + 1) left (set_insert name names)

  unfoldable pub exist_graph : Text → M S Bool
  exist_graph graphname = do
    result ← c.send (new_request c RestVerb.get (graph_path graphname))
    pure (not (status_code vp result == status_not_found))

  unfoldable pub graph_names : M S (List Text)
  unfolding names_loop
  graph_names = do
    result ← c.send (new_request c RestVerb.get (lit "/_api/gharial"))
    if status_code vp result == status_ok
        then (do
          slice ← front vp result
          grlst ← call (vp.get slice (lit "graphs"))
          numb ← call (vp.count grlst)
          names_loop (λ entry. string_at vp entry (lit "_key")) grlst 0 numb [])
        else pure []

  -- The `try` block of `createGraph`.
  post_graph : Text → Text → M S (Unit {0})
  post_graph graphname edge_definitions = do
    definitions ← call (vp.from_json edge_definitions)
    result ← c.send (
        request_with c RestVerb.post (lit "/_api/gharial") (
          vp.of_object
            ((lit "name", vp.of_string graphname) ∷ (lit "edgeDefinitions", definitions) ∷ [])))
    if ltb status_accepted (status_code vp result)
        then throw (
            arango (lit "ArangoDBGraphAPI") (pos 32) (
              lit
                "This can occur either if a graph with this name is already stored,or if there is one edge definition with a the same edge collection but a different signature used in any other graph."))
        else pure tt

  unfoldable pub create_graph : Text → Text → M S (Unit {0})
  unfolding post_graph catching
  create_graph graphname edge_definitions = do
    exists ← exist_graph graphname
    if exists then pure tt else catching graph_error (post_graph graphname edge_definitions)

  unfoldable pub remove_graph : Text → Bool → M S (Unit {0})
  remove_graph graphname drop_collections = do
    exists ← exist_graph graphname
    if not exists then pure tt else (do
      result ← c.send (
          new_request c RestVerb.delete (
            graph_path graphname ++ (if drop_collections then lit "?dropCollections=true" else [])))
      if ltb status_accepted (status_code vp result)
          then throw_error result (lit "Error when drop graph: ")
          else pure tt)

  unfoldable pub graph_collection_names : Text → Text → M S (List Text)
  unfolding names_loop
  graph_collection_names graphname colltype = do
    result ← c.send (new_request c RestVerb.get (graph_collection_path graphname colltype))
    if status_code vp result == status_ok
        then (do
          slice ← front vp result
          collst ← call (vp.get slice (lit "collections"))
          numb ← call (vp.count collst)
          names_loop (λ entry. call (vp.copy_string entry)) collst 0 numb [])
        else pure []

  unfoldable pub add_vertex_graph : Text → Text → M S (Unit {0})
  add_vertex_graph graphname collname = do
    result ← c.send (
        request_with c RestVerb.post (graph_path graphname ++ lit "/vertex")
          (vp.of_object ((lit "collection", vp.of_string collname) ∷ [])))
    if is_error vp result then throw_error result (lit "Error when add collection: ") else pure tt

  unfoldable pub add_edge_graph : Text → Text → M S (Unit {0})
  unfolding catching
  add_edge_graph graphname edge_definition = catching graph_error (do
    definition ← call (vp.from_json edge_definition)
    result ← c.send (request_with c RestVerb.post (graph_path graphname ++ lit "/edge") definition)
    if is_error vp result then throw_error result (lit "Error create edge: ") else pure tt)

  -- `readRecord`: what the source stores in `jsonrec`.
  unfoldable pub read_record : Text → Text → Text → Text → M S Text
  read_record graphname colltype collname document_handle = do
    result ← c.send (
        new_request c RestVerb.get
          (record_path graphname colltype (get_id collname document_handle)))
    slice ← front vp result
    if not (status_code vp result == status_ok)
        then throw_error result (lit "Error when try load record: ")
        else (do v ← call (vp.get slice colltype); call (vp.to_json v))

  -- What `createRecord` and `updateRecord` share.
  unfoldable pub write_record : RestVerb → Text → Text → Text → Text → M S Text
  write_record verb path colltype jsonrec message = do
    document ← call (vp.from_json jsonrec)
    result ← c.send (erase_meta (lit "accept") (request_with c verb path document))
    slice ← front vp result
    if is_error vp result
        then throw_error result message
        else (do v ← call (vp.get slice colltype); string_at vp v (lit "_id"))

  unfoldable pub create_record : Text → Text → Text → Text → M S Text
  unfolding write_record catching
  create_record graphname colltype collname jsonrec = catching graph_error (
      write_record RestVerb.post (record_path graphname colltype collname) colltype jsonrec
        (lit "Error when try create record: "))

  unfoldable pub update_record : Text → Text → Text → Text → Text → M S Text
  unfolding write_record catching
  update_record graphname colltype collname document_handle jsonrec = catching graph_error (
      write_record RestVerb.put (record_path graphname colltype (get_id collname document_handle))
        colltype jsonrec (lit "Error when try save record: "))

  unfoldable pub delete_record : Text → Text → Text → Text → M S Bool
  delete_record graphname colltype collname document_handle = do
    result ← c.send (
        new_request c RestVerb.delete
          (record_path graphname colltype (get_id collname document_handle)))
    if is_error vp result
        then throw_error result (lit "Error when try remove record: ")
        else pure true
