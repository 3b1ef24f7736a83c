-- ===== src/Removal.antt =====
-- src/arangocollection.cpp: the operations that remove many documents.
pub mod Server
pub mod Edges
use arango_cpp.Base.{
  List, [], ◌∷◌, ◌++◌, map, Text, lit, if◌then◌else◌, catching, M, ◌>>=◌, ◌>>◌, pure,
}
use arango_cpp.Velocypack.{VPack, call, int_at}
use arango_cpp.Requests.{RestVerb, front}
use arango_cpp.Query.{CollectionTypes}
use arango_cpp.Api.{Client, throw_error}
use arango_cpp.Api.Ids.{get_id, get_key}
use arango_cpp.Collections.{is_error, request_with, velocypack_error, collection_names}

-- The templates for the edges that lead to a vertex and those that start from it.
abbrev pub to_template : Text → Text
to_template vertexid = (lit "{\"_to\": \"" ++ vertexid) ++ lit "\" }"

abbrev pub from_template : Text → Text
from_template vertexid = (lit "{\"_from\": \"" ++ vertexid) ++ lit "\" }"

module _ {vp : VPack} {S : Type 0} (c : Client vp S) where
  unfoldable pub remove_by_template : Text → Text → M S (Unit {0})
  unfolding catching
  remove_by_template collname jsontempl = catching velocypack_error (do
    example ← call (vp.from_json jsontempl)
    result ← c.send (
        request_with c RestVerb.put (lit "/_api/simple/remove-by-example") (
          vp.of_object ((lit "collection", vp.of_string collname) ∷ (lit "example", example) ∷ [])))
    slice ← front vp result
    if is_error vp result
        then throw_error result (lit "Error removeByExampleRequest: ")
        else (do deleted ← int_at vp slice (lit "deleted"); pure tt))

  -- The loop over the edge collections.
  unfoldable pub remove_edges_loop : Text → List Text → M S (Unit {0})
  remove_edges_loop vertexid [] = pure tt
  remove_edges_loop vertexid (edgecoll ∷ edges) = do
    remove_by_template edgecoll (to_template vertexid)
    remove_by_template edgecoll (from_template vertexid)
    remove_edges_loop vertexid edges

  unfoldable pub remove_edges : Text → Text → M S (Unit {0})
  unfolding remove_edges_loop
  remove_edges collname vertexkey = do
    edges ← collection_names c CollectionTypes.edge
    remove_edges_loop (get_id collname vertexkey) edges

  -- The body of the request of `removeByKeys`: the ids are turned into keys.
  unfoldable pub keys_object : Text → List Text → vp.Slice
  keys_object collname ids = vp.of_object (
      (lit "collection", vp.of_string collname)
      ∷ (lit "keys", vp.of_array (map vp.of_string (map (get_key collname) ids)))
      ∷ [])

  unfoldable pub remove_by_keys : Text → List Text → M S (Unit {0})
  remove_by_keys collname ids = do
    result ←
        c.send (
          request_with c RestVerb.put (lit "/_api/simple/remove-by-keys")
            (keys_object collname ids))
    slice ← front vp result
    if is_error vp result then throw_error result (lit "Error removeByKeys: ") else (do
      removed ← int_at vp slice (lit "removed")
      ignored ← int_at vp slice (lit "ignored")
      pure tt)
