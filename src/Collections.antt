-- ===== src/Collections.antt =====
-- src/arangocollection.cpp: `ArangoDBCollectionAPI`, collections and single documents.
pub mod Naming
use arango_cpp.Base.{
  ℕ, zero, suc, ◌+◌, Bool, true, false, ◌&&◌, ◌||◌, not, List, [], ◌∷◌, ◌++◌, Text, String, lit,
  text_eq, leb, ◌==◌, if◌then◌else◌, ℤ, pos, to_int, int_eq, Fault, arango, Result, ok, err,
  catching, M, ◌>>=◌, ◌>>◌, pure, lift,
}
use arango_cpp.Base.Maps.{set_insert}
use arango_cpp.Velocypack.{VPack, call, string_at, int_at, bool_at}
use arango_cpp.Requests.{
  HttpMessage, RestVerb, status_code, status_ok, status_bad_request, status_not_found, front,
  add_vpack, erase_meta, fu_accept_key,
}
use arango_cpp.Query.{CollectionTypes, vertex, edge, selects}
use arango_cpp.Api.{Client, new_request, throw_error}
use arango_cpp.Api.Ids.{get_id}

abbrev pub is_error : (vp : VPack) → HttpMessage vp → Bool
is_error vp result = leb status_bad_request (status_code vp result)

-- `createREQUEST(verb, path)` followed by `addVPack(slice)`
abbrev pub request_with :
    {vp : VPack} {S : Type 0} → Client vp S → RestVerb → Text → vp.Slice → HttpMessage vp
request_with {vp} c verb path slice = add_vpack vp (new_request c verb path) slice

-- The exception that a `velocypack::Exception` is turned into.
abbrev pub velocypack_error : Text → Fault
velocypack_error what =
    arango (lit "ArangoDBCollectionAPI") (pos 11) (lit "Velocypack error: " ++ what)

module _ {vp : VPack} {S : Type 0} (c : Client vp S) where
  unfoldable pub exist_collection : Text → M S Bool
  exist_collection collname = do
    result ← c.send (new_request c RestVerb.get (lit "/_api/collection/" ++ collname))
    if status_code vp result == status_not_found then pure false else (do
      slice ← front vp result
      status ← int_at vp slice (lit "status")
      pure (not (int_eq (to_int status) (pos 5))))

  -- The object that describes a new collection.
  unfoldable pub collection_object : Text → Text → vp.Slice
  collection_object collname ctype = vp.of_object (
      (lit "name", vp.of_string collname)
      ∷ (if text_eq ctype (lit "edge") then (lit "type", vp.of_int (pos 3)) ∷ [] else []))

  unfoldable pub create_collection : Text → Text → M S (Unit {0})
  create_collection collname ctype = do
    exists ← exist_collection collname
    if exists then pure tt else (do
      result ←
          c.send (
            request_with c RestVerb.post (lit "/_api/collection")
              (collection_object collname ctype))
      if not (status_code vp result == status_ok)
          then throw_error result (lit "Error when create collection: ")
          else pure tt)

  unfoldable pub drop_collection : Text → M S (Unit {0})
  drop_collection collname = do
    exists ← exist_collection collname
    if not exists then pure tt else (do
      result ← c.send (new_request c RestVerb.delete (lit "/_api/collection/" ++ collname))
      if not (status_code vp result == status_ok)
          then throw_error result (lit "Error when try drop collection: ")
          else pure tt)

  -- `bit && entry.get("type").getInt() == number`: the entry is only read if the bit is set.
  abbrev type_is : Bool → vp.Slice → ℕ → M S Bool
  type_is bit entry number =
      if bit
      then (do t ← int_at vp entry (lit "type"); pure (int_eq t (pos number)))
      else pure false

  -- One round of the loop of `collectionNames`.
  unfoldable pub add_collection : CollectionTypes → vp.Slice → List Text → M S (List Text)
  add_collection ctype entry collnames = do
    system ← bool_at vp entry (lit "isSystem")
    if system then pure collnames else (do
      is_vertex ← type_is (selects ctype vertex) entry 2
      if is_vertex
          then (do name ← string_at vp entry (lit "name"); pure (set_insert name collnames))
          else (do
            is_edge ← type_is (selects ctype edge) entry 3
            if is_edge
                then (do name ← string_at vp entry (lit "name"); pure (set_insert name collnames))
                else pure collnames))

  -- The loop from index `ii` on, with `left` rounds to go.
  unfoldable pub collection_names_loop :
      CollectionTypes → vp.Slice → ℕ → ℕ → List Text → M S (List Text)
  unfolding add_collection
  collection_names_loop ctype collst ii zero collnames = pure collnames
  collection_names_loop ctype collst ii (suc left) collnames = do
    entry ← call (vp.elem collst ii)
    more ← add_collection ctype entry collnames
    collection_names_loop ctype collst (ii + 1) left more

  unfoldable pub collection_names : CollectionTypes → M S (List Text)
  collection_names ctype = do
    result ← c.send (new_request c RestVerb.get (lit "/_api/collection"))
    if status_code vp result == status_ok
        then (do
          slice ← front vp result
          collst ← call (vp.get slice (lit "result"))
          numb ← call (vp.count collst)
          collection_names_loop ctype collst 0 numb [])
        else pure []

  -- The path of a document.
  abbrev pub document_path : Text → Text → Text
  document_path collname key = lit "/_api/document/" ++ get_id collname key

  -- `readDocument`: what the source stores in `jsonrec`.
  unfoldable pub read_document : Text → Text → M S Text
  read_document collname key = do
    result ← c.send (new_request c RestVerb.get (document_path collname key))
    slice ← front vp result
    if not (status_code vp result == status_ok)
        then throw_error result (lit "Error when try load record: ")
        else call (vp.to_json slice)

  -- What `createDocument` and `updateDocument` share: a request with a document, and the `_id` of
  -- the answer.
  unfoldable pub write_document : RestVerb → Text → Text → Text → M S Text
  write_document verb path jsonrec message = do
    document ← call (vp.from_json jsonrec)
    result ← c.send (erase_meta (lit "accept") (request_with c verb path document))
    slice ← front vp result
    if is_error vp result then throw_error result message else string_at vp slice (lit "_id")

  unfoldable pub create_document : Text → Text → M S Text
  create_document collname jsonrec = catching velocypack_error (
      write_document RestVerb.post (lit "/_api/document/" ++ collname) jsonrec
        (lit "Error when try create record: "))

  unfoldable pub update_document : Text → Text → Text → M S Text
  update_document collname key jsonrec = catching velocypack_error (
      write_document RestVerb.put (document_path collname key) jsonrec
        (lit "Error when try save record: "))

  unfoldable pub delete_document : Text → Text → M S Bool
  delete_document collname key = do
    result ← c.send (new_request c RestVerb.delete (document_path collname key))
    if is_error vp result
        then throw_error result (lit "Error when try remove record: ")
        else pure true

  unfoldable pub exists_document : Text → Text → M S Bool
  exists_document collname key = do
    result ← c.send (new_request c RestVerb.head (document_path collname key))
    pure (status_code vp result == status_ok)
