-- ===== src/Graph/Records.antt =====
-- The records of a graph: the operations of src/arangograph.cpp on them as operations on documents,
-- and what the server promises about them, as its documentation describes it.
use arango_cpp.Base.{true, false, ◌==◌, Option, none, some, List, [], ◌∷◌, ◌++◌, ◌≡◌, Text, lit}
use arango_cpp.Base.Maps.{lookup}
use arango_cpp.Velocypack.{VPack, value}
use arango_cpp.Requests.{HttpMessage, RestVerb, status_code, status_ok, erase_meta}
use arango_cpp.Api.{Client, new_request}
use arango_cpp.Api.Ids.{head}
use arango_cpp.Collections.{is_error, request_with}
use arango_cpp.Documents.{
  Store, put, drop, Choice, IsFair, Outcome, seen, text_outcome, flag_outcome,
}
use arango_cpp.Documents as Doc
use arango_cpp.Documents.Server.{HasBody, IsRefusal, IsAccepted, Gives}
use arango_cpp.Graph.{record_path, read_record, create_record, update_record, delete_record}

-- A call: the collection, then the key and the JSON text that it takes.
pub data Op : Type 0 where
  create : Text → Text → Op
  read : Text → Text → Op
  update : Text → Text → Text → Op
  delete : Text → Text → Op

-- The operation on documents that does the same.
unfoldable pub as_document : Op → Doc.Op
as_document (create coll json) = Doc.create coll json
as_document (read coll key) = Doc.read coll key
as_document (update coll key json) = Doc.update coll key json
as_document (delete coll key) = Doc.delete coll key

module _ {vp : VPack} {S : Type 0} (c : Client vp S) (graphname colltype : Text) where
  -- The call of the code.
  unfoldable pub perform : Op → S → Outcome × S
  perform (create coll json) s = seen text_outcome (create_record c graphname colltype coll json s)
  perform (read coll key) s = seen text_outcome (read_record c graphname colltype coll key s)
  perform (update coll key json) s =
      seen text_outcome (update_record c graphname colltype coll key json s)
  perform (delete coll key) s = seen flag_outcome (delete_record c graphname colltype coll key s)

  unfoldable pub perform_all : List Op → S → List Outcome × S
  perform_all [] s = ([], s)
  perform_all (op ∷ ops) s =
      let (o, s') = perform op s in let (os, s'') = perform_all ops s' in (o ∷ os, s'')

module _ (vp : VPack) (colltype : Text) where
  -- An answer with a record under the type of its collection.
  pub record IsRecord (m : HttpMessage vp) (json : Text) : Type 0 where
    pub accepted : (status_code vp m == status_ok) ≡ true
    pub slice : vp.Slice
    pub has_body : HasBody vp m slice
    pub found : vp.Slice
    pub get_found : vp.get slice colltype ≡ value found
    pub text : vp.to_json found ≡ value json

  -- An answer with the id of a record there.
  pub record IsRecordHandle (m : HttpMessage vp) (id : Text) : Type 0 where
    pub accepted : is_error vp m ≡ false
    pub slice : vp.Slice
    pub has_body : HasBody vp m slice
    pub found : vp.Slice
    pub get_found : vp.get slice colltype ≡ value found
    pub field : vp.Slice
    pub get_field : vp.get found (lit "_id") ≡ value field
    pub field_value : vp.copy_string field ≡ value id

module _ {vp : VPack} {S : Type 0} (c : Client vp S) (graphname colltype : Text) where
  abbrev pub asking : RestVerb → Text → HttpMessage vp
  asking verb id = new_request c verb (record_path graphname colltype id)

  abbrev pub writing : RestVerb → Text → vp.Slice → HttpMessage vp
  writing verb id doc =
      erase_meta (lit "accept") (request_with c verb (record_path graphname colltype id) doc)

module _ {vp : VPack} {S : Type 0} (c : Client vp S) (graphname colltype : Text) (view : S → Store)
    (asks : vp.Slice → Option Text) (Keeps : vp.Slice → Text → Type 0) where
  -- The records of this type, vertices or edges, by their ids, and the collections of this type.
  pub record IsServer : Type 1 where
    pub chosen : S → Choice vp
    pub fair : (s : S) → IsFair vp asks Keeps (chosen s) (view s)
    pub get_found :
        (id json : Text) (s : S)
        → lookup id (view s).documents ≡ some json
        → Gives c view
            (asking c graphname colltype RestVerb.get id)
            s
            (λ m. IsRecord vp colltype m json)
            (view s)
    pub get_missing :
        (id : Text) (s : S)
        → lookup id (view s).documents ≡ none
        → Gives c view (asking c graphname colltype RestVerb.get id) s (IsRefusal vp) (view s)
    pub post_new :
        (coll : Text) (doc : vp.Slice) (s : S)
        → (view s).known coll ≡ true
        → lookup (head coll ++ (chosen s).key_of doc) (view s).documents ≡ none
        → Gives c view
            (writing c graphname colltype RestVerb.post coll doc)
            s
            (λ m. IsRecordHandle vp colltype m (head coll ++ (chosen s).key_of doc))
            (put
              (head coll ++ (chosen s).key_of doc)
              ((chosen s).stored (head coll ++ (chosen s).key_of doc) doc)
              (view s))
    pub post_taken :
        (coll : Text) (doc : vp.Slice) (json : Text) (s : S)
        → (view s).known coll ≡ true
        → lookup (head coll ++ (chosen s).key_of doc) (view s).documents ≡ some json
        → Gives c view
            (writing c graphname colltype RestVerb.post coll doc)
            s
            (IsRefusal vp)
            (view s)
    pub post_unknown :
        (coll : Text) (doc : vp.Slice) (s : S)
        → (view s).known coll ≡ false
        → Gives c view
            (writing c graphname colltype RestVerb.post coll doc)
            s
            (IsRefusal vp)
            (view s)
    pub put_found :
        (id : Text) (doc : vp.Slice) (json : Text) (s : S)
        → lookup id (view s).documents ≡ some json
        → Gives c view
            (writing c graphname colltype RestVerb.put id doc)
            s
            (λ m. IsRecordHandle vp colltype m id)
            (put id ((chosen s).stored id doc) (view s))
    pub put_missing :
        (id : Text) (doc : vp.Slice) (s : S)
        → lookup id (view s).documents ≡ none
        → Gives c view (writing c graphname colltype RestVerb.put id doc) s (IsRefusal vp) (view s)
    pub delete_found :
        (id json : Text) (s : S)
        → lookup id (view s).documents ≡ some json
        → Gives c view
            (asking c graphname colltype RestVerb.delete id)
            s
            (IsAccepted vp)
            (drop id (view s))
    pub delete_missing :
        (id : Text) (s : S)
        → lookup id (view s).documents ≡ none
        → Gives c view (asking c graphname colltype RestVerb.delete id) s (IsRefusal vp) (view s)
