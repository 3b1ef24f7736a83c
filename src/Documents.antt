-- ===== src/Documents.antt =====
-- Documents of a database by their ids, as JSON texts: the operations of
-- src/arangocollection.cpp on single documents, and what they do to such a
-- database.
pub mod Server
pub mod Outcomes
pub mod Refines
pub mod Beside
pub mod Replies
pub mod Http
pub mod Stack
use arango_cpp.Base.{
  Bool, true, false, Option, none, some, List, [], ◌∷◌, ◌++◌, ◌≡◌, Text, lit, Result, ok, err,
  Fault, arango, velocypack, undefined_behaviour, unfinished,
}
use arango_cpp.Base.Maps.{Map, lookup, insert, erase}
use arango_cpp.Velocypack.{VPack, value, exception}
use arango_cpp.Api.{Client}
use arango_cpp.Api.Ids.{head, get_id}
use arango_cpp.Collections.{
  create_document, read_document, update_document, delete_document, exists_document,
}

-- A call of an operation: the collection, then the key and the JSON text that it takes.
pub data Op : Type 0 where
  create : Text → Text → Op
  read : Text → Text → Op
  update : Text → Text → Text → Op
  delete : Text → Text → Op
  exists : Text → Text → Op

-- What a caller sees: a text or a Boolean, an exception, or neither.
pub data Outcome : Type 0 where
  returned : Text → Outcome
  flag : Bool → Outcome
  refused : Outcome
  broken : Outcome

fault_outcome : Fault → Outcome
fault_outcome (arango title id message) = refused
fault_outcome (velocypack what) = refused
fault_outcome undefined_behaviour = broken
fault_outcome unfinished = broken

unfoldable pub text_outcome : Result Text → Outcome
unfolding fault_outcome
text_outcome (ok t) = returned t
text_outcome (err e) = fault_outcome e

unfoldable pub flag_outcome : Result Bool → Outcome
unfolding fault_outcome
flag_outcome (ok b) = flag b
flag_outcome (err e) = fault_outcome e

-- The outcome of a call beside the state.
abbrev pub seen : {S A : Type 0} → (Result A → Outcome) → Result A × S → Outcome × S
seen outcome (r, s) = (outcome r, s)

module _ {vp : VPack} {S : Type 0} (c : Client vp S) where
  -- The call of the code.
  unfoldable pub perform : Op → S → Outcome × S
  perform (create coll json) s = seen text_outcome (create_document c coll json s)
  perform (read coll key) s = seen text_outcome (read_document c coll key s)
  perform (update coll key json) s = seen text_outcome (update_document c coll key json s)
  perform (delete coll key) s = seen flag_outcome (delete_document c coll key s)
  perform (exists coll key) s = seen flag_outcome (exists_document c coll key s)

  unfoldable pub perform_all : List Op → S → List Outcome × S
  perform_all [] s = ([], s)
  perform_all (op ∷ ops) s =
      let (o, s') = perform op s in let (os, s'') = perform_all ops s' in (o ∷ os, s'')

-- A database: its documents by their ids, and whether it has a collection.
pub record Store : Type 0 where
  pub documents : Map Text
  pub known : Text → Bool

-- The database with a text under an id, and without one.
abbrev pub put : Text → Text → Store → Store
put id json store = record store { documents = insert id json store.documents }

abbrev pub drop : Text → Store → Store
drop id store = record store { documents = erase id store.documents }

-- What the server chooses in one call: the key of a new document, and the text that it keeps for a
-- document under an id, with fields of its own such as the revision.
pub record Choice (vp : VPack) : Type 0 where
  pub key_of : vp.Slice → Text
  pub stored : Text → vp.Slice → Text

module _ (vp : VPack) (asks : vp.Slice → Option Text) (Keeps : vp.Slice → Text → Type 0) where
  -- A document that asks for a key gets it, and any other one that is free in its collection; what
  -- is kept for a document is a text for it.
  pub record IsFair (ch : Choice vp) (store : Store) : Type 0 where
    pub asked : (doc : vp.Slice) (key : Text) → asks doc ≡ some key → ch.key_of doc ≡ key
    pub free :
        (coll : Text) (doc : vp.Slice)
        → asks doc ≡ none
        → lookup (head coll ++ ch.key_of doc) store.documents ≡ none
    pub kept : (id : Text) (doc : vp.Slice) → Keeps doc (ch.stored id doc)

module _ {vp : VPack} (ch : Choice vp) where
  apply_create : Bool → Text → vp.Slice → Option Text → Store → Outcome × Store
  apply_create false id doc old store = (refused, store)
  apply_create true id doc none store = (returned id, put id (ch.stored id doc) store)
  apply_create true id doc (some json) store = (refused, store)

  apply_read : Option Text → Store → Outcome × Store
  apply_read none store = (refused, store)
  apply_read (some json) store = (returned json, store)

  apply_update : Text → vp.Slice → Option Text → Store → Outcome × Store
  apply_update id doc none store = (refused, store)
  apply_update id doc (some json) store = (returned id, put id (ch.stored id doc) store)

  apply_delete : Text → Option Text → Store → Outcome × Store
  apply_delete id none store = (refused, store)
  apply_delete id (some json) store = (flag true, drop id store)

  apply_exists : Option Text → Store → Outcome × Store
  apply_exists none store = (flag false, store)
  apply_exists (some json) store = (flag true, store)

  -- The call on a database: bad JSON is refused; a new document needs a collection that is there
  -- and a free id, the others need one that is there.
  unfoldable pub apply : Op → Store → Outcome × Store
  unfolding apply_create apply_read apply_update apply_delete apply_exists
  apply (create coll json) store = elim (vp.from_json json) [
    | exception what ↦ (refused, store)
    | value doc ↦
        let id = head coll ++ ch.key_of doc in
        apply_create (store.known coll) id doc (lookup id store.documents) store
  ]
  apply (read coll key) store = apply_read (lookup (get_id coll key) store.documents) store
  apply (update coll key json) store = elim (vp.from_json json) [
    | exception what ↦ (refused, store)
    | value doc ↦ let id = get_id coll key in apply_update id doc (lookup id store.documents) store
  ]
  apply (delete coll key) store =
      let id = get_id coll key in apply_delete id (lookup id store.documents) store
  apply (exists coll key) store = apply_exists (lookup (get_id coll key) store.documents) store

module _ (vp : VPack) (asks : vp.Slice → Option Text) (Keeps : vp.Slice → Text → Type 0) where
  -- A sequence of calls on a database, with any fair choices: the outcomes, and what it is then.
  pub data Runs : List Op → Store → List Outcome → Store → Type 0 where
    stop : {store : Store} → Runs [] store [] store
    step :
        {op : Op} {ops : List Op} {store after : Store} {outcomes : List Outcome} (ch : Choice vp)
        → IsFair vp asks Keeps ch store
        → Runs ops (apply ch op store).1 outcomes after
        → Runs (op ∷ ops) store ((apply ch op store).0 ∷ outcomes) after
