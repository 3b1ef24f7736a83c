-- ===== src/Documents/Server.antt =====
-- What the server promises for requests on single documents, as its documentation describes them.
use arango_cpp.Base.{
  Bool, true, false, ◌==◌, List, ◌∷◌, ◌++◌, Option, none, some, ◌≡◌, Text, lit, ok,
}
use arango_cpp.Base.Maps.{lookup}
use arango_cpp.Velocypack.{VPack, value}
use arango_cpp.Requests.{HttpMessage, RestVerb, status_code, status_ok, slices_of, erase_meta}
use arango_cpp.Api.{Client, new_request}
use arango_cpp.Api.Ids.{head}
use arango_cpp.Documents.{Store, put, drop, Choice, IsFair}
use arango_cpp.Collections.{is_error, request_with}

module _ (vp : VPack) where
  pub record HasBody (m : HttpMessage vp) (slice : vp.Slice) : Type 0 where
    pub others : List vp.Slice
    pub body : slices_of vp m ≡ ok (slice ∷ others)

  -- An error answer, with a body that describes it.
  pub record IsRefusal (m : HttpMessage vp) : Type 0 where
    pub error : is_error vp m ≡ true
    pub not_ok : (status_code vp m == status_ok) ≡ false
    pub slice : vp.Slice
    pub has_body : HasBody m slice

  -- An answer with a document.
  pub record IsDocument (m : HttpMessage vp) (json : Text) : Type 0 where
    pub accepted : (status_code vp m == status_ok) ≡ true
    pub slice : vp.Slice
    pub has_body : HasBody m slice
    pub text : vp.to_json slice ≡ value json

  -- An answer with the id of a document.
  pub record IsHandle (m : HttpMessage vp) (id : Text) : Type 0 where
    pub accepted : is_error vp m ≡ false
    pub slice : vp.Slice
    pub has_body : HasBody m slice
    pub field : vp.Slice
    pub get_field : vp.get slice (lit "_id") ≡ value field
    pub field_value : vp.copy_string field ≡ value id

  abbrev pub IsAccepted : HttpMessage vp → Type 0
  IsAccepted m = is_error vp m ≡ false

  abbrev pub HasStatus : Bool → HttpMessage vp → Type 0
  HasStatus found m = (status_code vp m == status_ok) ≡ found

module _ {vp : VPack} {S V : Type 0} (c : Client vp S) (view : S → V) where
  -- The request is answered by a message with `P`, and the data are `store` afterwards.
  pub record Gives (request : HttpMessage vp) (s : S) (P : HttpMessage vp → Type 0) (store : V)
      : Type 0 where
    pub answer : HttpMessage vp
    pub after : S
    pub sent : c.send request s ≡ (ok answer, after)
    pub fits : P answer
    pub now : view after ≡ store

  abbrev pub path_of : Text → Text
  path_of id = lit "/_api/document/" ++ id

  abbrev pub writing : RestVerb → Text → vp.Slice → HttpMessage vp
  writing verb id doc = erase_meta (lit "accept") (request_with c verb (path_of id) doc)

module _ {vp : VPack} {S : Type 0} (c : Client vp S) (view : S → Store)
    (asks : vp.Slice → Option Text) (Keeps : vp.Slice → Text → Type 0) where
  abbrev asking : RestVerb → Text → HttpMessage vp
  asking verb id = new_request c verb (path_of c view id)

  pub record IsServer : Type 1 where
    -- What it chooses at a write depends on all of its state, the revisions so far included.
    pub chosen : S → Choice vp
    pub fair : (s : S) → IsFair vp asks Keeps (chosen s) (view s)
    pub get_found :
        (id json : Text) (s : S)
        → lookup id (view s).documents ≡ some json
        → Gives c view (asking RestVerb.get id) s (λ m. IsDocument vp m json) (view s)
    pub get_missing :
        (id : Text) (s : S)
        → lookup id (view s).documents ≡ none
        → Gives c view (asking RestVerb.get id) s (IsRefusal vp) (view s)
    pub post_new :
        (coll id : Text) (doc : vp.Slice) (s : S)
        → (view s).known coll ≡ true
        → head coll ++ (chosen s).key_of doc ≡ id
        → lookup id (view s).documents ≡ none
        → Gives c view
            (writing c view RestVerb.post coll doc)
            s
            (λ m. IsHandle vp m id)
            (put id ((chosen s).stored id doc) (view s))
    pub post_taken :
        (coll : Text) (doc : vp.Slice) (json : Text) (s : S)
        → (view s).known coll ≡ true
        → lookup (head coll ++ (chosen s).key_of doc) (view s).documents ≡ some json
        → Gives c view (writing c view RestVerb.post coll doc) s (IsRefusal vp) (view s)
    pub post_unknown :
        (coll : Text) (doc : vp.Slice) (s : S)
        → (view s).known coll ≡ false
        → Gives c view (writing c view RestVerb.post coll doc) s (IsRefusal vp) (view s)
    pub put_found :
        (id : Text) (doc : vp.Slice) (json : Text) (s : S)
        → lookup id (view s).documents ≡ some json
        → Gives c view
            (writing c view RestVerb.put id doc)
            s
            (λ m. IsHandle vp m id)
            (put id ((chosen s).stored id doc) (view s))
    pub put_missing :
        (id : Text) (doc : vp.Slice) (s : S)
        → lookup id (view s).documents ≡ none
        → Gives c view (writing c view RestVerb.put id doc) s (IsRefusal vp) (view s)
    pub delete_found :
        (id json : Text) (s : S)
        → lookup id (view s).documents ≡ some json
        → Gives c view (asking RestVerb.delete id) s (IsAccepted vp) (drop id (view s))
    pub delete_missing :
        (id : Text) (s : S)
        → lookup id (view s).documents ≡ none
        → Gives c view (asking RestVerb.delete id) s (IsRefusal vp) (view s)
    pub head_found :
        (id json : Text) (s : S)
        → lookup id (view s).documents ≡ some json
        → Gives c view (asking RestVerb.head id) s (HasStatus vp true) (view s)
    pub head_missing :
        (id : Text) (s : S)
        → lookup id (view s).documents ≡ none
        → Gives c view (asking RestVerb.head id) s (HasStatus vp false) (view s)
