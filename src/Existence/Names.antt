-- ===== src/Existence/Names.antt =====
-- The collections of a database as a set of names: `existCollection`, `createCollection` and
-- `dropCollection` of src/arangocollection.cpp against that set.
use arango_cpp.Base.{
  Bool, true, false, List, [], ◌∷◌, ◌++◌, ◌≡◌, Text, lit, text_eq, ◌==◌, if◌then◌else◌, ℤ, pos,
  int_eq, to_int, Result, ok, err,
}
use arango_cpp.Velocypack.{VPack, value}
use arango_cpp.Requests.{HttpMessage, RestVerb, status_code, status_ok, status_not_found, slices_of}
use arango_cpp.Api.{Client, new_request}
use arango_cpp.Collections.{
  request_with, collection_object, exist_collection, create_collection, drop_collection,
}

-- A call: the name, and the type of a new collection.
pub data Call : Type 0 where
  create : Text → Text → Call
  drop : Text → Call
  test : Text → Call

-- What a caller sees.
pub data Reply : Type 0 where
  done : Reply
  answer : Bool → Reply
  failed : Reply

unfoldable pub unit_reply : Result (Unit {0}) → Reply
unit_reply (ok u) = done
unit_reply (err e) = failed

unfoldable pub flag_reply : Result Bool → Reply
flag_reply (ok b) = answer b
flag_reply (err e) = failed

-- A set of names, and the same set with or without a name.
abbrev pub Names : Type 0
Names = Text → Bool

unfoldable pub put : Text → Bool → Names → Names
put name b names key = if text_eq key name then b else names key

-- A call on a set. None fails: what is there is not created again, and what is not there need not be
-- dropped.
unfoldable pub apply : Call → Names → Reply × Names
apply (create name ctype) names = (done, put name true names)
apply (drop name) names = (done, put name false names)
apply (test name) names = (answer (names name), names)

unfoldable pub apply_all : List Call → Names → List Reply × Names
apply_all [] names = ([], names)
apply_all (op ∷ ops) names =
    let (r, names') = apply op names in
    let (rs, names'') = apply_all ops names' in (r ∷ rs, names'')

-- An answer that describes a collection, one that is not deleted.
pub record IsPresent (vp : VPack) (m : HttpMessage vp) : Type 0 where
  pub found : (status_code vp m == status_not_found) ≡ false
  pub slice : vp.Slice
  pub others : List vp.Slice
  pub body : slices_of vp m ≡ ok (slice ∷ others)
  pub field : vp.Slice
  pub get_field : vp.get slice (lit "status") ≡ value field
  pub status : ℤ
  pub field_value : vp.get_int field ≡ value status
  pub not_deleted : int_eq (to_int status) (pos 5) ≡ false

abbrev pub IsAbsent : (vp : VPack) → HttpMessage vp → Type 0
IsAbsent vp m = (status_code vp m == status_not_found) ≡ true

abbrev pub IsDone : (vp : VPack) → HttpMessage vp → Type 0
IsDone vp m = (status_code vp m == status_ok) ≡ true

module _ {vp : VPack} {S : Type 0} (c : Client vp S) where
  unfoldable pub perform : Call → S → Reply × S
  perform (create name ctype) s =
      let (r, s') = create_collection c name ctype s in (unit_reply r, s')
  perform (drop name) s = let (r, s') = drop_collection c name s in (unit_reply r, s')
  perform (test name) s = let (r, s') = exist_collection c name s in (flag_reply r, s')

  unfoldable pub perform_all : List Call → S → List Reply × S
  perform_all [] s = ([], s)
  perform_all (op ∷ ops) s =
      let (r, s') = perform op s in let (rs, s'') = perform_all ops s' in (r ∷ rs, s'')

  module _ (has : S → Names) where
    -- The request is answered by a message with `P`; the collections are these afterwards.
    pub record Answers (request : HttpMessage vp) (s : S) (P : HttpMessage vp → Type 0)
        (names : Names) : Type 0 where
      pub result : HttpMessage vp
      pub after : S
      pub sent : c.send request s ≡ (ok result, after)
      pub fits : P result
      pub now : (key : Text) → has after key ≡ names key

    -- What the server promises about collections.
    pub record Keeps : Type 0 where
      pub get_found :
          (name : Text) (s : S)
          → has s name ≡ true
          → Answers
              (new_request c RestVerb.get (lit "/_api/collection/" ++ name))
              s
              (IsPresent vp)
              (has s)
      pub get_missing :
          (name : Text) (s : S)
          → has s name ≡ false
          → Answers
              (new_request c RestVerb.get (lit "/_api/collection/" ++ name))
              s
              (IsAbsent vp)
              (has s)
      pub post_new :
          (name ctype : Text) (s : S)
          → has s name ≡ false
          → Answers
              (request_with c RestVerb.post
                (lit "/_api/collection")
                (collection_object c name ctype))
              s
              (IsDone vp)
              (put name true (has s))
      pub delete_found :
          (name : Text) (s : S)
          → has s name ≡ true
          → Answers
              (new_request c RestVerb.delete (lit "/_api/collection/" ++ name))
              s
              (IsDone vp)
              (put name false (has s))
