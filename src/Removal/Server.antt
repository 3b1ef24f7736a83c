-- ===== src/Removal/Server.antt =====
-- A server that keeps edges, as its documentation describes it, and what Velocypack reads in the
-- templates of `removeEdges`.
use arango_cpp.Base.{
  Bool, true, false, ◌&&◌, ◌||◌, not, List, [], ◌∷◌, ◌≡◌, Text, lit, text_eq, ltb, ◌==◌,
  if◌then◌else◌, length, ℤ, ok,
}
use arango_cpp.Velocypack.{VPack, value}
use arango_cpp.Requests.{HttpMessage, RestVerb, status_code, status_ok, slices_of}
use arango_cpp.Query.{CollectionTypes}
use arango_cpp.Api.{Client, new_request}
use arango_cpp.Collections.{is_error, request_with}
use arango_cpp.Collections.Naming.{Entry, Lists, wanted}
use arango_cpp.Removal.{to_template, from_template}

-- An edge: the collection that it is in, and the ids of the vertices at its ends.
pub record Edge : Type 0 where
  pub coll : Text
  pub to : Text
  pub from : Text

pub data Side : Type 0 where
  to_side : Side
  from_side : Side

abbrev pub ends : Side → Edge → Text
ends to_side e = e.to
ends from_side e = e.from

abbrev pub side_name : Side → Text
side_name to_side = lit "_to"
side_name from_side = lit "_from"

abbrev pub template : Side → Text → Text
template to_side id = to_template id
template from_side id = from_template id

-- The vertex is at an end of the edge.
abbrev pub touches : Text → Edge → Bool
touches id e = text_eq e.to id || text_eq e.from id

-- An edge of the collection with this vertex at this end.
abbrev pub matches : Text → Side → Text → Edge → Bool
matches coll side id e = text_eq e.coll coll && text_eq (ends side e) id

unfoldable pub without : (Edge → Bool) → List Edge → List Edge
without p [] = []
without p (e ∷ es) = let rest = without p es in if p e then rest else e ∷ rest

-- A text that stands for itself between the quotes of JSON: no quote, no backslash and no control
-- character.
unfoldable pub is_plain : Text → Bool
is_plain [] = true
is_plain (x ∷ xs) = (not (x == 34) && not (x == 92)) && (not (ltb x 32) && is_plain xs)

-- What Velocypack reads in a template of one plain text: an object of one field.
pub record ReadsTemplates (vp : VPack) : Type 0 where
  pub read_template :
      (side : Side) (id : Text)
      → is_plain id ≡ true
      → vp.from_json (template side id)
        ≡ value (vp.of_object ((side_name side, vp.of_string id) ∷ []))

module _ (vp : VPack) where
  -- An answer with a list of collections.
  pub record IsListing (entries : List Entry) (m : HttpMessage vp) : Type 0 where
    pub accepted : (status_code vp m == status_ok) ≡ true
    pub slice : vp.Slice
    pub others : List vp.Slice
    pub body : slices_of vp m ≡ ok (slice ∷ others)
    pub list : vp.Slice
    pub get_result : vp.get slice (lit "result") ≡ value list
    pub result_count : vp.count list ≡ value (length entries)
    pub result : Lists vp list 0 entries

  -- An answer with the number of the removed documents.
  pub record IsRemoval (m : HttpMessage vp) : Type 0 where
    pub accepted : is_error vp m ≡ false
    pub slice : vp.Slice
    pub others : List vp.Slice
    pub body : slices_of vp m ≡ ok (slice ∷ others)
    pub field : vp.Slice
    pub get_deleted : vp.get slice (lit "deleted") ≡ value field
    pub number : ℤ
    pub deleted : vp.get_int field ≡ value number

-- The edges are in edge collections of the list.
abbrev pub AreIn : List Entry → List Edge → Type 0
AreIn entries [] = Unit
AreIn entries (e ∷ es) = (wanted CollectionTypes.edge entries e.coll ≡ true) × AreIn entries es

module _ {vp : VPack} {S : Type 0} (c : Client vp S) (entries : List Entry)
    (view : S → List Edge) where
  -- The request is answered by a message with `P`, and the edges are `edges` afterwards.
  pub record Gives (request : HttpMessage vp) (s : S) (P : HttpMessage vp → Type 0)
      (edges : List Edge) : Type 0 where
    pub answer : HttpMessage vp
    pub after : S
    pub sent : c.send request s ≡ (ok answer, after)
    pub fits : P answer
    pub now : view after ≡ edges

  abbrev pub by_example : Text → Side → Text → HttpMessage vp
  by_example coll side id = request_with c RestVerb.put (lit "/_api/simple/remove-by-example") (
      vp.of_object (
        (lit "collection", vp.of_string coll)
        ∷ (lit "example", vp.of_object ((side_name side, vp.of_string id) ∷ []))
        ∷ []))

  -- What the server promises: it lists its collections, and removes from an edge collection the
  -- edges with a vertex at one end.
  pub record IsServer : Type 0 where
    pub list_collections :
        (s : S)
        → Gives
            (new_request c RestVerb.get (lit "/_api/collection"))
            s
            (IsListing vp entries)
            (view s)
    pub remove_by_example :
        (coll : Text) (side : Side) (id : Text) (s : S)
        → wanted CollectionTypes.edge entries coll ≡ true
        → Gives (by_example coll side id) s (IsRemoval vp) (without (matches coll side id) (view s))
