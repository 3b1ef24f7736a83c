-- ===== src/Handles.antt =====
-- Keys and ids as arguments: `getId` and `getKey` inside the operations.
use arango_cpp.Base.{List, [], ◌∷◌, map, none, ◌≡◌, refl, ap, Text, lit, All}
use arango_cpp.Detail.{find}
use arango_cpp.Velocypack.{VPack}
use arango_cpp.Api.{Client}
use arango_cpp.Api.Ids.{head, get_id, get_key, get_key-get_id, get_id-get_id}
use arango_cpp.Collections.{read_document, update_document, delete_document, exists_document}
use arango_cpp.Removal.{keys_object, remove_edges, remove_by_keys}
use arango_cpp.Graph.{read_record, update_record, delete_record}

module _ {vp : VPack} {S : Type 0} (c : Client vp S) where
  -- An operation on one document or record takes the id that `getId` makes of a key for the key:
  -- with either it sends the same requests and returns the same.
  pub get_id_accepted :
      (coll key : Text) (s : S)
      → let id = get_id coll key in
        (read_document c coll id s ≡ read_document c coll key s)
        × ((json : Text) → update_document c coll id json s ≡ update_document c coll key json s)
        × (delete_document c coll id s ≡ delete_document c coll key s)
        × (exists_document c coll id s ≡ exists_document c coll key s)
        × (remove_edges c coll id s ≡ remove_edges c coll key s)
        × ((g t : Text) → read_record c g t coll id s ≡ read_record c g t coll key s)
        × ((g t json : Text)
            → update_record c g t coll id json s ≡ update_record c g t coll key json s)
        × ((g t : Text) → delete_record c g t coll id s ≡ delete_record c g t coll key s)
  unfolding read_document update_document delete_document exists_document remove_edges read_record
      update_record delete_record
  get_id_accepted coll key s =
      let e = get_id-get_id coll key in
      (
        rw e refl,
        λ json. rw e refl,
        rw e refl,
        rw e refl,
        rw e refl,
        λ g t. rw e refl,
        λ g t json. rw e refl,
        λ g t. rw e refl,
      )

  -- A key that is not yet an id of the collection.
  abbrev pub IsKey : Text → Text → Type 0
  IsKey coll key = find (head coll) key ≡ none

  get_key-map :
      (coll : Text) (keys : List Text)
      → All (IsKey coll) keys
      → map (get_key coll) (map (get_id coll) keys) ≡ map (get_key coll) keys
  get_key-map coll [] h = refl
  get_key-map coll (k ∷ keys) (hk, hs) =
      let (back, _, same) = get_key-get_id coll k hk in
      rw (back, same, get_key-map coll keys hs) refl

  keys_object-get_id :
      (coll : Text) (keys : List Text)
      → All (IsKey coll) keys
      → keys_object c coll (map (get_id coll) keys) ≡ keys_object c coll keys
  unfolding keys_object
  keys_object-get_id coll keys h =
      ap
        (λ ks. vp.of_object (
          (lit "collection", vp.of_string coll)
          ∷ (lit "keys", vp.of_array (map vp.of_string ks))
          ∷ []))
        (get_key-map coll keys h)

  -- `removeByKeys` sends the same request for keys and for their ids.
  pub remove_by_keys-get_id :
      (coll : Text) (keys : List Text) (s : S)
      → All (IsKey coll) keys
      → remove_by_keys c coll (map (get_id coll) keys) s ≡ remove_by_keys c coll keys s
  unfolding remove_by_keys
  remove_by_keys-get_id coll keys s h = rw (keys_object-get_id coll keys h) refl
