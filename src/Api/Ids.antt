-- ===== src/Api/Ids.antt =====
-- `getId` and `getKey` of include/arango-cpp/arangocollection.h: document ids `collection/key`.
use arango_cpp.Base.{
  ℕ, ◌+◌, ◌<◌, none, some, [], ◌∷◌, ◌++◌, ◌≡◌, ◌≢◌, inl, inr, refl, ap, arith, Text, lit, length,
  drop, drop-append, length-append, length-drop, Option-cases,
}
use arango_cpp.Detail.{find}
use arango_cpp.Detail.Find.{find-append, find_complete}

-- `collname + "/"`
abbrev pub head : Text → Text
head collname = collname ++ lit "/"

unfoldable pub get_id : Text → Text → Text
get_id collname key = elim (find (head collname) key) [
  | none ↦ head collname ++ key
  | some pos ↦ key
]

unfoldable pub get_key : Text → Text → Text
get_key collname id = elim (find (head collname) id) [
  | none ↦ id
  | some pos ↦ drop (length (head collname)) id
]

get_id_bare : (coll key : Text) → find (head coll) key ≡ none → get_id coll key ≡ head coll ++ key
unfolding get_id
get_id_bare coll key e = rw (e, get_id)

get_id_full : (coll key : Text) → find (head coll) key ≢ none → get_id coll key ≡ key
unfolding get_id
get_id_full coll key h = ground arith

get_key-append : (coll key : Text) → get_key coll (head coll ++ key) ≡ key
unfolding get_key
get_key-append coll key = rw (find-append (head coll) key, get_key) (drop-append (head coll) key)

head_found : (coll key : Text) → find (head coll) (head coll ++ key) ≢ none
head_found coll key = λ e. cc (find-append (head coll) key)

-- An id names its collection: the head stands in it.
pub get_id-holds_head : (coll key : Text) → find (head coll) (get_id coll key) ≢ none
get_id-holds_head coll key = elim (Option-cases (find (head coll) key)) [
  | inl e ↦ rw (get_id_bare coll key e) (head_found coll key)
  | inr (i, e) ↦ rw (get_id_full coll key (λ n. cc)) (λ n. cc)
]

-- Making an id of an id changes nothing.
pub get_id-get_id : (coll key : Text) → get_id coll (get_id coll key) ≡ get_id coll key
get_id-get_id coll key = get_id_full coll (get_id coll key) (get_id-holds_head coll key)

-- A key that does not hold the head goes to an id and back, and the id goes to the key and back.
pub get_key-get_id :
    (coll key : Text)
    → find (head coll) key ≡ none
    → (get_key coll (get_id coll key) ≡ key)
      × (get_id coll (get_key coll (head coll ++ key)) ≡ head coll ++ key)
      × (get_key coll key ≡ key)
unfolding get_key
get_key-get_id coll key e = (
  rw (get_id_bare coll key e) (get_key-append coll key),
  rw (get_key-append coll key) (get_id_bare coll key e),
  rw (e, get_key) refl,
)

length_pos : (s : Text) → s ≢ [] → 0 < length s
length_pos [] h = absurd (h refl)
length_pos (c ∷ s) h = omega arith

get_key_found :
    (coll id : Text) → find (head coll) id ≢ none → get_key coll id ≡ drop (length (head coll)) id
unfolding get_key
get_key_found coll id h = ground arith

-- Where the head stands behind other bytes, `getKey` cuts the id at the wrong place: it removes as
-- many bytes from the front as the head has, so that the result is longer than the key.
pub get_key_misplaced :
    (coll pre key : Text)
    → pre ≢ []
    → (length (get_key coll (pre ++ (head coll ++ key))) ≡ length pre + length key)
      × (get_key coll (pre ++ (head coll ++ key)) ≢ key)
get_key_misplaced coll pre key n =
    (size, λ e. absurd (omega (arith, size, ap (length {0} {A = ℕ}) e, length_pos pre n)))
  where
    id : Text
    id = pre ++ (head coll ++ key)

    size : length (get_key coll id) ≡ length pre + length key
    size =
        rw (get_key_found coll id (find_complete (head coll) pre key), length-drop)
          (omega
            (arith, length-append {0} pre (head coll ++ key), length-append {0} (head coll) key))
