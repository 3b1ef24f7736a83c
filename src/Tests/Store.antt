-- ===== src/Tests/Store.antt =====
-- A server over a map of ids to texts.
use arango_cpp.Base.{
  ℕ, zero, suc, ◌+◌, ◌<◌, Bool, true, false, not, Option, none, some, List, [], ◌∷◌, ◌++◌, ◌≡◌,
  refl, ap, arith, Text, lit, text_eq, text_eq_iff, length, length-append, take, drop, pos, negsuc,
  ok, if◌then◌else◌,
}
use arango_cpp.Base.Maps.{Map, lookup, insert, erase}
use arango_cpp.Velocypack.{VPack, value, exception}
use arango_cpp.Requests.{HttpMessage, RestVerb, empty_header, response}
use arango_cpp.Api.{Client}
use arango_cpp.Api.Ids.{head}
use arango_cpp.Documents.{Store, Choice, IsFair}
use arango_cpp.Tests.Samples.{some_settings}

-- The value of the second field.
unfoldable pub second_value : List (Text × Text) → Text
second_value [] = []
second_value (f ∷ []) = []
second_value (f ∷ g ∷ fields) = g.1

-- Values that are texts: the JSON text, or the value of any field.
abbrev pub text_vp : VPack
text_vp = record {
  Slice = Text;
  from_json = λ t. value t;
  to_json = λ s. value s;
  is_none = λ s. false;
  is_object = λ s. false;
  has_key = λ s key. value false;
  get = λ s key. value s;
  get_int = λ s. value (pos 3);
  get_bool = λ s. exception [];
  copy_string = λ s. value s;
  count = λ s. exception [];
  elem = λ s ii. exception [];
  key_at = λ s ii. exception [];
  value_at = λ s ii. exception [];
  bytes = λ s. s;
  byte_size = λ s. length s;
  at_cursor = λ t. t;
  reset_to = λ t n. t;
  of_string = λ t. t;
  of_bool = λ b. [];
  of_int = λ i. elim i [ pos n ↦ n ∷ [] | negsuc n ↦ [] ];
  of_array = λ ss. [];
  of_object = second_value;
}

abbrev pub answer_of : ℕ → Text → HttpMessage text_vp
answer_of status body = record {
  header = record empty_header { type = response; response_code = status };
  payload = [];
  payload_length = 0;
  slices = body ∷ [];
}

-- As many bytes as the ids of a map have together, and one more: no id is as long.
unfoldable pub weight : Map Text → ℕ
weight [] = 0
weight ((id, json) ∷ store) = length id + weight store

unfoldable pub zeros : ℕ → Text
zeros zero = []
zeros (suc n) = 48 ∷ zeros n

length-zeros : (n : ℕ) → length (zeros n) ≡ n
unfolding zeros
length-zeros zero = refl
length-zeros (suc n) = ap suc (length-zeros n)

text_eq-length : (s t : Text) → length t < length s → text_eq s t ≡ false
text_eq-length s t l = ground (arith, text_eq_iff s t, l)

-- A key that the server makes.
unfoldable pub new_key : Map Text → Text
new_key store = zeros (suc (weight store))

lookup-longer : (id : Text) (store : Map Text) → weight store < length id → lookup id store ≡ none
unfolding lookup weight
lookup-longer id [] l = refl
lookup-longer id ((j, json) ∷ store) l =
    let other : text_eq id j ≡ false = text_eq-length id j (omega (arith, l)) in
    rw other (lookup-longer id store (omega (arith, l)))

pub new_key-free :
    (before : Text) (store : Map Text) → lookup (before ++ new_key store) store ≡ none
unfolding new_key
new_key-free before store =
    lookup-longer (before ++ new_key store) store
      (omega (arith, length-append {0} before (new_key store), length-zeros (suc (weight store))))

-- The text that is kept: the document, and a revision behind it.
unfoldable pub kept_text : Map Text → Text → Text
kept_text store doc = doc ++ zeros (weight store)

abbrev pub Keeps : Text → Text → Type 0
Keeps doc text = (revision : Text) × (text ≡ doc ++ revision)

unfoldable pub key_for : Option Text → Map Text → Text
key_for none store = new_key store
key_for (some key) store = key

abbrev pub choice : (Text → Option Text) → Map Text → Choice text_vp
choice asks store = record {
  key_of = λ doc. key_for (asks doc) store;
  stored = λ id doc. kept_text store doc;
}

-- There is no collection with the name `none`.
abbrev pub known : Text → Bool
known coll = not (text_eq coll (lit "none"))

abbrev pub database : Map Text → Store
database store = record { documents = store; known = known }

pub choice-IsFair :
    (asks : Text → Option Text) (store : Map Text)
    → IsFair text_vp asks Keeps (choice asks store) (database store)
unfolding key_for kept_text
choice-IsFair asks store = record {
  asked = λ doc key e. ap (λ o. key_for o store) e;
  free = λ coll doc e. rw e (new_key-free (head coll) store);
  kept = λ id doc. (zeros (weight store), refl);
}

-- The id that a request is about: what stands behind `/_api/document/`.
id_of : HttpMessage text_vp → Text
id_of m = drop 15 m.header.path

unfoldable pub reply :
    RestVerb → Bool → Text → Text → Option Text → Map Text → HttpMessage text_vp × Map Text
reply RestVerb.get k id doc none store = (answer_of 404 [], store)
reply RestVerb.get k id doc (some json) store = (answer_of 200 json, store)
reply RestVerb.post false id doc old store = (answer_of 404 [], store)
reply RestVerb.post true id doc none store = (answer_of 201 id, insert id doc store)
reply RestVerb.post true id doc (some json) store = (answer_of 409 [], store)
reply RestVerb.put k id doc none store = (answer_of 404 [], store)
reply RestVerb.put k id doc (some json) store = (answer_of 201 id, insert id doc store)
reply RestVerb.delete k id doc none store = (answer_of 404 [], store)
reply RestVerb.delete k id doc (some json) store = (answer_of 200 [], erase id store)
reply _ k id doc none store = (answer_of 404 [], store)
reply _ k id doc (some json) store = (answer_of 200 [], store)

-- The id of the document that a request is about; `key` is that of a new document.
unfoldable pub full_id : RestVerb → Text → Text → Text
full_id RestVerb.post coll key = head coll ++ key
full_id _ id key = id

-- A request that is not about a document is answered with an empty body. A document may ask for its
-- key.
unfoldable pub sent_to :
    (Text → Option Text) → HttpMessage text_vp → Map Text → HttpMessage text_vp × Map Text
unfolding reply full_id id_of
sent_to asks m store =
    let id = full_id m.header.rest_verb (id_of m) (key_for (asks m.payload) store) in
    if text_eq (take 15 m.header.path) (lit "/_api/document/")
    then reply m.header.rest_verb (known (id_of m)) id (kept_text store m.payload) (lookup id store)
        store
    else (answer_of 200 [], store)

abbrev pub store_client : (Text → Option Text) → Client text_vp (Map Text)
store_client asks = record {
  send = λ m store. let (r, store') = sent_to asks m store in (ok r, store');
  settings = some_settings;
  batch_size = pos 500;
}
