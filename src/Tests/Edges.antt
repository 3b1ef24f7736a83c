-- ===== src/Tests/Edges.antt =====
-- A server that keeps edges, and the removal of those of a vertex.
use arango_cpp.Base.{
  ◌-◌, ◌==◌, Bool, false, ◌&&◌, List, [], ◌∷◌, ◌++◌, ◌≡◌, refl, ap, ◌∙◌, arith, Text, lit, text_eq,
  if◌then◌else◌, length, length-append, take, drop, take-append, drop-append, ℤ, pos, int_eq, ok,
}
use arango_cpp.Detail.{begins, find}
use arango_cpp.Velocypack.{VPack, Attempt, value}
use arango_cpp.Requests.{
  HttpMessage, RestVerb, response, empty_header, create_request, add_vpack, read_slices,
}
use arango_cpp.Query.{selects}
use arango_cpp.Api.{Client}
use arango_cpp.Api.Ids.{get_id}
use arango_cpp.Collections.Naming.{Entry, Describes, wanted}
use arango_cpp.Removal.{remove_edges}
use arango_cpp.Removal.Server.{
  Edge, Side, to_side, from_side, template, side_name, matches, touches, without, is_plain,
  ReadsTemplates, IsServer,
}
use arango_cpp.Removal.Edges.{remove_edges_lem}
use arango_cpp.Tests.Samples.{
  Doc, text, number, flag, collection, collections, listing, doc_vp, doc_get, doc_elem,
  some_settings,
}

-- The value of a template: 0 or 1 for the side, and the id.
unfoldable read_json : Text → Text
read_json t =
    if begins (lit "{\"_to\": \"") t
    then (let rest = drop 9 t in 0 ∷ take (length rest - 3) rest)
    else (let rest = drop 11 t in 1 ∷ take (length rest - 3) rest)

plain : Doc → Text
plain (text t) = t
plain _ = []

-- An object of one field as such a value, one of two as the length of the first and both values.
fields_text : List (Text × Doc) → Text
unfolding plain
fields_text [] = []
fields_text (f ∷ []) = (if text_eq f.0 (lit "_to") then 0 else 1) ∷ plain f.1
fields_text (f ∷ g ∷ fields) = length (plain f.1) ∷ plain f.1 ++ plain g.1

edge_get : Doc → Text → Attempt Doc
edge_get d key = if text_eq key (lit "deleted") then value (number (pos 1)) else doc_get d key

abbrev edge_vp : VPack
edge_vp = record doc_vp {
  from_json = λ t. value (text (read_json t));
  get = edge_get;
  bytes = plain;
  of_object = λ fields. text (fields_text fields);
}

abbrev reply : Doc → HttpMessage edge_vp
reply d = record {
  header = record empty_header { type = response; response_code = 200 };
  payload = [];
  payload_length = 0;
  slices = d ∷ [];
}

is_example : Text → Edge → Bool
is_example [] e = false
is_example (side ∷ id) e = text_eq (if side == 0 then e.to else e.from) id

-- What is left when the edges of a collection that fit an example are removed.
removed : Text → List Edge → List Edge
removed [] es = es
removed (n ∷ rest) es = without (λ e. text_eq e.coll (take n rest) && is_example (drop n rest) e) es

abbrev entries : List Entry
entries = (false, pos 2, lit "v") ∷ (false, pos 3, lit "e") ∷ (false, pos 3, lit "f") ∷ []

handle : RestVerb → Text → List Edge → HttpMessage edge_vp × List Edge
handle RestVerb.put payload es = (reply (listing []), removed payload es)
handle _ payload es = (reply (listing entries), es)

abbrev edge_client : Client edge_vp (List Edge)
edge_client = record {
  send = λ m es. let (r, es') = handle m.header.rest_verb m.payload es in (ok r, es');
  settings = some_settings;
  batch_size = pos 500;
}

cut_end : (id end : Text) → take (length (id ++ end) - length end) (id ++ end) ≡ id
cut_end id end =
    let e : length (id ++ end) - length end ≡ length id = omega (arith, length-append id end) in
    ap (λ n. take n (id ++ end)) e ∙ take-append id end

read_template_lem :
    (side : Side) (id : Text)
    → edge_vp.from_json (template side id)
      ≡ value (edge_vp.of_object ((side_name side, edge_vp.of_string id) ∷ []))
unfolding lit read_json begins fields_text plain text_eq
read_template_lem to_side id = ap (λ t. value (text (0 ∷ t))) (cut_end id (lit "\" }"))
read_template_lem from_side id = ap (λ t. value (text (1 ∷ t))) (cut_end id (lit "\" }"))

edge_reads : ReadsTemplates edge_vp
edge_reads = record { read_template = λ side id h. read_template_lem side id }

removed_lem :
    (coll : Text) (side : Side) (id : Text) (es : List Edge)
    → removed
        (fields_text (
          (lit "collection", text coll)
          ∷ (lit "example", text (fields_text ((side_name side, text id) ∷ [])))
          ∷ []))
        es
      ≡ without (matches coll side id) es
unfolding removed fields_text plain is_example lit text_eq
removed_lem coll to_side id es = rw (take-append coll (0 ∷ id), drop-append coll (0 ∷ id)) refl
removed_lem coll from_side id es = rw (take-append coll (1 ∷ id), drop-append coll (1 ∷ id)) refl

entry-Describes :
    (type : ℤ) (name : Text) → Describes edge_vp (collection false type name) (false, type, name)
unfolding edge_get doc_get lit text_eq
entry-Describes type name = record {
  system = flag false;
  get_system = refl;
  system_value = refl;
  type = number type;
  get_type = refl;
  type_value = refl;
  name = text name;
  get_name = refl;
  name_value = refl;
}

abbrev stored : List Edge → List Edge
stored es = es

edge_IsServer : IsServer edge_client entries stored
unfolding handle edge_get doc_get doc_elem lit text_eq plain create_request read_slices add_vpack
    removed
edge_IsServer = record {
  list_collections = λ es. record {
    answer = reply (listing entries);
    after = es;
    sent = refl;
    fits = record {
      accepted = refl;
      slice = listing entries;
      others = [];
      body = refl;
      list = collections entries;
      get_result = refl;
      result_count = refl;
      result = (
        (_, refl, entry-Describes (pos 2) (lit "v")),
        (
          (_, refl, entry-Describes (pos 3) (lit "e")),
          ((_, refl, entry-Describes (pos 3) (lit "f")), tt),
        ),
      );
    };
    now = refl;
  };
  remove_by_example = λ coll side id es w. record {
    answer = reply (listing []);
    after = without (matches coll side id) es;
    sent = ap (λ es'. (ok (reply (listing [])), es')) (removed_lem coll side id es);
    fits = record {
      accepted = refl;
      slice = listing [];
      others = [];
      body = refl;
      field = number (pos 1);
      get_deleted = refl;
      number = pos 1;
      deleted = refl;
    };
    now = refl;
  };
}

abbrev edges : List Edge
edges =
    record { coll = lit "e"; to = lit "v/1"; from = lit "v/2" }
    ∷ record { coll = lit "f"; to = lit "v/2"; from = lit "v/3" }
    ∷ record { coll = lit "f"; to = lit "v/3"; from = lit "v/1" }
    ∷ []

remove_edges_lem_example :
    (s' : List Edge) × (remove_edges edge_client (lit "v") (lit "1") edges ≡ (ok tt, s'))
    × (s' ≡ without (touches (get_id (lit "v") (lit "1"))) edges)
unfolding is_plain get_id lit text_eq int_eq wanted selects find begins
remove_edges_lem_example =
    remove_edges_lem edge_reads edge_client entries stored edge_IsServer (lit "v") (lit "1") edges
      refl (refl, (refl, (refl, tt)))
