-- ===== src/Requests/Header.antt =====
-- src/arangorequests.h and src/arangorequests.cpp: the header of a message.
use arango_cpp.Base.{ℕ, Bool, none, some, List, [], Text, lit, if◌then◌else◌, is_empty}
use arango_cpp.Base.Maps.{Map, lookup, insert}

-- `ArangoDBConnection`'s static members, which hold for the whole program.
pub record Settings : Type 0 where
  pub full_list_of_edges : List Text
  pub use_velocypack_put : Bool
  pub use_velocypack_get : Bool

pub data MessageType : Type 0 where
  undefined request response : MessageType

-- `illegal` is -1, `delete` is 0 and so on up to `options`, 6.
pub data RestVerb : Type 0 where
  illegal delete get post put head patch options : RestVerb

abbrev pub fu_content_type_key : Text
fu_content_type_key = lit "content-type"

abbrev pub fu_accept_key : Text
fu_accept_key = lit "accept"

abbrev pub fu_content_type_vpack : Text
fu_content_type_vpack = lit "application/x-velocypack"

abbrev pub fu_content_type_json : Text
fu_content_type_json = lit "application/json"

abbrev pub status_ok : ℕ
status_ok = 200

abbrev pub status_created : ℕ
status_created = 201

abbrev pub status_accepted : ℕ
status_accepted = 202

abbrev pub status_bad_request : ℕ
status_bad_request = 400

abbrev pub status_not_found : ℕ
status_not_found = 404

pub record MessageHeader : Type 0 where
  pub version : ℕ
  pub type : MessageType
  pub response_code : ℕ
  pub rest_verb : RestVerb
  pub path : Text
  pub parameters : Map Text
  pub meta : Map Text

-- `MessageHeader()`: every number is 0, so that the verb is `Delete`.
abbrev pub empty_header : MessageHeader
empty_header = record {
  version = 0;
  type = undefined;
  response_code = 0;
  rest_verb = delete;
  path = [];
  parameters = [];
  meta = [];
}

-- `metaByKey`; the test for an empty map comes first in the source and decides nothing more.
unfoldable pub meta_by_key : MessageHeader → Text → Text
meta_by_key h key =
    if is_empty h.meta then [] else elim (lookup key h.meta) [ none ↦ [] | some v ↦ v ]

unfoldable pub content_type_string : MessageHeader → Text
unfolding meta_by_key
content_type_string h = meta_by_key h fu_content_type_key

unfoldable pub add_parameter : MessageHeader → Text → Text → MessageHeader
add_parameter h key value = record h { parameters = insert key value h.parameters }

unfoldable pub add_meta : MessageHeader → Text → Text → MessageHeader
add_meta h key value = record h { meta = insert key value h.meta }

unfoldable pub set_content_type : Settings → MessageHeader → MessageHeader
unfolding add_meta
set_content_type settings h =
    let h' = add_meta h fu_content_type_key fu_content_type_vpack in
    if settings.use_velocypack_get then add_meta h' fu_accept_key fu_content_type_vpack else h'
