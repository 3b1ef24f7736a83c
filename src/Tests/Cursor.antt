-- ===== src/Tests/Cursor.antt =====
-- A result in two pages.
use arango_cpp.Base.{true, false, List, [], ◌∷◌, refl, Text, lit, text_eq}
use arango_cpp.Requests.{HttpMessage, read_slices}
use arango_cpp.Query.{ArangoDbQuery, query_of_type, QueryType}
use arango_cpp.Select.{simple_all_request}
use arango_cpp.Select.Cursor.{HasJson, Page, Serves}
use arango_cpp.Select.Pages.{Leads, last, more}
use arango_cpp.Tests.Samples.{
  flag, text, texts, page, doc_vp, doc_get, doc_elem, answer, prepared, server,
}

abbrev pub first_page : HttpMessage doc_vp
first_page = answer 201 (page true (lit "17") (lit "{1}" ∷ lit "{2}" ∷ []))

abbrev pub last_page : HttpMessage doc_vp
last_page = answer 200 (page false [] (lit "{3}" ∷ []))

unfoldable pub first-Page : Page doc_vp first_page true (lit "{1}" ∷ lit "{2}" ∷ [])
unfolding doc_get doc_elem read_slices lit text_eq
first-Page = record {
  accepted = refl;
  slice = page true (lit "17") (lit "{1}" ∷ lit "{2}" ∷ []);
  others = [];
  answered = refl;
  flag = flag true;
  get_flag = refl;
  flag_value = refl;
  found = texts (lit "{1}" ∷ lit "{2}" ∷ []);
  get_found = refl;
  number = refl;
  entries = ((_, refl, refl), ((_, refl, refl), tt));
}

pub last-Page : Page doc_vp last_page false (lit "{3}" ∷ [])
unfolding doc_get doc_elem read_slices lit text_eq
last-Page = record {
  accepted = refl;
  slice = page false [] (lit "{3}" ∷ []);
  others = [];
  answered = refl;
  flag = flag false;
  get_flag = refl;
  flag_value = refl;
  found = texts (lit "{3}" ∷ []);
  get_found = refl;
  number = refl;
  entries = ((_, refl, refl), tt);
}

pub first-Leads :
    Leads doc_vp (HasJson doc_vp) (page true (lit "17") (lit "{1}" ∷ lit "{2}" ∷ [])) (lit "17")
unfolding doc_get lit text_eq
first-Leads = record { label = text (lit "17"); get_label = refl; label_value = refl }

abbrev pub pages : List (List Text)
pages = (lit "{1}" ∷ lit "{2}" ∷ []) ∷ (lit "{3}" ∷ []) ∷ []

pub served :
    (request : HttpMessage doc_vp) → Serves server request (first_page ∷ last_page ∷ []) pages []
unfolding prepared first-Page
served request = more refl first-Page first-Leads (last refl last-Page)

abbrev pub all_request : HttpMessage doc_vp
all_request = simple_all_request server (lit "c")

abbrev all_query : ArangoDbQuery
all_query = query_of_type QueryType.all
