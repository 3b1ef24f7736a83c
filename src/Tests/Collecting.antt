-- ===== src/Tests/Collecting.antt =====
-- What queries collect from two pages, and that they end.
use mathlib.Core.List.{flatten}
use arango_cpp.Base.{
  ℕ, suc, ◌≤◌, ◌<◌, true, false, List, [], ◌∷◌, ◌++◌, ◌≡◌, refl, ap, arith, Text, lit, text_eq, ok,
}
use arango_cpp.Api.{Client}
use arango_cpp.Requests.{HttpMessage, read_slices}
use arango_cpp.Select.{lift_client, keep, visit_json, run_request, collect_query}
use arango_cpp.Select.Cursor.{HasJson}
use arango_cpp.Requests.Slices.{never_Stalls}
use arango_cpp.Select.Pages.{PageAs, Leads, ServesAs, last, more}
use arango_cpp.Select.Collecting.{
  HasJsonAndId, non_null, plain_aql, distinct_query, collect_query_lem,
}
use arango_cpp.Select.Finite.{
  EndsWithin, then-EndsWithin, attempt-EndsWithin, run_request-EndsWithin,
}
use arango_cpp.Tests.Cursor.{first_page, last_page, all_request}
use arango_cpp.Tests.Samples.{
  flag, text, texts, page, doc_vp, doc_get, doc_elem, answer, prepared, server,
}

abbrev kept_server : Client doc_vp (List (HttpMessage doc_vp) × List Text)
kept_server = lift_client (List Text) server

abbrev documents : List (List (Text × Text))
documents =
    ((lit "{1}", lit "c/{1}") ∷ (lit "{2}", lit "c/{2}") ∷ [])
    ∷ ((lit "{3}", lit "c/{3}") ∷ [])
    ∷ []

unfoldable first-PageAs :
    PageAs doc_vp
      (HasJsonAndId doc_vp)
      first_page
      true
      ((lit "{1}", lit "c/{1}") ∷ (lit "{2}", lit "c/{2}") ∷ [])
unfolding doc_get doc_elem read_slices lit text_eq
first-PageAs = record {
  accepted = refl;
  slice = page true (lit "17") (lit "{1}" ∷ lit "{2}" ∷ []);
  others = [];
  answered = refl;
  flag = flag true;
  get_flag = refl;
  flag_value = refl;
  found = texts (lit "{1}" ∷ lit "{2}" ∷ []);
  get_found = refl;
  number = refl;
  entries = (
    (
      _,
      refl,
      record { field = text (lit "c/{1}"); get_field = refl; field_value = refl; json = refl },
    ),
    (
      (
        _,
        refl,
        record { field = text (lit "c/{2}"); get_field = refl; field_value = refl; json = refl },
      ),
      tt,
    ),
  );
}

last-PageAs : PageAs doc_vp (HasJsonAndId doc_vp) last_page false ((lit "{3}", lit "c/{3}") ∷ [])
unfolding doc_get doc_elem read_slices lit text_eq
last-PageAs = record {
  accepted = refl;
  slice = page false [] (lit "{3}" ∷ []);
  others = [];
  answered = refl;
  flag = flag false;
  get_flag = refl;
  flag_value = refl;
  found = texts (lit "{3}" ∷ []);
  get_found = refl;
  number = refl;
  entries = (
    (
      _,
      refl,
      record { field = text (lit "c/{3}"); get_field = refl; field_value = refl; json = refl },
    ),
    tt,
  );
}

first-Leads :
    Leads doc_vp
      (HasJsonAndId doc_vp)
      (page true (lit "17") (lit "{1}" ∷ lit "{2}" ∷ []))
      (lit "17")
unfolding doc_get lit text_eq
first-Leads = record { label = text (lit "17"); get_label = refl; label_value = refl }

served_documents :
    (request : HttpMessage doc_vp)
    → ServesAs (HasJsonAndId doc_vp) server request (first_page ∷ last_page ∷ []) documents []
unfolding prepared first-PageAs
served_documents request = more refl first-PageAs first-Leads (last refl last-PageAs)

-- The values of a field, with a null.
abbrev values_page : HttpMessage doc_vp
values_page = answer 201 (page false [] (lit "1" ∷ lit "null" ∷ lit "2" ∷ []))

values-PageAs :
    PageAs doc_vp (HasJson doc_vp) values_page false (lit "1" ∷ lit "null" ∷ lit "2" ∷ [])
unfolding doc_get doc_elem read_slices lit text_eq
values-PageAs = record {
  accepted = refl;
  slice = page false [] (lit "1" ∷ lit "null" ∷ lit "2" ∷ []);
  others = [];
  answered = refl;
  flag = flag false;
  get_flag = refl;
  flag_value = refl;
  found = texts (lit "1" ∷ lit "null" ∷ lit "2" ∷ []);
  get_found = refl;
  number = refl;
  entries = ((_, refl, refl), ((_, refl, refl), ((_, refl, refl), tt)));
}

served_values :
    (request : HttpMessage doc_vp)
    → ServesAs
        (HasJson doc_vp)
        server
        request
        (values_page ∷ [])
        ((lit "1" ∷ lit "null" ∷ lit "2" ∷ []) ∷ [])
        []
unfolding prepared
served_values request = last refl values-PageAs

collect_query_lem_example :
    collect_query server 1 (lit "c") (lit "f") (values_page ∷ [], lit "0" ∷ [])
    ≡ (ok tt, ([], lit "0" ∷ lit "1" ∷ lit "2" ∷ []))
unfolding non_null flatten lit text_eq
collect_query_lem_example =
    collect_query_lem server 1 (lit "c") (lit "f") (lit "0" ∷ [])
      ((lit "1" ∷ lit "null" ∷ lit "2" ∷ []) ∷ [])
      (served_values (plain_aql server (distinct_query (lit "c") (lit "f")))) (omega arith)

-- The answers that are left.
abbrev left : List (HttpMessage doc_vp) × List Text → ℕ
left ([], kept) = 0
left (r ∷ rs, kept) = suc (left (rs, kept))

left_same :
    (ms : List (HttpMessage doc_vp)) (kept kept' : List Text) → left (ms, kept) ≡ left (ms, kept')
left_same [] kept kept' = refl
left_same (m ∷ ms) kept kept' = ap suc (left_same ms kept kept')

keep_json-EndsWithin :
    (bound : ℕ) (json : Text) (ms : List (HttpMessage doc_vp)) (kept : List Text)
    → left (ms, kept) ≤ bound
    → EndsWithin left bound (keep json (ms, kept))
keep_json-EndsWithin bound json ms kept h = record {
  finished = λ q. cc;
  within = let same = left_same ms kept (kept ++ json ∷ []) in omega (arith, same, h);
}

keep-EndsWithin :
    (e : doc_vp.Slice) (s : List (HttpMessage doc_vp) × List Text)
    → EndsWithin left (left s) (visit_json kept_server keep e s)
unfolding visit_json
keep-EndsWithin e s =
    then-EndsWithin left (left s) _ (λ json. keep json)
      (attempt-EndsWithin left (left s) (doc_vp.to_json e) s (omega arith))
      (λ json s1 h. keep_json-EndsWithin (left s) json s1.0 s1.1 h)

sends-EndsWithin :
    (m : HttpMessage doc_vp) (s : List (HttpMessage doc_vp) × List Text)
    → EndsWithin left (left s) (kept_server.send m s)
unfolding prepared
sends-EndsWithin m ([], kept) = record { finished = λ q. cc; within = omega arith }
sends-EndsWithin m (r ∷ rs, kept) = record { finished = λ q. cc; within = omega arith }

answer_less :
    (m : HttpMessage doc_vp) (s s' : List (HttpMessage doc_vp) × List Text)
    (result : HttpMessage doc_vp)
    → kept_server.send m s ≡ (ok result, s')
    → left s' < left s
unfolding prepared
answer_less m ([], kept) s' result e = absurd (ground (arith, e))
answer_less m (r ∷ rs, kept) s' result e = ground (arith, e)

run_request-EndsWithin_example : EndsWithin left 2 (
    run_request kept_server
      (visit_json kept_server keep)
      3
      all_request
      (first_page ∷ last_page ∷ [], []))
run_request-EndsWithin_example =
    run_request-EndsWithin kept_server left (visit_json kept_server keep) keep-EndsWithin
      sends-EndsWithin (λ m s s' result sent. never_Stalls doc_vp (λ e q. ground (arith, q)))
      (λ id s s' result sent fine. answer_less _ s s' result sent) 3 all_request
      (first_page ∷ last_page ∷ [], []) (omega arith)
