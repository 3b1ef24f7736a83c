-- ===== src/Tests/Pages.antt =====
-- A callback that throws at its second document.
use mathlib.Core.List.{flatten}
use arango_cpp.Base.{
  ℕ, zero, suc, List, [], ◌∷◌, ◌≡◌, refl, arith, Text, ok, err, undefined_behaviour, M,
}
use arango_cpp.Velocypack.{attempt}
use arango_cpp.Requests.{HttpMessage}
use arango_cpp.Select.{lift_client, visit_json, run_request}
use arango_cpp.Select.Cursor.{HasJson}
use arango_cpp.Select.Pages.{Ends, deliver, beside, run_request-ServesAs}
use arango_cpp.Tests.Cursor.{first_page, last_page, all_request, pages, served}
use arango_cpp.Tests.Samples.{doc_vp, server}

-- The number of the documents so far; the second is refused.
second_refused : Text → M ℕ (Unit {0})
second_refused json zero = (ok tt, 1)
second_refused json (suc n) = (err undefined_behaviour, suc n)

second_visit : doc_vp.Slice → M (List (HttpMessage doc_vp) × ℕ) (Unit {0})
second_visit = visit_json (lift_client ℕ server) (λ json s. beside s.0 (second_refused json s.1))

second_visit_lem :
    (e : doc_vp.Slice) (json : Text) (s : List (HttpMessage doc_vp)) (n : ℕ)
    → HasJson doc_vp e json
    → second_visit e (s, n) ≡ beside s (second_refused json n)
unfolding second_visit visit_json attempt
second_visit_lem e json s n h = rw h refl

run_request-ServesAs_example :
    Ends [] (deliver second_refused (flatten pages) 0) (
      run_request
        (lift_client ℕ server)
        second_visit
        2
        all_request
        (first_page ∷ last_page ∷ [], 0))
run_request-ServesAs_example =
    run_request-ServesAs (HasJson doc_vp) server second_visit second_refused second_visit_lem pages
      2 0 (served all_request) (omega arith)
