-- ===== src/Select/Cursor.antt =====
-- `selectQuery`, `selectAll` and `collectQuery`: what reaches the vector of results.
use mathlib.Core.List.{flatten}
use arango_cpp.Base.{
  ℕ, ◌≤◌, Bool, List, [], ◌∷◌, ◌++◌, append-nil, append_assoc, ◌≡◌, refl, sym, ap, ◌∙◌, Text,
  length, ok, M,
}
use arango_cpp.Velocypack.{VPack, value, attempt}
use arango_cpp.Requests.{HttpMessage}
use arango_cpp.Query.{ArangoDbQuery, QueryType}
use arango_cpp.Api.{Client}
use arango_cpp.Select.{
  lift_client, keep, visit_json, run_request, simple_all_request, query_request, select_query_list,
}
use arango_cpp.Select.Pages.{PageAs, ServesAs, deliver, Ends-ok, beside, run_request-ServesAs}

-- The JSON text of an entry.
abbrev pub HasJson : (vp : VPack) → vp.Slice → Text → Type 0
HasJson vp e json = vp.to_json e ≡ value json

-- A page of documents, given by their JSON texts.
abbrev pub Page : (vp : VPack) → HttpMessage vp → Bool → List Text → Type 0
Page vp = PageAs vp (HasJson vp)

module _ {vp : VPack} {S : Type 0} (c : Client vp S) where
  -- The server serves pages of documents.
  abbrev pub Serves : HttpMessage vp → S → List (List Text) → S → Type 0
  Serves = ServesAs (HasJson vp) c

  abbrev pub d : Client vp (S × List Text)
  d = lift_client (List Text) c

  -- What `keep` does to the vector.
  unfoldable pub put : Text → M (List Text) (Unit {0})
  put json kept = (ok tt, kept ++ json ∷ [])

  pub visit_json-put :
      (e : vp.Slice) (json : Text) (s : S) (kept : List Text)
      → HasJson vp e json
      → visit_json d keep e (s, kept) ≡ beside s (put json kept)
  unfolding visit_json attempt put
  visit_json-put e json s kept h = rw h refl

  pub deliver-put : (docs kept : List Text) → deliver put docs kept ≡ (ok tt, kept ++ docs)
  unfolding deliver put
  deliver-put [] kept = ap (λ k. (ok tt, k)) (sym (append-nil kept))
  deliver-put (x ∷ docs) kept =
      deliver-put docs (kept ++ x ∷ []) ∙ ap (λ k. (ok tt, k)) (append_assoc kept (x ∷ []) docs)

  -- Every document of every page reaches the vector, in the order of the pages, after exactly the
  -- requests of the pages; one round for each further page is enough. An answer with an error
  -- status ends the loop: what came before it is kept, and nothing is thrown.
  pub run_request-Serves :
      {request : HttpMessage vp} {s s' : S} (pages : List (List Text)) (fuel : ℕ) (kept : List Text)
      → Serves request s pages s'
      → length pages ≤ fuel
      → run_request d (visit_json d keep) fuel request (s, kept)
        ≡ (ok tt, (s', kept ++ flatten pages))
  run_request-Serves pages fuel kept served h =
      Ends-ok
        (run_request-ServesAs (HasJson vp) c (visit_json d keep) put visit_json-put pages fuel kept
          served h)
        (deliver-put (flatten pages) kept)

  -- `selectQuery` for all documents returns the documents of all pages in order.
  pub select_query_list-all :
      (fuel : ℕ) (collname : Text) (q : ArangoDbQuery) {s s' : S} (pages : List (List Text))
      → q.query_type ≡ QueryType.all
      → Serves (simple_all_request c collname) s pages s'
      → length pages ≤ fuel
      → select_query_list c fuel collname q s ≡ (ok (flatten pages), s')
  unfolding select_query_list run_request flatten simple_all_request query_request
  select_query_list-all fuel collname q {s} pages e served h =
      rw e (rw (run_request-Serves pages fuel [] served h) refl)
