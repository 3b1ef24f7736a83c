-- ===== src/Select/Aql.antt =====
-- `createAQLRequest`: the RETURN clause of the query that is sent.
use arango_cpp.Base.{
  ◌⊎◌, false, none, ◌++◌, ◌≡◌, ◌≢◌, refl, sym, append_assoc, Text, lit, Option-cases, inl, inr,
}
use arango_cpp.Detail.{find}
use arango_cpp.Detail.Find.{find_complete}
use arango_cpp.Query.{ArangoDbQuery, generate_return, generate_return_of}
use arango_cpp.Query.Generate.{generate_return_lem}
use arango_cpp.Base.Maps.{Map}
use arango_cpp.Select.{completed}

return_word :
    (x y : Text) → (lit "\nRETURN " ++ x) ++ y ≡ lit "\n" ++ (lit "RETURN" ++ ((lit " " ++ x) ++ y))
unfolding lit
return_word x y = refl

find-return_word : (t x y : Text) → find (lit "RETURN") (t ++ ((lit "\nRETURN " ++ x) ++ y)) ≢ none
find-return_word t x y =
    rw (return_word x y, sym (append_assoc t (lit "\n") (lit "RETURN" ++ ((lit " " ++ x) ++ y))))
      (find_complete (lit "RETURN") (t ++ lit "\n") ((lit " " ++ x) ++ y))

find-generate_return :
    (t : Text) (fields : Map Text) (v : Text)
    → find (lit "RETURN") (t ++ generate_return false fields v) ≢ none
find-generate_return t fields v = rw (generate_return_lem false fields v) (find-return_word t _ _)

completed-none :
    (q : ArangoDbQuery)
    → find (lit "RETURN") q.find_condition ≡ none
    → completed q ≡ q.find_condition ++ generate_return_of q false (lit "u")
unfolding completed
completed-none q h = rw (completed, h) refl

completed_some :
    (q : ArangoDbQuery)
    → find (lit "RETURN") q.find_condition ≢ none
    → completed q ≡ q.find_condition
unfolding completed
completed_some q h = elim (Option-cases (find (lit "RETURN") q.find_condition)) [
  | inl n ↦ absurd (h n)
  | inr (i, f) ↦ rw (completed, f) refl
]

-- The text that is sent has a RETURN in it, whatever the condition of the query is; and it is the
-- condition itself, unless that has none.
pub completed-has_return :
    (q : ArangoDbQuery)
    → (find (lit "RETURN") (completed q) ≢ none)
      × ((completed q ≡ q.find_condition) ⊎ (find (lit "RETURN") q.find_condition ≡ none))
unfolding generate_return_of
completed-has_return q = elim (Option-cases (find (lit "RETURN") q.find_condition)) [
  | inl n ↦ (
    rw (completed-none q n) (find-generate_return q.find_condition q.query_fields (lit "u")),
    inr n,
  )
  | inr (i, f) ↦
      let h : find (lit "RETURN") q.find_condition ≢ none = (λ n. cc (f, n)) in
      (rw (completed_some q h) h, inl (completed_some q h))
]
