-- ===== src/Programs/Inserts.antt =====
-- The documents that examples/exampleQuery.cpp and examples/exampleSelection.cpp create.
use arango_cpp.Base.{
  ℕ, ◌+◌, none, some, List, [], ◌∷◌, ◌≡◌, ◌≢◌, sym, ap, ◌∙◌, arith, Text, text_eq_iff,
}
use arango_cpp.Base.Maps.{Map, lookup, insert, lookup-insert}
use arango_cpp.Velocypack.{VPack}
use arango_cpp.Documents.{Store, put}

lookup-other : (i j v : Text) (m : Map Text) → i ≢ j → lookup i (insert j v m) ≡ lookup i m
lookup-other i j v m n = rw (lookup-insert i j v m) (ground (arith, n, text_eq_iff i j))

module _ (vp : VPack) (Keeps : vp.Slice → Text → Type 0) (doc_of : ℕ → vp.Slice) where
  -- The documents from this number on have been put in the database one after another, under these
  -- ids, each of which was free then, and with a text that keeps the document.
  pub data Inserted : ℕ → List Text → Store → Store → Type 0 where
    all_in : {ii : ℕ} {store : Store} → Inserted ii [] store store
    one_in :
        {ii : ℕ} {ids : List Text} {store after : Store} (id text : Text)
        → lookup id store.documents ≡ none
        → Keeps (doc_of ii) text
        → Inserted (ii + 1) ids (put id text store) after
        → Inserted ii (id ∷ ids) store after

  -- Nothing that was there has been changed.
  pub Inserted-others :
      {ii : ℕ} {ids : List Text} {store after : Store} (id json : Text)
      → Inserted ii ids store after
      → lookup id store.documents ≡ some json
      → lookup id after.documents ≡ some json
  Inserted-others id json all_in e = e
  Inserted-others id json (one_in {store} new text free keeps rest) e =
      let differ : id ≢ new = λ same.
        absurd (ground (arith, sym free ∙ ap (λ i. lookup i store.documents) (sym same) ∙ e)) in
      Inserted-others id json rest (lookup-other id new text store.documents differ ∙ e)
