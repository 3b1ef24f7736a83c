-- ===== src/Programs/Restores.antt =====
-- examples/exampleCRUD.cpp over a server that keeps its promises on single documents.
use arango_cpp.Base.{Option, List, [], ◌∷◌, ◌++◌, ◌≡◌, refl, Text, lit, text_eq}
use arango_cpp.Detail.{find}
use arango_cpp.Velocypack.{VPack, Attempt, value}
use arango_cpp.Api.{Client}
use arango_cpp.Api.Ids.{get_id}
use arango_cpp.Select.{lift_client}
use arango_cpp.Documents.{Store}
use arango_cpp.Documents.Server.{IsServer}

-- The console after these texts have been printed.
unfoldable pub shown : Text → List Text → Text
shown out [] = out
shown out (x ∷ xs) = shown (out ++ x) xs

module _ {vp : VPack} {S : Type 0} (c : Client vp S) {view : S → Store}
    {asks : vp.Slice → Option Text} {Keeps : vp.Slice → Text → Type 0}
    (srv : IsServer c view asks Keeps) (merge : vp.Slice → vp.Slice → Attempt vp.Slice) where
  abbrev id : Text
  id = lit "test/eCRUD"

  full_id : get_id (lit "test") id ≡ id
  unfolding get_id find lit text_eq
  full_id = refl

  -- Velocypack reads the text that is kept for the new document, merges the patch into it, and
  -- writes and reads the result.
  pub record IsEdited (patch : vp.Slice) (text : Text) : Type 0 where
    pub kept : vp.Slice
    pub both : vp.Slice
    pub modified : Text
    pub changed : vp.Slice
    pub parses : vp.from_json text ≡ value kept
    pub merges : merge kept patch ≡ value both
    pub writes : vp.to_json both ≡ value modified
    pub reads : vp.from_json modified ≡ value changed

  -- What the session prints for the text kept first, the modified one, and the one kept last.
  abbrev pub printed : Text → Text → Text → List Text
  printed inserted modified updated =
      lit "Document : <test/eCRUD> exist "
      ∷ (lit "0" ++ lit "\n")
      ∷ ((lit "Inserted document : " ++ id) ++ (lit "\n" ++ (inserted ++ lit "\n")))
      ∷ (lit "Modified document : \n" ++ (modified ++ lit "\n"))
      ∷ ((lit "Updated document :\n" ++ updated) ++ (lit "\n" ++ (id ++ lit "\n")))
      ∷ []

  abbrev beside : Client vp (S × Text)
  beside = lift_client Text c
