-- ===== src/Users/Grants.antt =====
-- The lists of names and the privileges that src/arangodbusers.cpp reads from the server.
use arango_cpp.Base.{
  ℕ, ◌+◌, true, Option, none, some, List, [], ◌∷◌, ◌++◌, ◌≡◌, refl, ap, ◌∙◌, Text, lit, text_eq,
  ◌==◌, length, ok, if◌then◌else◌,
}
use arango_cpp.Base.Maps.{Map, lookup, insert, lookup-insert}
use arango_cpp.Velocypack.{VPack, value, attempt}
use arango_cpp.Requests.{HttpMessage, RestVerb, status_code, status_ok, slices_of, front}
use arango_cpp.Api.{Client, new_request}
use arango_cpp.Users.{databases_of, grants_loop}

-- The privilege that the last entry for a database gives, or else this one.
unfoldable pub last_grant : Text → List (Text × Text) → Option Text → Option Text
last_grant dbname [] before = before
last_grant dbname ((name, grant) ∷ grants) before =
    last_grant dbname grants (if text_eq dbname name then some grant else before)

module _ (vp : VPack) where
  -- From index `ii` on an object holds these databases with these privileges.
  abbrev pub Grants : vp.Slice → ℕ → List (Text × Text) → Type 0
  Grants object ii [] = Unit
  Grants object ii ((name, grant) ∷ grants) =
      ((k : vp.Slice) × (vp.key_at object ii ≡ value k) × (vp.copy_string k ≡ value name))
      × ((v : vp.Slice) × (vp.value_at object ii ≡ value v) × (vp.copy_string v ≡ value grant))
      × Grants object (ii + 1) grants

  -- An answer with a value under "result".
  pub record HasResult (m : HttpMessage vp) (result : vp.Slice) : Type 0 where
    pub accepted : (status_code vp m == status_ok) ≡ true
    pub slice : vp.Slice
    pub others : List vp.Slice
    pub body : slices_of vp m ≡ ok (slice ∷ others)
    pub get_result : vp.get slice (lit "result") ≡ value result

module _ {vp : VPack} {S : Type 0} (c : Client vp S) where
  grants_loop_lem :
      (object : vp.Slice) (ii : ℕ) (grants : List (Text × Text)) (before : Map Text) (s : S)
      → Grants vp object ii grants
      → (dbnames : Map Text) × (grants_loop c object ii (length grants) before s ≡ (ok dbnames, s))
        × ((dbname : Text)
            → lookup dbname dbnames ≡ last_grant dbname grants (lookup dbname before))
  unfolding grants_loop attempt last_grant
  grants_loop_lem object ii [] before s h = (before, refl, λ dbname. refl)
  grants_loop_lem object ii ((name, grant) ∷ grants) before s
        ((k, hk, hname), (v, hv, hgrant), rest) =
      let (dbnames, e, found) =
        grants_loop_lem object (ii + 1) grants (insert name grant before) s rest in
      (
        dbnames,
        rw (hv, hgrant, hk, hname) e,
        λ dbname.
            found dbname ∙ ap (last_grant dbname grants) (lookup-insert dbname name grant before),
      )

  -- `databaseNames(user)` asks for the databases of the user and returns a map in which a database
  -- has the privilege of its last entry in the object of the answer, and the others are missing.
  pub databases_of_lem :
      (user : Text) (s s' : S) (m : HttpMessage vp) (object : vp.Slice)
      (grants : List (Text × Text))
      → c.send (new_request c RestVerb.get ((lit "/_api/user/" ++ user) ++ lit "/database/")) s
        ≡ (ok m, s')
      → HasResult vp m object
      → vp.count object ≡ value (length grants)
      → Grants vp object 0 grants
      → (dbnames : Map Text) × (databases_of c user s ≡ (ok dbnames, s'))
        × ((dbname : Text) → lookup dbname dbnames ≡ last_grant dbname grants none)
  unfolding databases_of front attempt lookup
  databases_of_lem user s s' m object grants sent h number listed =
      let (dbnames, e, found) = grants_loop_lem object 0 grants [] s' listed in
      (dbnames, rw (sent, h.accepted, h.body, h.get_result, number) e, found)
