-- ===== src/Tests/Users.antt =====
-- Databases and their privileges, and a set of names, from prepared answers.
use arango_cpp.Base.{false, none, List, [], ◌∷◌, ◌≡◌, refl, Text, lit, text_eq, ok}
use arango_cpp.Base.Maps.{Map, lookup}
use arango_cpp.Detail.{contains}
use arango_cpp.Requests.{HttpMessage, read_slices}
use arango_cpp.Users.{databases_of}
use arango_cpp.Users.Grants.{last_grant, databases_of_lem}
use arango_cpp.Users.Listing.{databases, listing, Names, listing_lem}
use arango_cpp.Tests.Samples.{texts, page, doc_vp, doc_get, doc_elem, answer, prepared, server}

abbrev listed : HttpMessage doc_vp
listed = answer 200 (page false [] (lit "b" ∷ lit "a" ∷ lit "b" ∷ []))

listing_lem_example :
    (all : List Text) × (listing server databases (listed ∷ []) ≡ (ok all, []))
    × ((x : Text) → contains all x ≡ contains (lit "b" ∷ lit "a" ∷ lit "b" ∷ []) x)
unfolding Names prepared doc_get doc_elem read_slices lit text_eq
listing_lem_example =
    listing_lem server databases (listed ∷ []) [] listed (lit "b" ∷ lit "a" ∷ lit "b" ∷ []) refl
      (record {
        accepted = refl;
        slice = page false [] (lit "b" ∷ lit "a" ∷ lit "b" ∷ []);
        others = [];
        body = refl;
        list = texts (lit "b" ∷ lit "a" ∷ lit "b" ∷ []);
        get_list = refl;
        number = refl;
        entries = ((_, refl, refl), ((_, refl, refl), ((_, refl, refl), tt)));
      })

databases_of_lem_example :
    (dbnames : Map Text) × (databases_of server (lit "u") (listed ∷ []) ≡ (ok dbnames, []))
    × ((dbname : Text)
        → lookup dbname dbnames
          ≡ last_grant dbname
              ((lit "b", lit "rw") ∷ (lit "a", lit "rw") ∷ (lit "b", lit "rw") ∷ [])
              none)
unfolding prepared doc_get doc_elem read_slices lit text_eq
databases_of_lem_example =
    databases_of_lem server (lit "u") (listed ∷ []) [] listed
      (texts (lit "b" ∷ lit "a" ∷ lit "b" ∷ []))
      ((lit "b", lit "rw") ∷ (lit "a", lit "rw") ∷ (lit "b", lit "rw") ∷ []) refl
      (record {
        accepted = refl;
        slice = page false [] (lit "b" ∷ lit "a" ∷ lit "b" ∷ []);
        others = [];
        body = refl;
        get_result = refl;
      })
      refl
      (
        (_, refl, refl),
        (_, refl, refl),
        ((_, refl, refl), (_, refl, refl), ((_, refl, refl), (_, refl, refl), tt)),
      )
