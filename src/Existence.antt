-- ===== src/Existence.antt =====
-- The operations that first ask whether a thing exists: collections, graphs and databases.
pub mod Names
pub mod Refines
use arango_cpp.Base.{
  ℕ, Bool, true, false, not, ◌≡◌, ◌↔◌, refl, arith, List, [], ◌++◌, Text, lit, ltb, ◌==◌, ok, M,
  pure, if◌then◌else◌,
}
use arango_cpp.Velocypack.{VPack}
use arango_cpp.Requests.{HttpMessage, RestVerb, status_code, status_ok, status_accepted}
use arango_cpp.Requests.Errors.{arango_error_throw_lem}
use arango_cpp.Connection.{ArangoDbUser}
use arango_cpp.Api.{Client, new_request, throw_error}
use arango_cpp.Collections.{exist_collection, create_collection, drop_collection}
use arango_cpp.Graph.{graph_path, exist_graph, create_graph, remove_graph}
use arango_cpp.Users.{exist_database, create_database, remove_database}

-- A collection with its type; a graph with its edge definitions, and whether its collections are
-- dropped with it; a database with its users.
pub data Thing : Type 0 where
  collection : Text → Thing
  graph : Text → Bool → Thing
  database : List ArangoDbUser → Thing

module _ {vp : VPack} {S : Type 0} (c : Client vp S) where
  -- The three operations of a thing, the request that removes it, and the answers to that request
  -- that count as errors.
  unfoldable pub exists_of : Thing → Text → M S Bool
  exists_of (collection ctype) name = exist_collection c name
  exists_of (graph definitions drop) name = exist_graph c name
  exists_of (database users) name = exist_database c name

  unfoldable pub create_of : Thing → Text → M S (Unit {0})
  create_of (collection ctype) name = create_collection c name ctype
  create_of (graph definitions drop) name = create_graph c name definitions
  create_of (database users) name = create_database c name users

  unfoldable pub remove_of : Thing → Text → M S (Unit {0})
  remove_of (collection ctype) name = drop_collection c name
  remove_of (graph definitions drop) name = remove_graph c name drop
  remove_of (database users) name = remove_database c name

  unfoldable pub removal_of : Thing → Text → HttpMessage vp
  removal_of (collection ctype) name =
      new_request c RestVerb.delete (lit "/_api/collection/" ++ name)
  removal_of (graph definitions drop) name =
      new_request c RestVerb.delete
        (graph_path name ++ (if drop then lit "?dropCollections=true" else []))
  removal_of (database users) name = new_request c RestVerb.delete (lit "/_api/database/" ++ name)

  unfoldable pub refuses : Thing → ℕ → Bool
  refuses (graph definitions drop) status = ltb status_accepted status
  refuses _ status = not (status == status_ok)

  -- Creating a thing that exists, and removing one that does not, returns after the test for it:
  -- nothing more is sent, also if the JSON of the new thing is bad.
  pub unneeded_lem :
      (thing : Thing) (name : Text) (exists : Bool) (s s' : S)
      → exists_of thing name s ≡ (ok exists, s')
      → (if exists then create_of thing name s else remove_of thing name s) ≡ (ok tt, s')
  unfolding exists_of create_of remove_of create_collection create_graph create_database
      drop_collection remove_graph remove_database
  unneeded_lem (collection ctype) name true s s' e = rw e
  unneeded_lem (collection ctype) name false s s' e = rw e
  unneeded_lem (graph definitions drop) name true s s' e = rw e
  unneeded_lem (graph definitions drop) name false s s' e = rw e
  unneeded_lem (database users) name true s s' e = rw e
  unneeded_lem (database users) name false s s' e = rw e

  -- The end of the removals: an exception if the answer is an error.
  settled :
      (refused : Bool) (m : HttpMessage vp) (message : Text) (s : S)
      → let r = (if refused then throw_error m message else pure tt) s in
        (r.1 ≡ s) × ((r.0 ≡ ok tt) ↔ (refused ≡ false))
  unfolding throw_error
  settled false m message s = (refl, (λ e. refl, λ e. refl))
  settled true m message s = (
    grind (arith, arango_error_throw_lem),
    (λ e. absurd (grind (arith, arango_error_throw_lem)), λ e. cc),
  )

  -- A thing that exists is removed by one request more. The operation returns exactly if the
  -- answer is no error, and throws otherwise; nothing is sent after that answer.
  pub remove_lem :
      (thing : Thing) (name : Text) (s s' s'' : S) (m : HttpMessage vp)
      → exists_of thing name s ≡ (ok true, s')
      → c.send (removal_of thing name) s' ≡ (ok m, s'')
      → ((remove_of thing name s).1 ≡ s'')
        × (((remove_of thing name s).0 ≡ ok tt) ↔ (refuses thing (status_code vp m) ≡ false))
  unfolding exists_of remove_of removal_of refuses drop_collection remove_graph remove_database
  remove_lem (collection ctype) name s s' s'' m e sent =
      rw (e, sent) (settled (not (status_code vp m == status_ok)) m _ s'')
  remove_lem (graph definitions drop) name s s' s'' m e sent =
      rw (e, sent) (settled (ltb status_accepted (status_code vp m)) m _ s'')
  remove_lem (database users) name s s' s'' m e sent =
      rw (e, sent) (settled (not (status_code vp m == status_ok)) m _ s'')
