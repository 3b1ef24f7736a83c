-- ===== src/Users/Listing.antt =====
-- The operations that return a set of names: `databaseNames` and `userNames` of
-- src/arangodbusers.cpp and `graphCollectionNames` of src/arangograph.cpp.
use arango_cpp.Base.{
  ℕ, ◌+◌, Bool, true, false, ◌||◌, List, [], ◌∷◌, ◌≡◌, refl, ap, ◌∙◌, arith, Text, lit, text_eq,
  ◌==◌, length, ok, M,
}
use arango_cpp.Base.Maps.{set_insert}
use arango_cpp.Detail.{contains}
use arango_cpp.Velocypack.{VPack, value, attempt, call, string_at}
use arango_cpp.Requests.{HttpMessage, RestVerb, status_code, status_ok, slices_of, front}
use arango_cpp.Api.{Client, new_request}
use arango_cpp.Collections.Naming.{contains-set_insert}
use arango_cpp.Graph.{names_loop, graph_collection_path, graph_collection_names}
use arango_cpp.Users.{database_names, user_names}
use arango_cpp.Select.Pages.{ListedAs}

-- Databases, users, and the collections of a graph of a type.
pub data Listing : Type 0 where
  databases users : Listing
  parts : Text → Text → Listing

module _ (vp : VPack) where
  -- An entry that is a name, and one that has it under "user".
  abbrev pub IsName : vp.Slice → Text → Type 0
  IsName e name = vp.copy_string e ≡ value name

  pub record IsUser (e : vp.Slice) (name : Text) : Type 0 where
    pub field : vp.Slice
    pub get_field : vp.get e (lit "user") ≡ value field
    pub field_value : vp.copy_string field ≡ value name

  -- An answer with a list of entries for these names, under a key.
  pub record HasNames (Fits : vp.Slice → Text → Type 0) (key : Text) (m : HttpMessage vp)
      (names : List Text) : Type 0 where
    pub accepted : (status_code vp m == status_ok) ≡ true
    pub slice : vp.Slice
    pub others : List vp.Slice
    pub body : slices_of vp m ≡ ok (slice ∷ others)
    pub list : vp.Slice
    pub get_list : vp.get slice key ≡ value list
    pub number : vp.count list ≡ value (length names)
    pub entries : ListedAs vp Fits list 0 names

swap : (a b c : Bool) → (a || (b || c)) ≡ ((b || a) || c)
swap a b c = ground arith

or_false : (a : Bool) → (a || false) ≡ a
or_false a = ground arith

module _ {vp : VPack} {S : Type 0} (c : Client vp S) where
  names_loop_lem :
      (Fits : vp.Slice → Text → Type 0) (name_of : vp.Slice → M S Text)
      → ((e : vp.Slice) (name : Text) (s : S) → Fits e name → name_of e s ≡ (ok name, s))
      → (list : vp.Slice) (ii : ℕ) (names before : List Text) (s : S)
      → ListedAs vp Fits list ii names
      → (all : List Text) × (names_loop c name_of list ii (length names) before s ≡ (ok all, s))
        × ((x : Text) → contains all x ≡ (contains names x || contains before x))
  unfolding names_loop attempt contains
  names_loop_lem Fits name_of fits list ii [] before s h = (before, refl, λ x. refl)
  names_loop_lem Fits name_of fits list ii (name ∷ names) before s ((e, he, hn), hs) =
      let (all, run, found) =
        names_loop_lem Fits name_of fits list (ii + 1) names (set_insert name before) s hs in
      (
        all,
        rw (he, fits e name s hn) run,
        λ x.
            found x
            ∙ ap (λ b. contains names x || b) (contains-set_insert name x before)
            ∙ swap (contains names x) (text_eq x name) (contains before x),
      )

  -- The operation of a listing, its request, and the entries of the answer.
  unfoldable pub listing : Listing → M S (List Text)
  listing databases = database_names c
  listing users = user_names c
  listing (parts graph ctype) = graph_collection_names c graph ctype

  unfoldable pub listing_request : Listing → HttpMessage vp
  listing_request databases = new_request c RestVerb.get (lit "/_api/database")
  listing_request users = new_request c RestVerb.get (lit "/_api/user/")
  listing_request (parts graph ctype) =
      new_request c RestVerb.get (graph_collection_path graph ctype)

  unfoldable pub Names : Listing → HttpMessage vp → List Text → Type 0
  Names databases m names = HasNames vp (IsName vp) (lit "result") m names
  Names users m names = HasNames vp (IsUser vp) (lit "result") m names
  Names (parts graph ctype) m names = HasNames vp (IsName vp) (lit "collections") m names

  -- The three operations send one request and, for an answer that lists names, return a set that
  -- has exactly these names.
  pub listing_lem :
      (l : Listing) (s s' : S) (m : HttpMessage vp) (names : List Text)
      → c.send (listing_request l) s ≡ (ok m, s')
      → Names l m names
      → (all : List Text) × (listing l s ≡ (ok all, s'))
        × ((x : Text) → contains all x ≡ contains names x)
  unfolding listing listing_request Names database_names user_names graph_collection_names front
      attempt contains
  listing_lem databases s s' m names sent h =
      let (all, run, found) =
        names_loop_lem (IsName vp) (λ entry. call (vp.copy_string entry))
          (λ e name s fit. rw fit refl) h.list 0 names [] s' h.entries in
      (
        all,
        rw (sent, h.accepted, h.body, h.get_list, h.number) run,
        λ x. found x ∙ or_false (contains names x),
      )
  listing_lem users s s' m names sent h =
      let (all, run, found) =
        names_loop_lem (IsUser vp) (λ entry. string_at vp entry (lit "user"))
          (λ e name s fit. rw (fit.get_field, fit.field_value) refl) h.list 0 names [] s'
          h.entries in
      (
        all,
        rw (sent, h.accepted, h.body, h.get_list, h.number) run,
        λ x. found x ∙ or_false (contains names x),
      )
  listing_lem (parts graph ctype) s s' m names sent h =
      let (all, run, found) =
        names_loop_lem (IsName vp) (λ entry. call (vp.copy_string entry))
          (λ e name s fit. rw fit refl) h.list 0 names [] s' h.entries in
      (
        all,
        rw (sent, h.accepted, h.body, h.get_list, h.number) run,
        λ x. found x ∙ or_false (contains names x),
      )
