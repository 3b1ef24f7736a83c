-- ===== src/Removal/Edges.antt =====
-- `removeEdges` over a server that keeps edges: which of them it removes.
use arango_cpp.Base.{
  Bool, true, false, ◌&&◌, ◌||◌, List, [], ◌∷◌, ◌≡◌, refl, sym, ap, ◌∙◌, arith, Text, text_eq_iff,
  ok, catching, rethrow,
}
use arango_cpp.Detail.{contains}
use arango_cpp.Velocypack.{VPack, attempt}
use arango_cpp.Requests.{front}
use arango_cpp.Query.{CollectionTypes}
use arango_cpp.Api.{Client}
use arango_cpp.Api.Ids.{get_id}
use arango_cpp.Collections.{collection_names}
use arango_cpp.Collections.Naming.{Entry, wanted, collection_names_loop_lem}
use arango_cpp.Removal.{remove_by_template, remove_edges_loop, remove_edges}
use arango_cpp.Removal.Server.{
  Edge, Side, to_side, from_side, template, touches, matches, without, is_plain, ReadsTemplates,
  AreIn, IsServer,
}

without-without :
    (p q : Edge → Bool) (es : List Edge) → without q (without p es) ≡ without (λ e. p e || q e) es
unfolding without
without-without p q [] = refl
without-without p q (e ∷ es) = ground (arith, without-without p q es)

without_ext :
    (p q : Edge → Bool) (es : List Edge) → ((e : Edge) → p e ≡ q e) → without p es ≡ without q es
unfolding without
without_ext p q [] h = refl
without_ext p q (e ∷ es) h = ground (arith, h e, without_ext p q es h)

without_none : (p : Edge → Bool) (es : List Edge) → ((e : Edge) → p e ≡ false) → without p es ≡ es
unfolding without
without_none p [] h = refl
without_none p (e ∷ es) h = ground (arith, h e, without_none p es h)

-- All the edges of a list that are in its collections.
without-AreIn :
    (entries : List Entry) (id : Text) (names : List Text) (es : List Edge)
    → ((x : Text) → wanted CollectionTypes.edge entries x ≡ true → contains names x ≡ true)
    → AreIn entries es
    → without (λ e. contains names e.coll && touches id e) es ≡ without (touches id) es
unfolding without
without-AreIn entries id names [] all h = refl
without-AreIn entries id names (e ∷ es) all (h, hs) =
    ground (arith, all e.coll h, without-AreIn entries id names es all hs)

module _ {vp : VPack} {S : Type 0} (reads : ReadsTemplates vp) (c : Client vp S)
    (entries : List Entry) (view : S → List Edge) (srv : IsServer c entries view) where
  -- One template: the edges with this vertex at this end are gone.
  template_removes :
      (coll : Text) (side : Side) (id : Text) (s : S)
      → is_plain id ≡ true
      → wanted CollectionTypes.edge entries coll ≡ true
      → (s' : S) × (remove_by_template c coll (template side id) s ≡ (ok tt, s'))
        × (view s' ≡ without (matches coll side id) (view s))
  unfolding remove_by_template catching rethrow front attempt
  template_removes coll side id s plain w =
      let g = srv.remove_by_example coll side id s w in
      let f = g.fits in
      (
        g.after,
        rw (reads.read_template side id plain, g.sent, f.body, f.accepted, f.get_deleted, f.deleted)
            refl,
        g.now,
      )

  -- The loop: the edges of these collections that touch the vertex are gone.
  loop_removes :
      (id : Text) (names : List Text) (s : S)
      → is_plain id ≡ true
      → ((x : Text) → contains names x ≡ true → wanted CollectionTypes.edge entries x ≡ true)
      → (s' : S) × (remove_edges_loop c id names s ≡ (ok tt, s'))
        × (view s' ≡ without (λ e. contains names e.coll && touches id e) (view s))
  unfolding remove_edges_loop contains
  loop_removes id [] s plain all = (s, refl, sym (without_none _ (view s) (λ e. refl)))
  loop_removes id (coll ∷ names) s plain all =
      let w = all coll (ground (arith, text_eq_iff coll coll)) in
      let (s1, ran1, now1) = template_removes coll to_side id s plain w in
      let (s2, ran2, now2) = template_removes coll from_side id s1 plain w in
      let (s3, ran3, now3) = loop_removes id names s2 plain (λ x h. all x (ground (arith, h))) in
      (
        s3,
        rw (ran1, ran2) ran3,
        now3
            ∙ ap (without _) (now2 ∙ ap (without _) now1)
            ∙ ap (without _) (without-without _ _ (view s))
            ∙ without-without _ _ (view s)
            ∙ without_ext _ _ (view s) (λ e. ground arith),
      )

  -- `removeEdges` returns, and of all the edges of the database exactly those that have the vertex
  -- at one end are gone, if the id of the vertex is plain text and the edges are in the edge
  -- collections that the server lists.
  pub remove_edges_lem :
      (collname vertexkey : Text) (s : S)
      → is_plain (get_id collname vertexkey) ≡ true
      → AreIn entries (view s)
      → (s' : S) × (remove_edges c collname vertexkey s ≡ (ok tt, s'))
        × (view s' ≡ without (touches (get_id collname vertexkey)) (view s))
  unfolding remove_edges collection_names front attempt contains
  remove_edges_lem collname vertexkey s plain h =
      let g = srv.list_collections s in
      let f = g.fits in
      let id = get_id collname vertexkey in
      let (names, listed, all) =
        collection_names_loop_lem c CollectionTypes.edge f.list 0 entries [] g.after f.result in
      let (s', ran, now) = loop_removes id names g.after plain (λ x w. ground (arith, w, all x)) in
      (
        s',
        rw (g.sent, f.accepted, f.body, f.get_result, f.result_count, listed) ran,
        now
            ∙ ap (without _) g.now
            ∙ without-AreIn entries id names (view s) (λ x w. ground (arith, w, all x)) h,
      )
