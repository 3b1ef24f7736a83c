-- ===== src/Documents/Beside.antt =====
-- The operations on single documents over a client with something beside its state: what they
-- return and leave where nothing goes wrong.
use arango_cpp.Base.{
  true, false, Option, none, some, ◌++◌, ◌≡◌, refl, Text, Result, ok, catching, rethrow,
}
use arango_cpp.Base.Maps.{lookup}
use arango_cpp.Velocypack.{VPack, value, attempt}
use arango_cpp.Requests.{front}
use arango_cpp.Api.{Client}
use arango_cpp.Api.Ids.{head, get_id}
use arango_cpp.Collections.{
  create_document, read_document, update_document, delete_document, exists_document, write_document,
}
use arango_cpp.Select.{lift_client}
use arango_cpp.Documents.{Store, put, drop}
use arango_cpp.Documents.Server.{IsServer}

module _ {vp : VPack} {S : Type 0} {D : Type 0} (c : Client vp S) {view : S → Store}
    {asks : vp.Slice → Option Text} {Keeps : vp.Slice → Text → Type 0}
    (srv : IsServer c view asks Keeps) where
  abbrev beside_client : Client vp (S × D)
  beside_client = lift_client D c

  -- A call that returns `a`, with these documents afterwards, and nothing changed beside.
  pub record Leaves {A : Type 0} (x : Result A × (S × D)) (a : A) (d : D) (store : Store)
      : Type 0 where
    pub after : S
    pub same : x ≡ (ok a, (after, d))
    pub now : view after ≡ store

  pub exists-missing :
      (coll key i : Text) (s : S) (d : D)
      → get_id coll key ≡ i
      → lookup i (view s).documents ≡ none
      → Leaves (exists_document beside_client coll key (s, d)) false d (view s)
  unfolding exists_document
  exists-missing coll key i s d h n =
      let g = srv.head_missing i s n in
      record { after = g.after; same = rw (h, g.sent, g.fits) refl; now = g.now }

  pub create-new :
      (coll json i : Text) (doc : vp.Slice) (s : S) (d : D)
      → (view s).known coll ≡ true
      → head coll ++ (srv.chosen s).key_of doc ≡ i
      → vp.from_json json ≡ value doc
      → lookup i (view s).documents ≡ none
      → Leaves
          (create_document beside_client coll json (s, d))
          i
          d
          (put i ((srv.chosen s).stored i doc) (view s))
  unfolding create_document write_document front attempt catching rethrow
  create-new coll json i doc s d k h e n =
      let g = srv.post_new coll i doc s k h n in
      record {
        after = g.after;
        same =
            rw
              (
                e, g.sent, g.fits.has_body.body, g.fits.accepted, g.fits.get_field,
                g.fits.field_value,
              )
              refl;
        now = g.now;
      }

  pub read-found :
      (coll key i json : Text) (s : S) (d : D)
      → get_id coll key ≡ i
      → lookup i (view s).documents ≡ some json
      → Leaves (read_document beside_client coll key (s, d)) json d (view s)
  unfolding read_document front attempt
  read-found coll key i json s d h f =
      let g = srv.get_found i json s f in
      record {
        after = g.after;
        same = rw (h, g.sent, g.fits.has_body.body, g.fits.accepted, g.fits.text) refl;
        now = g.now;
      }

  pub update-found :
      (coll key i json before : Text) (doc : vp.Slice) (s : S) (d : D)
      → get_id coll key ≡ i
      → vp.from_json json ≡ value doc
      → lookup i (view s).documents ≡ some before
      → Leaves
          (update_document beside_client coll key json (s, d))
          i
          d
          (put i ((srv.chosen s).stored i doc) (view s))
  unfolding update_document write_document front attempt catching rethrow
  update-found coll key i json before doc s d h e f =
      let g = srv.put_found i doc before s f in
      record {
        after = g.after;
        same =
            rw
              (
                h, e, g.sent, g.fits.has_body.body, g.fits.accepted, g.fits.get_field,
                g.fits.field_value,
              )
              refl;
        now = g.now;
      }

  pub delete-found :
      (coll key i json : Text) (s : S) (d : D)
      → get_id coll key ≡ i
      → lookup i (view s).documents ≡ some json
      → Leaves (delete_document beside_client coll key (s, d)) true d (drop i (view s))
  unfolding delete_document
  delete-found coll key i json s d h f =
      let g = srv.delete_found i json s f in
      record { after = g.after; same = rw (h, g.sent, g.fits) refl; now = g.now }
