-- ===== src/Users/Refines.antt =====
-- The operations on users, over a server that keeps its promises, against the map.
use arango_cpp.Base.{
  false, ◌==◌, Option, Option-cases, List, [], ◌∷◌, inl, inr, ◌≡◌, refl, sym, ap, ◌∙◌, arith, Text,
  Result, ok, err, M, catching, rethrow, arango, velocypack, undefined_behaviour, unfinished,
}
use arango_cpp.Base.Maps.{lookup}
use arango_cpp.Velocypack.{VPack, Attempt, value, exception, Attempt-cases, attempt}
use arango_cpp.Requests.{
  HttpMessage, status_code, status_ok, status_created, status_accepted, arango_error_throw,
}
use arango_cpp.Connection.{ArangoDbUser}
use arango_cpp.Api.{Client, throw_error}
use arango_cpp.Documents.Server.{HasBody, IsRefusal}
use arango_cpp.Users.{
  users_error, extra_fields, exist_user, post_user, create_user, patch_user, update_user,
  remove_user,
}
use arango_cpp.Users.Accounts.{
  Op, create, update, remove, exists, Outcome, refused, unit_outcome, flag_outcome, seen, perform,
  perform_all, Accounts, read_extra, extra_of, apply, apply_all, IsServer,
}

rethrow-unit_outcome :
    (r : Result (Unit {0})) → unit_outcome (rethrow users_error r) ≡ unit_outcome r
unfolding rethrow unit_outcome
rethrow-unit_outcome (ok t) = refl
rethrow-unit_outcome (err (arango t i m)) = refl
rethrow-unit_outcome (err (velocypack w)) = refl
rethrow-unit_outcome (err undefined_behaviour) = refl
rethrow-unit_outcome (err unfinished) = refl

module _ {vp : VPack} {S : Type 0} (c : Client vp S) where
  throw_error-refused :
      (m : HttpMessage vp) (slice : vp.Slice) (message : Text) (s : S)
      → HasBody vp m slice
      → seen unit_outcome (throw_error m message s) ≡ (refused, s)
  unfolding throw_error unit_outcome arango_error_throw attempt
  throw_error-refused m slice message s h = rw h.body (ground arith)

  catching-seen :
      (m : M S (Unit {0})) (s : S)
      → seen unit_outcome (catching users_error m s) ≡ seen unit_outcome (m s)
  unfolding catching
  catching-seen m s = ap (λ o. (o, (m s).1)) (rethrow-unit_outcome (m s).0)

  -- The field for the extra data, as they are read.
  fields : Attempt (Option vp.Slice) → Result (List (Text × vp.Slice))
  fields (value extra) = ok (extra_of vp extra)
  fields (exception what) = err (velocypack what)

  extra_fields_lem :
      (json : Text) (s : S) → extra_fields c json s ≡ (fields (read_extra vp json), s)
  unfolding extra_fields read_extra fields attempt
  extra_fields_lem [] s = refl
  extra_fields_lem (x ∷ json) s = elim (Attempt-cases (vp.from_json (x ∷ json))) [
    | inl (doc, e) ↦ rw (e, read_extra) refl
    | inr (what, e) ↦ rw (e, read_extra) refl
  ]

  module _ {view : S → Accounts vp} (srv : IsServer c view) where
    abbrev viewed : Outcome × S → Outcome × Accounts vp
    viewed (o, s) = (o, view s)

    refused_lem :
        {m : HttpMessage vp} (g : IsRefusal vp m) (message : Text) {s : S} {accounts : Accounts vp}
        → view s ≡ accounts
        → viewed (seen unit_outcome (throw_error m message s)) ≡ (refused, accounts)
    refused_lem {m} g message {s} e =
        ap viewed (throw_error-refused m g.slice message s g.has_body) ∙ ap (λ d. (refused, d)) e

    not_status :
        (m : HttpMessage vp)
        → IsRefusal vp m
        → ((status_code vp m == status_ok) ≡ false)
          × ((status_code vp m == status_created) ≡ false)
          × ((status_code vp m == status_accepted) ≡ false)
    not_status m g = let e = g.error in (ground arith, ground arith, ground arith)

    create_refines :
        (user : ArangoDbUser) (s : S)
        → viewed (perform c (create user) s) ≡ apply vp (create user) (view s)
    unfolding perform apply create_user post_user fields unit_outcome
    create_refines user s =
        ap viewed (catching-seen (post_user c user) s)
        ∙ elim (Attempt-cases (read_extra vp user.extra)) [
          | inr (what, e) ↦ rw (extra_fields_lem user.extra s, e, apply) refl
          | inl (extra, e) ↦ elim (Option-cases (lookup user.name (view s))) [
            | inl n ↦
                let g = srv.post_new user extra s n in
                rw (extra_fields_lem user.extra s, e, apply, n, g.sent, g.fits, g.now) refl
            | inr (old, f) ↦
                let g = srv.post_taken user extra old s f in
                rw (extra_fields_lem user.extra s, e, apply, f, g.sent, (not_status _ g.fits).1)
                  (refused_lem g.fits _ g.now)
          ]
        ]

    update_refines :
        (user : ArangoDbUser) (s : S)
        → viewed (perform c (update user) s) ≡ apply vp (update user) (view s)
    unfolding perform apply update_user patch_user fields unit_outcome
    update_refines user s =
        ap viewed (catching-seen (patch_user c user) s)
        ∙ elim (Attempt-cases (read_extra vp user.extra)) [
          | inr (what, e) ↦ rw (extra_fields_lem user.extra s, e, apply) refl
          | inl (extra, e) ↦ elim (Option-cases (lookup user.name (view s))) [
            | inl n ↦
                let g = srv.patch_missing user extra s n in
                rw (extra_fields_lem user.extra s, e, apply, n, g.sent, (not_status _ g.fits).0)
                  (refused_lem g.fits _ g.now)
            | inr (old, f) ↦
                let g = srv.patch_found user extra old s f in
                rw (extra_fields_lem user.extra s, e, apply, f, g.sent, g.fits, g.now) refl
          ]
        ]

    remove_refines :
        (name : Text) (s : S) → viewed (perform c (remove name) s) ≡ apply vp (remove name) (view s)
    unfolding perform apply remove_user unit_outcome
    remove_refines name s = elim (Option-cases (lookup name (view s))) [
      | inl n ↦
          let g = srv.delete_missing name s n in
          rw (n, g.sent, (not_status _ g.fits).2) (refused_lem g.fits _ g.now)
      | inr (old, f) ↦ let g = srv.delete_found name old s f in rw (f, g.sent, g.fits, g.now) refl
    ]

    exists_refines :
        (name : Text) (s : S) → viewed (perform c (exists name) s) ≡ apply vp (exists name) (view s)
    unfolding perform apply exist_user flag_outcome
    exists_refines name s = elim (Option-cases (lookup name (view s))) [
      | inl n ↦ let g = srv.get_missing name s n in rw (n, g.sent, g.fits, g.now) refl
      | inr (old, f) ↦ let g = srv.get_found name old s f in rw (f, g.sent, g.fits, g.now) refl
    ]

    perform_refines : (op : Op) (s : S) → viewed (perform c op s) ≡ apply vp op (view s)
    perform_refines (create user) s = create_refines user s
    perform_refines (update user) s = update_refines user s
    perform_refines (remove name) s = remove_refines name s
    perform_refines (exists name) s = exists_refines name s

    -- Over a server that keeps its promises on users no sequence of calls of the operations tells
    -- the server from a map of names to accounts: every call returns, or throws, as on the map, and
    -- the users afterwards are those of the map.
    pub users_refine :
        (ops : List Op) (s : S)
        → ((perform_all c ops s).0 ≡ (apply_all vp ops (view s)).0)
          × (view (perform_all c ops s).1 ≡ (apply_all vp ops (view s)).1)
    unfolding perform_all apply_all
    users_refine [] s = (refl, refl)
    users_refine (op ∷ ops) s =
        let (same, now) = users_refine ops (perform c op s).1 in
        let step = sym (perform_refines op s) in
        (rw step (ap (◌∷◌ (perform c op s).0) same), rw step now)
