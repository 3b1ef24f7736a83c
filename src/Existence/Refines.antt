-- ===== src/Existence/Refines.antt =====
-- `existCollection`, `createCollection` and `dropCollection` of src/arangocollection.cpp over a
-- server that keeps its promises, against the set of names.
use arango_cpp.Base.{
  Bool, true, false, List, [], ◌∷◌, ◌≡◌, refl, sym, ap, ◌∙◌, Bool-cases, inl, inr, Text, text_eq,
  text_eq_iff, if◌then◌else◌, ok,
}
use arango_cpp.Velocypack.{VPack, attempt}
use arango_cpp.Requests.{front}
use arango_cpp.Api.{Client}
use arango_cpp.Collections.{exist_collection, create_collection, drop_collection}
use arango_cpp.Existence.Names.{
  Call, create, drop, test, Reply, unit_reply, flag_reply, Names, put, apply, apply_all, perform,
  perform_all, Keeps,
}

put-same :
    (name key : Text) (b : Bool) (names : Names) → names name ≡ b → put name b names key ≡ names key
unfolding put
put-same name key b names e = elim (Bool-cases (text_eq key name)) [
  | inl t ↦ rw (t, (text_eq_iff key name).0 t, e) refl
  | inr t ↦ rw t refl
]

put-pointwise :
    (name key : Text) (b : Bool) (names names' : Names)
    → ((k : Text) → names k ≡ names' k)
    → put name b names key ≡ put name b names' key
unfolding put
put-pointwise name key b names names' h = ap (λ x. if text_eq key name then b else x) (h key)

module _ {vp : VPack} {S : Type 0} (c : Client vp S) {has : S → Names} (keeps : Keeps c has) where
  -- The test says whether the name is there.
  exists_lem :
      (name : Text) (s : S)
      → (s' : S) × (exist_collection c name s ≡ (ok (has s name), s'))
        × ((key : Text) → has s' key ≡ has s key)
  unfolding exist_collection front attempt
  exists_lem name s = elim (Bool-cases (has s name)) [
    | inl e ↦
        let g = keeps.get_found name s e in
        (
          g.after,
          rw
              (
                e, g.sent, g.fits.found, g.fits.body, g.fits.get_field, g.fits.field_value,
                g.fits.not_deleted,
              )
              refl,
          g.now,
        )
    | inr e ↦ let g = keeps.get_missing name s e in (g.after, rw (e, g.sent, g.fits) refl, g.now)
  ]

  create_lem :
      (name ctype : Text) (s : S) (names : Names)
      → ((key : Text) → has s key ≡ names key)
      → ((perform c (create name ctype) s).0 ≡ (apply (create name ctype) names).0)
        × ((key : Text)
            → has (perform c (create name ctype) s).1 key ≡ (apply (create name ctype) names).1 key)
  unfolding perform apply create_collection unit_reply
  create_lem name ctype s names h =
      let (s', e, same) = exists_lem name s in
      elim (Bool-cases (has s name)) [
        | inl b ↦
            rw (e, b)
              (
                refl,
                λ key. same key ∙ h key ∙ sym (put-same name key true names (sym (h name) ∙ b)),
              )
        | inr b ↦
            let g = keeps.post_new name ctype s' (same name ∙ b) in
            rw (e, b, g.sent, g.fits)
              (
                refl,
                λ key. g.now key ∙ put-pointwise name key true (has s') names (λ k. same k ∙ h k),
              )
      ]

  drop_lem :
      (name : Text) (s : S) (names : Names)
      → ((key : Text) → has s key ≡ names key)
      → ((perform c (drop name) s).0 ≡ (apply (drop name) names).0)
        × ((key : Text) → has (perform c (drop name) s).1 key ≡ (apply (drop name) names).1 key)
  unfolding perform apply drop_collection unit_reply
  drop_lem name s names h =
      let (s', e, same) = exists_lem name s in
      elim (Bool-cases (has s name)) [
        | inl b ↦
            let g = keeps.delete_found name s' (same name ∙ b) in
            rw (e, b, g.sent, g.fits)
              (
                refl,
                λ key. g.now key ∙ put-pointwise name key false (has s') names (λ k. same k ∙ h k),
              )
        | inr b ↦
            rw (e, b)
              (
                refl,
                λ key. same key ∙ h key ∙ sym (put-same name key false names (sym (h name) ∙ b)),
              )
      ]

  step_lem :
      (op : Call) (s : S) (names : Names)
      → ((key : Text) → has s key ≡ names key)
      → ((perform c op s).0 ≡ (apply op names).0)
        × ((key : Text) → has (perform c op s).1 key ≡ (apply op names).1 key)
  step_lem (create name ctype) s names h = create_lem name ctype s names h
  step_lem (drop name) s names h = drop_lem name s names h
  step_lem (test name) s names h =
      let (s', e, same) = exists_lem name s in
      unfold perform apply flag_reply in rw (e) (ap Reply.answer (h name), λ key. same key ∙ h key)

  -- Over a server that keeps its promises about collections no sequence of calls tells it from a
  -- set of names that agrees with it: every reply is that of the set, no call fails, and the
  -- collections agree with the set afterwards.
  pub perform_all-apply_all :
      (ops : List Call) (s : S) (names : Names)
      → ((key : Text) → has s key ≡ names key)
      → ((perform_all c ops s).0 ≡ (apply_all ops names).0)
        × ((key : Text) → has (perform_all c ops s).1 key ≡ (apply_all ops names).1 key)
  unfolding perform_all apply_all
  perform_all-apply_all [] s names h = (refl, h)
  perform_all-apply_all (op ∷ ops) s names h =
      let (reply, now) = step_lem op s names h in
      let (replies, later) = perform_all-apply_all ops (perform c op s).1 (apply op names).1 now in
      (rw (reply, replies) refl, later)
