-- ===== src/Documents/Outcomes.antt =====
-- What a caller sees of exceptions: of those that the operations throw for an error answer, and of
-- those that their `try` blocks turn into others.
use arango_cpp.Base.{
  ◌≡◌, refl, ap, ◌∙◌, arith, Text, Fault, Result, ok, err, M, catching, rethrow, arango, velocypack,
  undefined_behaviour, unfinished,
}
use arango_cpp.Velocypack.{VPack, attempt}
use arango_cpp.Requests.{HttpMessage, arango_error_throw}
use arango_cpp.Api.{throw_error}
use arango_cpp.Documents.{Outcome, refused, seen, text_outcome, flag_outcome}
use arango_cpp.Documents.Server.{HasBody, IsRefusal}

-- A `try` block, with a handler whose exceptions the caller sees as a refusal.
module _ (handler : Text → Fault)
    (refuses : (what : Text) → text_outcome (err (handler what)) ≡ refused) where
  rethrow-text_outcome : (r : Result Text) → text_outcome (rethrow handler r) ≡ text_outcome r
  unfolding rethrow text_outcome
  rethrow-text_outcome (ok t) = refl
  rethrow-text_outcome (err (arango t i m)) = refl
  rethrow-text_outcome (err (velocypack w)) = refuses w
  rethrow-text_outcome (err undefined_behaviour) = refl
  rethrow-text_outcome (err unfinished) = refl

  pub catching-seen :
      {S : Type 0} (m : M S Text) (s : S)
      → seen text_outcome (catching handler m s) ≡ seen text_outcome (m s)
  unfolding catching
  catching-seen m s = ap (λ o. (o, (m s).1)) (rethrow-text_outcome (m s).0)

-- What a caller sees, with the data instead of the state.
abbrev pub viewed : {S V : Type 0} → (S → V) → Outcome × S → Outcome × V
viewed view (o, s) = (o, view s)

module _ {vp : VPack} {S : Type 0} where
  throw_error_text :
      (m : HttpMessage vp) (slice : vp.Slice) (message : Text) (s : S)
      → HasBody vp m slice
      → seen text_outcome (throw_error m message s) ≡ (refused, s)
  unfolding throw_error text_outcome arango_error_throw attempt
  throw_error_text m slice message s h = rw h.body (ground arith)

  throw_error_flag :
      (m : HttpMessage vp) (slice : vp.Slice) (message : Text) (s : S)
      → HasBody vp m slice
      → seen flag_outcome (throw_error m message s) ≡ (refused, s)
  unfolding throw_error flag_outcome arango_error_throw attempt
  throw_error_flag m slice message s h = rw h.body (ground arith)

  pub refused_text :
      {V : Type 0} (view : S → V) {m : HttpMessage vp} (g : IsRefusal vp m) (message : Text) {s : S}
      {store : V}
      → view s ≡ store
      → viewed view (seen text_outcome (throw_error m message s)) ≡ (refused, store)
  refused_text {V} view {m} g message {s} e =
      ap (viewed view) (throw_error_text m g.slice message s g.has_body) ∙ ap (λ d. (refused, d)) e

  pub refused_flag :
      {V : Type 0} (view : S → V) {m : HttpMessage vp} (g : IsRefusal vp m) (message : Text) {s : S}
      {store : V}
      → view s ≡ store
      → viewed view (seen flag_outcome (throw_error m message s)) ≡ (refused, store)
  refused_flag {V} view {m} g message {s} e =
      ap (viewed view) (throw_error_flag m g.slice message s g.has_body) ∙ ap (λ d. (refused, d)) e
