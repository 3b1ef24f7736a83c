-- ===== src/Requests/Errors.antt =====
-- `ARANGO_ERROR_THROW`: what is thrown for an answer with an error status.
use arango_cpp.Base.{List, [], ◌∷◌, ◌≡◌, ◌≢◌, refl, arith, Text, ok}
use arango_cpp.Velocypack.{VPack, attempt}
use arango_cpp.Requests.{arango_error_throw}

module _ (vp : VPack) where
  -- It never returns, and changes no state.
  pub arango_error_throw_lem :
      {S A : Type 0} (slices : List vp.Slice) (message : Text) (s : S)
      → ((a : A) → (arango_error_throw vp {A = A} slices message s).0 ≢ ok a)
        × ((arango_error_throw vp {A = A} slices message s).1 ≡ s)
  unfolding arango_error_throw attempt
  arango_error_throw_lem [] message s = (λ a e. cc, refl)
  arango_error_throw_lem (slice ∷ slices) message s = (λ a. ground arith, ground arith)
