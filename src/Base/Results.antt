-- ===== src/Base/Results.antt =====
-- Exceptions as values, and actions on a state that survives an exception.
use arango_cpp.Base.Texts.{Text}
use arango_cpp.Base.Int.{ℤ}

-- How a call ends without a result: `arango_exception` with its title, id and message; a
-- `velocypack::Exception` with its message; an exception of another type; what C++ leaves
-- undefined; and a loop that has used up the rounds it was given.
pub data Fault : Type 0 where
  arango : Text → ℤ → Text → Fault
  velocypack : Text → Fault
  undefined_behaviour : Fault
  unfinished : Fault

pub data Result {ℓ} (A : Type ℓ) : Type ℓ where
  ok : A → Result A
  err : Fault → Result A

-- `try { … } catch (velocypack::Exception& error) { throw handler(error.what()) }`
unfoldable pub rethrow : {A : Type 0} → (Text → Fault) → Result A → Result A
rethrow handler (ok a) = ok a
rethrow handler (err (velocypack what)) = err (handler what)
rethrow handler (err (arango title id message)) = err (arango title id message)
rethrow handler (err undefined_behaviour) = err undefined_behaviour
rethrow handler (err unfinished) = err unfinished

abbrev pub M : Type 0 → Type 0 → Type 0
M S A = S → Result A × S

abbrev pub and_then : {S A B : Type 0} → Result A × S → (A → M S B) → Result B × S
and_then (ok a, s) f = f a s
and_then (err e, s) f = (err e, s)

infixl 5 ◌>>=◌ ◌>>◌
abbrev pub ◌>>=◌ : {S A B : Type 0} → M S A → (A → M S B) → M S B
◌>>=◌ m f s = and_then (m s) f

abbrev pub ◌>>◌ : {S B : Type 0} → M S (Unit {0}) → M S B → M S B
m >> k = m >>= λ _. k

abbrev pub pure : {S A : Type 0} → A → M S A
pure a s = (ok a, s)

abbrev pub throw : {S A : Type 0} → Fault → M S A
throw e s = (err e, s)

-- A result that is at hand.
abbrev pub lift : {S A : Type 0} → Result A → M S A
lift r s = (r, s)

-- `rethrow` round an action; what it did to the state stays.
unfoldable pub catching : {S A : Type 0} → (Text → Fault) → M S A → M S A
unfolding rethrow
catching handler m s = let (r, s') = m s in (rethrow handler r, s')
