-- ===== src/Detail/Comparing.antt =====
-- The comparisons of floating-point numbers in src/arangodetail.h. The numbers are a parameter: a
-- record of the operations that the code uses, with the laws of IEEE 754 that the theorems need.
pub mod Agreement
use arango_cpp.Base.{
  Bool, true, false, not, ◌||◌, ◌&&◌, ◌≡◌, refl, sym, ap, ◌∙◌, arith, ◌⊎◌, inl, inr, Bool-cases,
  if◌then◌else◌,
}

-- The operations of the type `T`; `fabs` is that of the C library.
pub record Floating : Type 1 where
  pub Number : Type 0
  pub minus : Number → Number → Number
  pub times : Number → Number → Number
  pub fabs : Number → Number
  pub lt : Number → Number → Bool
  pub le : Number → Number → Bool
  pub gt : Number → Number → Bool

module _ (f : Floating) where
  -- `fabs(a) < fabs(b) ? fabs(b) : fabs(a)`
  unfoldable pub larger : f.Number → f.Number → f.Number
  larger a b = if f.lt (f.fabs a) (f.fabs b) then f.fabs b else f.fabs a

  -- `fabs(a) > fabs(b) ? fabs(b) : fabs(a)`
  unfoldable pub smaller : f.Number → f.Number → f.Number
  smaller a b = if f.gt (f.fabs a) (f.fabs b) then f.fabs b else f.fabs a

  unfoldable pub approximately_equal : f.Number → f.Number → f.Number → Bool
  unfolding larger
  approximately_equal a b epsilon = f.le (f.fabs (f.minus a b)) (f.times (larger a b) epsilon)

  unfoldable pub essentially_equal : f.Number → f.Number → f.Number → Bool
  unfolding smaller
  essentially_equal a b epsilon = f.le (f.fabs (f.minus a b)) (f.times (smaller a b) epsilon)

  unfoldable pub definitely_greater_than : f.Number → f.Number → f.Number → Bool
  unfolding larger
  definitely_greater_than a b epsilon = f.gt (f.minus a b) (f.times (larger a b) epsilon)

  unfoldable pub definitely_less_than : f.Number → f.Number → f.Number → Bool
  unfolding larger
  definitely_less_than a b epsilon = f.gt (f.minus b a) (f.times (larger a b) epsilon)

  -- The value is not NaN.
  abbrev pub IsNumber : f.Number → Type 0
  IsNumber x = f.le x x ≡ true

  -- What IEEE 754 says of these operations, for values that are not NaN where a law
  -- needs it; `nought` is the positive zero.
  pub record IsIeee (nought : f.Number) : Type 0 where
    pub refl_of_le : (x y : f.Number) → f.le x y ≡ true → IsNumber x × IsNumber y
    pub le_trans : (x y z : f.Number) → f.le x y ≡ true → f.le y z ≡ true → f.le x z ≡ true
    pub lt-not-le : (x y : f.Number) → IsNumber x → IsNumber y → f.lt x y ≡ not (f.le y x)
    pub le_total :
        (x y : f.Number) → IsNumber x → IsNumber y → (f.le x y ≡ true) ⊎ (f.le y x ≡ true)
    pub gt-lt : (x y : f.Number) → f.gt x y ≡ f.lt y x
    pub fabs-IsNumber : (x : f.Number) → IsNumber x → IsNumber (f.fabs x)
    pub fabs_antisym :
        (x y : f.Number)
        → f.le (f.fabs x) (f.fabs y) ≡ true
        → f.le (f.fabs y) (f.fabs x) ≡ true
        → f.fabs x ≡ f.fabs y
    pub le-fabs : (x : f.Number) → IsNumber x → f.le x (f.fabs x) ≡ true
    pub minus-IsNumber :
        (a b : f.Number) → IsNumber (f.minus a b) → IsNumber a × IsNumber b × IsNumber (f.minus b a)
    pub fabs-minus : (a b : f.Number) → f.fabs (f.minus a b) ≡ f.fabs (f.minus b a)
    pub fabs-minus_either :
        (a b : f.Number)
        → IsNumber (f.minus a b)
        → (f.fabs (f.minus a b) ≡ f.minus a b) ⊎ (f.fabs (f.minus a b) ≡ f.minus b a)
    pub minus_sign :
        (a b : f.Number)
        → IsNumber (f.minus a b)
        → (f.le (f.minus a b) nought ≡ true) ⊎ (f.le (f.minus b a) nought ≡ true)

  -- What it says of a factor that is positive and finite: the product with an absolute value is
  -- not NaN and not negative, and keeps the order.
  pub record IsTolerance (nought epsilon : f.Number) : Type 0 where
    pub times_nonneg : (x : f.Number) → IsNumber x → f.le nought (f.times (f.fabs x) epsilon) ≡ true
    pub times_mono :
        (x y : f.Number)
        → f.le (f.fabs x) (f.fabs y) ≡ true
        → f.le (f.times (f.fabs x) epsilon) (f.times (f.fabs y) epsilon) ≡ true
