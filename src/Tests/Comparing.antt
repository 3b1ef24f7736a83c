-- ===== src/Tests/Comparing.antt =====
-- Floating-point numbers of four values, and the comparisons on two of them.
use arango_cpp.Base.{Bool, true, false, not, ◌||◌, ◌&&◌, ◌≡◌, refl, arith}
use arango_cpp.Detail.Comparing.{
  Floating, IsIeee, IsTolerance, approximately_equal, essentially_equal, definitely_greater_than,
  definitely_less_than,
}
use arango_cpp.Detail.Comparing.Agreement.{comparisons_lem}

-- NaN, -1, 0 and 1; a difference beyond these is cut off.
data Value : Type 0 where
  nan : Value
  negative : Value
  nought : Value
  positive : Value

negated : Value → Value
negated nan = nan
negated negative = positive
negated nought = nought
negated positive = negative

difference : Value → Value → Value
unfolding negated
difference nan y = nan
difference nought y = negated y
difference negative nan = nan
difference negative negative = nought
difference negative _ = negative
difference positive nan = nan
difference positive positive = nought
difference positive _ = positive

product : Value → Value → Value
unfolding negated
product nan y = nan
product nought nan = nan
product nought _ = nought
product negative y = negated y
product positive y = y

magnitude : Value → Value
magnitude negative = positive
magnitude x = x

below : Value → Value → Bool
below nan y = false
below negative nan = false
below negative negative = false
below negative _ = true
below nought positive = true
below nought _ = false
below positive y = false

at_most : Value → Value → Bool
at_most nan y = false
at_most negative nan = false
at_most negative _ = true
at_most nought nought = true
at_most nought positive = true
at_most nought _ = false
at_most positive positive = true
at_most positive _ = false

abbrev values : Floating
values = record {
  Number = Value;
  minus = difference;
  times = product;
  fabs = magnitude;
  lt = below;
  le = at_most;
  gt = λ x y. below y x;
}

values-IsIeee : IsIeee values nought
unfolding difference negated magnitude below at_most
values-IsIeee = record {
  refl_of_le = ground arith;
  le_trans = ground arith;
  lt-not-le = ground arith;
  le_total = ground arith;
  gt-lt = λ x y. refl;
  fabs-IsNumber = ground arith;
  fabs_antisym = ground arith;
  le-fabs = ground arith;
  minus-IsNumber = ground arith;
  fabs-minus = ground arith;
  fabs-minus_either = ground arith;
  minus_sign = ground arith;
}

positive-IsTolerance : IsTolerance values nought positive
unfolding product negated magnitude at_most
positive-IsTolerance = record { times_nonneg = ground arith; times_mono = ground arith }

comparisons_lem_example :
    (approximately_equal values positive negative positive
      ≡ approximately_equal values negative positive positive)
    × (essentially_equal values positive negative positive
        ≡ essentially_equal values negative positive positive)
    × (definitely_greater_than values positive negative positive
        ≡ definitely_less_than values negative positive positive)
    × ((essentially_equal values positive negative positive
          && not (approximately_equal values positive negative positive))
        ≡ false)
    × (approximately_equal values positive negative positive
        ≡ not (
            definitely_greater_than values positive negative positive
            || definitely_less_than values positive negative positive))
    × ((definitely_greater_than values positive negative positive
          && definitely_less_than values positive negative positive)
        ≡ false)
unfolding difference at_most negated
comparisons_lem_example =
    comparisons_lem values nought values-IsIeee positive negative positive refl positive-IsTolerance
