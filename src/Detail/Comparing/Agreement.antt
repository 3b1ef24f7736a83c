-- ===== src/Detail/Comparing/Agreement.antt =====
-- How the four comparisons of floating-point numbers agree.
use arango_cpp.Base.{
  Bool, true, false, not, ◌||◌, ◌&&◌, ◌≡◌, refl, sym, ap, ◌∙◌, arith, ◌⊎◌, inl, inr, Bool-cases,
}
use arango_cpp.Detail.Comparing.{
  Floating, larger, smaller, approximately_equal, essentially_equal, definitely_greater_than,
  definitely_less_than, IsNumber, IsIeee, IsTolerance,
}

not_only : (p q : Bool) → (p ≡ true → q ≡ true) → (p && not q) ≡ false
not_only true q h = rw (h refl) refl
not_only false q h = refl

module _ (f : Floating) (nought : f.Number) (ieee : IsIeee f nought) where
  -- The larger one of two absolute values is not below any of them, and is one of them.
  larger_lem :
      (a b : f.Number)
      → IsNumber f a
      → IsNumber f b
      → (c : f.Number) × (larger f a b ≡ f.fabs c)
        × IsNumber f c
        × (f.le (f.fabs a) (f.fabs c) ≡ true)
        × (f.le (f.fabs b) (f.fabs c) ≡ true)
        × ((f.fabs c ≡ f.fabs a) ⊎ (f.fabs c ≡ f.fabs b))
  unfolding larger
  larger_lem a b ha hb =
      let na = ieee.fabs-IsNumber a ha in
      let nb = ieee.fabs-IsNumber b hb in
      let e = ieee.lt-not-le (f.fabs a) (f.fabs b) na nb in
      let t = ieee.le_total (f.fabs a) (f.fabs b) na nb in
      elim (Bool-cases (f.lt (f.fabs a) (f.fabs b))) [
        | inl h ↦ (b, rw h refl, hb, ground arith, nb, inr refl)
        | inr h ↦ (a, rw h refl, ha, na, ground arith, inl refl)
      ]

  smaller_lem :
      (a b : f.Number)
      → IsNumber f a
      → IsNumber f b
      → (c : f.Number) × (smaller f a b ≡ f.fabs c)
        × IsNumber f c
        × (f.le (f.fabs c) (f.fabs a) ≡ true)
        × (f.le (f.fabs c) (f.fabs b) ≡ true)
        × ((f.fabs c ≡ f.fabs a) ⊎ (f.fabs c ≡ f.fabs b))
  unfolding smaller
  smaller_lem a b ha hb =
      let na = ieee.fabs-IsNumber a ha in
      let nb = ieee.fabs-IsNumber b hb in
      let e = ieee.lt-not-le (f.fabs b) (f.fabs a) nb na in
      let g = ieee.gt-lt (f.fabs a) (f.fabs b) in
      let t = ieee.le_total (f.fabs a) (f.fabs b) na nb in
      elim (Bool-cases (f.gt (f.fabs a) (f.fabs b))) [
        | inl h ↦ (b, rw h refl, hb, ground arith, nb, inr refl)
        | inr h ↦ (a, rw h refl, ha, na, ground arith, inl refl)
      ]

  larger_comm : (a b : f.Number) → IsNumber f a → IsNumber f b → larger f a b ≡ larger f b a
  larger_comm a b ha hb =
      let (c, e, hc, ca, cb, one) = larger_lem a b ha hb in
      let (d, e', hd, db, da, one') = larger_lem b a hb ha in
      e
      ∙ ieee.fabs_antisym c d (elim one [ inl h ↦ rw h da | inr h ↦ rw h db ])
          (elim one' [ inl h ↦ rw h cb | inr h ↦ rw h ca ])
      ∙ sym e'

  smaller_comm : (a b : f.Number) → IsNumber f a → IsNumber f b → smaller f a b ≡ smaller f b a
  smaller_comm a b ha hb =
      let (c, e, hc, ca, cb, one) = smaller_lem a b ha hb in
      let (d, e', hd, db, da, one') = smaller_lem b a hb ha in
      e
      ∙ ieee.fabs_antisym c d (elim one' [ inl h ↦ rw h cb | inr h ↦ rw h ca ])
          (elim one [ inl h ↦ rw h da | inr h ↦ rw h db ])
      ∙ sym e'

  -- A bound on the larger one of two numbers.
  le_either :
      (x y z bound : f.Number)
      → (z ≡ x) ⊎ (z ≡ y)
      → f.le x z ≡ true
      → f.le y z ≡ true
      → f.le z bound ≡ not (not (f.le x bound) || not (f.le y bound))
  le_either x y z bound either hx hy =
      let up : f.le z bound ≡ true → f.le x bound ≡ true = λ h. ieee.le_trans x z bound hx h in
      let up' : f.le z bound ≡ true → f.le y bound ≡ true = λ h. ieee.le_trans y z bound hy h in
      elim either [
        | inl e ↦ let same = ap (λ w. f.le w bound) e in grind (arith, up, up')
        | inr e ↦ let same = ap (λ w. f.le w bound) e in grind (arith, up, up')
      ]

  -- The difference of two numbers against a bound that is not negative.
  minus_bound :
      (a b bound : f.Number)
      → IsNumber f (f.minus a b)
      → f.le nought bound ≡ true
      → (f.le (f.fabs (f.minus a b)) bound
          ≡ not (f.gt (f.minus a b) bound || f.gt (f.minus b a) bound))
        × ((f.gt (f.minus a b) bound && f.gt (f.minus b a) bound) ≡ false)
  minus_bound a b bound hd p =
      let hd' = (ieee.minus-IsNumber a b hd).2 in
      let n = (ieee.refl_of_le nought bound p).1 in
      let gd = ieee.gt-lt (f.minus a b) bound ∙ ieee.lt-not-le bound (f.minus a b) n hd in
      let gd' = ieee.gt-lt (f.minus b a) bound ∙ ieee.lt-not-le bound (f.minus b a) n hd' in
      let not_above : (f.le (f.minus a b) bound ≡ true) ⊎ (f.le (f.minus b a) bound ≡ true) =
        elim (ieee.minus_sign a b hd) [
          | inl h ↦ inl (ieee.le_trans _ _ _ h p)
          | inr h ↦ inr (ieee.le_trans _ _ _ h p)
        ] in
      (
        rw (gd, gd')
            (le_either _ _ _ bound (ieee.fabs-minus_either a b hd) (ieee.le-fabs (f.minus a b) hd)
              (rw (ieee.fabs-minus a b) (ieee.le-fabs (f.minus b a) hd'))),
        rw (gd, gd') (ground arith),
      )

  -- For two numbers whose difference is no NaN, and a positive finite tolerance: the equalities are
  -- symmetric, and one number is definitely greater than the other exactly if that one is definitely
  -- less; numbers that are essentially equal are approximately equal; and exactly one of
  -- approximately equal, definitely greater and definitely less holds.
  pub comparisons_lem :
      (a b epsilon : f.Number)
      → IsNumber f (f.minus a b)
      → IsTolerance f nought epsilon
      → (approximately_equal f a b epsilon ≡ approximately_equal f b a epsilon)
        × (essentially_equal f a b epsilon ≡ essentially_equal f b a epsilon)
        × (definitely_greater_than f a b epsilon ≡ definitely_less_than f b a epsilon)
        × ((essentially_equal f a b epsilon && not (approximately_equal f a b epsilon)) ≡ false)
        × (approximately_equal f a b epsilon
            ≡ not (definitely_greater_than f a b epsilon || definitely_less_than f a b epsilon))
        × ((definitely_greater_than f a b epsilon && definitely_less_than f a b epsilon) ≡ false)
  unfolding approximately_equal essentially_equal definitely_greater_than definitely_less_than
  comparisons_lem a b epsilon hd tol =
      let (ha, hb, hd') = ieee.minus-IsNumber a b hd in
      let (c, e, hc, ca, cb, one) = larger_lem a b ha hb in
      let (d, e', hd0, da, db, one') = smaller_lem a b ha hb in
      (
        rw (approximately_equal, ieee.fabs-minus a b, larger_comm a b ha hb) refl,
        rw (essentially_equal, ieee.fabs-minus a b, smaller_comm a b ha hb) refl,
        rw (definitely_greater_than, definitely_less_than, larger_comm a b ha hb) refl,
        not_only _ _ (λ h.
            rw (approximately_equal, e)
              (ieee.le_trans _ _ _ (rw (essentially_equal, e') at h)
                (tol.times_mono d c (ieee.le_trans _ _ _ da ca)))),
        rw (approximately_equal, definitely_greater_than, definitely_less_than, e)
            (minus_bound a b _ hd (tol.times_nonneg c hc)).0,
        rw (approximately_equal, definitely_greater_than, definitely_less_than, e)
            (minus_bound a b _ hd (tol.times_nonneg c hc)).1,
      )
