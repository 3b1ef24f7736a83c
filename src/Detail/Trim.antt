-- ===== src/Detail/Trim.antt =====
-- The trimming functions of src/arangodetail.h.
use mathlib.Core.List.{reverse, reverse-append, reverse-reverse, reverse-cons}
use arango_cpp.Base.{
  ℕ, Bool, true, false, [], ◌∷◌, ◌++◌, ◌≡◌, refl, sym, ap, ◌∙◌, Text, All, All-append, inl, inr,
  Bool-cases,
}
use arango_cpp.Detail.{is_space, erase_front, erase_back, one_of, trim, trim_chars}

-- The text has no first byte with `p`.
abbrev pub StartsWithout : (ℕ → Bool) → Text → Type 0
StartsWithout p [] = Unit
StartsWithout p (c ∷ s) = p c ≡ false

module _ (p : ℕ → Bool) where
  abbrev pub Only : Text → Type 0
  Only = All (λ c. p c ≡ true)

  pub erase_front_lem :
      (s : Text)
      → (pre : Text) × Only pre × (s ≡ pre ++ erase_front p s) × StartsWithout p (erase_front p s)
  unfolding erase_front
  erase_front_lem [] = ([], tt, refl, tt)
  erase_front_lem (c ∷ s) = elim (Bool-cases (p c)) [
    | inl e ↦
        let (pre, h, q, st) = erase_front_lem s in (c ∷ pre, (e, h), rw e (ap (◌∷◌ c) q), rw e st)
    | inr e ↦ ([], tt, rw e, rw e e)
  ]

  Only-reverse : (s : Text) → Only s → Only (reverse s)
  Only-reverse [] h = tt
  Only-reverse (c ∷ s) (hc, hs) =
      rw (reverse-cons c s) (All-append _ (reverse s) (c ∷ []) (Only-reverse s hs) (hc, tt))

  -- A prefix of a text that starts without `p` does so too.
  StartsWithout-prefix : (t post s : Text) → s ≡ t ++ post → StartsWithout p s → StartsWithout p t
  StartsWithout-prefix [] post s e h = tt
  StartsWithout-prefix (c ∷ t) post s e h = rw e at h

  pub erase_back_lem :
      (s : Text)
      → (post : Text) × Only post
        × (s ≡ erase_back p s ++ post)
        × StartsWithout p (reverse (erase_back p s))
  unfolding erase_back
  erase_back_lem s =
      let (pre, h, q, st) = erase_front_lem (reverse s) in
      (
        reverse pre,
        Only-reverse pre h,
        sym (reverse-reverse s) ∙ ap reverse q ∙ reverse-append pre _,
        rw (reverse-reverse) st,
      )

  -- Erasing at both ends: what is left begins and ends without `p`.
  pub erase_both_lem :
      (s : Text)
      → let t = erase_back p (erase_front p s) in
        (pre : Text) × (post : Text) × Only pre
        × Only post
        × (s ≡ pre ++ (t ++ post))
        × StartsWithout p t
        × StartsWithout p (reverse t)
  erase_both_lem s =
      let (pre, hp, q, st) = erase_front_lem s in
      let (post, hq, r, en) = erase_back_lem (erase_front p s) in
      (pre, post, hp, hq, q ∙ ap (◌++◌ pre) r, StartsWithout-prefix _ post _ r st, en)

  pub erase_front-eq_self : (s : Text) → StartsWithout p s → erase_front p s ≡ s
  unfolding erase_front
  erase_front-eq_self [] h = refl
  erase_front-eq_self (c ∷ s) h = rw h

  pub erase_back-eq_self : (s : Text) → StartsWithout p (reverse s) → erase_back p s ≡ s
  unfolding erase_back
  erase_back-eq_self s h = rw (erase_front-eq_self (reverse s) h) (reverse-reverse s)

  pub erase_front-Only : (s : Text) → Only s → erase_front p s ≡ []
  unfolding erase_front
  erase_front-Only [] h = refl
  erase_front-Only (c ∷ s) (hc, hs) = rw hc (erase_front-Only s hs)

-- What `trim` returns is the text without some white space before and behind it, and neither
-- begins nor ends with white space.
pub trim_lem :
    (s : Text)
    → (pre : Text) × (post : Text) × Only is_space pre
      × Only is_space post
      × (s ≡ pre ++ (trim s ++ post))
      × StartsWithout is_space (trim s)
      × StartsWithout is_space (reverse (trim s))
unfolding trim
trim_lem s = erase_both_lem is_space s

-- `trim` with a set of characters does the same for the bytes of that set.
pub trim_chars_lem :
    (s characters : Text)
    → let p = one_of characters in
      (pre : Text) × (post : Text) × Only p pre
      × Only p post
      × (s ≡ pre ++ (trim_chars s characters ++ post))
      × StartsWithout p (trim_chars s characters)
      × StartsWithout p (reverse (trim_chars s characters))
unfolding trim_chars
trim_chars_lem s characters = erase_both_lem (one_of characters) s

-- A text with no white space at its ends is trimmed to itself.
pub trim-eq_self :
    (s : Text) → StartsWithout is_space s → StartsWithout is_space (reverse s) → trim s ≡ s
unfolding trim
trim-eq_self s h k = rw (erase_front-eq_self is_space s h) (erase_back-eq_self is_space s k)

-- Trimming twice is trimming once.
pub trim-trim : (s : Text) → trim (trim s) ≡ trim s
trim-trim s = let (pre, post, _, _, _, h, k) = trim_lem s in trim-eq_self (trim s) h k

-- White space alone is trimmed to nothing.
pub trim-Only : (s : Text) → Only is_space s → trim s ≡ []
unfolding trim erase_back erase_front
trim-Only s h = rw (erase_front-Only is_space s h)
