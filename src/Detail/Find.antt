-- ===== src/Detail/Find.antt =====
-- `std::string::find` against occurrences of the needle.
use arango_cpp.Base.{
  ℕ, suc, true, false, none, some, [], ◌∷◌, ◌++◌, ◌≡◌, ◌≢◌, inl, inr, refl, ap, arith, Text, All,
  length, take, drop, Bool-cases, Option-cases,
}
use arango_cpp.Detail.{begins, find, one_of, find_first_of}

pub begins-append : (needle rest : Text) → begins needle (needle ++ rest) ≡ true
unfolding begins
begins-append [] rest = refl
begins-append (x ∷ xs) rest = ground (arith, begins-append xs rest)

pub begins_sound : (needle s : Text) → begins needle s ≡ true → (rest : Text) × (s ≡ needle ++ rest)
unfolding begins
begins_sound [] s h = (s, refl)
begins_sound (x ∷ xs) [] h = cc
begins_sound (x ∷ xs) (c ∷ s) h =
    let (rest, e) = begins_sound xs s (ground arith) in (rest, ground (arith, e))

pub find-append : (needle rest : Text) → find needle (needle ++ rest) ≡ some 0
unfolding find
find-append [] [] = refl
find-append [] (c ∷ s) = refl
find-append (x ∷ xs) rest = rw (begins-append (x ∷ xs) rest)

-- A position that `find` returns is one of an occurrence.
pub find_sound :
    (needle s : Text) (i : ℕ)
    → find needle s ≡ some i
    → (pre : Text) × (rest : Text) × (s ≡ pre ++ (needle ++ rest)) × (length pre ≡ i)
unfolding find
find_sound needle [] i h = elim (Bool-cases (begins needle [])) [
  | inl e ↦ let (rest, q) = begins_sound needle [] e in ([], rest, q, ground arith)
  | inr e ↦ absurd (ground arith)
]
find_sound needle (c ∷ s) i h = elim (Bool-cases (begins needle (c ∷ s))) [
  | inl e ↦ let (rest, q) = begins_sound needle (c ∷ s) e in ([], rest, q, ground arith)
  | inr e ↦ elim (Option-cases (find needle s)) [
    | inl n ↦ absurd (ground arith)
    | inr (j, f) ↦
        let (pre, rest, q, l) = find_sound needle s j f in
        (c ∷ pre, rest, ap (◌∷◌ c) q, ground arith)
  ]
]

find-cons-ne_none :
    (needle : Text) (c : ℕ) (s : Text) → find needle s ≢ none → find needle (c ∷ s) ≢ none
unfolding find
find-cons-ne_none needle c s h = ground arith

-- A text that holds the needle is not reported to lack it.
pub find_complete : (needle pre rest : Text) → find needle (pre ++ (needle ++ rest)) ≢ none
find_complete needle [] rest = λ h. cc (find-append needle rest)
find_complete needle (c ∷ pre) rest = find-cons-ne_none needle c _ (find_complete needle pre rest)

abbrev pub Lacks : Text → Text → Type 0
Lacks characters = All (λ c. one_of characters c ≡ false)

pub find_first_of-none : (d s : Text) → find_first_of d s ≡ none → Lacks d s
unfolding find_first_of
find_first_of-none d [] h = tt
find_first_of-none d (c ∷ s) h = (ground arith, find_first_of-none d s (ground arith))

pub find_first_of-Lacks : (d s : Text) → Lacks d s → find_first_of d s ≡ none
unfolding find_first_of
find_first_of-Lacks d [] h = refl
find_first_of-Lacks d (c ∷ s) (hc, hs) = rw (hc, find_first_of-Lacks d s hs) refl

pub find_first_of-append :
    (d s : Text) (c : ℕ) (rest : Text)
    → Lacks d s
    → one_of d c ≡ true
    → find_first_of d (s ++ c ∷ rest) ≡ some (length s)
unfolding find_first_of
find_first_of-append d [] c rest h e = rw e
find_first_of-append d (x ∷ s) c rest (hx, hs) e =
    rw (hx, find_first_of-append d s c rest hs e) refl

-- The position of the first byte of the set: the bytes before it are outside of the set.
pub find_first_of_sound :
    (d s : Text) (i : ℕ)
    → find_first_of d s ≡ some i
    → Lacks d (take i s)
      × (length (take i s) ≡ i)
      × ((c : ℕ) × (s ≡ take i s ++ c ∷ drop (suc i) s) × (one_of d c ≡ true))
unfolding find_first_of
find_first_of_sound d [] i h = absurd (ground arith)
find_first_of_sound d (c ∷ s) i h = elim (Bool-cases (one_of d c)) [
  | inl e ↦ let z : i ≡ 0 = ground arith in rw z (tt, refl, (c, refl, e))
  | inr e ↦ elim (Option-cases (find_first_of d s)) [
    | inl n ↦ absurd (ground arith)
    | inr (j, f) ↦
        let (l, k, (x, q, o)) = find_first_of_sound d s j f in
        let z : i ≡ suc j = ground arith in rw z ((e, l), ap suc k, (x, ap (◌∷◌ c) q, o))
  ]
]
