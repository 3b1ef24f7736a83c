-- ===== src/Detail/Split.antt =====
-- `split` against the pieces of a text between delimiters.
use arango_cpp.Base.{
  ℕ, zero, suc, ◌<◌, true, none, List, [], ◌∷◌, ◌++◌, map, ◌≡◌, ◌≢◌, inl, inr, refl, sym, ap, ◌∙◌,
  subst, append-nil, append_assoc, arith, Text, All, length, take, drop, is_empty, length-append,
  drop-suc-append, take-append, if◌then◌else◌, Bool-cases, Option-cases,
}
use arango_cpp.Detail.{one_of, find_first_of, trim, push_token, split_loop, split}
use arango_cpp.Detail.Find.{Lacks, find_first_of-none, find_first_of-append, find_first_of_sound}

-- The pieces of a text between the bytes of `d`: at least one, and one more for each such byte.
prepend : ℕ → List Text → List Text
prepend c [] = (c ∷ []) ∷ []
prepend c (p ∷ ps) = (c ∷ p) ∷ ps

pub pieces : Text → Text → List Text
unfolding prepend
pieces d [] = [] ∷ []
pieces d (c ∷ s) = let ps = pieces d s in if one_of d c then [] ∷ ps else prepend c ps

-- What `split` keeps of the pieces: empty ones are left out, and all but the last are trimmed.
pub kept : List Text → List Text
kept [] = []
kept (p ∷ []) = if is_empty p then [] else p ∷ []
kept (p ∷ q ∷ ps) = let rest = kept (q ∷ ps) in if is_empty p then rest else trim p ∷ rest

pieces-Lacks : (d s : Text) → Lacks d s → pieces d s ≡ s ∷ []
unfolding pieces
pieces-Lacks d [] h = refl
pieces-Lacks d (c ∷ s) (hc, hs) = rw (hc, pieces-Lacks d s hs) refl

pieces-append :
    (d s : Text) (c : ℕ) (rest : Text)
    → Lacks d s
    → one_of d c ≡ true
    → pieces d (s ++ c ∷ rest) ≡ s ∷ pieces d rest
unfolding pieces
pieces-append d [] c rest h e = rw e
pieces-append d (x ∷ s) c rest (hx, hs) e = rw (hx, pieces-append d s c rest hs e) refl

pieces-ne_nil : (d s : Text) → (p : Text) × (ps : List Text) × (pieces d s ≡ p ∷ ps)
unfolding pieces
pieces-ne_nil d [] = ([], [], refl)
pieces-ne_nil d (c ∷ s) = elim (Bool-cases (one_of d c)) [
  | inl e ↦ ([], pieces d s, rw e)
  | inr e ↦ let (p, ps, q) = pieces-ne_nil d s in (c ∷ p, ps, rw (e, q) refl)
]

kept-cons : (p : Text) (ps : List Text) → ps ≢ [] → kept (p ∷ ps) ≡ push_token p [] ++ kept ps
unfolding kept push_token
kept-cons p [] h = absurd (h refl)
kept-cons p (q ∷ ps) h = ground arith

push_token-append : (p : Text) (v : List Text) → push_token p v ≡ v ++ push_token p []
unfolding push_token
push_token-append p v = ground (arith, append-nil v)

-- A round of the loop at a delimiter.
split_step :
    (d : Text) (fuel : ℕ) (s : Text) (c : ℕ) (rest : Text) (v : List Text)
    → Lacks d s
    → one_of d c ≡ true
    → split_loop d (suc fuel) (s ++ c ∷ rest) v ≡ split_loop d fuel rest (push_token s v)
unfolding split_loop
split_step d fuel s c rest v h e =
    rw (find_first_of-append d s c rest h e, split_loop)
      (rw (drop-suc-append s c rest, take-append s (c ∷ rest)) refl)

-- The last round: no delimiter is left.
split_last :
    (d : Text) (fuel : ℕ) (s : Text) (v : List Text)
    → find_first_of d s ≡ none
    → split_loop d (suc fuel) s v ≡ v ++ kept (pieces d s)
unfolding split_loop kept
split_last d fuel s v e =
    rw (pieces-Lacks d s (find_first_of-none d s e), e, split_loop) (ground (arith, append-nil v))

split_round :
    (d : Text) (fuel : ℕ) (a : Text) (c : ℕ) (r : Text) (v : List Text)
    → Lacks d a
    → one_of d c ≡ true
    → split_loop d fuel r (push_token a v) ≡ push_token a v ++ kept (pieces d r)
    → split_loop d (suc fuel) (a ++ c ∷ r) v ≡ v ++ kept (pieces d (a ++ c ∷ r))
split_round d fuel a c r v l o ih =
    let (p, ps, q) = pieces-ne_nil d r in
    split_step d fuel a c r v l o
    ∙ ih
    ∙ rw
        (
          pieces-append d a c r l o,
          kept-cons a (pieces d r) (λ n. cc),
          push_token-append a v,
          append_assoc,
        )
        refl

split_loop-pieces :
    (d : Text) (fuel : ℕ) (s : Text) (v : List Text)
    → length s < fuel
    → split_loop d fuel s v ≡ v ++ kept (pieces d s)
split_loop-pieces d zero s v h = absurd (omega arith)
split_loop-pieces d (suc fuel) s v h = elim (Option-cases (find_first_of d s)) [
  | inl e ↦ split_last d fuel s v e
  | inr (i, e) ↦
      let (l, k, (c, q, o)) = find_first_of_sound d s i e in
      let a : Text = take i s in
      let r : Text = drop (suc i) s in
      subst (λ t. split_loop d (suc fuel) t v ≡ v ++ kept (pieces d t)) (sym q)
        (split_round d fuel a c r v l o (
          split_loop-pieces d fuel r (push_token a v)
            (omega (arith, length-append {0} a (c ∷ r), ap (length {0} {A = ℕ}) q))))
]

-- `split` returns the pieces between the delimiters in order, without the empty ones, each but the
-- one behind the last delimiter trimmed. The loop never runs out of rounds.
pub split-pieces : (str delimiters : Text) → split str delimiters ≡ kept (pieces delimiters str)
unfolding split
split-pieces [] d = unfold kept pieces in refl
split-pieces (c ∷ s) d = split_loop-pieces d (suc (length (c ∷ s))) (c ∷ s) [] (omega arith)

-- The tokens each followed by the byte `c`, as the header callback writes them.
unfoldable pub terminated : ℕ → List Text → Text
terminated c [] = []
terminated c (t ∷ ts) = t ++ c ∷ terminated c ts

-- A token that `split` keeps as it is.
pub record IsToken (d t : Text) : Type 0 where
  pub filled : t ≢ []
  pub undivided : Lacks d t

push_token-filled : (t : Text) → t ≢ [] → push_token t [] ≡ trim t ∷ []
unfolding push_token
push_token-filled [] h = absurd (h refl)
push_token-filled (c ∷ t) h = refl

pieces-terminated :
    (d : Text) (c : ℕ) (ts : List Text)
    → one_of d c ≡ true
    → All (IsToken d) ts
    → kept (pieces d (terminated c ts)) ≡ map trim ts
unfolding terminated
pieces-terminated d c [] o h = unfold kept pieces in refl
pieces-terminated d c (t ∷ ts) o (ht, hs) =
    let (p, ps, q) = pieces-ne_nil d (terminated c ts) in
    rw
      (
        pieces-append d t c (terminated c ts) ht.undivided o,
        kept-cons t (pieces d (terminated c ts)) (λ n. cc),
        pieces-terminated d c ts o hs,
        push_token-filled t ht.filled,
      )
      refl

-- Tokens that hold no delimiter and are not empty come back trimmed and in order, if each is
-- followed by a delimiter.
pub split-terminated :
    (d : Text) (c : ℕ) (ts : List Text)
    → one_of d c ≡ true
    → All (IsToken d) ts
    → split (terminated c ts) d ≡ map trim ts
split-terminated d c ts o h = split-pieces (terminated c ts) d ∙ pieces-terminated d c ts o h
