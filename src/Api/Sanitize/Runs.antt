-- ===== src/Api/Sanitize/Runs.antt =====
-- `sanitization` on a text given as legal stretches with illegal ones between them.
use arango_cpp.Base.{
  ℕ, Bool, true, false, List, [], ◌∷◌, ◌++◌, append-nil, append_assoc, ◌≡◌, ◌≢◌, refl, sym, ap, ◌∙◌,
  Text, All, take, if◌then◌else◌,
}
use arango_cpp.Detail.{trim}
use arango_cpp.Api.Sanitize.{is_legal, IsLegal, sanitize_loop, sanitization}

abbrev pub IsIllegal : Text → Type 0
IsIllegal = All (λ c. is_legal c ≡ false)

-- A stretch of illegal bytes and the stretch of legal bytes behind it.
abbrev pub IsRun : Text × Text → Type 0
IsRun (bad, good) = (bad ≢ []) × IsIllegal bad × (good ≢ []) × IsLegal good

-- The stretches spelled out, and the same with `_` for each illegal stretch.
unfoldable pub spelled : List (Text × Text) → Text
spelled [] = []
spelled ((bad, good) ∷ runs) = bad ++ (good ++ spelled runs)

unfoldable pub cleaned : List (Text × Text) → Text
cleaned [] = []
cleaned ((bad, good) ∷ runs) = b'_' ∷ (good ++ cleaned runs)

step_legal :
    (c : ℕ) (s : Text) (first : Bool) (key : Text)
    → is_legal c ≡ true
    → sanitize_loop (c ∷ s) first key ≡ sanitize_loop s true (key ++ c ∷ [])
unfolding sanitize_loop
step_legal c s first key h = rw h

step_illegal :
    (c : ℕ) (s : Text) (first : Bool) (key : Text)
    → is_legal c ≡ false
    → sanitize_loop (c ∷ s) first key
      ≡ sanitize_loop s false (key ++ (if first then b'_' ∷ [] else []))
unfolding sanitize_loop
step_illegal c s true key h = rw h
step_illegal c s false key h = rw h

loop_illegal :
    (bad rest key : Text)
    → IsIllegal bad
    → sanitize_loop (bad ++ rest) false key ≡ sanitize_loop rest false key
loop_illegal [] rest key h = refl
loop_illegal (c ∷ bad) rest key (hc, hs) =
    step_illegal c (bad ++ rest) false key hc
    ∙ ap (sanitize_loop (bad ++ rest) false) (append-nil key)
    ∙ loop_illegal bad rest key hs

loop_bad :
    (bad rest key : Text)
    → bad ≢ []
    → IsIllegal bad
    → sanitize_loop (bad ++ rest) true key ≡ sanitize_loop rest false (key ++ b'_' ∷ [])
loop_bad [] rest key n h = absurd (n refl)
loop_bad (c ∷ bad) rest key n (hc, hs) =
    step_illegal c (bad ++ rest) true key hc ∙ loop_illegal bad rest (key ++ b'_' ∷ []) hs

loop_legal :
    (good rest key : Text)
    → IsLegal good
    → sanitize_loop (good ++ rest) true key ≡ sanitize_loop rest true (key ++ good)
loop_legal [] rest key h = ap (sanitize_loop rest true) (sym (append-nil key))
loop_legal (c ∷ good) rest key (hc, hs) =
    step_legal c (good ++ rest) true key hc
    ∙ loop_legal good rest (key ++ c ∷ []) hs
    ∙ ap (sanitize_loop rest true) (append_assoc key (c ∷ []) good)

loop_good :
    (good rest key : Text)
    → good ≢ []
    → IsLegal good
    → sanitize_loop (good ++ rest) false key ≡ sanitize_loop rest true (key ++ good)
loop_good [] rest key n h = absurd (n refl)
loop_good (c ∷ good) rest key n (hc, hs) =
    step_legal c (good ++ rest) false key hc
    ∙ loop_legal good rest (key ++ c ∷ []) hs
    ∙ ap (sanitize_loop rest true) (append_assoc key (c ∷ []) good)

loop-spelled :
    (runs : List (Text × Text)) (key : Text)
    → All IsRun runs
    → sanitize_loop (spelled runs) true key ≡ key ++ cleaned runs
unfolding spelled cleaned
loop-spelled [] key h = unfold sanitize_loop in sym (append-nil key)
loop-spelled ((bad, good) ∷ runs) key ((nb, hb, ng, hg), hs) =
    loop_bad bad (good ++ spelled runs) key nb hb
    ∙ loop_good good (spelled runs) (key ++ b'_' ∷ []) ng hg
    ∙ loop-spelled runs ((key ++ b'_' ∷ []) ++ good) hs
    ∙ simp append_assoc

-- Each stretch of illegal bytes inside a key becomes one `_` and the legal bytes stay, up to 254
-- bytes in all, for a text that begins and ends with legal bytes.
pub sanitization-spelled :
    (good : Text) (runs : List (Text × Text))
    → IsLegal good
    → All IsRun runs
    → trim (good ++ spelled runs) ≡ good ++ spelled runs
    → sanitization (good ++ spelled runs) ≡ take 254 (good ++ cleaned runs)
unfolding sanitization
sanitization-spelled good runs h hs t =
    rw (t, loop_legal good (spelled runs) [] h, loop-spelled runs good hs) refl
