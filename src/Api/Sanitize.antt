-- ===== src/Api/Sanitize.antt =====
-- `ArangoDBAPIBase::sanitization` of src/arangocollection.cpp.
pub mod Runs
use mathlib.Core.List.{reverse, reverse-cons}
use arango_cpp.Base.{
  ℕ, suc, ◌+◌, ◌≤◌, Bool, true, false, ◌&&◌, ◌||◌, List, [], ◌∷◌, ◌++◌, append-nil, append_assoc,
  ◌≡◌, ◌≢◌, ◌↔◌, refl, sym, ap, ◌∙◌, ◌⊎◌, inl, inr, arith, Text, String, lit, leb, ◌==◌,
  if◌then◌else◌, All, All-append, All-take, length, take, length-take-le, take-eq_self, Bool-cases,
  is_empty,
}
use arango_cpp.Detail.{is_space, one_of, trim}
use arango_cpp.Detail.Trim.{StartsWithout, Only, trim-eq_self, trim_lem, trim-Only}

abbrev key_punctuation_characters : String
key_punctuation_characters = "_-:.@()+,=;$!*'"

-- `std::isalnum` in the C locale
unfoldable pub is_alnum : ℕ → Bool
is_alnum c = (leb b'0' c && leb c b'9') || (leb b'A' c && leb c b'Z') || (leb b'a' c && leb c b'z')

-- The test of the loop: `isalnum(c) || KeyPunctuationCharacters.find(c) != npos`
unfoldable pub is_legal : ℕ → Bool
unfolding is_alnum one_of lit
is_legal c = is_alnum c || one_of (lit key_punctuation_characters) c

-- One round: the new `first` and what is appended to `legal_key`.
sanitize_step : ℕ → Bool → Bool × Text
sanitize_step c first =
    if is_legal c then (true, c ∷ []) else if first then (false, b'_' ∷ []) else (first, [])

sanitize_loop : Text → Bool → Text → Text
unfolding sanitize_step
sanitize_loop [] first legal_key = legal_key
sanitize_loop (c ∷ s) first legal_key =
    let (first', more) = sanitize_step c first in sanitize_loop s first' (legal_key ++ more)

-- `legal_key.substr(0, 254)`
unfoldable pub sanitization : Text → Text
unfolding sanitize_loop trim
sanitization document_handle = take 254 (sanitize_loop (trim document_handle) true [])

abbrev pub IsLegal : Text → Type 0
IsLegal = All (λ c. is_legal c ≡ true)

is_legal_underscore : is_legal b'_' ≡ true
unfolding is_legal
is_legal_underscore = refl

sanitize_step-IsLegal : (c : ℕ) (first : Bool) → IsLegal (sanitize_step c first).1
unfolding sanitize_step
sanitize_step-IsLegal c first = elim (Bool-cases (is_legal c)) [
  | inl e ↦ rw e (e, tt)
  | inr e ↦ rw e (ground (arith, is_legal_underscore))
]

sanitize_loop-IsLegal :
    (s : Text) (first : Bool) (key : Text) → IsLegal key → IsLegal (sanitize_loop s first key)
unfolding sanitize_loop
sanitize_loop-IsLegal [] first key h = h
sanitize_loop-IsLegal (c ∷ s) first key h =
    sanitize_loop-IsLegal s _ _ (All-append _ key _ h (sanitize_step-IsLegal c first))

sanitize_loop_legal :
    (s : Text) (first : Bool) (key : Text) → IsLegal s → sanitize_loop s first key ≡ key ++ s
unfolding sanitize_loop
sanitize_loop_legal [] first key h = sym (append-nil key)
sanitize_loop_legal (c ∷ s) first key (hc, hs) =
    rw hc (sanitize_loop_legal s true (key ++ c ∷ []) hs ∙ append_assoc key (c ∷ []) s)

-- A legal byte is not white space.
legal-not_space : (c : ℕ) → is_legal c ≡ true → is_space c ≡ false
unfolding is_legal is_space
legal-not_space c h = ground arith

IsLegal-StartsWithout : (s : Text) → IsLegal s → StartsWithout is_space s
IsLegal-StartsWithout [] h = tt
IsLegal-StartsWithout (c ∷ s) (hc, hs) = legal-not_space c hc

IsLegal-reverse : (s : Text) → IsLegal s → IsLegal (reverse s)
IsLegal-reverse [] h = tt
IsLegal-reverse (c ∷ s) (hc, hs) =
    rw (reverse-cons c s) (All-append _ (reverse s) (c ∷ []) (IsLegal-reverse s hs) (hc, tt))

-- What is sent to the server holds only bytes that the test allows, and at most 254 of them.
pub sanitization-IsLegal : (s : Text) → IsLegal (sanitization s) × (length (sanitization s) ≤ 254)
unfolding sanitization
sanitization-IsLegal s = (
  All-take _ 254 _ (sanitize_loop-IsLegal (trim s) true [] tt),
  length-take-le 254 (sanitize_loop (trim s) true []),
)

-- A key that is legal and short enough is left as it is.
pub sanitization-eq_self : (s : Text) → IsLegal s → length s ≤ 254 → sanitization s ≡ s
unfolding sanitization
sanitization-eq_self s h k =
    let t : trim s ≡ s =
      trim-eq_self s (IsLegal-StartsWithout s h)
        (IsLegal-StartsWithout (reverse s) (IsLegal-reverse s h)) in
    rw (t, sanitize_loop_legal s true [] h) (take-eq_self 254 s k)

-- Sanitizing twice is sanitizing once.
pub sanitization-sanitization : (s : Text) → sanitization (sanitization s) ≡ sanitization s
sanitization-sanitization s =
    let (h, k) = sanitization-IsLegal s in sanitization-eq_self (sanitization s) h k

append-ne_nil : (key more : Text) → key ≢ [] → key ++ more ≢ []
append-ne_nil [] more h = absurd (h refl)
append-ne_nil (c ∷ key) more h = λ e. cc

sanitize_loop-ne_nil :
    (s : Text) (first : Bool) (key : Text) → key ≢ [] → sanitize_loop s first key ≢ []
unfolding sanitize_loop
sanitize_loop-ne_nil [] first key h = h
sanitize_loop-ne_nil (c ∷ s) first key h = sanitize_loop-ne_nil s _ _ (append-ne_nil key _ h)

sanitize_step-ne_nil : (c : ℕ) → (sanitize_step c true).1 ≢ []
unfolding sanitize_step
sanitize_step-ne_nil c = ground arith

take-ne_nil : (s : Text) → s ≢ [] → take 254 s ≢ []
take-ne_nil [] h = absurd (h refl)
take-ne_nil (c ∷ s) h = λ e. cc

take-loop-ne_nil : (s : Text) → s ≢ [] → take 254 (sanitize_loop s true []) ≢ []
unfolding sanitize_loop
take-loop-ne_nil [] h = absurd (h refl)
take-loop-ne_nil (c ∷ s) h = take-ne_nil _ (sanitize_loop-ne_nil s _ _ (sanitize_step-ne_nil c))

Only-of_trim_nil : (s : Text) → trim s ≡ [] → Only is_space s
Only-of_trim_nil s e =
    let (pre, post, hp, hq, q, _, _) = trim_lem s in
    let r : s ≡ pre ++ post = q ∙ rw e in rw r (All-append _ pre post hp hq)

-- The result is empty exactly for a text of white space alone: such a text has no key.
pub sanitization-eq-nil : (s : Text) → (sanitization s ≡ []) ↔ Only is_space s
unfolding sanitization
sanitization-eq-nil s = (
  λ e. Only-of_trim_nil s (nil_of_loop (trim s) e),
  λ h. rw (trim-Only s h) (unfold sanitize_loop in refl),
)
  where
    nil_of_loop : (t : Text) → take 254 (sanitize_loop t true []) ≡ [] → t ≡ []
    nil_of_loop [] e = refl
    nil_of_loop (c ∷ t) e = absurd (take-loop-ne_nil (c ∷ t) (λ n. cc) e)
