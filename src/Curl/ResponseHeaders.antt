-- ===== src/Curl/ResponseHeaders.antt =====
-- How the header lines of a response reach its meta data.
use arango_cpp.Base.{
  ℕ, suc, ◌+◌, ◌<◌, true, false, none, some, List, [], ◌∷◌, ◌++◌, map, append-nil, append_assoc,
  ◌≡◌, ◌≢◌, refl, sym, ap, ◌∙◌, arith, Text, lit, All, leb, length, drop, length-append,
  take-append,
}
use arango_cpp.Detail.{one_of, trim, split}
use arango_cpp.Detail.Find.{Lacks, find_first_of-append}
use arango_cpp.Detail.Split.{terminated, IsToken, split-terminated}
use arango_cpp.Curl.{header_callback, collect, parse_header, to_lower}

-- The callback ends each line with a semicolon.
collect-terminated :
    (lines : List Text) (buffer : Text)
    → collect header_callback buffer lines ≡ buffer ++ terminated b';' lines
unfolding collect header_callback terminated lit
collect-terminated [] buffer = sym (append-nil buffer)
collect-terminated (line ∷ lines) buffer =
    collect-terminated lines ((buffer ++ line) ++ b';' ∷ []) ∙ simp append_assoc

semicolon : one_of (lit ";") b';' ≡ true
unfolding one_of lit
semicolon = refl

colon : one_of (lit ":") b':' ≡ true
unfolding one_of lit
colon = refl

-- Header lines that hold no semicolon are read line by line, in order and trimmed.
pub split-collect :
    (lines : List Text)
    → All (IsToken (lit ";")) lines
    → split (collect header_callback [] lines) (lit ";") ≡ map trim lines
split-collect lines h =
    ap (λ t. split t (lit ";")) (collect-terminated lines [])
    ∙ split-terminated (lit ";") b';' lines semicolon h

drop_two :
    (name : Text) (a b : ℕ) (rest : Text)
    → drop (suc (suc (length name))) (name ++ a ∷ b ∷ rest) ≡ rest
drop_two [] a b rest = refl
drop_two (c ∷ name) a b rest = drop_two name a b rest

length_pos : (s : Text) → s ≢ [] → 0 < length s
length_pos [] h = absurd (h refl)
length_pos (c ∷ s) h = omega arith

parse_header-name :
    (name : Text) (b : ℕ) (rest : Text)
    → Lacks (lit ":") name
    → rest ≢ []
    → parse_header (name ++ b':' ∷ b ∷ rest) ≡ some (to_lower name, trim rest)
unfolding parse_header
parse_header-name name b rest h n =
    rw (find_first_of-append (lit ":") name b':' (b ∷ rest) h colon, parse_header)
      (rw (long, take-append name (b':' ∷ b ∷ rest), add_two, drop_two name b':' b rest) refl)
  where
    add_two : length name + 2 ≡ suc (suc (length name))
    add_two = omega arith

    long : leb (length (name ++ b':' ∷ b ∷ rest)) (length name + 2) ≡ false
    long = ground (arith, length-append {0} name (b':' ∷ b ∷ rest), length_pos rest n)

parse_header-short :
    (name : Text) (b : ℕ) → Lacks (lit ":") name → parse_header (name ++ b':' ∷ b ∷ []) ≡ none
unfolding parse_header
parse_header-short name b h =
    rw (find_first_of-append (lit ":") name b':' (b ∷ []) h colon, parse_header) (rw short refl)
  where
    short : leb (length (name ++ b':' ∷ b ∷ [])) (length name + 2) ≡ true
    short = ground (arith, length-append {0} name (b':' ∷ b ∷ []))

-- A line `Name: value` gives the name in lower case and the trimmed value. In a line without a
-- blank behind the colon the first byte of the value is taken for that blank and is lost, and a
-- value of one byte is lost with its name.
pub parse_header_lem :
    (name : Text) (b : ℕ) (value : Text)
    → Lacks (lit ":") name
    → value ≢ []
    → (parse_header (name ++ (lit ": " ++ value)) ≡ some (to_lower name, trim value))
      × (parse_header (name ++ (lit ":" ++ b ∷ value)) ≡ some (to_lower name, trim value))
      × (parse_header (name ++ (lit ":" ++ b ∷ [])) ≡ none)
unfolding lit
parse_header_lem name b value h n = (
  parse_header-name name b' ' value h n,
  parse_header-name name b value h n,
  parse_header-short name b h,
)
