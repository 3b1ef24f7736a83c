-- ===== src/Detail.antt =====
-- src/arangodetail.h: the string helpers; `split` of src/arangocurl.cpp; and the members of
-- `std::string` that the library calls. Proofs are in the modules below this one.
pub mod Trim
pub mod Find
pub mod Split
pub mod Subset
pub mod Comparing
use mathlib.Core.List.{reverse}
use mathlib.Core.Option
use arango_cpp.Base.{
  ℕ, zero, suc, ◌+◌, Bool, true, false, ◌&&◌, ◌||◌, not, Option, none, some, List, [], ◌∷◌, ◌++◌,
  Text, text_eq, leb, ◌==◌, if◌then◌else◌, length, take, drop, is_empty,
}

-- `std::isspace` in the C locale: space, \t, \n, \v, \f, \r
unfoldable pub is_space : ℕ → Bool
is_space c = c == 32 || (leb 9 c && leb c 13)

-- `characters.find_first_of(ch) != npos`
unfoldable pub one_of : Text → ℕ → Bool
one_of [] c = false
one_of (x ∷ xs) c = c == x || one_of xs c

-- `s.erase(s.begin(), find_if(s.begin(), s.end(), not p))`
unfoldable pub erase_front : (ℕ → Bool) → Text → Text
erase_front p [] = []
erase_front p (c ∷ s) = if p c then erase_front p s else c ∷ s

-- the same from the reverse iterators: `s.erase(find_if(s.rbegin(), s.rend(), not p).base(), s.end())`
unfoldable pub erase_back : (ℕ → Bool) → Text → Text
unfolding erase_front
erase_back p s = reverse (erase_front p (reverse s))

unfoldable pub ltrim : Text → Text
unfolding erase_front is_space
ltrim s = erase_front is_space s

unfoldable pub rtrim : Text → Text
unfolding erase_back is_space
rtrim s = erase_back is_space s

unfoldable pub trim : Text → Text
unfolding ltrim rtrim
trim s = rtrim (ltrim s)

unfoldable pub ltrim_chars : Text → Text → Text
unfolding erase_front one_of
ltrim_chars s characters = erase_front (one_of characters) s

unfoldable pub rtrim_chars : Text → Text → Text
unfolding erase_back one_of
rtrim_chars s characters = erase_back (one_of characters) s

unfoldable pub trim_chars : Text → Text → Text
unfolding ltrim_chars rtrim_chars
trim_chars s characters = rtrim_chars (ltrim_chars s characters) characters

-- `s.compare(0, needle.length(), needle) == 0`
unfoldable pub begins : Text → Text → Bool
begins [] s = true
begins (x ∷ xs) [] = false
begins (x ∷ xs) (c ∷ s) = (c == x) && begins xs s

-- `s.find(needle)`: the first position, `none` for `npos`
unfoldable pub find : Text → Text → Option ℕ
unfolding begins
find needle [] = if begins needle [] then some 0 else none
find needle (c ∷ s) =
    let later = Option.map suc (find needle s) in if begins needle (c ∷ s) then some 0 else later

-- `s.find_first_of(delimiters)`
unfoldable pub find_first_of : Text → Text → Option ℕ
unfolding one_of
find_first_of delimiters [] = none
find_first_of delimiters (c ∷ s) =
    let later = Option.map suc (find_first_of delimiters s) in
    if one_of delimiters c then some 0 else later

-- `if(pos != start) { vv = str[start, pos); trim(vv); v.push(vv); }`
push_token : Text → List Text → List Text
push_token token v = if is_empty token then v else v ++ trim token ∷ []

-- The loop of `split`. `rest` is the text from `start` on, `v` the queue; one round for each
-- delimiter, so that a fuel above the length of `rest` is never used up.
split_loop : Text → ℕ → Text → List Text → List Text
unfolding push_token find_first_of trim
split_loop delimiters zero rest v = v
split_loop delimiters (suc fuel) rest v = elim (find_first_of delimiters rest) [
  | none ↦ if is_empty rest then v else v ++ rest ∷ []
  | some pos ↦ split_loop delimiters fuel (drop (suc pos) rest) (push_token (take pos rest) v)
]

unfoldable pub split : Text → Text → List Text
unfolding split_loop
split str delimiters = if is_empty str then [] else split_loop delimiters (suc (length str)) str []

-- `fullSet.find(val) != fullSet.end()`
unfoldable pub contains : List Text → Text → Bool
contains [] val = false
contains (x ∷ xs) val = text_eq val x || contains xs val

unfoldable pub get_subset : List Text → List Text → List Text
unfolding contains
get_subset [] full_set = []
get_subset (val ∷ vals) full_set =
    let rest = get_subset vals full_set in if contains full_set val then val ∷ rest else rest
