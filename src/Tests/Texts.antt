-- ===== src/Tests/Texts.antt =====
-- Names, ids, headers and query texts.
use arango_cpp.Base.{
  ◌⊎◌, true, List, [], ◌∷◌, ◌++◌, ◌≡◌, ◌≢◌, ◌↔◌, refl, Text, lit, ◌+◌, ◌≤◌, length, none, some,
  take,
}
use mathlib.Core.List.{reverse}
use arango_cpp.Detail.{is_space, one_of, trim, trim_chars, find}
use arango_cpp.Detail.Trim.{Only, StartsWithout, trim_chars_lem}
use arango_cpp.Api.Sanitize.{
  IsLegal, is_legal, sanitization, sanitization-IsLegal, sanitization-eq-nil,
}
use arango_cpp.Api.Sanitize.Runs.{spelled, cleaned, sanitization-spelled}
use arango_cpp.Api.Ids.{head, get_id, get_key, get_key-get_id, get_key_misplaced}
use arango_cpp.Curl.{parse_header, to_lower}
use arango_cpp.Curl.ResponseHeaders.{parse_header_lem}
use arango_cpp.Query.{ArangoDbQuery, query, QueryType, set_query_fields, generate_return}
use arango_cpp.Select.{completed}
use arango_cpp.Select.Aql.{completed-has_return}

sanitization_test : sanitization (lit "   test ## 7-:.@ ") ≡ lit "test_7-:.@"
unfolding sanitization is_legal is_space lit
sanitization_test = refl

sanitization-IsLegal_example :
    IsLegal (sanitization (lit "a b")) × (length (sanitization (lit "a b")) ≤ 254)
sanitization-IsLegal_example = sanitization-IsLegal (lit "a b")

sanitization-eq-nil_example : (sanitization (lit " \t") ≡ []) ↔ Only is_space (lit " \t")
sanitization-eq-nil_example = sanitization-eq-nil (lit " \t")

abbrev runs : List (Text × Text)
runs = (b'?' ∷ b' ' ∷ [], b'b' ∷ []) ∷ []

sanitization-spelled_example : sanitization (b'a' ∷ spelled runs) ≡ take 254 (b'a' ∷ cleaned runs)
unfolding is_legal trim spelled
sanitization-spelled_example =
    sanitization-spelled (b'a' ∷ []) runs (refl, tt)
      (((λ e. cc), (refl, (refl, tt)), (λ e. cc), (refl, tt)), tt) refl

trim_chars_lem_example :
    (pre : Text) × (post : Text) × Only (one_of (lit "/")) pre
    × Only (one_of (lit "/")) post
    × (lit "//a/" ≡ pre ++ (trim_chars (lit "//a/") (lit "/") ++ post))
    × StartsWithout (one_of (lit "/")) (trim_chars (lit "//a/") (lit "/"))
    × StartsWithout (one_of (lit "/")) (reverse (trim_chars (lit "//a/") (lit "/")))
trim_chars_lem_example = trim_chars_lem (lit "//a/") (lit "/")

abbrev names : List Text
names = lit "e" ∷ lit "f" ∷ []

get_key-get_id_example :
    (get_key (lit "coll") (get_id (lit "coll") (lit "7")) ≡ lit "7")
    × (get_id (lit "coll") (get_key (lit "coll") (head (lit "coll") ++ lit "7"))
        ≡ head (lit "coll") ++ lit "7")
    × (get_key (lit "coll") (lit "7") ≡ lit "7")
unfolding find lit
get_key-get_id_example = get_key-get_id (lit "coll") (lit "7") refl

get_key_misplaced_example :
    (length (get_key (lit "c") (lit "x" ++ (head (lit "c") ++ lit "7")))
      ≡ length (lit "x") + length (lit "7"))
    × (get_key (lit "c") (lit "x" ++ (head (lit "c") ++ lit "7")) ≢ lit "7")
unfolding lit
get_key_misplaced_example = get_key_misplaced (lit "c") (lit "x") (lit "7") (λ e. cc)

parse_header_lem_example :
    (parse_header (lit "Etag" ++ (lit ": " ++ lit "42"))
      ≡ some (to_lower (lit "Etag"), trim (lit "42")))
    × (parse_header (lit "Etag" ++ (lit ":" ++ b'1' ∷ lit "42"))
        ≡ some (to_lower (lit "Etag"), trim (lit "42")))
    × (parse_header (lit "Etag" ++ (lit ":" ++ b'1' ∷ [])) ≡ none)
unfolding one_of lit
parse_header_lem_example =
    parse_header_lem (lit "Etag") b'1' (lit "42") (refl, (refl, (refl, (refl, tt)))) (λ e. cc)

abbrev fields : List (Text × Text)
fields = (lit "_id", lit "id") ∷ (lit "name", lit "title") ∷ []

generate_return_test :
    generate_return true fields (lit "u")
    ≡ lit "\nRETURN DISTINCT  {  \"id\" : u._id,  \"title\" : u.name } "
unfolding generate_return lit
generate_return_test = refl

abbrev for_u : ArangoDbQuery
for_u = set_query_fields fields (query (lit "FOR u IN test") QueryType.aql)

completed-has_return_example :
    (find (lit "RETURN") (completed for_u) ≢ none)
    × ((completed for_u ≡ for_u.find_condition) ⊎ (find (lit "RETURN") for_u.find_condition ≡ none))
completed-has_return_example = completed-has_return for_u
