-- ===== src/Requests/Printing.antt =====
-- `to_string` of src/arangorequests.cpp, for message types, headers and messages.
use arango_cpp.Base.{
  ℕ, zero, suc, ◌+◌, ◌%◌, ◌<◌, ◌*◌, ◌-◌, ◌≡◌, ap, ◌∙◌, arith, Bool-cases, inl, inr, [], ◌∷◌, ◌++◌,
  Text, lit, ltb, is_empty, if◌then◌else◌, M, ◌>>=◌, pure,
}
use Prim.Native.Nat.{◌/◌}
use arango_cpp.Base.Maps.{Map}
use arango_cpp.Velocypack.{VPack}
use arango_cpp.Requests.{
  MessageType, undefined, request, response, MessageHeader, HttpMessage, verb_to_string,
  content_type_string, payload_as_string,
}

unfoldable pub type_to_string : MessageType → Text
type_to_string undefined = lit "undefined"
type_to_string request = lit "request"
type_to_string response = lit "response"

-- `static_cast<int>(type)`
unfoldable pub type_number : MessageType → ℕ
type_number undefined = 0
type_number request = 1
type_number response = 2

-- `ss << n` in decimal, in front of digits that are there; a round for each digit.
decimal_loop : ℕ → ℕ → Text → Text
decimal_loop zero n digits = digits
decimal_loop (suc fuel) n digits =
    let digits' = (b'0' + n % 10) ∷ digits in
    let rest = decimal_loop fuel (n / 10) digits' in if ltb n 10 then digits' else rest

unfoldable pub decimal : ℕ → Text
unfolding decimal_loop
decimal n = decimal_loop (suc n) n []

-- The loops over the parameters and the meta data: a line for each item.
unfoldable pub item_lines : Text → Map Text → Text
item_lines indent [] = []
item_lines indent ((first, second) ∷ items) =
    (indent ++ (first ++ (lit " -:- " ++ (second ++ lit "\n")))) ++ item_lines indent items

unfoldable pub header_to_string : MessageHeader → Text
header_to_string h =
    (lit "version: " ++ (decimal h.version ++ lit "\n"))
    ++ ((lit "type: " ++ (decimal (type_number h.type) ++ lit "\n"))
        ++ ((lit "responseCode: " ++ (decimal h.response_code ++ lit "\n"))
            ++ ((lit "restVerb: " ++ (verb_to_string h.rest_verb ++ lit "\n"))
                ++ ((lit "path: " ++ (h.path ++ lit "\n"))
                    ++ ((if is_empty h.parameters
                          then []
                          else lit "parameters: " ++ (item_lines [] h.parameters ++ lit "\n"))
                        ++ ((lit "meta:\n" ++ (item_lines (lit "\t") h.meta ++ lit "\n"))
                            ++ (lit "contentType: " ++ (content_type_string h ++ lit "\n"))))))))

unfoldable pub message_to_string : {vp : VPack} {S : Type 0} → HttpMessage vp → M S Text
message_to_string message = do
  body ← payload_as_string message
  pure (
      lit "\n#### Message #####################################\n"
      ++ (lit "Header:\n"
          ++ (header_to_string message.header
              ++ (lit "\nBody:\n"
                  ++ (body
                      ++ (lit "\n"
                          ++ lit "##################################################\n"))))))

-- The number that digits spell behind a number.
pub number_of : ℕ → Text → ℕ
number_of n [] = n
number_of n (d ∷ digits) = number_of (n * 10 + (d - b'0')) digits

number_of-decimal_loop :
    (fuel n : ℕ) (digits : Text)
    → n < fuel
    → number_of 0 (decimal_loop fuel n digits) ≡ number_of n digits
unfolding decimal_loop number_of
number_of-decimal_loop zero n digits h = absurd (omega arith)
number_of-decimal_loop (suc fuel) n digits h = elim (Bool-cases (ltb n 10)) [
  | inl e ↦ rw e (ap (λ k. number_of k digits) (ground arith))
  | inr e ↦ rw e (
      number_of-decimal_loop fuel (n / 10) ((b'0' + n % 10) ∷ digits) (ground (arith, e))
      ∙ ap (λ k. number_of k digits) (ground arith))
]

-- The digits of a number spell it; the loop never runs out of rounds.
pub number_of-decimal : (n : ℕ) → number_of 0 (decimal n) ≡ n
unfolding decimal number_of
number_of-decimal n = number_of-decimal_loop (suc n) n [] (omega arith)
