-- ===== src/Json/Reader.antt =====
-- The value reader of src/json.c: what the API handlers read a request with.
-- A result is 0 (`true`) or -1 (`false`) and the parser behind the call.
use cllm.Common.{
  ℕ, zero, suc, ◌+◌, ◌-◌, ◌*◌, Bool, true, false, Option, none, some, List, [], ◌∷◌, ltb, ◌==◌,
  length, if◌then◌else◌,
}
use cllm.Common.Maybe.{◌>>=◌}
use cllm.CString.{strncpy, store}
use cllm.Json.Lexer.{
  Token, lbrace, rbrace, lbracket, rbracket, colon, comma, string, number, true_, false_, null, eof,
  error, Parser, json_next_token,
}
pub mod Progress
pub mod Tests

-- `none` where the recursion has run out of fuel.
abbrev pub Reading : Type 0
Reading = Option (Bool × Parser)

-- `json_skip_value` itself, and its loops over the members of an object and the elements of an array.
pub data Mode : Type 0 where
  value members elements : Mode

-- A comma is skipped where there is one.
abbrev pub after_comma : Token → Parser → Parser
after_comma comma p = json_next_token p
after_comma _ p = p

module _ (again : Mode → Parser → Reading) where
  -- A value, and the loop again behind it.
  abbrev pub then_loop : Mode → Bool × Parser → Reading
  then_loop loop (true, p) = again loop (after_comma p.current p)
  then_loop loop (false, p) = some (false, p)

  -- `switch (p->current)`.
  abbrev pub skip_one : Token → Parser → Reading
  skip_one lbrace p = again members (json_next_token p)
  skip_one lbracket p = again elements (json_next_token p)
  skip_one string p = some (true, json_next_token p)
  skip_one number p = some (true, json_next_token p)
  skip_one true_ p = some (true, json_next_token p)
  skip_one false_ p = some (true, json_next_token p)
  skip_one null p = some (true, json_next_token p)
  skip_one _ p = some (false, p)

  -- Behind a key.
  abbrev pub skip_member : Token → Parser → Reading
  skip_member colon p = again value (json_next_token p) >>= λ r. then_loop members r
  skip_member _ p = some (false, p)

  abbrev pub skip_members : Token → Parser → Reading
  skip_members rbrace p = some (true, json_next_token p)
  skip_members eof p = some (true, p)
  skip_members string p = let q = json_next_token p in skip_member q.current q
  skip_members _ p = some (false, p)

  abbrev pub skip_elements : Token → Parser → Reading
  skip_elements rbracket p = some (true, json_next_token p)
  skip_elements eof p = some (true, p)
  skip_elements _ p = again value p >>= λ r. then_loop elements r

  abbrev pub skip_step : Mode → Parser → Reading
  skip_step value p = skip_one p.current p
  skip_step members p = skip_members p.current p
  skip_step elements p = skip_elements p.current p

pub skip : ℕ → Mode → Parser → Reading
skip zero mode p = none
skip (suc fuel) mode p = skip_step (λ m q. skip fuel m q) mode p

-- Each byte of the input is behind at most two calls.
pub json_skip_value : Parser → Reading
unfolding skip
json_skip_value p = skip (2 * suc (length p.rest) + 1) value p

abbrev pub is_string : Token → Bool
is_string string = true
is_string _ = false

abbrev pub is_number : Token → Bool
is_number number = true
is_number _ = false

-- `json_parse_string` into a buffer of `size` bytes, which is not 0.
unfoldable pub json_parse_string : ℕ → List ℕ → Parser → Option (Bool × Parser × List ℕ)
json_parse_string size buf p =
    let len = if ltb (length p.string_buf) (size - 1) then length p.string_buf else size - 1 in
    if is_string p.current
    then (strncpy buf p.string_buf len >>= λ b.
        store b len 0 >>= λ b'. some (true, json_next_token p, b'))
    else some (false, p, buf)

-- The number's lexeme stands for its value.
unfoldable pub json_parse_number : Parser → Option (List ℕ) × Parser
json_parse_number p = if is_number p.current then (some p.lexeme, json_next_token p) else (none, p)

abbrev pub bool_at : Token → Parser → Option Bool × Parser
bool_at true_ p = (some true, json_next_token p)
bool_at false_ p = (some false, json_next_token p)
bool_at _ p = (none, p)

unfoldable pub json_parse_bool : Parser → Option Bool × Parser
json_parse_bool p = bool_at p.current p

pub json_peek_token : Parser → Token
json_peek_token p = p.current

-- The conversion of the number to an `int` is left out, as in `json_parse_number`.
unfoldable pub json_parse_int : Parser → Option (List ℕ) × Parser
json_parse_int p = if is_number p.current then (some p.lexeme, json_next_token p) else (none, p)

-- The value of a token in its enumeration.
abbrev pub token_code : Token → ℕ
token_code lbrace = 0
token_code rbrace = 1
token_code lbracket = 2
token_code rbracket = 3
token_code colon = 4
token_code comma = 5
token_code string = 6
token_code number = 7
token_code true_ = 8
token_code false_ = 9
token_code null = 10
token_code eof = 11
token_code error = 12

pub json_expect : Token → Parser → Bool × Parser
json_expect expected p =
    if token_code p.current == token_code expected then (true, json_next_token p) else (false, p)
