-- ===== src/Json/Lexer/Tests.antt =====
-- The tokenizer on what the writer writes.
use cllm.Common.{ℕ, ◌≡◌, refl, List, [], ◌∷◌, ◌++◌, arith, codes}
use cllm.Json.Writer.{quote, escaped}
use cllm.Json.Writer.Text.{escapes}
use cllm.Json.Lexer.{
  Parser, string, json_next_token, json_parser_init, skip_whitespace, is_whitespace,
}
use cllm.Json.Lexer.RoundTrip.{kept, next_token-escapes}

-- A line break between two letters.
abbrev lines : List ℕ
lines = b'a' ∷ 10 ∷ b'b' ∷ []

abbrev source : Parser
source = json_parser_init (codes "  " ++ (quote ++ (escapes lines ++ (quote ++ codes ": 1"))))

source-rest : skip_whitespace source.rest ≡ quote ++ (escapes lines ++ (quote ++ codes ": 1"))
unfolding skip_whitespace is_whitespace json_parser_init
source-rest = refl

next_token-escapes_example :
    json_next_token source
    ≡ record source { rest = codes ": 1"; current = string; string_buf = kept lines }
unfolding escaped
next_token-escapes_example = next_token-escapes lines (codes ": 1") source source-rest (omega arith)
