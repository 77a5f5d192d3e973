-- ===== src/Json/Reader/Tests.antt =====
-- The reader at the start of a nested object.
use cllm.Common.{◌≡◌, ◌<◌, ◌≤◌, Bool, true, some, codes, length}
use cllm.Json.Lexer.{Parser, json_parser_init, json_next_token}
use cllm.Json.Lexer.Consume.{is_live, json_next_token-Consumes}
use cllm.Json.Reader.{json_skip_value}
use cllm.Json.Reader.Progress.{left, json_skip_value-Returns}

abbrev nested : Parser
nested = json_next_token (json_parser_init (codes "[[1, 2], [3]] x"))

json_skip_value-Returns_example :
    (r : Bool × Parser) × (json_skip_value nested ≡ some r) × (r.0 ≡ true → left r.1 < left nested)
json_skip_value-Returns_example = json_skip_value-Returns nested

json_next_token-Consumes_example :
    (length (json_next_token nested).rest ≤ length nested.rest)
    × (is_live (json_next_token nested).current ≡ true
        → length (json_next_token nested).rest < length nested.rest)
json_next_token-Consumes_example = json_next_token-Consumes nested
