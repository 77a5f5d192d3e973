-- ===== src/Api/Arrays/Tests.antt =====
-- A small chat request.
use cllm.Common.{ℕ, List, codes, length}
use cllm.Common.Maybe.{Ensures}
use cllm.Api.Arrays.{parse_chat_request}
use cllm.Api.Arrays.Total.{IsChat, parse_chat_request-IsChat}

abbrev chat_body : List ℕ
chat_body = codes "{\"messages\":[{\"role\":\"user\",\"content\":\"hi\"}],\"max_tokens\":9}"

-- What stands for the conversion of numbers.
abbrev length_as_int : List ℕ → ℕ
length_as_int l = length l

parse_chat_request-IsChat_example :
    Ensures (λ q. IsChat q.2) (parse_chat_request length_as_int chat_body)
parse_chat_request-IsChat_example = parse_chat_request-IsChat length_as_int chat_body
