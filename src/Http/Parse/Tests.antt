-- ===== src/Http/Parse/Tests.antt =====
-- A small request.
use cllm.Common.{◌≡◌, refl, List, ◌∷◌, ◌++◌, arith, All, codes, some, ℕ}
use cllm.Common.Maybe.{Ensures}
use cllm.Http.{zeroed_request}
use cllm.Http.Parse.{http_parse_request}
use cllm.Http.Parse.Safe.{IsRequest}
use cllm.Http.Parse.Total.{Parsed, http_parse_request-Parsed}
use cllm.Http.Parse.Line.{IsWord, IsLast, line_text, Reads, http_parse_request-line}
use cllm.Http.Parse.NoBody.{NoBody, http_parse_request-NoBody}
use cllm.Net.Tcp.{headers_end}

abbrev get_text : List ℕ
get_text = codes "GET"

abbrev path_text : List ℕ
path_text = codes "/v1"

abbrev version_text : List ℕ
version_text = codes "HTTP"

get-IsWord : All IsWord get_text
get-IsWord = (
  (omega arith, omega arith, omega arith),
  ((omega arith, omega arith, omega arith), ((omega arith, omega arith, omega arith), tt)),
)

path-IsWord : All IsWord path_text
path-IsWord = (
  (omega arith, omega arith, omega arith),
  ((omega arith, omega arith, omega arith), ((omega arith, omega arith, omega arith), tt)),
)

version-IsLast : All IsLast version_text
version-IsLast = (
  (omega arith, omega arith),
  ((omega arith, omega arith), ((omega arith, omega arith), ((omega arith, omega arith), tt))),
)

zeroed-IsRequest : IsRequest zeroed_request
zeroed-IsRequest = record {
  method = refl;
  path = refl;
  version = refl;
  headers = refl;
  body = refl;
  content_type = refl;
}

-- A header and a body follow the line.
abbrev behind : List ℕ
behind = codes "Content-Length: 2" ++ (13 ∷ 10 ∷ 13 ∷ 10 ∷ codes "{}")

abbrev request_text : List ℕ
request_text = line_text get_text path_text version_text ++ (13 ∷ 10 ∷ behind)

http_parse_request-line_example :
    Ensures
      (Reads get_text path_text version_text get-IsWord path-IsWord version-IsLast)
      (http_parse_request request_text 37 zeroed_request)
http_parse_request-line_example =
    http_parse_request-line get_text path_text version_text get-IsWord path-IsWord version-IsLast
      (omega arith) (omega arith) (omega arith) behind 37 zeroed_request zeroed-IsRequest
      (omega arith) (omega arith) (omega arith)

http_parse_request-Parsed_example :
    Ensures Parsed (http_parse_request request_text 37 zeroed_request)
http_parse_request-Parsed_example =
    http_parse_request-Parsed request_text 37 zeroed_request zeroed-IsRequest

request_text_ends : headers_end request_text ≡ some 35
unfolding headers_end
request_text_ends = refl

http_parse_request-NoBody_example :
    Ensures NoBody (http_parse_request request_text 35 zeroed_request)
http_parse_request-NoBody_example =
    http_parse_request-NoBody request_text 35 zeroed_request request_text_ends
      (zeroed-IsRequest, refl)
