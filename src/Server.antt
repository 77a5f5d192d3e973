-- ===== src/Server.antt =====
-- src/network/tcp.c, lines 213 to 232: the HTTP server behind a connection, composed from the request
-- parser, the routes and the response generator. `none` is a store outside an array.
use cllm.Common.{
  ℕ, Bool, true, false, Option, none, some, List, [], ◌∷◌, ◌++◌, if◌then◌else◌, codes, length, take,
  replicate,
}
use cllm.Common.Maybe.{◌>>=◌}
use cllm.CString.{strlen, strncpy}
use cllm.Http.{Request, Response, zeroed_request, response_body_size}
use cllm.Http.Parse.{http_parse_request}
use cllm.Http.Generate.{http_generate_response}
use cllm.Api.Answer.{Context, json_header}
use cllm.Api.Handlers.{Llm, Handled}
use cllm.Api.Routes.{route_request}
pub mod Answers
pub mod Live
pub mod Routed
pub mod Unloaded
pub mod Tests

-- `memset(&resp, 0, sizeof(resp))`.
abbrev pub zeroed_response : Response
zeroed_response = record {
  status_code = 0;
  headers = replicate 1024 0;
  body = replicate response_body_size 0;
  body_length = 0;
}

abbrev pub bad_text : List ℕ
bad_text = codes "{\"error\":\"bad request\"}"

-- The answer to a request that is not understood.
pub bad_request : Response → Option Response
bad_request r = strncpy r.headers json_header 1024 >>= λ h.
    strncpy r.body bad_text response_body_size >>= λ b.
    some (record { status_code = 400; headers = h; body = b; body_length = strlen b })

-- `sizeof(response_buf)`.
abbrev pub response_buf_size : ℕ
response_buf_size = 16640

module _ (int_of : List ℕ → ℕ) (embedding : List (ℕ × ℕ)) (llm : Llm) where
  abbrev pub dispatch : Context → Bool × Request → Handled
  dispatch c (true, req) = route_request int_of embedding llm c req zeroed_response
  dispatch c (false, req) = bad_request zeroed_response >>= λ r. some (c, r)

  -- The context behind the request, and what is sent if the response fits its buffer.
  pub answer : Context → List ℕ → Option (Context × Option (List ℕ))
  answer c raw = http_parse_request raw (length raw) zeroed_request >>= λ q. dispatch c q >>= λ h.
      http_generate_response h.1 (replicate response_buf_size 0) response_buf_size >>= λ s.
      some (h.0, if s.0 then some (take s.2 s.1) else none)

  -- As the TCP code sees it.
  pub respond : Context → List ℕ → Option (List ℕ)
  respond c raw = answer c raw >>= λ p. p.1
