-- ===== src/Http.antt =====
-- src/http.c and the structures of src/include/network.h.
-- A character array is the list of its bytes; `none` is a store outside one.
use cllm.Common.{ℕ, Option, List, replicate}
use cllm.Common.Maybe.{◌>>=◌}
use cllm.CString.{strncpy, store}
pub mod Text
pub mod Parse
pub mod Generate

-- `http_request_t`.
pub record Request : Type 0 where
  pub method : List ℕ
  pub path : List ℕ
  pub version : List ℕ
  pub headers : List ℕ
  pub body : List ℕ
  pub body_length : ℕ
  pub content_type : List ℕ
  pub content_length : ℕ

-- `http_response_t`.
pub record Response : Type 0 where
  pub status_code : ℕ
  pub headers : List ℕ
  pub body : List ℕ
  pub body_length : ℕ

abbrev pub request_body_size : ℕ
request_body_size = 8192

abbrev pub response_body_size : ℕ
response_body_size = 16384

-- `memset(&req, 0, sizeof(req))`.
abbrev pub zeroed_request : Request
zeroed_request = record {
  method = replicate 16 0;
  path = replicate 256 0;
  version = replicate 16 0;
  headers = replicate 1024 0;
  body = replicate request_body_size 0;
  body_length = 0;
  content_type = replicate 64 0;
  content_length = 0;
}

-- `strncpy(buf, src, n); buf[n] = '\0';`.
unfoldable pub set_text : List ℕ → List ℕ → ℕ → Option (List ℕ)
set_text buf src n = strncpy buf src n >>= λ b. store b n 0
