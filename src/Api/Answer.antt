-- ===== src/Api/Answer.antt =====
-- How the handlers of src/api_v1.c build a response: the helpers, and the writer calls of a body.
-- `none` is a store outside an array.
use cllm.Common.{
  ℕ, zero, suc, ◌+◌, ◌/◌, ◌%◌, ◌^◌, Bool, true, false, Option, none, some, List, [], ◌∷◌, ◌++◌,
  ◌==◌, if◌then◌else◌, codes, replicate,
}
use cllm.Common.Int.{ℤ, pos, negsuc}
use cllm.Common.Maybe.{◌>>=◌}
use cllm.CString.{first, strncmp}
use cllm.Format.{text, word, vsnprintf}
use cllm.SafeString.{safe_strcpy}
use cllm.Json.Writer.{
  Writer, Result, done, failed, fault, json_writer_init, json_write_object_start,
  json_write_object_end, json_write_array_start, json_write_array_end, json_write_key,
  json_write_kv_string, json_write_kv_int, json_write_kv_int64, json_write_kv_null,
  json_write_int_array, json_write_float_array,
}
use cllm.Http.{Request, Response, response_body_size}
pub mod Safe
pub mod Whole
pub mod Kept
pub mod Tests

-- `api_context_t`: `llm_ctx` is whether it is set, and `created_time` its two words.
pub record Context : Type 0 where
  pub llm_ctx : Bool
  pub model_loaded : Bool
  pub request_counter : ℕ
  pub created_time : ℕ × ℕ

abbrev pub api_v1_init : Bool → Context
api_v1_init llm_ctx = record {
  llm_ctx = llm_ctx;
  model_loaded = llm_ctx;
  request_counter = 0;
  created_time = (1234567890, 0);
}

abbrev pub model_id : List ℕ
model_id = codes "embedded-llama"

abbrev pub json_header : List ℕ
json_header = codes "Content-Type: application/json" ++ (13 ∷ 10 ∷ [])

-- `safe_strcpy(response->headers, sizeof(response->headers), ...)`.
unfoldable pub set_json_headers : Response → Response
set_json_headers r = record r { headers = (safe_strcpy r.headers json_header).0 }

-- The identifier goes to a new array of 64 bytes.
pub generate_request_id : Context → List ℕ → Option (Context × List ℕ)
generate_request_id c prefix =
    let n = (c.request_counter + 1) % 2 ^ 64 in
    vsnprintf (replicate 64 0) 64 (codes "%s-%016llx")
      (text prefix ∷ word (n % 2 ^ 32) ∷ word (n / 2 ^ 32) ∷ [])
    >>= λ p. some (record c { request_counter = n }, p.1)

-- `strncmp(s, name, n) == 0`.
unfoldable pub agrees : List ℕ → List ℕ → ℕ → Bool
agrees s name n = elim (strncmp s name n) [
  | pos zero ↦ true
  | pos (suc m) ↦ false
  | negsuc m ↦ false
]

abbrev pub is_post_request : Request → Bool
is_post_request r = agrees r.method (codes "POST") 5

abbrev pub is_get_request : Request → Bool
is_get_request r = agrees r.method (codes "GET") 4

-- One call of the writer. An `int` is its bit pattern, an `int64_t` its two words.
pub data Call : Type 0 where
  object_start object_end array_start array_end : Call
  key kv_null : List ℕ → Call
  kv_string : List ℕ → List ℕ → Call
  kv_int : List ℕ → ℕ → Call
  kv_int64 : List ℕ → ℕ → ℕ → Call
  int_array : List ℕ → Call
  float_array : List (ℕ × ℕ) → Call

pub perform : Call → Writer → Result
perform object_start w = json_write_object_start w
perform object_end w = json_write_object_end w
perform array_start w = json_write_array_start w
perform array_end w = json_write_array_end w
perform (key k) w = json_write_key k w
perform (kv_null k) w = json_write_kv_null k w
perform (kv_string k s) w = json_write_kv_string k s w
perform (kv_int k v) w = json_write_kv_int k v w
perform (kv_int64 k low high) w = json_write_kv_int64 k low high w
perform (int_array l) w = json_write_int_array l w
perform (float_array l) w = json_write_float_array l w

-- The result of a call is not looked at.
abbrev pub ignored : Result → Option Writer
ignored (done w) = some w
ignored (failed w) = some w
ignored fault = none

unfoldable pub perform_each : List Call → Writer → Option Writer
perform_each [] w = some w
perform_each (call ∷ calls) w = ignored (perform call w) >>= λ w'. perform_each calls w'

-- The status, the headers, and a body of the given calls.
pub write_response : ℕ → List Call → Response → Option Response
write_response status calls r = json_writer_init r.body response_body_size >>= λ w.
    perform_each calls w >>= λ w'.
    some
      (record (set_json_headers r) { status_code = status; body = w'.buf; body_length = w'.offset })

-- A parameter or a code that is given, or null.
abbrev pub optional : List ℕ → List ℕ → Call
optional name value = if first value == 0 then kv_null name else kv_string name value

abbrev pub error_calls : List ℕ → List ℕ → List ℕ → List ℕ → List Call
error_calls message kind param code =
    object_start
    ∷ key (codes "error")
    ∷ object_start
    ∷ kv_string (codes "message") message
    ∷ kv_string (codes "type") kind
    ∷ optional (codes "param") param
    ∷ optional (codes "code") code
    ∷ object_end
    ∷ object_end
    ∷ []

pub build_error_response : Response → ℕ → List ℕ → List ℕ → List ℕ → List ℕ → Option Response
build_error_response r status message kind param code =
    write_response status (error_calls message kind param code) r
