-- ===== src/Api/Routes.antt =====
-- src/api.c: the simple handlers, and the routes.
use cllm.Common.{
  ℕ, Bool, true, false, Option, none, some, List, [], ◌∷◌, ◌++◌, leb, if◌then◌else◌, codes, take,
  replicate,
}
use cllm.Common.Maybe.{◌>>=◌}
use cllm.CString.{strlen}
use cllm.CString.Copy.{until_nul}
use cllm.Format.{Arg, text, word, vsnprintf}
use cllm.SafeString.{safe_strcpy}
use cllm.Http.{Request, Response, response_body_size}
use cllm.Api.Answer.{Context, set_json_headers, agrees}
use cllm.Api.Handlers.{
  Llm, Handled, with_context, handle_v1_completions, handle_v1_chat_completions,
  handle_v1_embeddings, handle_v1_models, handle_tokenize, handle_detokenize,
}
pub mod Total
pub mod Unloaded
pub mod Paths
pub mod Tests

-- `response->body_length = strlen(response->body)`.
abbrev pub measured : Response → Response
measured r = record r { body_length = strlen r.body }

-- `safe_strcpy` of a literal into the body.
pub fixed_body : ℕ → List ℕ → Response → Response
fixed_body status body r =
    measured (record r { status_code = status; body = (safe_strcpy r.body body).0 })

pub handle_health_check : Response → Response
handle_health_check r = fixed_body 200 (codes "{\"status\": \"ok\"}") (set_json_headers r)

pub handle_load_model : Response → Response
handle_load_model r =
    fixed_body 200
      (codes "{\"status\": \"loading\", \"message\": \"Model loading not yet implemented\"}")
      (set_json_headers r)

pub handle_completion : Response → Response
handle_completion r =
    fixed_body 200
      (codes "{\"status\": \"generating\", \"message\": \"Text completion not yet implemented\"}")
      (set_json_headers r)

-- `model_metadata_t`.
pub record Metadata : Type 0 where
  pub magic : ℕ × ℕ × ℕ × ℕ
  pub version : ℕ
  pub tensor_count : ℕ
  pub kv_count : ℕ
  pub architecture : List ℕ
  pub context_length : ℕ

-- The first four bytes are those of the embedded model.
abbrev pub c_get_model_metadata : Metadata
c_get_model_metadata = record {
  magic = (b'G', b'G', b'U', b'F');
  version = 3;
  tensor_count = 0;
  kv_count = 0;
  architecture = codes "llama" ++ replicate 27 0;
  context_length = 2048;
}

abbrev pub metadata_format : List ℕ
metadata_format =
    codes
      "{\"magic\":\"%c%c%c%c\",\"version\":%u,\"tensor_count\":%u,\"kv_count\":%u,\"architecture\":\"%s\",\"context_length\":%u}"

abbrev pub metadata_args : Metadata → List Arg
metadata_args m =
    word m.magic.0
    ∷ word m.magic.1
    ∷ word m.magic.2
    ∷ word m.magic.3
    ∷ word m.version
    ∷ word m.tensor_count
    ∷ word m.kv_count
    ∷ text (until_nul (take 32 m.architecture))
    ∷ word m.context_length
    ∷ []

pub handle_model_metadata : Response → Option Response
handle_model_metadata r =
    vsnprintf r.body response_body_size metadata_format (metadata_args c_get_model_metadata)
    >>= λ p.
        let made = record (set_json_headers r) { status_code = 200; body = p.1 } in
        if leb response_body_size p.0
        then some (fixed_body 500 (codes "{\"error\":\"failed to format metadata\"}") made)
        else some (measured made)

-- What a request is routed to.
pub data Route : Type 0 where
  completions chat embeddings models tokenize detokenize : Route
  health metadata load completion not_found : Route

-- The tests of `route_request`, in order.
unfoldable pub route_of : List ℕ → Route
route_of path =
    if agrees path (codes "/v1/completions") 15
    then completions
    else if agrees path (codes "/v1/chat/completions") 20
    then chat
    else if agrees path (codes "/v1/embeddings") 14
    then embeddings
    else if agrees path (codes "/v1/models") 10
    then models
    else if agrees path (codes "/tokenize") 9
    then tokenize
    else if agrees path (codes "/detokenize") 11
    then detokenize
    else if agrees path (codes "/health") 8
    then health
    else if agrees path (codes "/model/metadata") 15
    then metadata
    else if agrees path (codes "/model/load") 12
    then load
    else if agrees path (codes "/completion") 11
    then completion
    else not_found

module _ (int_of : List ℕ → ℕ) (embedding : List (ℕ × ℕ)) (llm : Llm) where
  pub serve : Route → Context → Request → Response → Handled
  serve completions c req r = handle_v1_completions int_of embedding llm c req r
  serve chat c req r = handle_v1_chat_completions int_of embedding llm c req r
  serve embeddings c req r = handle_v1_embeddings int_of embedding llm c req r
  serve models c req r = handle_v1_models int_of embedding llm c req r
  serve tokenize c req r = handle_tokenize int_of embedding llm c req r
  serve detokenize c req r = handle_detokenize int_of embedding llm c req r
  serve health c req r = some (c, measured (handle_health_check r))
  serve metadata c req r = handle_model_metadata r >>= λ r'. some (c, measured r')
  serve load c req r = some (c, measured (handle_load_model r))
  serve completion c req r = some (c, measured (handle_completion r))
  serve not_found c req r = some (c, fixed_body 404 (codes "{\"error\":\"not found\"}") r)

  pub route_request : Context → Request → Response → Handled
  route_request c req r = serve (route_of req.path) c req (set_json_headers r)
