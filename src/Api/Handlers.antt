-- ===== src/Api/Handlers.antt =====
-- The endpoint handlers of src/api_v1.c. A handler returns 0 always, so only its effect is kept: on the
-- context and on the response; `none` is a store outside an array, or a loop that does not end.
use cllm.Common.{
  ℕ, zero, suc, ◌+◌, ◌-◌, ◌%◌, ◌^◌, Bool, true, false, not, ◌&&◌, ◌||◌, Option, none, some, List,
  [], ◌∷◌, ◌++◌, ltb, leb, ◌==◌, if◌then◌else◌, codes, length, take, replicate,
}
use cllm.Common.Maybe.{◌>>=◌}
use cllm.CString.{strlen, first, store}
use cllm.SafeString.{safe_strcpy, safe_strcat}
use cllm.Http.{Request, Response}
use cllm.Api.Requests.{
  CompletionRequest, ChatMessage, ChatRequest, EmbeddingRequest, TokenizeRequest, DetokenizeRequest,
  max_prompt_length, max_tokens_count, empty_text, parse_completion_request, parse_tokenize_request,
  parse_embedding_request,
}
use cllm.Api.Arrays.{parse_chat_request, parse_detokenize_request}
use cllm.Api.Bodies.{
  completion_calls, chat_calls, embedding_calls, models_calls, join_messages, count_messages,
  greeting, ascii_text, bytes_of,
}
use cllm.Api.Answer.{
  Context, Call, object_start, object_end, array_start, array_end, key, kv_null, kv_string, kv_int,
  kv_int64, int_array, float_array, model_id, generate_request_id, is_post_request, is_get_request,
  write_response, build_error_response,
}
pub mod Total
pub mod Unloaded

-- What the language model of src/llm.c does when the context is set: the tokens of a text (`none` for a
-- negative result), what `llm_generate` leaves in its output (`none` for a result of at most 0), and
-- what `llm_detokenize` leaves in its text.
pub record Llm : Type 0 where
  pub tokenize : List ℕ → ℕ → Option (List ℕ)
  pub generate : List ℕ → ℕ → List ℕ → Option (List ℕ)
  pub detokenize : List ℕ → List ℕ → List ℕ

abbrev pub Handled : Type 0
Handled = Option (Context × Response)

abbrev pub with_context : Context → Option Response → Handled
with_context c o = o >>= λ r. some (c, r)

abbrev pub refuse : Context → Response → ℕ → List ℕ → List ℕ → List ℕ → Handled
refuse c resp status message param code =
    with_context c
      (build_error_response resp status message (codes "invalid_request_error") param code)

-- The two guards that every POST handler starts with.
pub guarded : Context → Request → Response → Handled → Handled
guarded c req resp rest =
    if not (is_post_request req)
    then refuse c resp 405 (codes "Method not allowed") [] (codes "method_not_allowed")
    else if req.body_length == 0
    then refuse c resp 400 (codes "Request body is empty") [] (codes "empty_body")
    else rest

abbrev pub invalid_json : Context → Response → Handled
invalid_json c resp = refuse c resp 400 (codes "Invalid JSON") [] (codes "json_parse_error")

abbrev pub missing : Context → Response → List ℕ → Handled
missing c resp name =
    refuse c resp 400 (codes "Missing required field: " ++ name) name (codes "missing_field")

abbrev pub body_text : Request → List ℕ
body_text req = take req.body_length req.body

-- `max_tokens > 0 ? max_tokens : 16`.
abbrev pub asked : ℕ → ℕ
asked v = if ltb 0 v && ltb v (2 ^ 31) then v else 16

-- What `llm_generate` leaves, or the text of a failure.
abbrev pub generated : List ℕ → Option (List ℕ) → List ℕ
generated out none = (safe_strcpy out (codes " [generation failed]")).0
generated out (some text) = text

abbrev pub counted : Option (List ℕ) → List ℕ
counted none = []
counted (some tokens) = tokens

module _ (int_of : List ℕ → ℕ) (embedding : List (ℕ × ℕ)) (llm : Llm) where
  -- The generated text, and the number of tokens of the prompt.
  pub complete : Context → CompletionRequest → List ℕ × ℕ
  complete c req =
      let out = empty_text max_prompt_length in
      if c.llm_ctx
      then (
        generated out (llm.generate req.prompt (asked req.max_tokens) out),
        length (counted (llm.tokenize req.prompt max_tokens_count)),
      )
      else ((safe_strcpy out (codes " [model not loaded]")).0, 0)

  pub handle_v1_completions : Context → Request → Response → Handled
  handle_v1_completions c req resp = guarded c req resp (
      parse_completion_request int_of (body_text req) >>= λ q.
      if not q.0
      then invalid_json c resp
      else if first q.2.prompt == 0
      then missing c resp (codes "prompt")
      else (generate_request_id c (codes "cmpl") >>= λ g.
          let (text, n) = complete c q.2 in
          with_context g.0 (write_response 200 (completion_calls g.0 g.1 text n) resp)))

  pub reply : Context → ChatRequest → List ℕ
  reply c req =
      let out = (safe_strcpy (empty_text max_prompt_length) greeting).0 in
      let prompt = join_messages (empty_text max_prompt_length) req.messages in
      if c.llm_ctx then generated out (llm.generate prompt (asked req.max_tokens) out) else out

  pub handle_v1_chat_completions : Context → Request → Response → Handled
  handle_v1_chat_completions c req resp = guarded c req resp (
      parse_chat_request int_of (body_text req) >>= λ q.
      if not q.0
      then invalid_json c resp
      else if length q.2.messages == 0
      then missing c resp (codes "messages")
      else (generate_request_id c (codes "chatcmpl") >>= λ g.
          let text = reply c q.2 in
          with_context g.0 (
            write_response 200
              (chat_calls g.0 g.1 text (count_messages q.2.messages) (strlen text % 2 ^ 32)) resp)))

  pub handle_v1_embeddings : Context → Request → Response → Handled
  handle_v1_embeddings c req resp = guarded c req resp (
      parse_embedding_request (body_text req) >>= λ q.
      if not q.0
      then invalid_json c resp
      else if first q.2.input == 0
      then missing c resp (codes "input")
      else with_context c
          (write_response 200 (embedding_calls embedding (strlen q.2.input % 2 ^ 32)) resp))

  pub handle_v1_models : Context → Request → Response → Handled
  handle_v1_models c req resp =
      if not (is_get_request req)
      then refuse c resp 405 (codes "Method not allowed") [] (codes "method_not_allowed")
      else with_context c (write_response 200 (models_calls c) resp)

  -- The tokens of the model, or the characters of the text.
  pub tokens_of : Context → List ℕ → List ℕ
  tokens_of c text =
      if c.llm_ctx
      then counted (llm.tokenize text max_tokens_count)
      else bytes_of
          (take (if ltb (strlen text) max_tokens_count then strlen text else max_tokens_count) text)

  pub handle_tokenize : Context → Request → Response → Handled
  handle_tokenize c req resp = guarded c req resp (
      parse_tokenize_request (body_text req) >>= λ q.
      if not q.0
      then invalid_json c resp
      else if first q.2.content == 0
      then missing c resp (codes "content")
      else with_context c (
          write_response 200
            (object_start
              ∷ key (codes "tokens")
              ∷ int_array (tokens_of c q.2.content)
              ∷ object_end
              ∷ [])
            resp))

  pub handle_detokenize : Context → Request → Response → Handled
  handle_detokenize c req resp = guarded c req resp (
      parse_detokenize_request int_of (body_text req) >>= λ q.
      if not q.0
      then invalid_json c resp
      else if length q.2 == 0
      then missing c resp (codes "tokens")
      else with_context c (
          let text =
            if c.llm_ctx
            then llm.detokenize q.2 (empty_text max_prompt_length)
            else ascii_text q.2 in
          write_response 200 (object_start ∷ kv_string (codes "content") text ∷ object_end ∷ [])
            resp))
