-- ===== src/Api/Handlers/Total.antt =====
-- Every handler answers every request.
use cllm.Common.{
  ℕ, ◌%◌, ◌^◌, ◌≤◌, arith, Bool, not, List, [], ◌++◌, codes, length, All, if_both, ◌==◌,
  if◌then◌else◌,
}
use cllm.Common.Maybe.{Ensures, ensures, Ensures-bind}
use cllm.CString.{first, strlen}
use cllm.Http.{Request, Response}
use cllm.Json.Writer.Arrays.{IsInt, IsFloat}
use cllm.Api.Requests.{CompletionRequest}
use cllm.Api.Requests.Total.{
  parse_completion_request-IsCompletion, parse_tokenize_request-IsTokenize,
  parse_embedding_request-IsEmbedding,
}
use cllm.Api.Arrays.Total.{parse_chat_request-IsChat, parse_detokenize_request-IsDetokenize}
use cllm.Api.Answer.{Context, Call, is_post_request, is_get_request, write_response}
use cllm.Api.Answer.Safe.{InRange}
use cllm.Api.Answer.Whole.{
  IsResponse, Answered, write_response-Answered, build_error_response-Answered,
  generate_request_id_lem,
}
use cllm.Api.Bodies.{completion_calls, chat_calls, embedding_calls, models_calls, count_messages}
use cllm.Api.Bodies.InRange.{
  completion_calls-InRange, chat_calls-InRange, embedding_calls-InRange, models_calls-InRange,
  count_messages-IsInt, bytes_of-IsInt,
}
use cllm.Api.Handlers.{
  Llm, Handled, with_context, refuse, guarded, invalid_json, missing, body_text, counted, complete,
  handle_v1_completions, reply, handle_v1_chat_completions, handle_v1_embeddings, handle_v1_models,
  tokens_of, handle_tokenize, handle_detokenize,
}

-- What the handlers rely on: `llm_tokenize` stores `int`s, and at most as many as it is asked for.
pub record IsLlm (llm : Llm) : Type 0 where
  pub tokens : (text : List ℕ) (n : ℕ) → All IsInt (counted (llm.tokenize text n))
  pub count : (text : List ℕ) (n : ℕ) → length (counted (llm.tokenize text n)) ≤ n

-- What a handler leaves.
abbrev pub Ok : Context × Response → Type 0
Ok p = Answered p.1

with_context-Ok :
    (c : Context) (status : ℕ) (calls : List Call) (resp : Response)
    → IsResponse resp
    → All InRange calls
    → Ensures Ok (with_context c (write_response status calls resp))
with_context-Ok c status calls resp h k =
    Ensures-bind (write_response-Answered status calls resp h k) (λ r a. ensures (c, r) a.0)

pub refuse-Ok :
    (c : Context) (resp : Response) (status : ℕ) (message param code : List ℕ)
    → IsResponse resp
    → Ensures Ok (refuse c resp status message param code)
refuse-Ok c resp status message param code h =
    Ensures-bind
      (build_error_response-Answered resp status message (codes "invalid_request_error") param code
        h)
      (λ r a. ensures (c, r) a.0)

guarded-Ok :
    (c : Context) (req : Request) (resp : Response) (rest : Handled)
    → IsResponse resp
    → Ensures Ok rest
    → Ensures Ok (guarded c req resp rest)
unfolding guarded
guarded-Ok c req resp rest h k =
    if_both (Ensures Ok) (not (is_post_request req))
      (refuse-Ok c resp 405 (codes "Method not allowed") [] (codes "method_not_allowed") h)
      (if_both (Ensures Ok) (req.body_length == 0)
        (refuse-Ok c resp 400 (codes "Request body is empty") [] (codes "empty_body") h) k)

-- The two refusals behind a parser, and the answer.
answered_or_refused :
    (c : Context) (resp : Response) (bad empty : Bool) (name : List ℕ) (rest : Handled)
    → IsResponse resp
    → Ensures Ok rest
    → Ensures Ok (if bad then invalid_json c resp else if empty then missing c resp name else rest)
answered_or_refused c resp bad empty name rest h k =
    if_both (Ensures Ok) bad
      (refuse-Ok c resp 400 (codes "Invalid JSON") [] (codes "json_parse_error") h)
      (if_both (Ensures Ok) empty
        (refuse-Ok c resp 400 (codes "Missing required field: " ++ name) name
          (codes "missing_field") h)
        k)

module _ (int_of : List ℕ → ℕ) (embedding : List (ℕ × ℕ)) (llm : Llm) (model : IsLlm llm)
    (floats : All IsFloat embedding) where
  complete-IsInt :
      (c : Context) (r : CompletionRequest) → IsInt (complete int_of embedding llm c r).1
  unfolding complete
  complete-IsInt c r =
      if_both (λ (p : List ℕ × ℕ). IsInt p.1) c.llm_ctx (omega (arith, model.count r.prompt 2048))
        (omega arith)

  pub handle_v1_completions-Ok :
      (c : Context) (req : Request) (resp : Response)
      → IsResponse resp
      → Ensures Ok (handle_v1_completions int_of embedding llm c req resp)
  unfolding handle_v1_completions
  handle_v1_completions-Ok c req resp h = guarded-Ok c req resp _ h (
      Ensures-bind (parse_completion_request-IsCompletion int_of (body_text req)) (λ q k.
        answered_or_refused c resp (not q.0) (first q.2.prompt == 0) (codes "prompt") _ h (
          Ensures-bind (generate_request_id_lem c (codes "cmpl") (omega arith)) (λ g l.
            let made = complete int_of embedding llm c q.2 in
            with_context-Ok g.0 200 (completion_calls g.0 g.1 made.0 made.1) resp h
              (completion_calls-InRange g.0 g.1 made.0 made.1 (complete-IsInt c q.2))))))

  pub handle_v1_chat_completions-Ok :
      (c : Context) (req : Request) (resp : Response)
      → IsResponse resp
      → Ensures Ok (handle_v1_chat_completions int_of embedding llm c req resp)
  unfolding handle_v1_chat_completions
  handle_v1_chat_completions-Ok c req resp h = guarded-Ok c req resp _ h (
      Ensures-bind (parse_chat_request-IsChat int_of (body_text req)) (λ q k.
        answered_or_refused c resp (not q.0) (length q.2.messages == 0) (codes "messages") _ h (
          Ensures-bind (generate_request_id_lem c (codes "chatcmpl") (omega arith)) (λ g l.
            let text = reply int_of embedding llm c q.2 in
            let n = count_messages q.2.messages in
            with_context-Ok g.0 200 (chat_calls g.0 g.1 text n (strlen text % 2 ^ 32)) resp h (
              chat_calls-InRange g.0 g.1 text n (strlen text % 2 ^ 32)
                (count_messages-IsInt q.2.messages) (omega arith))))))

  pub handle_v1_embeddings-Ok :
      (c : Context) (req : Request) (resp : Response)
      → IsResponse resp
      → Ensures Ok (handle_v1_embeddings int_of embedding llm c req resp)
  unfolding handle_v1_embeddings
  handle_v1_embeddings-Ok c req resp h = guarded-Ok c req resp _ h (
      Ensures-bind (parse_embedding_request-IsEmbedding (body_text req)) (λ q k.
        answered_or_refused c resp (not q.0) (first q.2.input == 0) (codes "input") _ h (
          with_context-Ok c 200 (embedding_calls embedding (strlen q.2.input % 2 ^ 32)) resp h
            (embedding_calls-InRange embedding _ floats (omega arith)))))

  pub handle_v1_models-Ok :
      (c : Context) (req : Request) (resp : Response)
      → IsResponse resp
      → Ensures Ok (handle_v1_models int_of embedding llm c req resp)
  unfolding handle_v1_models
  handle_v1_models-Ok c req resp h =
      if_both (Ensures Ok) (not (is_get_request req))
        (refuse-Ok c resp 405 (codes "Method not allowed") [] (codes "method_not_allowed") h)
        (with_context-Ok c 200 (models_calls c) resp h (models_calls-InRange c))

  tokens_of-IsInt : (c : Context) (t : List ℕ) → All IsInt (tokens_of int_of embedding llm c t)
  unfolding tokens_of
  tokens_of-IsInt c t = if_both (All IsInt) c.llm_ctx (model.tokens t 2048) (bytes_of-IsInt _)

  pub handle_tokenize-Ok :
      (c : Context) (req : Request) (resp : Response)
      → IsResponse resp
      → Ensures Ok (handle_tokenize int_of embedding llm c req resp)
  unfolding handle_tokenize
  handle_tokenize-Ok c req resp h = guarded-Ok c req resp _ h (
      Ensures-bind (parse_tokenize_request-IsTokenize (body_text req)) (λ q k.
        answered_or_refused c resp (not q.0) (first q.2.content == 0) (codes "content") _ h (
          with_context-Ok c 200 _ resp h
            (tt, (omega arith, (tokens_of-IsInt c q.2.content, (tt, tt)))))))

  pub handle_detokenize-Ok :
      (c : Context) (req : Request) (resp : Response)
      → IsResponse resp
      → Ensures Ok (handle_detokenize int_of embedding llm c req resp)
  unfolding handle_detokenize
  handle_detokenize-Ok c req resp h = guarded-Ok c req resp _ h (
      Ensures-bind (parse_detokenize_request-IsDetokenize int_of (body_text req)) (λ q k.
        answered_or_refused c resp (not q.0) (length q.2 == 0) (codes "tokens") _ h
          (with_context-Ok c 200 _ resp h (tt, (omega arith, (tt, tt))))))
