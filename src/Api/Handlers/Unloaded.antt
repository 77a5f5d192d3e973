-- ===== src/Api/Handlers/Unloaded.antt =====
-- The handlers with a context that has no model.
use cllm.CString.{first}
use cllm.Common.{ℕ, ◌≡◌, refl, Bool, false, not, Option, List, ◌==◌, if◌then◌else◌, if_both, length}
use cllm.Common.Maybe.{◌>>=◌}
use cllm.Http.{Request, Response}
use cllm.Api.Loop.{Read}
use cllm.Api.Requests.{
  CompletionRequest, ChatRequest, EmbeddingRequest, TokenizeRequest, DetokenizeRequest,
  parse_completion_request, parse_tokenize_request, parse_embedding_request,
}
use cllm.Api.Arrays.{parse_chat_request, parse_detokenize_request}
use cllm.Api.Answer.{Context, is_post_request, is_get_request}
use cllm.Api.Answer.Kept.{Keeps, Keeps-bind, Keeps-then, Keeps-context, generate_request_id-Keeps}
use cllm.Api.Handlers.{
  Llm, Handled, with_context, guarded, body_text, handle_v1_completions, handle_v1_chat_completions,
  handle_v1_embeddings, handle_v1_models, handle_tokenize, handle_detokenize, complete, reply,
  tokens_of,
}

guarded-Keeps :
    (c : Context) (req : Request) (resp : Response) (rest : Handled)
    → Keeps c.llm_ctx rest
    → Keeps c.llm_ctx (guarded c req resp rest)
unfolding guarded
guarded-Keeps c req resp rest h =
    if_both (Keeps c.llm_ctx) (not (is_post_request req)) (Keeps-context c _ refl)
      (if_both (Keeps c.llm_ctx) (req.body_length == 0) (Keeps-context c _ refl) h)

-- A parsed request is refused twice, or answered.
parsed-Keeps :
    {A : Type 0} (c : Context) (o : Read A) (bad missed : Option Response) (test : A → Bool)
    (f : A → Handled)
    → ((a : A) → Keeps c.llm_ctx (f a))
    → Keeps c.llm_ctx (
        o >>= λ q.
        if not q.0 then with_context c bad else if test q.2 then with_context c missed else f q.2)
parsed-Keeps c o bad missed test f h = Keeps-bind o (λ q.
    if_both (Keeps c.llm_ctx) (not q.0) (Keeps-context c bad refl)
      (if_both (Keeps c.llm_ctx) (test q.2) (Keeps-context c missed refl) (h q.2)))

numbered-Keeps :
    (c : Context) (o : Option (Context × List ℕ)) (f : Context × List ℕ → Option Response)
    → Keeps c.llm_ctx o
    → Keeps c.llm_ctx (o >>= λ g. with_context g.0 (f g))
numbered-Keeps c o f h = Keeps-then o h (λ g k. Keeps-context g.0 (f g) k)

module _ (int_of : List ℕ → ℕ) (embedding : List (ℕ × ℕ)) (llm : Llm) (c : Context) (req : Request)
    (resp : Response) where
  pub handle_v1_completions-Keeps :
      Keeps c.llm_ctx (handle_v1_completions int_of embedding llm c req resp)
  unfolding handle_v1_completions
  handle_v1_completions-Keeps = guarded-Keeps c req resp _ (
      parsed-Keeps c (parse_completion_request int_of (body_text req)) _ _
        (λ (q : CompletionRequest). first q.prompt == 0) _
        (λ (q : CompletionRequest). numbered-Keeps c _ _ (generate_request_id-Keeps c _)))

  pub handle_v1_chat_completions-Keeps :
      Keeps c.llm_ctx (handle_v1_chat_completions int_of embedding llm c req resp)
  unfolding handle_v1_chat_completions
  handle_v1_chat_completions-Keeps = guarded-Keeps c req resp _ (
      parsed-Keeps c (parse_chat_request int_of (body_text req)) _ _
        (λ (q : ChatRequest). length q.messages == 0) _
        (λ (q : ChatRequest). numbered-Keeps c _ _ (generate_request_id-Keeps c _)))

  pub handle_v1_embeddings-Keeps :
      Keeps c.llm_ctx (handle_v1_embeddings int_of embedding llm c req resp)
  unfolding handle_v1_embeddings
  handle_v1_embeddings-Keeps = guarded-Keeps c req resp _ (
      parsed-Keeps c (parse_embedding_request (body_text req)) _ _
        (λ (q : EmbeddingRequest). first q.input == 0) _
        (λ (q : EmbeddingRequest). Keeps-context c _ refl))

  pub handle_v1_models-Keeps : Keeps c.llm_ctx (handle_v1_models int_of embedding llm c req resp)
  unfolding handle_v1_models
  handle_v1_models-Keeps =
      if_both (Keeps c.llm_ctx) (not (is_get_request req)) (Keeps-context c _ refl)
        (Keeps-context c _ refl)

  pub handle_tokenize-Keeps : Keeps c.llm_ctx (handle_tokenize int_of embedding llm c req resp)
  unfolding handle_tokenize
  handle_tokenize-Keeps = guarded-Keeps c req resp _ (
      parsed-Keeps c (parse_tokenize_request (body_text req)) _ _
        (λ (q : TokenizeRequest). first q.content == 0) _
        (λ (q : TokenizeRequest). Keeps-context c _ refl))

  pub handle_detokenize-Keeps : Keeps c.llm_ctx (handle_detokenize int_of embedding llm c req resp)
  unfolding handle_detokenize
  handle_detokenize-Keeps = guarded-Keeps c req resp _ (
      parsed-Keeps c (parse_detokenize_request int_of (body_text req)) _ _
        (λ (q : DetokenizeRequest). length q == 0) _
        (λ (q : DetokenizeRequest). Keeps-context c _ refl))

-- No model is called.
module _ (int_of : List ℕ → ℕ) (embedding : List (ℕ × ℕ)) (m n : Llm) (c : Context) (req : Request)
    (resp : Response) where
  abbrev unloaded : Context
  unloaded = record c { llm_ctx = false }

  pub handle_v1_completions_without_model :
      handle_v1_completions int_of embedding m unloaded req resp
      ≡ handle_v1_completions int_of embedding n unloaded req resp
  unfolding handle_v1_completions complete
  handle_v1_completions_without_model = refl

  pub handle_v1_chat_completions_without_model :
      handle_v1_chat_completions int_of embedding m unloaded req resp
      ≡ handle_v1_chat_completions int_of embedding n unloaded req resp
  unfolding handle_v1_chat_completions reply
  handle_v1_chat_completions_without_model = refl

  pub handle_v1_embeddings_without_model :
      handle_v1_embeddings int_of embedding m unloaded req resp
      ≡ handle_v1_embeddings int_of embedding n unloaded req resp
  unfolding handle_v1_embeddings
  handle_v1_embeddings_without_model = refl

  pub handle_v1_models_without_model :
      handle_v1_models int_of embedding m unloaded req resp
      ≡ handle_v1_models int_of embedding n unloaded req resp
  unfolding handle_v1_models
  handle_v1_models_without_model = refl

  pub handle_tokenize_without_model :
      handle_tokenize int_of embedding m unloaded req resp
      ≡ handle_tokenize int_of embedding n unloaded req resp
  unfolding handle_tokenize tokens_of
  handle_tokenize_without_model = refl

  pub handle_detokenize_without_model :
      handle_detokenize int_of embedding m unloaded req resp
      ≡ handle_detokenize int_of embedding n unloaded req resp
  unfolding handle_detokenize
  handle_detokenize_without_model = refl
