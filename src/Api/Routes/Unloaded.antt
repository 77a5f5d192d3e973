-- ===== src/Api/Routes/Unloaded.antt =====
-- The routes with a context that has no model.
use cllm.Common.{ℕ, ◌≡◌, refl, sym, subst, false, List}
use cllm.Http.{Request, Response}
use cllm.Api.Answer.{Context, set_json_headers}
use cllm.Api.Answer.Kept.{Keeps, Keeps-bind}
use cllm.Api.Handlers.{Llm}
use cllm.Api.Handlers.Unloaded.{
  handle_v1_completions-Keeps, handle_v1_chat_completions-Keeps, handle_v1_embeddings-Keeps,
  handle_v1_models-Keeps, handle_tokenize-Keeps, handle_detokenize-Keeps,
  handle_v1_completions_without_model, handle_v1_chat_completions_without_model,
  handle_v1_embeddings_without_model, handle_v1_models_without_model, handle_tokenize_without_model,
  handle_detokenize_without_model,
}
use cllm.Api.Routes.{
  Route, completions, chat, embeddings, models, tokenize, detokenize, health, metadata, load,
  completion, not_found, handle_model_metadata, route_of, serve, route_request,
}

module _ (int_of : List ℕ → ℕ) (embedding : List (ℕ × ℕ)) where
  serve-Keeps :
      (m : Llm) (way : Route) (c : Context) (req : Request) (r : Response)
      → Keeps c.llm_ctx (serve int_of embedding m way c req r)
  unfolding serve
  serve-Keeps m completions c req r = handle_v1_completions-Keeps int_of embedding m c req r
  serve-Keeps m chat c req r = handle_v1_chat_completions-Keeps int_of embedding m c req r
  serve-Keeps m embeddings c req r = handle_v1_embeddings-Keeps int_of embedding m c req r
  serve-Keeps m models c req r = handle_v1_models-Keeps int_of embedding m c req r
  serve-Keeps m tokenize c req r = handle_tokenize-Keeps int_of embedding m c req r
  serve-Keeps m detokenize c req r = handle_detokenize-Keeps int_of embedding m c req r
  serve-Keeps m health c req r = record { kept = refl }
  serve-Keeps m metadata c req r =
      Keeps-bind (handle_model_metadata r) (λ r'. record { kept = refl })
  serve-Keeps m load c req r = record { kept = refl }
  serve-Keeps m completion c req r = record { kept = refl }
  serve-Keeps m not_found c req r = record { kept = refl }

  serve_without_model :
      (m n : Llm) (way : Route) (c : Context) (req : Request) (r : Response)
      → serve int_of embedding m way (record c { llm_ctx = false }) req r
        ≡ serve int_of embedding n way (record c { llm_ctx = false }) req r
  unfolding serve
  serve_without_model m n completions c req r =
      handle_v1_completions_without_model int_of embedding m n c req r
  serve_without_model m n chat c req r =
      handle_v1_chat_completions_without_model int_of embedding m n c req r
  serve_without_model m n embeddings c req r =
      handle_v1_embeddings_without_model int_of embedding m n c req r
  serve_without_model m n models c req r =
      handle_v1_models_without_model int_of embedding m n c req r
  serve_without_model m n tokenize c req r =
      handle_tokenize_without_model int_of embedding m n c req r
  serve_without_model m n detokenize c req r =
      handle_detokenize_without_model int_of embedding m n c req r
  serve_without_model m n health c req r = refl
  serve_without_model m n metadata c req r = refl
  serve_without_model m n load c req r = refl
  serve_without_model m n completion c req r = refl
  serve_without_model m n not_found c req r = refl

  pub route_request-Keeps :
      (m : Llm) (c : Context) (req : Request) (r : Response)
      → Keeps c.llm_ctx (route_request int_of embedding m c req r)
  unfolding route_request
  route_request-Keeps m c req r = serve-Keeps m (route_of req.path) c req (set_json_headers r)

  pub route_request_without_model :
      (m n : Llm) (c : Context) (req : Request) (r : Response)
      → c.llm_ctx ≡ false
      → route_request int_of embedding m c req r ≡ route_request int_of embedding n c req r
  unfolding route_request
  route_request_without_model m n c req r h =
      subst
        (λ b.
          serve int_of embedding m (route_of req.path) (record c { llm_ctx = b }) req
            (set_json_headers r)
          ≡ serve int_of embedding n (route_of req.path) (record c { llm_ctx = b }) req
              (set_json_headers r))
        (sym h) (serve_without_model m n (route_of req.path) c req (set_json_headers r))
