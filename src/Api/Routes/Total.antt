-- ===== src/Api/Routes/Total.antt =====
-- Every route but the metadata answers.
use cllm.Common.{
  ℕ, suc, ◌-◌, ◌≤◌, ◌<◌, ◌≡◌, refl, arith, true, List, ◌∷◌, ◌++◌, length, length-append,
  length-drop, drop, take-all, All, ltb, ltb→lt, ◌≢◌,
}
use cllm.Common.Maybe.{Ensures, ensures}
use cllm.CString.Copy.{until_nul, until_nul_whole, NonNul}
use cllm.CString.Compare.{strlen_before}
use cllm.Format.Plain.{is_plain, is_plain-NonNul}
use cllm.SafeString.{safe_strcpy}
use cllm.SafeString.Bounds.{safe_strcpy_lem}
use cllm.Http.{Request, Response}
use cllm.Json.Writer.Arrays.{IsFloat}
use cllm.Api.Answer.{Context, set_json_headers, json_header}
use cllm.Api.Answer.Whole.{IsResponse, Answered, set_json_headers-Answered}
use cllm.Api.Handlers.{Llm}
use cllm.Api.Handlers.Total.{
  IsLlm, Ok, handle_v1_completions-Ok, handle_v1_chat_completions-Ok, handle_v1_embeddings-Ok,
  handle_v1_models-Ok, handle_tokenize-Ok, handle_detokenize-Ok,
}
use cllm.Api.Routes.{
  Route, completions, chat, embeddings, models, tokenize, detokenize, health, metadata, load,
  completion, not_found, fixed_body, handle_health_check, handle_load_model, handle_completion,
  route_of, serve, route_request,
}

-- The headers are set.
pub record Headed (r : Response) : Type 0 where
  pub sizes : IsResponse r
  pub header : until_nul r.headers ≡ json_header

pub set_json_headers-Headed : (r : Response) → IsResponse r → Headed (set_json_headers r)
unfolding set_json_headers
set_json_headers-Headed r h =
    let k = set_json_headers-Answered r h in
    record { sizes = record { headers = k.0; body = h.body }; header = k.1 }

stored :
    (buf t : List ℕ)
    → 16384 ≤ length buf
    → All NonNul t
    → length t < 100
    → (safe_strcpy buf t).0 ≡ t ++ (0 ∷ drop (suc (length t)) buf)
stored buf t h k short =
    rw
      (
        safe_strcpy_lem buf t (omega (arith, h)),
        until_nul_whole t k,
        take-all (length buf - 1) t (omega (arith, h, short)),
      )
      refl

-- A text goes into the body whole.
fixed_body-Answered :
    (status : ℕ) (t : List ℕ) (r : Response)
    → Headed r
    → is_plain t ≡ true
    → ltb (length t) 100 ≡ true
    → Answered (fixed_body status t r)
unfolding fixed_body
fixed_body-Answered status t r h plain few =
    let text = is_plain-NonNul t plain in
    let short = ltb→lt (length t) 100 few in
    let behind = drop (suc (length t)) r.body in
    let e = stored r.body t h.sizes.body text short in
    record {
      sizes = record {
        headers = h.sizes.headers;
        body = rw e (
            omega (
              arith,
              length-append t (0 ∷ behind),
              length-drop (suc (length t)) r.body,
              h.sizes.body,
              short,
            ));
      };
      header = h.header;
      body_length = rw e (omega (arith, strlen_before t behind text, short));
    }

module _ (int_of : List ℕ → ℕ) (embedding : List (ℕ × ℕ)) (llm : Llm) (model : IsLlm llm)
    (floats : All IsFloat embedding) where
  serve-Ok :
      (to : Route) (c : Context) (req : Request) (r : Response)
      → Headed r
      → to ≢ metadata
      → Ensures Ok (serve int_of embedding llm to c req r)
  unfolding serve handle_health_check handle_load_model handle_completion fixed_body
  serve-Ok completions c req r h k =
      handle_v1_completions-Ok int_of embedding llm model floats c req r h.sizes
  serve-Ok chat c req r h k =
      handle_v1_chat_completions-Ok int_of embedding llm model floats c req r h.sizes
  serve-Ok embeddings c req r h k =
      handle_v1_embeddings-Ok int_of embedding llm model floats c req r h.sizes
  serve-Ok models c req r h k =
      handle_v1_models-Ok int_of embedding llm model floats c req r h.sizes
  serve-Ok tokenize c req r h k =
      handle_tokenize-Ok int_of embedding llm model floats c req r h.sizes
  serve-Ok detokenize c req r h k =
      handle_detokenize-Ok int_of embedding llm model floats c req r h.sizes
  serve-Ok health c req r h k =
      ensures _ (fixed_body-Answered 200 _ _ (set_json_headers-Headed r h.sizes) refl refl)
  serve-Ok metadata c req r h k = absurd (k refl)
  serve-Ok load c req r h k =
      ensures _ (fixed_body-Answered 200 _ _ (set_json_headers-Headed r h.sizes) refl refl)
  serve-Ok completion c req r h k =
      ensures _ (fixed_body-Answered 200 _ _ (set_json_headers-Headed r h.sizes) refl refl)
  serve-Ok not_found c req r h k = ensures _ (fixed_body-Answered 404 _ r h refl refl)

  -- `route_request` returns on every request whose path is not routed to the metadata, and leaves a
  -- response whose headers are the content type and whose body has less than 16384 bytes. No handler
  -- stores outside an array, the request's body may be anything, and the model returns `int` tokens,
  -- as many as asked for at most.
  pub route_request-Ok :
      (c : Context) (req : Request) (r : Response)
      → IsResponse r
      → route_of req.path ≢ metadata
      → Ensures Ok (route_request int_of embedding llm c req r)
  unfolding route_request
  route_request-Ok c req r h k =
      serve-Ok (route_of req.path) c req (set_json_headers r) (set_json_headers-Headed r h) k
