-- ===== src/Server/Unloaded.antt =====
-- The server that the kernel boots.
use mathlib.Core.Path.{fun_ext}
use cllm.Common.{
  ℕ, ◌≡◌, refl, ap, subst, Bool, true, false, some, none, if◌then◌else◌, List, length, take,
  replicate,
}
use cllm.Common.Maybe.{◌>>=◌}
use cllm.Http.{Request, zeroed_request}
use cllm.Http.Parse.{http_parse_request}
use cllm.Api.Answer.{Context}
use cllm.Api.Answer.Kept.{Keeps, IfAny, Keeps-bind, Keeps-then, Keeps-context}
use cllm.Http.Generate.{http_generate_response}
use cllm.Api.Handlers.{Llm, Handled}
use cllm.Api.Routes.Unloaded.{route_request-Keeps, route_request_without_model}
use cllm.Server.{zeroed_response, bad_request, dispatch, answer, response_buf_size}

module _ (int_of : List ℕ → ℕ) (embedding : List (ℕ × ℕ)) where
  dispatch-Keeps :
      (m : Llm) (c : Context) (q : Bool × Request)
      → Keeps c.llm_ctx (dispatch int_of embedding m c q)
  dispatch-Keeps m c (true, req) = route_request-Keeps int_of embedding m c req zeroed_response
  dispatch-Keeps m c (false, req) = Keeps-context c (bad_request zeroed_response) refl

  dispatch_without_model :
      (m n : Llm) (c : Context) (q : Bool × Request)
      → c.llm_ctx ≡ false
      → dispatch int_of embedding m c q ≡ dispatch int_of embedding n c q
  dispatch_without_model m n c (true, req) h =
      route_request_without_model int_of embedding m n c req zeroed_response h
  dispatch_without_model m n c (false, req) h = refl

  -- While no model is loaded, the answer to any bytes is the same whatever the model is, and no request
  -- loads one: the context behind the answer has no model either.
  pub answer_without_model :
      (m n : Llm) (c : Context) (raw : List ℕ)
      → c.llm_ctx ≡ false
      → (answer int_of embedding m c raw ≡ answer int_of embedding n c raw)
        × IfAny false (answer int_of embedding m c raw)
  unfolding answer
  answer_without_model m n c raw h =
      let buffer = replicate response_buf_size 0 in
      (
        ap
            (λ (f : Bool × Request → Handled).
              http_parse_request raw (length raw) zeroed_request >>= λ q. f q >>= λ a.
              http_generate_response a.1 buffer response_buf_size >>= λ s.
              some (a.0, if s.0 then some (take s.2 s.1) else none))
            (fun_ext (λ q. dispatch_without_model m n c q h)),
        subst (λ b. IfAny b (answer int_of embedding m c raw)) h
            (Keeps-bind (http_parse_request raw (length raw) zeroed_request) (λ q.
              Keeps-then (dispatch int_of embedding m c q) (dispatch-Keeps m c q) (λ a k.
                Keeps-bind (http_generate_response a.1 buffer response_buf_size)
                  (λ s. record { kept = k })))).kept,
      )
