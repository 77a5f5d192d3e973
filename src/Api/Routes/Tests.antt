-- ===== src/Api/Routes/Tests.antt =====
-- A request for the health of the server, with the placeholder of the language model.
use cllm.Common.{ℕ, ◌≢◌, refl, arith, List, [], ◌∷◌, codes, replicate, All, true}
use cllm.Common.Maybe.{Ensures}
use cllm.Http.{Request, Response, zeroed_request}
use cllm.Json.Writer.Arrays.{IsFloat}
use cllm.Api.Answer.{api_v1_init}
use cllm.Api.Answer.Whole.{IsResponse}
use cllm.Api.Handlers.{Llm}
use cllm.Api.Handlers.Total.{IsLlm, Ok}
use cllm.Model.{placeholder}
use cllm.Model.Laws.{placeholder-IsLlm}
use cllm.Api.Routes.{health, metadata, route_request}
use cllm.Api.Routes.Paths.{health-route}
use cllm.Api.Routes.Total.{route_request-Ok}

-- The placeholder of the language model while memory lasts.
abbrev pub char_model : Llm
char_model = placeholder (λ i. true)

pub char_model-IsLlm : IsLlm char_model
char_model-IsLlm = placeholder-IsLlm (λ i. true)

abbrev pub no_number : List ℕ → ℕ
no_number text = 0

abbrev pub one_float : List (ℕ × ℕ)
one_float = (0, 100000) ∷ []

pub one_float-IsFloat : All IsFloat one_float
one_float-IsFloat = ((omega arith, omega arith), tt)

abbrev health_request : Request
health_request = record zeroed_request { path = codes "/health" }

abbrev empty_response : Response
empty_response = record {
  status_code = 0;
  headers = replicate 1024 0;
  body = replicate 16384 0;
  body_length = 0;
}

empty_response-IsResponse : IsResponse empty_response
empty_response-IsResponse = record { headers = refl; body = omega arith }

not_metadata : health ≢ metadata
not_metadata e = cc

route_request-Ok_example :
    Ensures Ok (
      route_request no_number one_float char_model (api_v1_init true) health_request empty_response)
route_request-Ok_example =
    route_request-Ok no_number one_float char_model char_model-IsLlm one_float-IsFloat
      (api_v1_init true) health_request empty_response empty_response-IsResponse
      (rw health-route not_metadata)
