-- ===== src/Server/Routed.antt =====
-- The route of a request is that of the path in its first line.
use cllm.Common.{
  ℕ, ◌≤◌, ◌<◌, ◌≡◌, ◌≢◌, sym, ap, ◌∙◌, arith, List, ◌∷◌, ◌++◌, Bool, length, length-append, All,
}
use cllm.Common.Maybe.{some_inj}
use cllm.Http.{Request, zeroed_request}
use cllm.Http.Parse.Line.{IsWord, IsLast, line_text, http_parse_request-line}
use cllm.Json.Writer.Arrays.{IsFloat}
use cllm.Api.Handlers.{Llm}
use cllm.Api.Handlers.Total.{IsLlm}
use cllm.Api.Routes.{metadata, route_of}
use cllm.Api.Routes.Paths.{route_of-until_nul}
use cllm.Server.Answers.{Routed, zeroed-IsRequest}

module _ (int_of : List ℕ → ℕ) (embedding : List (ℕ × ℕ)) (llm : Llm) (model : IsLlm llm)
    (floats : All IsFloat embedding) where
  -- The server understands a request line and looks at nothing else to choose a route.
  pub line-Routed :
      (m p v rest : List ℕ)
      → All IsWord m
      → All IsWord p
      → All IsLast v
      → length m < 16
      → length p < 256
      → length v < 16
      → length (line_text m p v) < 256
      → length (line_text m p v ++ (13 ∷ 10 ∷ rest)) ≤ 12288
      → route_of p ≢ metadata
      → Routed int_of embedding llm model floats (line_text m p v ++ (13 ∷ 10 ∷ rest))
  line-Routed m p v rest wm wp wv sm sp sv short limit h q e k =
      let raw = line_text m p v ++ (13 ∷ 10 ∷ rest) in
      let r =
        http_parse_request-line m p v wm wp wv sm sp sv rest (length raw) zeroed_request
          zeroed-IsRequest short (omega (arith, length-append (line_text m p v) (13 ∷ 10 ∷ rest)))
          limit in
      let same : r.value ≡ q = some_inj (sym r.same ∙ e) in
      h (
        ap route_of (sym r.holds.1.path)
        ∙ route_of-until_nul r.value.1.path
        ∙ ap (λ (x : Bool × Request). route_of x.1.path) same
        ∙ k)
