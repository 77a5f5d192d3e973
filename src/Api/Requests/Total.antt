-- ===== src/Api/Requests/Total.antt =====
-- The request parsers without arrays return on every body.
use cllm.Common.{ℕ, ◌≤◌, ◌≡◌, refl, ap, ◌∙◌, arith, List, codes, length, if_both}
use cllm.Common.Maybe.{Ensures}
use cllm.Json.Reader.{json_parse_number, json_parse_int, json_parse_bool}
use cllm.Json.Reader.Progress.{left}
use cllm.Api.Loop.{is_key}
use cllm.Api.Loop.Progress.{Advances, FieldAdvances, skip_field-Advances, parse_object-Ensures}
use cllm.Api.Requests.{
  CompletionRequest, TokenizeRequest, EmbeddingRequest, completion_request_init,
  tokenize_request_init, embedding_request_init, completion_field, tokenize_field, embedding_field,
  parse_completion_request, parse_tokenize_request, parse_embedding_request, clamp_tokens,
}
use cllm.Api.Requests.Fields.{
  json_parse_number-left, json_parse_int-left, json_parse_bool-left, string_field-Advances,
  value_field-Advances,
}

-- The arrays have their sizes, and no more than 512 tokens are asked for.
pub record IsCompletion (r : CompletionRequest) : Type 0 where
  pub prompt : length r.prompt ≡ 4096
  pub model : length r.model ≡ 64
  pub max_tokens : r.max_tokens ≤ 512

pub clamp_tokens-le : (v : ℕ) → clamp_tokens v ≤ 512
clamp_tokens-le v = ground arith

-- A request that differs in other fields.
kept :
    {r : CompletionRequest} (r' : CompletionRequest)
    → IsCompletion r
    → r'.prompt ≡ r.prompt
    → r'.model ≡ r.model
    → r'.max_tokens ≡ r.max_tokens
    → IsCompletion r'
kept r' h e f g = record {
  prompt = ap length e ∙ h.prompt;
  model = ap length f ∙ h.model;
  max_tokens = omega (arith, g, h.max_tokens);
}

module _ (int_of : List ℕ → ℕ) where
  completion_field-Advances : FieldAdvances IsCompletion 64 (completion_field int_of) (omega arith)
  unfolding completion_field
  completion_field-Advances key p r h =
      let A = Advances IsCompletion (left p) in
      let V = value_field-Advances IsCompletion r in
      let W = value_field-Advances IsCompletion r in
      let number = json_parse_number-left p in
      let int = json_parse_int-left p in
      let bool = json_parse_bool-left p in
      if_both A (is_key key (codes "prompt"))
        (string_field-Advances IsCompletion 4096 r.prompt _ p (omega arith) h.prompt
          (λ b e. record { prompt = e; model = h.model; max_tokens = h.max_tokens }))
        (if_both A (is_key key (codes "model"))
          (string_field-Advances IsCompletion 64 r.model _ p (omega arith) h.model
            (λ b e. record { prompt = h.prompt; model = e; max_tokens = h.max_tokens }))
          (if_both A (is_key key (codes "max_tokens"))
            (V _ (left p) (json_parse_int p) h
              (λ v. record {
                prompt = h.prompt;
                model = h.model;
                max_tokens = clamp_tokens-le (int_of v);
              })
              int)
            (if_both A (is_key key (codes "temperature"))
              (V _ (left p) (json_parse_number p) h (λ v. kept _ h refl refl refl) number)
              (if_both A (is_key key (codes "top_p"))
                (V _ (left p) (json_parse_number p) h (λ v. kept _ h refl refl refl) number)
                (if_both A (is_key key (codes "top_k"))
                  (V _ (left p) (json_parse_int p) h (λ v. kept _ h refl refl refl) int)
                  (if_both A (is_key key (codes "frequency_penalty"))
                    (V _ (left p) (json_parse_number p) h (λ v. kept _ h refl refl refl) number)
                    (if_both A (is_key key (codes "presence_penalty"))
                      (V _ (left p) (json_parse_number p) h (λ v. kept _ h refl refl refl) number)
                      (if_both A (is_key key (codes "stream"))
                        (W _ (left p) (json_parse_bool p) h (λ v. kept _ h refl refl refl) bool)
                        (if_both A (is_key key (codes "seed"))
                          (V _ (left p) (json_parse_int p) h (λ v. kept _ h refl refl refl) int)
                          (if_both A (is_key key (codes "echo"))
                            (W _ (left p) (json_parse_bool p) h (λ v. kept _ h refl refl refl) bool)
                            (if_both A (is_key key (codes "n"))
                              (V _ (left p) (json_parse_int p) h (λ v. kept _ h refl refl refl) int)
                              (skip_field-Advances IsCompletion p r h))))))))))))

  -- The parser of a completion request returns on every body, and leaves a request whose strings
  -- are inside their arrays and which asks for at most 512 tokens.
  pub parse_completion_request-IsCompletion :
      (body : List ℕ) → Ensures (λ q. IsCompletion q.2) (parse_completion_request int_of body)
  unfolding parse_completion_request
  parse_completion_request-IsCompletion body =
      parse_object-Ensures IsCompletion 64 (completion_field int_of) (omega arith)
        completion_field-Advances body completion_request_init
        (record { prompt = refl; model = refl; max_tokens = omega arith })

abbrev pub IsTokenize : TokenizeRequest → Type 0
IsTokenize r = length r.content ≡ 4096

tokenize_field-Advances : FieldAdvances IsTokenize 64 tokenize_field (omega arith)
unfolding tokenize_field
tokenize_field-Advances key p r h =
    let A = Advances IsTokenize (left p) in
    if_both A (is_key key (codes "content"))
      (string_field-Advances IsTokenize 4096 r.content _ p (omega arith) h (λ b e. e))
      (if_both A (is_key key (codes "add_special"))
        (value_field-Advances IsTokenize r _ (left p) (json_parse_bool p) h (λ v. h)
          (json_parse_bool-left p))
        (skip_field-Advances IsTokenize p r h))

pub parse_tokenize_request-IsTokenize :
    (body : List ℕ) → Ensures (λ q. IsTokenize q.2) (parse_tokenize_request body)
unfolding parse_tokenize_request
parse_tokenize_request-IsTokenize body =
    parse_object-Ensures IsTokenize 64 tokenize_field (omega arith) tokenize_field-Advances body
      tokenize_request_init refl

pub record IsEmbedding (r : EmbeddingRequest) : Type 0 where
  pub input : length r.input ≡ 4096
  pub model : length r.model ≡ 64

embedding_field-Advances : FieldAdvances IsEmbedding 64 embedding_field (omega arith)
unfolding embedding_field
embedding_field-Advances key p r h =
    let A = Advances IsEmbedding (left p) in
    if_both A (is_key key (codes "input"))
      (string_field-Advances IsEmbedding 4096 r.input _ p (omega arith) h.input
        (λ b e. record { input = e; model = h.model }))
      (if_both A (is_key key (codes "model"))
        (string_field-Advances IsEmbedding 64 r.model _ p (omega arith) h.model
          (λ b e. record { input = h.input; model = e }))
        (skip_field-Advances IsEmbedding p r h))

pub parse_embedding_request-IsEmbedding :
    (body : List ℕ) → Ensures (λ q. IsEmbedding q.2) (parse_embedding_request body)
unfolding parse_embedding_request
parse_embedding_request-IsEmbedding body =
    parse_object-Ensures IsEmbedding 64 embedding_field (omega arith) embedding_field-Advances body
      embedding_request_init (record { input = refl; model = refl })
