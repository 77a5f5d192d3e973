-- ===== src/Model.antt =====
-- src/llm.c: the placeholder of the language model. The context is the tokens of the last evaluation;
-- `allocates i` is whether the call of malloc in round `i` of a generation succeeds.
use cllm.Common.{
  ℕ, zero, suc, ◌+◌, ◌-◌, ◌%◌, ◌^◌, Bool, true, false, not, ◌||◌, Option, none, some, List, [], ◌∷◌,
  ◌++◌, ltb, leb, ◌==◌, if◌then◌else◌, length, take, drop,
}
use cllm.Common.Maybe.{◌>>=◌}
use cllm.CString.{strlen}
use cllm.Api.Bodies.{bytes_of}
use cllm.Api.Handlers.{Llm}
pub mod Laws

-- The first `count` elements, as many as there are.
abbrev pub at_most : ℕ → ℕ → ℕ
at_most n limit = if ltb n limit then n else limit

-- `none` is a negative result; an `int` is negative from 2 ^ 31 on.
pub llm_tokenize : List ℕ → ℕ → Option (List ℕ)
llm_tokenize text max_tokens =
    if max_tokens == 0 || leb (2 ^ 31) max_tokens
    then none
    else some (bytes_of (take (at_most (strlen text) max_tokens) text))

-- What is left in the text of `length text` bytes.
pub llm_detokenize : List ℕ → List ℕ → List ℕ
llm_detokenize tokens text =
    let n = at_most (length tokens) (length text - 1) in
    if length tokens == 0 || length text == 0
    then text
    else bytes_of (take n tokens) ++ (0 ∷ drop (suc n) text)

abbrev Evaluated : Type 0
Evaluated = List ℕ

pub llm_eval : Bool → List ℕ → Option Evaluated
llm_eval allocated tokens = if length tokens == 0 || not allocated then none else some tokens

last_or : ℕ → List ℕ → ℕ
last_or d [] = d
last_or d (t ∷ l) = last_or t l

-- The successor of the last token, or `'A'`.
pub llm_sample : Evaluated → ℕ
llm_sample [] = 65
llm_sample (t ∷ l) = (last_or t l + 1) % 2 ^ 32

-- The window of 512 tokens.
pub append_token : List ℕ → ℕ → List ℕ
append_token tokens t =
    if ltb (length tokens) 512 then tokens ++ (t ∷ []) else drop 1 tokens ++ (t ∷ [])

module _ (allocates : ℕ → Bool) where
  -- The rounds: `n` tokens are still asked for, and there is room for `left` characters.
  pub generate_loop : ℕ → ℕ → ℕ → List ℕ → Option (List ℕ)
  generate_loop i zero left tokens = some []
  generate_loop i (suc n) zero tokens = some []
  generate_loop i (suc n) (suc left) tokens = llm_eval (allocates i) tokens >>= λ ctx.
      generate_loop (suc i) n left (append_token tokens (llm_sample ctx)) >>= λ rest.
      some (llm_sample ctx % 256 ∷ rest)

  -- A result of at most 0 is `none`, else the output.
  abbrev written : List ℕ → List ℕ → Option (List ℕ)
  written out [] = none
  written out (c ∷ l) = some ((c ∷ l) ++ (0 ∷ drop (suc (length (c ∷ l))) out))

  pub llm_generate : List ℕ → ℕ → List ℕ → Option (List ℕ)
  llm_generate prompt max_tokens out =
      if max_tokens == 0 || leb (2 ^ 31) max_tokens || length out == 0
      then none
      else (llm_tokenize prompt 512 >>= λ tokens.
          generate_loop 0 max_tokens (length out - 1) tokens >>= λ text. written out text)

  -- As the handlers see it.
  abbrev pub placeholder : Llm
  placeholder = record {
    tokenize = llm_tokenize;
    generate = llm_generate;
    detokenize = llm_detokenize;
  }
