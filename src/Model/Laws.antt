-- ===== src/Model/Laws.antt =====
-- The placeholder does what the handlers rely on.
use cllm.Common.{
  ℕ, zero, suc, ◌^◌, ◌≤◌, ◌<◌, ◌≡◌, refl, arith, Bool, true, ◌||◌, some, List, [], ◌∷◌, Bool-cases,
  inl, inr, length, length-append, length-take, take, drop, All, min, ltb, leb, ◌==◌, ne→==,
}
use cllm.Common.Maybe.{Ensures, ensures, Ensures-bind}
use cllm.CString.{strlen}
use cllm.Json.Writer.Arrays.{IsInt}
use cllm.Api.Bodies.InRange.{bytes_of-IsInt, length-bytes_of}
use cllm.Api.Handlers.{counted}
use cllm.Api.Handlers.Total.{IsLlm}
use cllm.Model.{
  llm_tokenize, llm_eval, llm_sample, append_token, generate_loop, placeholder, at_most,
}

tokenize-tokens : (text : List ℕ) (n : ℕ) → All IsInt (counted (llm_tokenize text n))
unfolding llm_tokenize
tokenize-tokens text n = elim (Bool-cases (n == 0 || leb (2 ^ 31) n)) [
  | inl e ↦ rw e tt
  | inr e ↦ rw e (bytes_of-IsInt (take (at_most (strlen text) n) text))
]

at_most-le : (n limit : ℕ) → at_most n limit ≤ limit
at_most-le n limit = ground arith

tokenize-count : (text : List ℕ) (n : ℕ) → length (counted (llm_tokenize text n)) ≤ n
unfolding llm_tokenize
tokenize-count text n = elim (Bool-cases (n == 0 || leb (2 ^ 31) n)) [
  | inl e ↦ rw e (omega arith)
  | inr e ↦ rw e (
      omega (
        arith,
        length-bytes_of (take (at_most (strlen text) n) text),
        length-take (at_most (strlen text) n) text,
        at_most-le (strlen text) n,
      ))
]

pub placeholder-IsLlm : (allocates : ℕ → Bool) → IsLlm (placeholder allocates)
placeholder-IsLlm allocates = record { tokens = tokenize-tokens; count = tokenize-count }

append_token-filled : (l : List ℕ) (t : ℕ) → 0 < length (append_token l t)
unfolding append_token
append_token-filled l t = elim (Bool-cases (ltb (length l) 512)) [
  | inl e ↦ rw e (omega (arith, length-append l (t ∷ [])))
  | inr e ↦ rw e (omega (arith, length-append (drop 1 l) (t ∷ [])))
]

llm_eval-filled : (l : List ℕ) → 0 < length l → llm_eval true l ≡ some l
unfolding llm_eval
llm_eval-filled [] h = absurd (omega arith)
llm_eval-filled (t ∷ l) h = rw (ne→== (suc (length l)) 0 (λ e. omega (arith, e))) refl

-- While memory lasts, a prompt that is not empty is continued by as many characters as are asked for
-- and fit.
pub generate_loop-length :
    (allocates : ℕ → Bool)
    → ((i : ℕ) → allocates i ≡ true)
    → (i n left : ℕ) (tokens : List ℕ) → 0 < length tokens
    → Ensures (λ text. length text ≡ min n left) (generate_loop allocates i n left tokens)
unfolding generate_loop
generate_loop-length allocates h i zero left tokens k = ensures _ (omega arith)
generate_loop-length allocates h i (suc n) zero tokens k = ensures _ (omega arith)
generate_loop-length allocates h i (suc n) (suc left) tokens k =
    rw (h i, llm_eval-filled tokens k)
      (Ensures-bind
        (generate_loop-length allocates h (suc i) n left (append_token tokens (llm_sample tokens))
          (append_token-filled tokens (llm_sample tokens)))
        (λ text e. ensures _ (omega (arith, e))))
