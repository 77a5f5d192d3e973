-- ===== src/Api/Answer/Kept.antt =====
-- The model that the context has is the same behind an answer.
use cllm.Common.{
  ℕ, ◌^◌, ◌%◌, ◌/◌, ◌+◌, ◌≡◌, refl, Bool, Option, none, some, List, [], ◌∷◌, replicate, codes,
}
use cllm.Common.Maybe.{◌>>=◌}
use cllm.Format.{text, word, vsnprintf}
use cllm.Api.Answer.{Context, generate_request_id}

abbrev pub IfAny {ℓ} : {B : Type ℓ} → Bool → Option (Context × B) → Type 0
IfAny b none = Unit
IfAny b (some p) = p.0.llm_ctx ≡ b

-- What is answered, if anything, comes with a context that has a model exactly if `b`.
pub record Keeps {ℓ} {B : Type ℓ} (b : Bool) (o : Option (Context × B)) : Type 0 where
  pub kept : IfAny b o

pub Keeps-bind {ℓ κ} :
    {A : Type ℓ} {B : Type κ} {b : Bool} (o : Option A) {f : A → Option (Context × B)}
    → ((a : A) → Keeps b (f a))
    → Keeps b (o >>= f)
Keeps-bind none h = record { kept = tt }
Keeps-bind (some a) h = h a

pub Keeps-then {ℓ κ} :
    {A : Type ℓ} {B : Type κ} {b : Bool} (o : Option (Context × A))
    {f : Context × A → Option (Context × B)}
    → Keeps b o
    → ((p : Context × A) → p.0.llm_ctx ≡ b → Keeps b (f p))
    → Keeps b (o >>= f)
Keeps-then none k h = record { kept = tt }
Keeps-then (some p) k h = h p k.kept

pub Keeps-context {ℓ} :
    {B : Type ℓ} {b : Bool} (c : Context) (o : Option B)
    → c.llm_ctx ≡ b
    → Keeps b (o >>= λ r. some (c, r))
Keeps-context c none h = record { kept = tt }
Keeps-context c (some r) h = record { kept = h }

pub generate_request_id-Keeps :
    (c : Context) (prefix : List ℕ) → Keeps c.llm_ctx (generate_request_id c prefix)
unfolding generate_request_id
generate_request_id-Keeps c prefix =
    let n = (c.request_counter + 1) % 2 ^ 64 in
    Keeps-bind
      (vsnprintf (replicate 64 0) 64 (codes "%s-%016llx")
        (text prefix ∷ word (n % 2 ^ 32) ∷ word (n / 2 ^ 32) ∷ []))
      (λ p. record { kept = refl })
