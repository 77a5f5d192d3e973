-- ===== src/Api/Routes/Paths.antt =====
-- A route depends on the path up to its terminator alone.
use cllm.Common.{ℕ, zero, suc, ◌≡◌, refl, ap, List, codes, Bool, true, false}
use cllm.Common.Int.{ℤ, pos, negsuc, ◌-ℤ◌}
use cllm.Common.Maybe.{Ensures, ensures}
use cllm.CString.{strncmp}
use cllm.CString.Copy.{until_nul}
use cllm.CString.Compare.{strncmp-until_nul}
use cllm.Http.{Request, Response}
use cllm.Api.Answer.{Context, agrees}
use cllm.Api.Handlers.{Llm}
use cllm.Api.Routes.{health, route_of, route_request, serve, handle_health_check, fixed_body}

agrees-until_nul : (s t : List ℕ) (n : ℕ) → agrees (until_nul s) t n ≡ agrees s t n
unfolding agrees
agrees-until_nul s t n =
    ap
      (λ (z : ℤ). elim z as (λ _. Bool) [
        | pos zero ↦ true
        | pos (suc m) ↦ false
        | negsuc m ↦ false
      ])
      (strncmp-until_nul s t n)

pub route_of-until_nul : (s : List ℕ) → route_of (until_nul s) ≡ route_of s
unfolding route_of
route_of-until_nul s = simp agrees-until_nul

pub health-route : route_of (codes "/health") ≡ health
unfolding route_of agrees strncmp ◌-ℤ◌
health-route = refl

-- The health of the server is always fine.
pub route_request-health :
    (int_of : List ℕ → ℕ) (embedding : List (ℕ × ℕ)) (llm : Llm) (c : Context) (req : Request)
    (r : Response)
    → route_of req.path ≡ health
    → Ensures
        (λ p. (p.0 ≡ c) × (p.1.status_code ≡ 200))
        (route_request int_of embedding llm c req r)
unfolding route_request serve handle_health_check fixed_body
route_request-health int_of embedding llm c req r h = rw h (ensures _ (refl, refl))
