-- ===== src/Api/Answer/Tests.antt =====
-- The identifier of a completion.
use cllm.Common.{◌≡◌, ℕ, List, ◌∷◌, ◌++◌, arith, codes, true}
use cllm.Common.Maybe.{Ensures}
use cllm.CString.Copy.{until_nul}
use cllm.Api.Answer.{api_v1_init, generate_request_id}
use cllm.Api.Answer.Whole.{generate_request_id_lem}

generate_request_id_lem_example :
    Ensures
      (λ p. (rest : List ℕ) × (p.1 ≡ until_nul (codes "cmpl") ++ (codes "-%016llx" ++ (0 ∷ rest))))
      (generate_request_id (api_v1_init true) (codes "cmpl"))
generate_request_id_lem_example =
    generate_request_id_lem (api_v1_init true) (codes "cmpl") (omega arith)
