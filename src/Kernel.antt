-- ===== src/Kernel.antt =====
-- The self-tests and the boot of src/kernel.c. What memory holds behind `malloc` is a parameter, and
-- serial output is left out. `none` is a store outside an array, or a call of `free` that is not
-- modelled.
use cllm.Common.{
  ℕ, zero, suc, ◌+◌, ◌%◌, Bool, true, false, not, Option, none, some, List, [], ◌∷◌, ◌==◌,
  if◌then◌else◌, codes, set, get_or,
}
use cllm.Common.Maybe.{◌>>=◌}
use cllm.CString.{strncpy}
use cllm.Allocator.{Heap, blank, memory_init_heap, malloc, free}
use cllm.Http.{Request, Response}
use cllm.Api.Answer.{Context}
use cllm.Api.Handlers.{Llm, Handled}
use cllm.Api.Routes.{route_request}
use cllm.Embedding.{EmbeddedInfo, c_load_embedded_model}
use cllm.Terminal.{Terminal, Written, vga_init, terminal_init, terminal_writestring}
pub mod Pattern
pub mod Boot
pub mod Tests

-- The two loops over the bytes behind `p`, from `i` on.
pub write_pattern : ℕ → ℕ → List ℕ → List ℕ
write_pattern zero i p = p
write_pattern (suc n) i p = write_pattern n (suc i) (set p i (i % 256))

pub check_pattern : ℕ → ℕ → List ℕ → Bool
check_pattern zero i p = true
check_pattern (suc n) i p =
    let later = check_pattern n (suc i) p in if not (get_or p i 0 == i % 256) then false else later

-- How much `failed` grows.
abbrev pub failure : Bool → ℕ
failure ok = if ok then 0 else 1

abbrev pub memory_tested : List ℕ → Option ℕ × Heap → Option (ℕ × Heap)
memory_tested p (none, h) = some (1, h)
memory_tested p (some a, h) =
    free (some a) h >>= λ g. some (failure (check_pattern 64 0 (write_pattern 64 0 p)), g)

pub test_memory : List ℕ → Heap → Option (ℕ × Heap)
test_memory p h = memory_tested p (malloc 64 h)

-- `sizeof(http_request_t)` and `sizeof(http_response_t)`.
abbrev pub request_size : ℕ
request_size = 16 + 256 + 16 + 1024 + 8192 + 4 + 64 + 4

abbrev pub response_size : ℕ
response_size = 4 + 1024 + 16384 + 4

pub health_request : Request → Option Request
health_request r = strncpy r.path (codes "/health") 256 >>= λ path.
    strncpy r.method (codes "GET") 16 >>= λ method. some (record r { path = path; method = method })

-- `failed`, the context of the API, and the heap.
abbrev pub Tested : Type 0
Tested = Option (ℕ × Context × Heap)

-- `g_api_ctx` at load time.
abbrev pub blank_context : Context
blank_context = record {
  llm_ctx = false;
  model_loaded = false;
  request_counter = 0;
  created_time = (0, 0);
}

module _ (int_of : List ℕ → ℕ) (embedding : List (ℕ × ℕ)) (llm : Llm) where
  pub call_health : Context → Request → Response → Handled
  call_health c req r = health_request req >>= λ q. route_request int_of embedding llm c q r

  abbrev pub health_tested : Context → Request → Response → Option ℕ → Option ℕ × Heap → Tested
  health_tested c req r (some a) (some b, h) = call_health c req r >>= λ p. free (some a) h >>= λ g.
      free (some b) g >>= λ k. some (failure (p.1.status_code == 200), p.0, k)
  health_tested c req r _ (_, h) = some (1, c, h)

  pub test_health : Context → Request → Response → Heap → Tested
  test_health c req r h =
      let first = malloc request_size h in
      health_tested c req r first.0 (malloc response_size first.1)

  -- `true` for the result 0.
  pub run_self_tests : List ℕ → Request → Response → Context → Heap → Option (Bool × Context × Heap)
  run_self_tests p req r c h = test_memory p h >>= λ memory.
      test_health c req r memory.1 >>= λ health. c_load_embedded_model >>= λ info.
      some (memory.0 + health.0 + failure info.is_valid == 0, health.1, health.2)

  -- What `kernel_main` has set up when it enters the network loop (`running`), or halts.
  pub record Machine : Type 0 where
    pub running : Bool
    pub terminal : Terminal
    pub context : Context
    pub heap : Heap

  abbrev pub failed_text : List ℕ
  failed_text = codes "Self-tests failed; halting\n"

  abbrev pub report : Bool → Terminal → Written
  report passed t = if passed then some (t, []) else terminal_writestring failed_text t

  pub kernel_main : List ℕ → Request → Response → Terminal → Option Machine
  kernel_main p req r t =
      let heap = memory_init_heap blank in
      terminal_writestring (codes "CLLM unikernel\n") (terminal_init (vga_init t)).0 >>= λ w.
      run_self_tests p req r blank_context heap >>= λ tested. report tested.0 w.0 >>= λ v.
      some (record { running = tested.0; terminal = v.0; context = tested.1; heap = tested.2 })
