-- ===== src/Kernel/Boot.antt =====
-- The kernel comes up.
use cllm.Common.{
  ℕ, ◌≤◌, ◌≡◌, refl, sym, ap, ◌∙◌, true, some, List, [], ◌∷◌, ◌++◌, arith, codes, length, drop,
  replicate,
}
use cllm.Common.Maybe.{Ensures, ensures, Ensures-bind}
use cllm.CString.Copy.{padded, strncpy_lem, until_nul-padded}
use cllm.Format.Plain.{is_plain-NonNul}
use cllm.Allocator.{Heap, memory_init_heap, malloc, free}
use cllm.Http.{Request, Response}
use cllm.Api.Answer.{Context}
use cllm.Api.Handlers.{Llm}
use cllm.Api.Routes.{health, route_of}
use cllm.Api.Routes.Paths.{route_of-until_nul, health-route, route_request-health}
use cllm.Embedding.Checks.{c_load_embedded_model-valid}
use cllm.Terminal.{Terminal, vga_entry, vga_init, terminal_init}
use cllm.Terminal.Cursor.{Shows, type_all, terminal_init-Shows}
use cllm.Terminal.Shown.{terminal_writestring-Shows}
use cllm.Kernel.{
  test_memory, health_request, call_health, test_health, run_self_tests, blank_context, kernel_main,
}
use cllm.Kernel.Pattern.{check_pattern-write_pattern}

-- The arena in one piece.
abbrev pub whole_arena : Heap
whole_arena = record {
  initialized = true;
  free = record { addr = 0; size = 4194288 } ∷ [];
  used = [];
}

test_memory-passes :
    (p : List ℕ) → 64 ≤ length p → test_memory p whole_arena ≡ some (0, whole_arena)
unfolding test_memory malloc free
test_memory-passes p h = rw (check_pattern-write_pattern 64 0 p (omega (arith, h))) refl

-- What the self-tests find behind their pointers has the sizes of the structures' arrays.
pub record HasArrays (r : Request) : Type 0 where
  pub path : length r.path ≡ 256
  pub method : length r.method ≡ 16

health_request-path :
    (r : Request) → HasArrays r → Ensures (λ q. route_of q.path ≡ health) (health_request r)
unfolding health_request
health_request-path r h =
    let path = padded 256 (codes "/health") ++ drop 256 r.path in
    let routed : route_of path ≡ health =
      sym (route_of-until_nul path)
      ∙ ap route_of (
          until_nul-padded 256 (codes "/health") (drop 256 r.path)
            (is_plain-NonNul (codes "/health") refl) (omega arith))
      ∙ health-route in
    rw
      (
        strncpy_lem r.path (codes "/health") 256 (omega (arith, h.path)),
        strncpy_lem r.method (codes "GET") 16 (omega (arith, h.method)),
      )
      (ensures _ routed)

module _ (int_of : List ℕ → ℕ) (embedding : List (ℕ × ℕ)) (llm : Llm) where
  test_health-passes :
      (c : Context) (req : Request) (r : Response)
      → HasArrays req
      → test_health int_of embedding llm c req r whole_arena ≡ some (0, c, whole_arena)
  unfolding test_health call_health malloc free
  test_health-passes c req r h =
      let q = health_request-path req h in
      let p = route_request-health int_of embedding llm c q.value r q.holds in
      rw (q.same, p.same, p.holds.1, p.holds.0) refl

  run_self_tests-passes :
      (p : List ℕ) (c : Context) (req : Request) (r : Response)
      → 64 ≤ length p
      → HasArrays req
      → run_self_tests int_of embedding llm p req r c whole_arena ≡ some (true, c, whole_arena)
  unfolding run_self_tests
  run_self_tests-passes p c req r h k =
      rw (test_memory-passes p h, test_health-passes c req r k, c_load_embedded_model-valid) refl

  -- Whatever memory holds, the kernel passes its self-tests and enters the network loop: all blocks
  -- have been freed, the screen shows the banner, and the API's context is still the one without a
  -- model.
  pub kernel_main-runs :
      (p : List ℕ) (req : Request) (r : Response) (t : Terminal)
      → 64 ≤ length p
      → HasArrays req
      → Ensures
          (λ m.
            (m.running ≡ true)
            × (m.heap ≡ whole_arena)
            × (m.context ≡ blank_context)
            × Shows 7
                (type_all 7 (codes "CLLM unikernel\n") (0, replicate 2000 (vga_entry b' ' 7)))
                m.terminal)
          (kernel_main int_of embedding llm p req r t)
  unfolding kernel_main memory_init_heap
  kernel_main-runs p req r t h k =
      Ensures-bind
        (terminal_writestring-Shows 7 (codes "CLLM unikernel\n")
          (0, replicate 2000 (vga_entry b' ' 7)) (terminal_init (vga_init t)).0
          (terminal_init-Shows (vga_init t)).0)
        (λ w shown.
          rw (run_self_tests-passes p blank_context req r h k)
            (ensures _ (refl, refl, refl, shown.0)))
