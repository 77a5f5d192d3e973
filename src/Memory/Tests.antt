-- ===== src/Memory/Tests.antt =====
-- A guard of 1024 bytes of which a stack has left 100.
use cllm.Common.{◌*◌, ◌≡◌, arith, some, ◌∷◌, ◌++◌, ltb, take, replicate}
use cllm.Common.Maybe.{Ensures}
use cllm.Memory.{memory_init_stack_guard, memory_get_stack_margin}
use cllm.Memory.Guard.{memory_get_stack_margin-free}

memory_get_stack_margin-free_example :
    Ensures
      (λ c.
        memory_get_stack_margin (record c { base = take 25 c.base ++ (7 ∷ replicate 230 0) })
        ≡ some (25 * 4, ltb (25 * 4) 256))
      (memory_init_stack_guard (replicate 300 0) 64)
memory_get_stack_margin-free_example =
    memory_get_stack_margin-free (replicate 300 0) 64 25 7 (replicate 230 0) (omega arith)
      (omega arith) (omega arith) (λ e. omega (arith, e))
