-- ===== src/Memory.antt =====
-- The stack guard of src/memory.c, in a memory of 32-bit words: `base` is the list of the words from
-- there up. `none` is an access outside it. A memory pool is always refused, so no pool is modelled.
use cllm.Common.{
  ℕ, zero, suc, ◌*◌, ◌/◌, ◌%◌, ◌^◌, Bool, true, false, Option, none, some, List, [], ◌∷◌, ltb, ◌==◌,
  if◌then◌else◌,
}
use mathlib.Core.Option
use cllm.Common.Maybe.{◌>>=◌}
pub mod Guard
pub mod Tests

abbrev pub stack_canary_pattern : ℕ
stack_canary_pattern = 0xDEADBEEF

abbrev pub stack_canary_size : ℕ
stack_canary_size = 256

-- `stack_canary_words` and the memory at `stack_canary_base`.
pub record Canary : Type 0 where
  pub words : ℕ
  pub base : List ℕ

abbrev pub fill : ℕ → List ℕ → Option (List ℕ)
fill zero base = some base
fill (suc n) [] = none
fill (suc n) (w ∷ base) = Option.map (λ l. stack_canary_pattern ∷ l) (fill n base)

-- The size that is guarded.
abbrev pub guarded_size : ℕ → ℕ
guarded_size size = if ltb size (stack_canary_size * 4) then stack_canary_size * 4 else size

pub memory_init_stack_guard : List ℕ → ℕ → Option Canary
memory_init_stack_guard base size =
    let words = guarded_size size / 4 in
    fill words base >>= λ filled. some (record { words = words; base = filled })

-- The loop, with `n` words left.
pub count_intact : ℕ → List ℕ → Option ℕ
count_intact zero base = some 0
count_intact (suc n) [] = none
count_intact (suc n) (w ∷ base) =
    let later = count_intact n base in
    if w == stack_canary_pattern then Option.map suc later else some 0

pub memory_check_stack_guard : Canary → Option ℕ
memory_check_stack_guard c = count_intact c.words c.base

-- The margin in bytes, and whether the warning is logged.
pub memory_get_stack_margin : Canary → Option (ℕ × Bool)
memory_get_stack_margin c =
    let intact = memory_check_stack_guard c in
    if c.words == 0
    then some (0, false)
    else (intact >>= λ n. let margin = n * 4 % 2 ^ 32 in some (margin, ltb margin 256))
