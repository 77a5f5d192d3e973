-- ===== src/Kernel/Pattern.antt =====
-- The memory pattern of the self-test is read back as it was written.
use cllm.Common.{
  ℕ, zero, suc, ◌+◌, ◌%◌, ◌≤◌, ◌<◌, ◌≡◌, refl, ◌∙◌, true, List, arith, ==_refl, length, length-set,
  set, get_or, get_or-set, get_or-set_other,
}
use cllm.Kernel.{write_pattern, check_pattern}

-- Cells in front are left alone.
write_pattern-front :
    (n i j : ℕ) (p : List ℕ) → j < i → get_or (write_pattern n i p) j 0 ≡ get_or p j 0
unfolding write_pattern
write_pattern-front zero i j p h = refl
write_pattern-front (suc n) i j p h =
    write_pattern-front n (suc i) j (set p i (i % 256)) (omega (arith, h))
    ∙ get_or-set_other p i j (i % 256) 0 (λ e. omega (arith, e, h))

pub check_pattern-write_pattern :
    (n i : ℕ) (p : List ℕ) → i + n ≤ length p → check_pattern n i (write_pattern n i p) ≡ true
unfolding check_pattern write_pattern
check_pattern-write_pattern zero i p h = refl
check_pattern-write_pattern (suc n) i p h =
    let q = set p i (i % 256) in
    let kept : get_or (write_pattern n (suc i) q) i 0 ≡ i % 256 =
      write_pattern-front n (suc i) i q (omega arith)
      ∙ get_or-set p i (i % 256) 0 (omega (arith, h)) in
    rw (kept, ==_refl (i % 256))
      (check_pattern-write_pattern n (suc i) q (omega (arith, h, length-set p i (i % 256))))
