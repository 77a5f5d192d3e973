-- ===== src/Memory/Guard.antt =====
-- How deep the stack has been.
use cllm.Common.{
  ℕ, zero, suc, ◌*◌, ◌/◌, ◌%◌, ◌^◌, ◌≤◌, ◌<◌, ◌≡◌, ◌≢◌, refl, ap, some, List, [], ◌∷◌, ◌++◌, arith,
  Bool-cases, inl, inr, ltb, ltb→le, ne→==, length, take, drop, replicate,
}
use cllm.Common.Maybe.{Ensures, ensures}
use cllm.Memory.{
  stack_canary_pattern, fill, guarded_size, memory_init_stack_guard, count_intact,
  memory_check_stack_guard, memory_get_stack_margin,
}

fill-whole :
    (n : ℕ) (base : List ℕ)
    → n ≤ length base
    → fill n base ≡ some (replicate n stack_canary_pattern ++ drop n base)
fill-whole zero base h = refl
fill-whole (suc n) [] h = absurd (omega (arith, h))
fill-whole (suc n) (w ∷ base) h = rw (fill-whole n base (omega (arith, h))) refl

take-replicate : (k n p : ℕ) (l : List ℕ) → k ≤ n → take k (replicate n p ++ l) ≡ replicate k p
take-replicate zero n p l h = refl
take-replicate (suc k) zero p l h = absurd (omega (arith, h))
take-replicate (suc k) (suc n) p l h = ap (λ t. p ∷ t) (take-replicate k n p l (omega (arith, h)))

count_intact-replicate :
    (n k w : ℕ) (deep : List ℕ)
    → k < n
    → w ≢ stack_canary_pattern
    → count_intact n (replicate k stack_canary_pattern ++ (w ∷ deep)) ≡ some k
unfolding count_intact
count_intact-replicate zero k w deep h e = absurd (omega (arith, h))
count_intact-replicate (suc n) zero w deep h e = rw (ne→== w stack_canary_pattern e) refl
count_intact-replicate (suc n) (suc k) w deep h e =
    rw (count_intact-replicate n k w deep (omega (arith, h)) e) refl

guarded_size-range :
    (size : ℕ) → size < 2 ^ 32 → (1024 ≤ guarded_size size) × (guarded_size size < 2 ^ 32)
guarded_size-range size h = elim (Bool-cases (ltb size 1024)) [
  | inl e ↦ rw e (omega arith, omega arith)
  | inr e ↦ rw e (ltb→le _ _ e, h)
]

-- When the stack has grown down into the guarded words, and the lowest word that it has written is not
-- the pattern, the margin is the bytes below that word, and the warning is given exactly when they are
-- fewer than 256.
pub memory_get_stack_margin-free :
    (base : List ℕ) (size free w : ℕ) (deep : List ℕ)
    → size < 2 ^ 32
    → guarded_size size / 4 ≤ length base
    → free < guarded_size size / 4
    → w ≢ stack_canary_pattern
    → Ensures
        (λ c.
          memory_get_stack_margin (record c { base = take free c.base ++ (w ∷ deep) })
          ≡ some (free * 4, ltb (free * 4) 256))
        (memory_init_stack_guard base size)
unfolding memory_init_stack_guard memory_get_stack_margin memory_check_stack_guard
memory_get_stack_margin-free base size free w deep h room k e =
    let words = guarded_size size / 4 in
    let range = guarded_size-range size h in
    let some_words : words ≢ 0 = λ z. omega (arith, z, range.0) in
    let small : free * 4 % 2 ^ 32 ≡ free * 4 = omega (arith, k, range.1) in
    rw (fill-whole words base room) (
      ensures _ (
        rw
          (
            ne→== words 0 some_words,
            take-replicate free words stack_canary_pattern (drop words base) (omega (arith, k)),
            count_intact-replicate words free w deep k e,
            small,
          )
          refl))
