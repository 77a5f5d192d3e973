-- ===== src/Embedding/Integrity.antt =====
-- The sum of `calculate_model_checksum` is a byte.
use Prim.Native.Nat.{bit_xor, bit_xor-bitwise, digits, differ}
use native.Mathlib.Nat.{pow-suc}
use cllm.Common.{
  ℕ, zero, suc, ◌*◌, ◌/◌, ◌%◌, ◌^◌, ◌≤◌, ◌<◌, ◌≡◌, ap, some, List, [], ◌∷◌, arith, Bool, false,
  Bool-cases, inl, inr, ◌==◌, ne→==, length, All,
}
use cllm.Common.Maybe.{Ensures, ensures}
use cllm.Embedding.{xor_loop, calculate_model_checksum, verify_model_integrity}

differ-le : (x y : ℕ) → x ≤ 1 → y ≤ 1 → differ x y ≤ 1
differ-le zero y h k = k
differ-le (suc zero) zero h k = omega arith
differ-le (suc zero) (suc zero) h k = omega arith
differ-le (suc zero) (suc (suc y)) h k = absurd (omega (arith, k))
differ-le (suc (suc x)) y h k = absurd (omega (arith, h))

-- No digit is higher than those of the two numbers.
digits-lt : (k n a b : ℕ) → a < 2 ^ k → b < 2 ^ k → digits (λ b. b) differ n a b < 2 ^ k
digits-lt k zero a b h l = l
digits-lt k (suc n) zero b h l = l
digits-lt zero (suc n) (suc a) b h l = absurd (omega (arith, h))
digits-lt (suc k) (suc n) (suc a) b h l =
    let p : 2 ^ suc k ≡ 2 ^ k * 2 = pow-suc 2 k in
    let high = digits-lt k n (suc a / 2) (b / 2) (omega (arith, h, p)) (omega (arith, l, p)) in
    let low = differ-le (suc a % 2) (b % 2) (omega arith) (omega arith) in
    omega (arith, high, low, p)

pub bit_xor-lt : (k a b : ℕ) → a < 2 ^ k → b < 2 ^ k → bit_xor a b < 2 ^ k
bit_xor-lt k a b h l = rw (bit_xor-bitwise a b) (digits-lt k a a b h l)

abbrev pub IsByte : ℕ → Type 0
IsByte c = c < 256

xor_loop-IsByte :
    (n sum : ℕ) (bytes : List ℕ)
    → n ≤ length bytes
    → IsByte sum
    → All IsByte bytes
    → Ensures IsByte (xor_loop n sum bytes)
unfolding xor_loop
xor_loop-IsByte zero sum bytes h k b = ensures sum k
xor_loop-IsByte (suc n) sum [] h k b = absurd (omega (arith, h))
xor_loop-IsByte (suc n) sum (c ∷ bytes) h k b =
    xor_loop-IsByte n (bit_xor sum c) bytes (omega (arith, h)) (bit_xor-lt 8 sum c k b.0) b.1

pub calculate_model_checksum-IsByte :
    (bytes : List ℕ) (size : ℕ)
    → size ≤ length bytes
    → All IsByte bytes
    → Ensures IsByte (calculate_model_checksum (some bytes) size)
unfolding calculate_model_checksum
calculate_model_checksum-IsByte bytes size h b = elim (Bool-cases (size == 0)) [
  | inl e ↦ rw e (ensures 0 (omega arith))
  | inr e ↦ rw e (xor_loop-IsByte size 0 bytes h (omega arith) b)
]

-- No model passes `verify_model_integrity`: its checksum is the exclusive or of the model's bytes, which
-- is below 256, and it is compared with 0x12345678.
pub verify_model_integrity-false :
    (bytes : List ℕ) (size : ℕ) (valid : Bool) (checksum : ℕ)
    → size ≤ length bytes
    → All IsByte bytes
    → verify_model_integrity
        (some (record { bytes = some bytes; size = size; is_valid = valid; checksum = checksum }))
      ≡ some false
unfolding verify_model_integrity
verify_model_integrity-false bytes size valid checksum h b =
    let sum = calculate_model_checksum-IsByte bytes size h b in
    rw sum.same (ap some (ne→== sum.value 0x12345678 (λ e. omega (arith, e, sum.holds))))
