-- ===== src/Format/Digits.antt =====
-- The digits that `append_uint` writes.
use native.Mathlib.Nat.{pow-suc}
use cllm.Common.{
  ℕ, zero, suc, ◌+◌, ◌-◌, ◌*◌, ◌/◌, ◌%◌, ◌^◌, ◌≤◌, ◌<◌, ◌≡◌, refl, List, [], ◌∷◌, arith, Bool, true,
  false, Bool-cases, inl, inr, ◌==◌, ==→eq, All, length, passes_below, passes_below-at, ap, sym,
  ◌∙◌,
}
use cllm.Format.{digit, fill_digits, uint_digits}

-- The number that decimal digits stand for, behind those of `acc`.
pub decimal_from : ℕ → List ℕ → ℕ
decimal_from acc [] = acc
decimal_from acc (c ∷ cs) = decimal_from (acc * 10 + (c - b'0')) cs

abbrev pub IsDigit : ℕ → Type 0
IsDigit c = (b'0' ≤ c) × (c ≤ b'9')

digit_table : (upper : Bool) → passes_below (λ d. digit upper d == b'0' + d) 10 ≡ true
unfolding passes_below
digit_table true = refl
digit_table false = refl

pub digit_lem : (upper : Bool) (d : ℕ) → d < 10 → digit upper d ≡ b'0' + d
digit_lem upper d h =
    ==→eq _ _ (passes_below-at (λ d. digit upper d == b'0' + d) 10 d h (digit_table upper))

fill_digits-decimal :
    (room v : ℕ) (upper : Bool) (buf : List ℕ)
    → v < 10 ^ room
    → decimal_from 0 (fill_digits room v 10 upper buf) ≡ decimal_from v buf
unfolding fill_digits decimal_from
fill_digits-decimal zero v upper buf h = ap (λ n. decimal_from n buf) (omega arith)
fill_digits-decimal (suc room) v upper buf h =
    let p : 10 ^ suc room ≡ 10 ^ room * 10 = pow-suc 10 room in
    go (v == 0) refl
      (fill_digits-decimal room (v / 10) upper (digit upper (v % 10) ∷ buf) (omega arith))
  where
    go :
        (t : Bool)
        → (v == 0) ≡ t
        → decimal_from 0 (fill_digits room (v / 10) 10 upper (digit upper (v % 10) ∷ buf))
          ≡ decimal_from (v / 10 * 10 + (digit upper (v % 10) - b'0')) buf
        → decimal_from 0 (elim t as (λ _. List ℕ) [
          | true ↦ buf
          | false ↦ fill_digits room (v / 10) 10 upper (digit upper (v % 10) ∷ buf)
        ])
          ≡ decimal_from v buf
    go true e ih = ap (λ n. decimal_from n buf) (omega (arith, ==→eq _ _ e))
    go false e ih =
        ih ∙ ap (λ n. decimal_from n buf) (omega (arith, digit_lem upper (v % 10) (omega arith)))

-- The digits that `append_uint` writes for a 32-bit value in base 10 stand for that value.
pub uint_digits-decimal :
    (v : ℕ) (upper : Bool) → v < 2 ^ 32 → decimal_from 0 (uint_digits v 10 upper) ≡ v
unfolding uint_digits decimal_from
uint_digits-decimal v upper h = elim (Bool-cases (v == 0)) [
  | inl e ↦ rw e (sym (==→eq _ _ e))
  | inr e ↦ rw e (fill_digits-decimal 32 v upper [] (omega arith))
]

fill_digits-All :
    (P : ℕ → Type 0) (room v base : ℕ) (upper : Bool) (buf : List ℕ)
    → ((d : ℕ) → P (digit upper (d % base)))
    → All P buf
    → All P (fill_digits room v base upper buf)
unfolding fill_digits
fill_digits-All P zero v base upper buf p h = h
fill_digits-All P (suc room) v base upper buf p h =
    go (v == 0)
      (fill_digits-All P room (v / base) base upper (digit upper (v % base) ∷ buf) p (p v, h))
  where
    go :
        (t : Bool)
        → All P (fill_digits room (v / base) base upper (digit upper (v % base) ∷ buf))
        → All P (elim t as (λ _. List ℕ) [
          | true ↦ buf
          | false ↦ fill_digits room (v / base) base upper (digit upper (v % base) ∷ buf)
        ])
    go true ih = h
    go false ih = ih

-- In base 10 they are digits.
pub uint_digits-IsDigit : (v : ℕ) (upper : Bool) → All IsDigit (uint_digits v 10 upper)
unfolding uint_digits
uint_digits-IsDigit v upper = elim (Bool-cases (v == 0)) [
  | inl e ↦ rw e ((omega arith), tt)
  | inr e ↦ rw e (fill_digits-All IsDigit 32 v 10 upper [] (λ d. one (d % 10) (omega arith)) tt)
]
  where
    one : (d : ℕ) → d < 10 → IsDigit (digit upper d)
    one d h = rw (digit_lem upper d h) (omega arith)

fill_digits-length :
    (room k v : ℕ) (upper : Bool) (buf : List ℕ)
    → v < 10 ^ k
    → length (fill_digits room v 10 upper buf) ≤ k + length buf
unfolding fill_digits
fill_digits-length zero k v upper buf h = omega arith
fill_digits-length (suc room) zero v upper buf h = let z : v ≡ 0 = omega arith in rw z (omega arith)
fill_digits-length (suc room) (suc k) v upper buf h =
    let p : 10 ^ suc k ≡ 10 ^ k * 10 = pow-suc 10 k in
    go (v == 0)
      (fill_digits-length room k (v / 10) upper (digit upper (v % 10) ∷ buf) (omega arith))
  where
    go :
        (t : Bool)
        → length (fill_digits room (v / 10) 10 upper (digit upper (v % 10) ∷ buf))
          ≤ k + suc (length buf)
        → length (elim t as (λ _. List ℕ) [
          | true ↦ buf
          | false ↦ fill_digits room (v / 10) 10 upper (digit upper (v % 10) ∷ buf)
        ])
          ≤ suc k + length buf
    go true ih = omega arith
    go false ih = omega arith

-- Ten digits are enough for 32 bits.
pub length-uint_digits : (v : ℕ) (upper : Bool) → v < 2 ^ 32 → length (uint_digits v 10 upper) ≤ 10
unfolding uint_digits
length-uint_digits v upper h = elim (Bool-cases (v == 0)) [
  | inl e ↦ rw e (omega arith)
  | inr e ↦ rw e (omega (arith, fill_digits-length 32 10 v upper [] (omega arith)))
]
