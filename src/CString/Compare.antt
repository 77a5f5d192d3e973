-- ===== src/CString/Compare.antt =====
-- The comparing functions return 0 exactly on equal strings.
use cllm.Common.{
  ap, sym, ◌∙◌, subst, not, ==→eq, Bool-cases, inl, inr, if◌then◌else◌, ◌==◌, ne→==, ℕ, zero, suc,
  ◌<◌, ◌≡◌, refl, ◌↔◌, List, [], ◌∷◌, ◌++◌, arith, length, take, All,
}
use cllm.Common.Int.{pos, ◌-ℤ◌}
use cllm.CString.{strlen, strncmp, strcmp, first, rest_of, signed_char}
use cllm.CString.Copy.{padded, until_nul, NonNul}

abbrev pub IsByte : ℕ → Type 0
IsByte c = c < 256

-- `strlen` counts the bytes before the terminator.
pub strlen-until_nul : (s : List ℕ) → strlen s ≡ length (until_nul s)
unfolding strlen
strlen-until_nul [] = refl
strlen-until_nul (c ∷ s) = ground (arith, strlen-until_nul s)

pub padded-strlen : (s : List ℕ) → padded (strlen s) s ≡ until_nul s
unfolding strlen
padded-strlen [] = refl
padded-strlen (c ∷ s) = elim (Bool-cases (c == 0)) [
  | inl e ↦ rw e refl
  | inr e ↦ rw (e, e) (ap (λ t. c ∷ t) (padded-strlen s))
]

pub strlen_of_NonNul : (s : List ℕ) → All NonNul s → strlen s ≡ length s
unfolding strlen
strlen_of_NonNul [] h = refl
strlen_of_NonNul (c ∷ s) h = ground (arith, strlen_of_NonNul s h.1)

pub strlen_before : (t rest : List ℕ) → All NonNul t → strlen (t ++ 0 ∷ rest) ≡ length t
unfolding strlen
strlen_before [] rest h = refl
strlen_before (c ∷ t) rest h = rw (ne→== c 0 h.0, strlen_before t rest h.1) refl

-- For strings of bytes `strncmp` returns 0 exactly if the strings agree up to their terminators or the first `n` bytes.
pub strncmp-zero_iff :
    (s1 s2 : List ℕ) (n : ℕ)
    → All IsByte s1
    → All IsByte s2
    → (strncmp s1 s2 n ≡ pos 0) ↔ (take n (until_nul s1) ≡ take n (until_nul s2))
unfolding strncmp ◌-ℤ◌
strncmp-zero_iff s1 s2 zero h k = ground arith
strncmp-zero_iff [] [] (suc n) h k = ground arith
strncmp-zero_iff [] (d ∷ s2) (suc n) h k = ground arith
strncmp-zero_iff (c ∷ s1) [] (suc n) h k = ground arith
strncmp-zero_iff (c ∷ s1) (d ∷ s2) (suc n) h k = ground (arith, strncmp-zero_iff s1 s2 n h.1 k.1)

-- `strcmp` returns 0 exactly if the strings are equal up to their terminators.
strcmp-zero_iff : (s1 s2 : List ℕ) → (strcmp s1 s2 ≡ pos 0) ↔ (until_nul s1 ≡ until_nul s2)
unfolding strcmp ◌-ℤ◌
strcmp-zero_iff [] [] = ground arith
strcmp-zero_iff [] (d ∷ s2) = ground arith
strcmp-zero_iff (c ∷ s1) [] = ground arith
strcmp-zero_iff (c ∷ s1) (d ∷ s2) = ground (arith, strcmp-zero_iff s1 s2)

-- Nothing behind the terminator is compared.
pub strncmp-until_nul : (s1 s2 : List ℕ) (n : ℕ) → strncmp (until_nul s1) s2 n ≡ strncmp s1 s2 n
unfolding strncmp
strncmp-until_nul s1 s2 zero = refl
strncmp-until_nul [] s2 (suc n) = refl
strncmp-until_nul (c ∷ s1) s2 (suc n) = elim (Bool-cases (c == 0)) [
  | inl e ↦
      subst (λ d. strncmp (until_nul (d ∷ s1)) s2 (suc n) ≡ strncmp (d ∷ s1) s2 (suc n))
        (sym (==→eq c 0 e)) refl
  | inr e ↦
      let cons : until_nul (c ∷ s1) ≡ c ∷ until_nul s1 = rw e refl in
      ap (λ s. strncmp s s2 (suc n)) cons
      ∙ ap
          (λ later.
            if not (c == first s2)
            then signed_char c -ℤ signed_char (first s2)
            else if c == 0
            then pos 0
            else later)
          (strncmp-until_nul s1 (rest_of s2) n)
]
