-- ===== src/Json/Writer/Arrays.antt =====
-- The text of arrays of numbers.
use cllm.Common.{
  ℕ, zero, suc, ◌/◌, ◌^◌, ◌≤◌, ◌<◌, ◌≡◌, List, [], ◌∷◌, ◌++◌, arith, Bool, true, false, Bool-cases,
  inl, inr, length-append, All, All-append, append-nil, codes, ◌==◌, if◌then◌else◌,
}
use cllm.CString.Copy.{NonNul}
use cllm.Format.{word}
use cllm.Format.Numerals.{int_text, render_whole, render_fraction, int_text-NonNul, length-int_text}
use cllm.Json.Writer.{
  Writer, trim_zeros, magnitude, format_float, json_write_int, json_write_float, write_ints,
  json_write_int_array, write_floats, json_write_float_array,
}
use cllm.Json.Writer.Outcome.{Holds, Outcome, Outcome-bind}
use cllm.Json.Writer.Text.{comma_text, Outcome-finish, array_start-Outcome, array_end-Outcome}
use cllm.Json.Writer.Numbers.{number-Outcome, write_int-Outcome}

-- Two patterns of 32 bits.
abbrev pub IsFloat : ℕ × ℕ → Type 0
IsFloat p = (p.0 < 2 ^ 32) × (p.1 < 2 ^ 32)

abbrev pub IsInt : ℕ → Type 0
IsInt v = v < 2 ^ 32

trim_zeros-le : (k f : ℕ) → trim_zeros k f ≤ f
unfolding trim_zeros
trim_zeros-le zero f = omega arith
trim_zeros-le (suc k) f = ground (arith, trim_zeros-le k (f / 10))

magnitude-lt : (f : ℕ) → f < 2 ^ 32 → magnitude f < 2 ^ 32
unfolding magnitude
magnitude-lt f h = ground arith

-- A float as the code prints it.
abbrev pub float_text : ℕ × ℕ → List ℕ
float_text p =
    if magnitude p.1 == 0
    then int_text p.0 ++ codes ".0"
    else int_text p.0 ++ (b'.' ∷ int_text (trim_zeros 10 (magnitude p.1)))

-- The elements, with commas between them.
abbrev pub elements_text {ℓ} : {A : Type ℓ} → (A → List ℕ) → Bool → List A → List ℕ
elements_text text c [] = []
elements_text text c (v ∷ l) = (comma_text c ++ text v) ++ elements_text text true l

abbrev pub comma_behind {ℓ} : {A : Type ℓ} → Bool → List A → Bool
comma_behind c [] = c
comma_behind c (v ∷ l) = comma_behind true l

abbrev pub array_text {ℓ} : {A : Type ℓ} → (A → List ℕ) → Bool → List A → List ℕ
array_text text c l = ((comma_text c ++ codes "[") ++ elements_text text false l) ++ codes "]"

module _ (size : ℕ) where
  pub write_float-Outcome :
      (p : ℕ × ℕ) (t : List ℕ) (c : Bool) (w : Writer)
      → Holds size t w
      → w.needs_comma ≡ c
      → IsFloat p
      → Outcome size t (comma_text c ++ float_text p) true (json_write_float p.0 p.1 w)
  unfolding json_write_float format_float
  write_float-Outcome (i, f) t c w h e k =
      Outcome-finish size t _ c true _ _ (elim (Bool-cases (magnitude f == 0)) [
        | inl z ↦ rw z (
            number-Outcome size t c w (codes "%d.0") (word i ∷ []) h e (render_whole i)
              (omega (arith, length-append (int_text i) (codes ".0"), length-int_text i k.0))
              (All-append NonNul (int_text i) (codes ".0") (int_text-NonNul i)
                (omega arith, (omega arith, tt))))
        | inr z ↦
            let g = trim_zeros 10 (magnitude f) in
            let small : g < 2 ^ 32 =
              omega (arith, trim_zeros-le 10 (magnitude f), magnitude-lt f k.1) in
            rw z (
              number-Outcome size t c w (codes "%d.%d") (word i ∷ word g ∷ []) h e
                (render_fraction i g)
                (omega (
                  arith,
                  length-append (int_text i) (b'.' ∷ int_text g),
                  length-int_text i k.0,
                  length-int_text g small,
                ))
                (All-append NonNul (int_text i) (b'.' ∷ int_text g) (int_text-NonNul i)
                  (omega arith, int_text-NonNul g)))
      ])

  write_ints-Outcome :
      (l : List ℕ) (t : List ℕ) (c : Bool) (w : Writer)
      → Holds size t w
      → w.needs_comma ≡ c
      → All IsInt l
      → Outcome size t (elements_text int_text c l) (comma_behind c l) (write_ints l w)
  unfolding write_ints
  write_ints-Outcome [] t c w h e k = (rw append-nil h, e)
  write_ints-Outcome (v ∷ l) t c w h e k =
      Outcome-bind size t (comma_text c ++ int_text v) (elements_text int_text true l) true
        (comma_behind true l) (json_write_int v w) (λ w'. write_ints l w')
        (write_int-Outcome size v t c w h e k.0)
        (λ v' hv ev. write_ints-Outcome l (t ++ (comma_text c ++ int_text v)) true v' hv ev k.1)

  pub write_int_array-Outcome :
      (l : List ℕ) (t : List ℕ) (c : Bool) (w : Writer)
      → Holds size t w
      → w.needs_comma ≡ c
      → All IsInt l
      → Outcome size t (array_text int_text c l) true (json_write_int_array l w)
  unfolding json_write_int_array
  write_int_array-Outcome l t c w h e k =
      Outcome-bind size t ((comma_text c ++ codes "[") ++ elements_text int_text false l)
        (codes "]") (comma_behind false l) true _ _
        (Outcome-bind size t (comma_text c ++ codes "[") (elements_text int_text false l) false
          (comma_behind false l) _ _ (array_start-Outcome size t c w h e)
          (λ v hv ev. write_ints-Outcome l (t ++ (comma_text c ++ codes "[")) false v hv ev k))
        (λ v hv ev. array_end-Outcome size _ (comma_behind false l) v hv ev)

  write_floats-Outcome :
      (l : List (ℕ × ℕ)) (t : List ℕ) (c : Bool) (w : Writer)
      → Holds size t w
      → w.needs_comma ≡ c
      → All IsFloat l
      → Outcome size t (elements_text float_text c l) (comma_behind c l) (write_floats l w)
  unfolding write_floats
  write_floats-Outcome [] t c w h e k = (rw append-nil h, e)
  write_floats-Outcome (v ∷ l) t c w h e k =
      Outcome-bind size t (comma_text c ++ float_text v) (elements_text float_text true l) true
        (comma_behind true l) (json_write_float v.0 v.1 w) (λ w'. write_floats l w')
        (write_float-Outcome v t c w h e k.0)
        (λ v' hv ev. write_floats-Outcome l (t ++ (comma_text c ++ float_text v)) true v' hv ev k.1)

  pub write_float_array-Outcome :
      (l : List (ℕ × ℕ)) (t : List ℕ) (c : Bool) (w : Writer)
      → Holds size t w
      → w.needs_comma ≡ c
      → All IsFloat l
      → Outcome size t (array_text float_text c l) true (json_write_float_array l w)
  unfolding json_write_float_array
  write_float_array-Outcome l t c w h e k =
      Outcome-bind size t ((comma_text c ++ codes "[") ++ elements_text float_text false l)
        (codes "]") (comma_behind false l) true _ _
        (Outcome-bind size t (comma_text c ++ codes "[") (elements_text float_text false l) false
          (comma_behind false l) _ _ (array_start-Outcome size t c w h e)
          (λ v hv ev. write_floats-Outcome l (t ++ (comma_text c ++ codes "[")) false v hv ev k))
        (λ v hv ev. array_end-Outcome size _ (comma_behind false l) v hv ev)
