-- ===== src/Json/Writer/Numbers.antt =====
-- The text of number values.
use native.Mathlib.Nat.{pow-suc}
use cllm.Common.{
  ℕ, zero, suc, ◌*◌, ◌/◌, ◌%◌, ◌^◌, ◌<◌, ◌≡◌, sym, ap, ◌∙◌, subst, List, [], ◌∷◌, ◌++◌, arith, Bool,
  true, false, ◌&&◌, some, length, drop, All, ltb, lt→leb, append_assoc, take-all, codes, ◌==◌,
  ne→==,
}
use cllm.CString.Copy.{NonNul}
use cllm.Format.{Arg, word, vsnprintf}
use cllm.Format.Truncate.{render, vsnprintf-render}
use cllm.Format.Numerals.{int_text, render_int, render_lld, int_text-NonNul, length-int_text}
use cllm.Json.Writer.{
  Writer, ◌>>◌, write_raw, maybe_comma, num, write_num, trim_zeros, json_write_int,
  json_write_int64, json_write_float, magnitude, format_float,
}
use cllm.Json.Writer.Outcome.{Holds, Outcome, Outcome-bind, write_raw-Outcome}
use cllm.Json.Writer.Text.{comma_text, Outcome-finish, maybe_comma-Outcome}

-- A short text goes through `num` whole.
num_lem :
    (format : List ℕ) (args : List Arg) {t : List ℕ}
    → render 0 format args ≡ some t
    → length t < 32
    → vsnprintf num 32 format args ≡ some (length t, t ++ (0 ∷ drop (length (t ++ 0 ∷ [])) num))
num_lem format args {t} e short =
    vsnprintf-render num 32 format args (omega arith) (omega arith) e (omega arith)
    ∙ rw (take-all 31 t (omega arith), append_assoc t (0 ∷ []))

module _ (size : ℕ) where
  write_num-Outcome :
      (t : List ℕ) (c : Bool) (w : Writer) (format : List ℕ) (args : List Arg) {s : List ℕ}
      → Holds size t w
      → w.needs_comma ≡ c
      → render 0 format args ≡ some s
      → length s < 32
      → All NonNul s
      → Outcome size t s c (write_num (vsnprintf num 32 format args) w)
  write_num-Outcome t c w format args {s} h e r short nz =
      rw (num_lem format args r short, lt→leb 32 (length s) short)
        (subst
          (λ b.
            Outcome size t s b
              (write_raw (s ++ (0 ∷ drop (length (s ++ 0 ∷ [])) num)) (length s) w))
          e (write_raw-Outcome size t s (0 ∷ drop (length (s ++ 0 ∷ [])) num) w h nz (omega arith)))

  -- A comma where one is due, and the number.
  pub number-Outcome :
      (t : List ℕ) (c : Bool) (w : Writer) (format : List ℕ) (args : List Arg) {s : List ℕ}
      → Holds size t w
      → w.needs_comma ≡ c
      → render 0 format args ≡ some s
      → length s < 32
      → All NonNul s
      → Outcome size t
          (comma_text c ++ s)
          c
          (maybe_comma w >> write_num (vsnprintf num 32 format args))
  number-Outcome t c w format args {s} h e r short nz =
      Outcome-bind size t (comma_text c) s c c (maybe_comma w) _
        (maybe_comma-Outcome size t c w h e)
        (λ v hv ev. write_num-Outcome (t ++ comma_text c) c v format args hv ev r short nz)

  pub write_int-Outcome :
      (value : ℕ) (t : List ℕ) (c : Bool) (w : Writer)
      → Holds size t w
      → w.needs_comma ≡ c
      → value < 2 ^ 32
      → Outcome size t (comma_text c ++ int_text value) true (json_write_int value w)
  unfolding json_write_int
  write_int-Outcome value t c w h e small = Outcome-finish size t _ c true _ _ (
      number-Outcome t c w (codes "%d") (word value ∷ []) h e (render_int value)
        (omega (arith, length-int_text value small)) (int_text-NonNul value))

  -- `json_write_int64` writes the four characters `%lld` whatever the value is: `vsnprintf` knows no
  -- such conversion. The writer's buffer holds a text.
  pub write_int64-Outcome :
      (low high : ℕ) (t : List ℕ) (c : Bool) (w : Writer)
      → Holds size t w
      → w.needs_comma ≡ c
      → Outcome size t (comma_text c ++ codes "%lld") true (json_write_int64 low high w)
  unfolding json_write_int64
  write_int64-Outcome low high t c w h e = Outcome-finish size t _ c true _ _ (
      number-Outcome t c w (codes "%lld") (word low ∷ word high ∷ []) h e
        (render_lld (word low ∷ word high ∷ [])) (omega arith) (omega arith))

-- One more round changes nothing for a value that the rounds suffice for.
trim_zeros-fuel : (k f : ℕ) → f < 10 ^ k → trim_zeros (suc k) f ≡ trim_zeros k f
unfolding trim_zeros
trim_zeros-fuel zero f h = let z : f ≡ 0 = omega arith in rw z
trim_zeros-fuel (suc k) f h =
    let p : 10 ^ suc k ≡ 10 ^ k * 10 = pow-suc 10 k in
    ap (λ r. elim (f % 10 == 0 && ltb 0 f) [ true ↦ r | false ↦ f ])
      (trim_zeros-fuel k (f / 10) (omega arith))

trim_zeros-step : (k n : ℕ) → n % 10 ≡ 0 → 0 < n → trim_zeros (suc k) n ≡ trim_zeros k (n / 10)
unfolding trim_zeros
trim_zeros-step k n round h = ground arith

trim_zeros-scaled : (f : ℕ) → 0 < f → f < 10 ^ 9 → trim_zeros 10 (10 * f) ≡ trim_zeros 10 f
trim_zeros-scaled f nonzero small =
    trim_zeros-step 9 (10 * f) (omega arith) (omega arith)
    ∙ ap (trim_zeros 9) (omega arith)
    ∙ sym (trim_zeros-fuel 9 f small)

-- `json_write_float` drops the zeros between the point and the first digit: a fraction of `f`
-- millionths and one of `10 * f` millionths, such as 1.05 and 1.5, are written alike.
write_float_collision :
    (intpart f : ℕ) (w : Writer)
    → 0 < f
    → 10 * f < 1000000
    → json_write_float intpart (10 * f) w ≡ json_write_float intpart f w
unfolding json_write_float magnitude format_float
write_float_collision intpart f w nonzero small = rw (
  lt→leb (2 ^ 31) (10 * f) (omega arith),
  lt→leb (2 ^ 31) f (omega arith),
  ne→== (10 * f) 0 (omega arith),
  ne→== f 0 (omega arith),
  trim_zeros-scaled f nonzero (omega arith),
)
