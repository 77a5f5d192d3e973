-- ===== src/Format/Numerals.antt =====
-- The texts of the formats that the JSON writer prints numbers by.
use cllm.Common.{
  ℕ, ◌^◌, ◌≤◌, ◌<◌, ◌≡◌, refl, List, [], ◌∷◌, ◌++◌, arith, All, All-map, Bool-cases, inl, inr, some,
  length, ltb, if◌then◌else◌, codes, append-nil, false,
}
use cllm.CString.Copy.{NonNul, until_nul}
use cllm.Format.{Arg, word, text, classify, width, uint_digits, negate32}
use cllm.Format.Digits.{uint_digits-IsDigit, length-uint_digits}
use cllm.Format.Truncate.{render}

-- The decimal text of an `int`, given as its bit pattern.
abbrev pub int_text : ℕ → List ℕ
int_text w =
    if ltb w (2 ^ 31) then uint_digits w 10 false else b'-' ∷ uint_digits (negate32 w) 10 false

pub render_int : (w : ℕ) → render 0 (codes "%d") (word w ∷ []) ≡ some (int_text w)
unfolding render classify width
render_int w = elim (Bool-cases (ltb w (2 ^ 31))) [
  | inl e ↦ rw (e, append-nil)
  | inr e ↦ rw (e, append-nil)
]

-- `%lld` is no conversion: its `%l` is emitted as it stands, and no argument is taken.
pub render_lld : (args : List Arg) → render 0 (codes "%lld") args ≡ some (codes "%lld")
unfolding render classify width
render_lld args = refl

-- Nor is `%016llx`: its `%0` is emitted as it stands, and the digits and letters behind it too.
pub render_id :
    (prefix : List ℕ) (args : List Arg)
    → render 0 (codes "%s-%016llx") (text prefix ∷ args)
      ≡ some (until_nul prefix ++ codes "-%016llx")
unfolding render classify width
render_id prefix args = refl

pub render_whole : (w : ℕ) → render 0 (codes "%d.0") (word w ∷ []) ≡ some (int_text w ++ codes ".0")
unfolding render classify width
render_whole w = elim (Bool-cases (ltb w (2 ^ 31))) [ inl e ↦ rw e | inr e ↦ rw e ]

pub render_fraction :
    (w f : ℕ)
    → render 0 (codes "%d.%d") (word w ∷ word f ∷ []) ≡ some (int_text w ++ (b'.' ∷ int_text f))
unfolding render classify width
render_fraction w f = elim (Bool-cases (ltb w (2 ^ 31))) [
  | inl e ↦ elim (Bool-cases (ltb f (2 ^ 31))) [
    | inl p ↦ rw (e, p, append-nil)
    | inr p ↦ rw (e, p, append-nil)
  ]
  | inr e ↦ elim (Bool-cases (ltb f (2 ^ 31))) [
    | inl p ↦ rw (e, p, append-nil)
    | inr p ↦ rw (e, p, append-nil)
  ]
]

pub digits-NonNul : (v : ℕ) → All NonNul (uint_digits v 10 false)
digits-NonNul v =
    All-map (uint_digits v 10 false) (λ c h. omega (arith, h.0)) (uint_digits-IsDigit v false)

pub int_text-NonNul : (w : ℕ) → All NonNul (int_text w)
int_text-NonNul w = elim (Bool-cases (ltb w (2 ^ 31))) [
  | inl e ↦ rw e (digits-NonNul w)
  | inr e ↦ rw e (omega arith, digits-NonNul (negate32 w))
]

-- An `int` takes at most eleven characters.
pub length-int_text : (w : ℕ) → w < 2 ^ 32 → length (int_text w) ≤ 11
length-int_text w h = elim (Bool-cases (ltb w (2 ^ 31))) [
  | inl e ↦ rw e (omega (arith, length-uint_digits w false h))
  | inr e ↦ rw e (omega (arith, length-uint_digits (negate32 w) false (omega arith)))
]
