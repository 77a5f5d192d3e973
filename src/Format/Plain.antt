-- ===== src/Format/Plain.antt =====
-- The texts of formats that have at most a size in them.
use cllm.Common.{
  ℕ, ◌≡◌, refl, ap, ◌∙◌, sym, List, [], ◌∷◌, ◌++◌, Bool, true, false, some, All, ◌==◌, ==→ne, codes,
  append-nil,
}
use cllm.CString.Copy.{NonNul}
use cllm.Format.{Arg, word, classify, width, uint_digits}
use cllm.Format.Truncate.{render}

-- No character ends the format or starts a conversion.
abbrev pub is_plain : List ℕ → Bool
is_plain [] = true
is_plain (c ∷ t) = elim (c == 0) [
  | true ↦ false
  | false ↦ elim (c == b'%') [ true ↦ false | false ↦ is_plain t ]
]

is_plain_head :
    (c : ℕ) (t : List ℕ)
    → is_plain (c ∷ t) ≡ true
    → ((c == 0) ≡ false) × ((c == b'%') ≡ false) × (is_plain t ≡ true)
is_plain_head c t h = go (c == 0) (c == b'%') h
  where
    go :
        (e p : Bool)
        → (elim e as (λ _. Bool) [
          | true ↦ false
          | false ↦ elim p as (λ _. Bool) [ true ↦ false | false ↦ is_plain t ]
        ])
          ≡ true
        → (e ≡ false) × (p ≡ false) × (is_plain t ≡ true)
    go true p k = cc
    go false true k = cc
    go false false k = (refl, refl, k)

pub is_plain-NonNul : (t : List ℕ) → is_plain t ≡ true → All NonNul t
is_plain-NonNul [] h = tt
is_plain-NonNul (c ∷ t) h = let k = is_plain_head c t h in (==→ne c 0 k.0, is_plain-NonNul t k.2)

-- Plain characters come out as they are.
pub render_front :
    (t rest : List ℕ) (args : List Arg) {u : List ℕ}
    → is_plain t ≡ true
    → render 0 rest args ≡ some u
    → render 0 (t ++ rest) args ≡ some (t ++ u)
unfolding render
render_front [] rest args h k = k
render_front (c ∷ t) rest args h k =
    let p = is_plain_head c t h in rw (p.0, p.1, render_front t rest args p.2 k) refl

pub render_plain : (t : List ℕ) (args : List Arg) → is_plain t ≡ true → render 0 t args ≡ some t
unfolding render
render_plain t args h =
    ap (λ s. render 0 s args) (sym (append-nil t))
    ∙ render_front t [] args h refl
    ∙ ap some (append-nil t)

pub render_size :
    (w : ℕ) (rest : List ℕ)
    → is_plain rest ≡ true
    → render 0 (codes "%zu" ++ rest) (word w ∷ []) ≡ some (uint_digits w 10 false ++ rest)
unfolding render classify width
render_size w rest h = rw (render_plain rest [] h) refl
