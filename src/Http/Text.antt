-- ===== src/Http/Text.antt =====
-- What a character array holds after `set_text`.
use cllm.Common.{
  ℕ, zero, suc, ◌<◌, ◌≡◌, refl, sym, ap, ◌∙◌, List, [], ◌∷◌, ◌++◌, arith, some, Bool-cases, inl,
  inr, length, drop, length-append, length-drop, drop-one-drop, All, ◌==◌, ne→==,
}
use cllm.Common.Maybe.{Ensures}
use cllm.CString.{store}
use cllm.CString.Copy.{padded, strncpy_lem, store-append, padded-append, until_nul, NonNul}
use cllm.Http.{set_text}

pub length-padded : (n : ℕ) (s : List ℕ) → length (padded n s) ≡ n
length-padded zero s = refl
length-padded (suc n) [] = ap suc (length-padded n [])
length-padded (suc n) (c ∷ s) = elim (Bool-cases (c == 0)) [
  | inl e ↦ rw e (ap suc (length-padded n []))
  | inr e ↦ rw e (ap suc (length-padded n s))
]

pub set_text_lem :
    (buf src : List ℕ) (n : ℕ)
    → n < length buf
    → set_text buf src n ≡ some (padded n src ++ (0 ∷ drop (suc n) buf))
unfolding set_text
set_text_lem buf src n h =
    let at = length-padded n src in
    let room : 0 < length (drop n buf) = omega (arith, length-drop n buf, h) in
    rw (strncpy_lem buf src n (omega (arith, h))) (
      ap (λ k. store (padded n src ++ drop n buf) k 0) (sym at)
      ∙ store-append (padded n src) (drop n buf) 0 room
      ∙ ap (λ l. some (padded n src ++ (0 ∷ l))) (drop-one-drop n buf))

length-set_text :
    (buf src : List ℕ) (n : ℕ)
    → n < length buf
    → length (padded n src ++ (0 ∷ drop (suc n) buf)) ≡ length buf
length-set_text buf src n h = omega (
  arith,
  length-append (padded n src) (0 ∷ drop (suc n) buf),
  length-padded n src,
  length-drop (suc n) buf,
  h,
)

-- A text that leaves room for its terminator is stored, and the array keeps its size.
pub set_text-Ensures :
    (buf src : List ℕ) (n : ℕ)
    → n < length buf
    → Ensures (λ b. length b ≡ length buf) (set_text buf src n)
set_text-Ensures buf src n h = record {
  value = _;
  same = set_text_lem buf src n h;
  holds = length-set_text buf src n h;
}

pub until_nul-append : (t rest : List ℕ) → All NonNul t → until_nul (t ++ (0 ∷ rest)) ≡ t
until_nul-append [] rest h = refl
until_nul-append (c ∷ t) rest h = rw (ne→== c 0 h.0) (ap (λ x. c ∷ x) (until_nul-append t rest h.1))

-- A word at the front of the source is the string that the array then holds.
pub set_text-word :
    (buf w rest : List ℕ)
    → length w < length buf
    → All NonNul w
    → Ensures
        (λ b. (length b ≡ length buf) × (until_nul b ≡ w))
        (set_text buf (w ++ rest) (length w))
set_text-word buf w rest h k = record {
  value = padded (length w) (w ++ rest) ++ (0 ∷ drop (suc (length w)) buf);
  same = set_text_lem buf (w ++ rest) (length w) h;
  holds = (
    length-set_text buf (w ++ rest) (length w) h,
    rw (padded-append w rest k) (until_nul-append w (drop (suc (length w)) buf) k),
  );
}
