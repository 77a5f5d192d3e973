-- ===== src/Format/Emit.antt =====
-- Appending to a buffer of a stated size: what fits is stored, and the rest is counted.
use cllm.Common.{
  ℕ, ◌+◌, ◌-◌, ◌≤◌, ◌<◌, ◌^◌, ◌%◌, ◌≡◌, refl, sym, ap, ap₂, ◌∙◌, List, [], ◌∷◌, ◌++◌, arith, Bool,
  true, false, Option, some, Bool-cases, inl, inr, length, take, drop, ltb, ltb→lt, ltb→le, ◌==◌,
  if◌then◌else◌, take-append_le, take-all, length-drop, length_concat, drop-one-drop, append_assoc,
  append-nil,
}
use mathlib.Core.Path.{fun_ext}
use cllm.Common.Maybe.{◌>>=◌}
use cllm.CString.Copy.{until_nul, store-append}
use cllm.Format.{Out, append_char, append_str, append_buf}

-- A text written over the front of a buffer.
abbrev pub placed : List ℕ → List ℕ → List ℕ
placed buf t = t ++ drop (length t) buf

-- What `str` holds and `*off` is when the text `t` has been appended.
abbrev pub emitted : ℕ → List ℕ → List ℕ → Out
emitted size buf t = record { buf = placed buf (take (size - 1) t); off = length t }

pub placed_concat :
    (buf t : List ℕ) (c : ℕ) → placed buf (t ++ c ∷ []) ≡ t ++ (c ∷ drop 1 (drop (length t) buf))
placed_concat buf t c = rw (append_assoc, length_concat t c, drop-one-drop (length t) buf)

pub append_char-emitted :
    (size : ℕ) (buf t : List ℕ) (c : ℕ)
    → size ≤ length buf
    → length t + 1 < 2 ^ 32
    → append_char size c (emitted size buf t) ≡ some (emitted size buf (t ++ c ∷ []))
unfolding append_char
append_char-emitted size buf t c fits short =
    rw (no_wrap, length_concat t c)
      (elim (Bool-cases (ltb (length t + 1) size)) [
        | inl e ↦
            rw
              (
                e,
                take-all (size - 1) t (room e),
                take-all (size - 1) (t ++ c ∷ []) (room' e),
                store-append t (drop (length t) buf) c (behind e),
              )
              (ap₂ out (sym (placed_concat buf t c)) (omega arith))
        | inr e ↦
            rw (e, take-append_le (size - 1) t (c ∷ []) (full e))
              (ap (out (placed buf (take (size - 1) t))) (omega arith))
      ])
  where
    out : List ℕ → ℕ → Option Out
    out b n = some (record { buf = b; off = n })

    no_wrap : (length t + 1) % 2 ^ 32 ≡ length t + 1
    no_wrap = omega arith

    room : ltb (length t + 1) size ≡ true → length t ≤ size - 1
    room e = omega (arith, ltb→lt _ _ e)

    room' : ltb (length t + 1) size ≡ true → length (t ++ c ∷ []) ≤ size - 1
    room' e = omega (arith, ltb→lt _ _ e, length_concat t c)

    behind : ltb (length t + 1) size ≡ true → 0 < length (drop (length t) buf)
    behind e = omega (arith, ltb→lt _ _ e, length-drop (length t) buf)

    full : ltb (length t + 1) size ≡ false → size - 1 ≤ length t
    full e = omega (arith, ltb→le _ _ e)

-- Appending characters one by one.
pub append_buf-emitted :
    (size : ℕ) (buf t cs : List ℕ)
    → size ≤ length buf
    → length t + length cs < 2 ^ 32
    → append_buf size cs (emitted size buf t) ≡ some (emitted size buf (t ++ cs))
unfolding append_buf
append_buf-emitted size buf t [] fits short = rw append-nil
append_buf-emitted size buf t (c ∷ cs) fits short =
    rw (append_char-emitted size buf t c fits (omega arith)) (
      append_buf-emitted size buf (t ++ c ∷ []) cs fits (omega (arith, length_concat t c))
      ∙ rw append_assoc)

append_str-append_buf :
    (size : ℕ) (s : List ℕ) (o : Out) → append_str size s o ≡ append_buf size (until_nul s) o
unfolding append_str append_buf
append_str-append_buf size [] o = refl
append_str-append_buf size (c ∷ s) o = go (c == 0) (fun_ext λ o'. append_str-append_buf size s o')
  where
    go :
        (t : Bool)
        → append_str size s ≡ append_buf size (until_nul s)
        → elim t as (λ _. Option Out) [
          | true ↦ some o
          | false ↦ append_char size c o >>= λ o'. append_str size s o'
        ]
          ≡ append_buf size (if t then [] else c ∷ until_nul s) o
    go true later = refl
    go false later = ap (λ f. append_char size c o >>= f) later

-- Appending a string up to its terminator.
pub append_str-emitted :
    (size : ℕ) (buf t s : List ℕ)
    → size ≤ length buf
    → length t + length (until_nul s) < 2 ^ 32
    → append_str size s (emitted size buf t) ≡ some (emitted size buf (t ++ until_nul s))
append_str-emitted size buf t s fits short =
    append_str-append_buf size s _ ∙ append_buf-emitted size buf t (until_nul s) fits short
