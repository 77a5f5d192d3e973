-- ===== src/Http/Generate/Text.antt =====
-- The lines of a response as texts, and what the two arrays of 64 bytes then hold.
use cllm.Common.{
  ℕ, ◌+◌, ◌^◌, ◌≤◌, ◌<◌, ◌≡◌, refl, sym, ap, ◌∙◌, List, [], ◌∷◌, ◌++◌, arith, some, true, false,
  Bool-cases, inl, inr, length, length-append, length-drop, drop, take-all, replicate, All, All-map,
  All-append, append_assoc, drop-drop, lt→leb, ◌==◌, ltb, ltb→lt, codes,
}
use cllm.CString.{strncpy}
use cllm.CString.Copy.{NonNul, padded, strncpy_lem, at_offset-append}
use cllm.Format.{Arg, word, uint_digits}
use cllm.Format.Emit.{placed}
use cllm.Format.Digits.{uint_digits-IsDigit, length-uint_digits}
use cllm.Format.Truncate.{render, vsnprintf-render}
use cllm.Format.Plain.{is_plain, is_plain-NonNul, render_plain, render_front, render_size}
use cllm.Http.Text.{length-padded}
use cllm.Http.Generate.{crlf, status_format, length_format, print_line, cut_off, copy_to}

-- The line that a format and its arguments stand for is whole in the array.
pub record IsLine (format : List ℕ) (args : List Arg) (t : List ℕ) : Type 0 where
  pub render : render 0 format args ≡ some t
  pub short : length t < 64
  pub text : All NonNul t

pub print_line_lem :
    (format : List ℕ) (args : List Arg) (t : List ℕ)
    → IsLine format args t
    → (rest : List ℕ) × (print_line format args ≡ some (length t, t ++ rest))
print_line_lem format args t h = (
  (0 ∷ []) ++ drop (length (t ++ 0 ∷ [])) (replicate 64 0),
  vsnprintf-render (replicate 64 0) 64 format args (omega arith) (omega arith) h.render
        (omega (arith, h.short))
      ∙ ap (λ s. some (length t, placed (replicate 64 0) (s ++ 0 ∷ [])))
          (take-all 63 t (omega (arith, h.short)))
      ∙ ap (λ s. some (length t, s)) (append_assoc t (0 ∷ []) _),
)

pub cut_off_line : (n : ℕ) → n < 64 → cut_off n ≡ false
cut_off_line n h = rw (lt→leb (2 ^ 31) n (omega (arith, h)), lt→leb 64 n h) refl

-- A copy behind the text that the buffer starts with.
pub copy_to_lem :
    (src : List ℕ) (n : ℕ) (buf t : List ℕ)
    → length t + n ≤ length buf
    → copy_to src n (placed buf t) (length t) ≡ some (placed buf (t ++ padded n src))
unfolding copy_to
copy_to_lem src n buf t h =
    let room : n ≤ length (drop (length t) buf) = omega (arith, length-drop (length t) buf, h) in
    let behind : length t + n ≡ length (t ++ padded n src) =
      omega (arith, length-append t (padded n src), length-padded n src) in
    at_offset-append t (drop (length t) buf) (λ b. strncpy b src n)
      (strncpy_lem (drop (length t) buf) src n room)
    ∙ ap some (
        ap (λ l. t ++ (padded n src ++ l))
          (drop-drop n (length t) buf ∙ ap (λ i. drop i buf) behind)
        ∙ sym (append_assoc t (padded n src) _))

literal : (t : List ℕ) → is_plain t ≡ true → ltb (length t) 64 ≡ true → IsLine t [] t
literal t e s = record {
  render = render_plain t [] e;
  short = ltb→lt _ _ s;
  text = is_plain-NonNul t e;
}

pub status_format-IsLine : (c : ℕ) → IsLine (status_format c) [] (status_format c)
unfolding status_format
status_format-IsLine c = elim (Bool-cases (c == 200)) [
  | inl e ↦ rw e (literal _ refl refl)
  | inr e ↦ rw e (elim (Bool-cases (c == 400)) [
    | inl e ↦ rw e (literal _ refl refl)
    | inr e ↦ rw e (elim (Bool-cases (c == 404)) [
      | inl e ↦ rw e (literal _ refl refl)
      | inr e ↦ rw e (elim (Bool-cases (c == 405)) [
        | inl e ↦ rw e (literal _ refl refl)
        | inr e ↦ rw e (elim (Bool-cases (c == 422)) [
          | inl e ↦ rw e (literal _ refl refl)
          | inr e ↦ rw e (elim (Bool-cases (c == 500)) [
            | inl e ↦ rw e (literal _ refl refl)
            | inr e ↦ rw e (elim (Bool-cases (c == 503)) [
              | inl e ↦ rw e (literal _ refl refl)
              | inr e ↦ rw e (literal _ refl refl)
            ])
          ])
        ])
      ])
    ])
  ])
]

-- The line that states the length of the body.
abbrev pub length_line : ℕ → List ℕ
length_line n = codes "Content-Length: " ++ (uint_digits n 10 false ++ crlf)

pub length_line-IsLine : (n : ℕ) → n < 2 ^ 32 → IsLine length_format (word n ∷ []) (length_line n)
length_line-IsLine n h = record {
  render = render_front (codes "Content-Length: ") _ (word n ∷ []) refl (render_size n crlf refl);
  short = omega (
    arith,
    length-append (codes "Content-Length: ") (uint_digits n 10 false ++ crlf),
    length-append (uint_digits n 10 false) crlf,
    length-uint_digits n false h,
  );
  text =
      All-append NonNul (codes "Content-Length: ") (uint_digits n 10 false ++ crlf)
        (is_plain-NonNul (codes "Content-Length: ") refl)
        (All-append NonNul (uint_digits n 10 false) crlf
          (All-map (uint_digits n 10 false) (λ c k. omega (arith, k.0))
            (uint_digits-IsDigit n false))
          (is_plain-NonNul crlf refl));
}
