-- ===== src/Log/Place.antt =====
-- The place of a message: the name of its file and its line.
use native.Mathlib.Nat.{pow-suc}
use cllm.Common.{
  ℕ, zero, suc, ◌+◌, ◌/◌, ◌%◌, ◌^◌, ◌*◌, ◌≤◌, ◌<◌, ◌≡◌, refl, sym, ap, false, some, List, [], ◌∷◌,
  ◌++◌, arith, Bool-cases, inl, inr, leb, ltb, ltb→lt, lt→leb, ◌==◌, if◌then◌else◌, codes, length,
  length-append, append-nil,
}
use cllm.CString.{strlen}
use cllm.CString.Copy.{until_nul}
use cllm.CString.Compare.{strlen-until_nul}
use cllm.Format.{fill_digits, uint_digits}
use cllm.Format.Digits.{digit_lem, length-uint_digits}
use cllm.Http.Generate.{sum}
use cllm.Log.{filename, line_loop, line_str, put_place}
use cllm.Log.Line.{holding, Puts-bind, put_byte-Puts, put_text-Puts, copy_line-Puts}

fill_digits-zero : (k : ℕ) (buf : List ℕ) → fill_digits k 0 10 false buf ≡ buf
unfolding fill_digits
fill_digits-zero zero buf = refl
fill_digits-zero (suc k) buf = refl

-- The digits are those of `append_uint`.
line_loop-digits :
    (room k n : ℕ) (buf : List ℕ)
    → n < 10 ^ room
    → line_loop room n buf ≡ fill_digits (room + k) n 10 false buf
unfolding line_loop fill_digits
line_loop-digits zero k n buf h =
    let none : n ≡ 0 = omega (arith, h) in rw none (sym (fill_digits-zero (0 + k) buf))
line_loop-digits (suc room) k n buf h =
    let p : 10 ^ suc room ≡ 10 ^ room * 10 = pow-suc 10 room in
    let s : suc room + k ≡ suc (room + k) = omega arith in
    let d = digit_lem false (n % 10) (omega arith) in
    let ih = line_loop-digits room k (n / 10) ((b'0' + n % 10) ∷ buf) (omega (arith, h, p)) in
    elim (Bool-cases (n == 0)) [
      | inl e ↦ rw (line_loop, s, fill_digits, e) refl
      | inr e ↦ rw (line_loop, s, fill_digits, e, d) ih
    ]

line_str-digits : (line : ℕ) → line < 2 ^ 31 → line_str line ≡ b':' ∷ uint_digits line 10 false
unfolding line_str uint_digits
line_str-digits line h = elim (Bool-cases (line == 0)) [
  | inl e ↦ rw e refl
  | inr e ↦
      rw (e, lt→leb (2 ^ 31) line (omega (arith, h)))
        (ap (λ l. b':' ∷ l) (line_loop-digits 15 17 line [] (omega (arith, h))))
]

-- Behind a text: the file's name and the line, at the levels ERROR and FATAL, if the name leaves room.
abbrev pub place_part : ℕ → List ℕ → ℕ → List ℕ → List ℕ
place_part level file line t =
    if leb 3 level
    then (if ltb (sum (length t) (strlen (filename file) + 16)) 511
        then codes " ["
          ++ (until_nul (filename file) ++ ((b':' ∷ uint_digits line 10 false) ++ codes "]"))
        else [])
    else []

pub length-place_part :
    (level : ℕ) (file : List ℕ) (line : ℕ) (t : List ℕ)
    → line < 2 ^ 31
    → strlen (filename file) < 2 ^ 31
    → length t ≤ 20
    → length t + length (place_part level file line t) ≤ 508
length-place_part level file line t h n k = elim (Bool-cases (leb 3 level)) [
  | inl e ↦
      let size = strlen (filename file) + 16 in
      elim (Bool-cases (ltb (sum (length t) size) 511)) [
        | inl f ↦
            let digits = b':' ∷ uint_digits line 10 false in
            let small : length t + size < 511 = omega (arith, ltb→lt _ _ f, n, k) in
            rw (e, f)
              (omega (
                arith,
                h,
                small,
                strlen-until_nul (filename file),
                length-uint_digits line false (omega (arith, h)),
                length-append (until_nul (filename file)) (digits ++ codes "]"),
                length-append digits (codes "]"),
              ))
        | inr f ↦ rw (e, f) (omega (arith, k))
      ]
  | inr e ↦ rw e (omega (arith, k))
]

module _ (buffer : List ℕ) (room : length buffer ≡ 512) where
  pub put_place-holding :
      (level : ℕ) (file : List ℕ) (line : ℕ) (t : List ℕ)
      → line < 2 ^ 31
      → strlen (filename file) < 2 ^ 31
      → length t ≤ 20
      → put_place level file line (holding buffer room t)
        ≡ some (holding buffer room (t ++ place_part level file line t))
  unfolding put_place
  put_place-holding level file line t h n k =
      let bound = length-place_part level file line t h n k in
      let name = filename file in
      elim (Bool-cases (leb 3 level)) [
        | inl e ↦ elim (Bool-cases (ltb (sum (length t) (strlen name + 16)) 511)) [
          | inl f ↦
              let digits = b':' ∷ uint_digits line 10 false in
              let whole = codes " [" ++ (until_nul name ++ (digits ++ codes "]")) in
              let small : length t + length whole ≤ 508 = (rw (e, f) at bound) in
              rw (e, f, line_str-digits line h)
                ((Puts-bind buffer room (b' ' ∷ []) (b'[' ∷ until_nul name ++ (digits ++ codes "]"))
                    (put_byte-Puts buffer room b' ')
                    (Puts-bind buffer room (b'[' ∷ []) (until_nul name ++ (digits ++ codes "]"))
                      (put_byte-Puts buffer room b'[')
                      (Puts-bind buffer room (until_nul name) (digits ++ codes "]")
                        (put_text-Puts buffer room name)
                        (Puts-bind buffer room digits (codes "]")
                          (copy_line-Puts buffer room digits)
                          (put_byte-Puts buffer room b']'))))).puts
                  t (omega (arith, small)))
          | inr f ↦ rw (e, f) (ap (λ l. some (holding buffer room l)) (sym (append-nil t)))
        ]
        | inr e ↦ rw e (ap (λ l. some (holding buffer room l)) (sym (append-nil t)))
      ]
