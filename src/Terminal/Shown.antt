-- ===== src/Terminal/Shown.antt =====
-- What a string leaves on the screen.
use cllm.Common.{
  ℕ, suc, ◌+◌, ◌%◌, ◌<◌, ◌≤◌, Bool-cases, inl, inr, length-append, take-append_length, ◌≡◌, ◌≢◌,
  refl, ap, subst, ◌∙◌, sym, List, [], ◌∷◌, ◌++◌, arith, length, set, take, drop, All, ◌==◌, ne→==,
  append_assoc, length_concat,
}
use cllm.Common.Maybe.{Ensures, Ensures-weaken}
use cllm.CString.{strlen}
use cllm.CString.Copy.{until_nul}
use cllm.CString.Compare.{strlen-until_nul}
use cllm.Terminal.{
  Terminal, vga_entry, write_loop, write_or_serial, serial_write, terminal_writestring,
  terminal_write,
}
use cllm.Terminal.Cursor.{Sheet, type_all, cursor_trace, Shows, write_loop-Shows}

until_nul-front : (text : List ℕ) → until_nul text ++ drop (length (until_nul text)) text ≡ text
until_nul-front [] = refl
until_nul-front (c ∷ text) = elim (Bool-cases (c == 0)) [
  | inl e ↦ rw e refl
  | inr e ↦ rw e (ap (λ l. c ∷ l) (until_nul-front text))
]

take-strlen : (text : List ℕ) → take (strlen text) text ≡ until_nul text
take-strlen text = rw (strlen-until_nul text) (
    ap (take (length (until_nul text))) (sym (until_nul-front text))
    ∙ take-append_length (until_nul text) (drop (length (until_nul text)) text))

-- On a terminal that shows a sheet, `terminal_writestring` types the characters of the string up to
-- its terminator, a newline as the move to the next row, and wraps behind the last cell; every store
-- is inside the 2000 cells, and the cursor's registers get the position behind each character.
pub terminal_writestring-Shows :
    (color : ℕ) (text : List ℕ) (s : Sheet) (t : Terminal)
    → Shows color s t
    → Ensures
        (λ q.
          Shows color (type_all color (until_nul text) s) q.0
          × (q.1 ≡ cursor_trace color (until_nul text) s))
        (terminal_writestring text t)
unfolding terminal_writestring terminal_write
terminal_writestring-Shows color text s t h =
    let typed : terminal_writestring text t ≡ write_loop (until_nul text) t =
      ap (write_or_serial text t) h.buffer ∙ ap (λ l. write_loop l t) (take-strlen text) in
    subst (Ensures _) (sym typed) (write_loop-Shows color (until_nul text) s t h)

abbrev pub entries : ℕ → List ℕ → List ℕ
entries color [] = []
entries color (c ∷ text) = vga_entry c color ∷ entries color text

abbrev pub NoNewline : ℕ → Type 0
NoNewline c = c ≢ b'\n'

set-append :
    (front rest : List ℕ) (x v : ℕ)
    → set (front ++ (x ∷ rest)) (length front) v ≡ (front ++ v ∷ []) ++ rest
set-append [] rest x v = refl
set-append (y ∷ front) rest x v = ap (λ l. y ∷ l) (set-append front rest x v)

type_all-line :
    (color : ℕ) (text front rest : List ℕ)
    → All NoNewline text
    → length front + length text < 2000
    → length text ≤ length rest
    → type_all color text (length front, front ++ rest)
      ≡ (length front + length text, front ++ (entries color text ++ drop (length text) rest))
type_all-line color [] front rest h k l =
    let same : length front + 0 ≡ length front = omega arith in rw same refl
type_all-line color (c ∷ text) front [] h k l = absurd (omega (arith, l))
type_all-line color (c ∷ text) front (x ∷ rest) h k l =
    let v = vga_entry c color in
    let next : (length front + 1) % 2000 ≡ length (front ++ v ∷ []) =
      omega (arith, k, length_concat front v) in
    let sum : length (front ++ v ∷ []) + length text ≡ length front + suc (length text) =
      omega (arith, length_concat front v) in
    rw (ne→== c b'\n' h.0, set-append front rest x v, next)
      (type_all-line color text (front ++ v ∷ []) rest h.1 (omega (arith, k, sum))
          (omega (arith, l))
        ∙ rw (sum, append_assoc) refl)

-- A string without a newline that ends before the last cell stands in the cells from the position on,
-- in the color of the terminal; every other cell is left alone.
terminal_writestring-shown :
    (color : ℕ) (text front rest : List ℕ) (t : Terminal)
    → Shows color (length front, front ++ rest) t
    → All NoNewline (until_nul text)
    → length front + length (until_nul text) < 2000
    → let line = until_nul text in
      Ensures
        (λ q.
          Shows color
            (length front + length line, front ++ (entries color line ++ drop (length line) rest))
            q.0)
        (terminal_writestring text t)
terminal_writestring-shown color text front rest t h n k =
    let line = until_nul text in
    let room : length line ≤ length rest = omega (arith, k, h.cells, length-append front rest) in
    Ensures-weaken
      (λ q m. subst (λ u. Shows color u q.0) (type_all-line color line front rest n k room) m.0)
      (terminal_writestring-Shows color text (length front, front ++ rest) t h)

-- The serial port gets the string up to its terminator.
pub serial_write-until_nul : (text : List ℕ) → serial_write text ≡ serial_write (until_nul text)
unfolding serial_write
serial_write-until_nul [] = refl
serial_write-until_nul (c ∷ text) = elim (Bool-cases (c == 0)) [
  | inl e ↦ rw e refl
  | inr e ↦
      rw (e, e) (ap (λ l. record { port = 0x3F8; value = c } ∷ l) (serial_write-until_nul text))
]
