-- ===== src/Log/Outputs.antt =====
-- Where a log line goes: the serial port, the terminal, and a halt.
use cllm.Common.{
  ℕ, zero, suc, ◌+◌, ◌<◌, ◌^◌, ◌≡◌, refl, ap, subst, ◌∙◌, false, some, List, [], ◌∷◌, ◌++◌,
  Bool-cases, inl, inr, leb, ltb, ==→ne, ◌-◌, ◌==◌, if◌then◌else◌, codes, length, take, All,
  All-append, append_assoc,
}
use cllm.Common.Maybe.{Ensures, ensures, Ensures-bind, Ensures-weaken}
use cllm.CString.{strlen}
use cllm.CString.Copy.{NonNul, until_nul, until_nul-NonNul}
use cllm.Format.{Arg, uint_digits}
use cllm.Http.Generate.{sum}
use cllm.Format.Emit.{placed}
use cllm.Format.Numerals.{digits-NonNul}
use cllm.Format.Plain.{is_plain-NonNul}
use cllm.Format.Truncate.{render}
use cllm.Http.Text.{until_nul-append}
use cllm.Terminal.{Terminal, Outb, serial_write}
use cllm.Terminal.Cursor.{Sheet, Shows, type_all}
use cllm.Terminal.Shown.{terminal_writestring-Shows, serial_write-until_nul}
use cllm.Log.{timestamp, filename, to_terminal, halt_text, log_message}
use cllm.Log.Line.{level_part, level_str}
use cllm.Log.Place.{place_part}
use cllm.Log.Message.{log_front, log_text, log_line_lem}

joined : (xs ys : List ℕ) → All NonNul xs → All NonNul ys → All NonNul (xs ++ ys)
joined = All-append NonNul

level_part-NonNul : (level : ℕ) → All NonNul (level_part level)
level_part-NonNul level = elim (Bool-cases (leb level 4)) [
  | inl e ↦ rw e (
      joined (codes " [") (until_nul (level_str level) ++ codes "]")
        (is_plain-NonNul (codes " [") refl)
        (joined (until_nul (level_str level)) (codes "]") (until_nul-NonNul (level_str level))
          (is_plain-NonNul (codes "]") refl)))
  | inr e ↦ rw e tt
]

take-All : (n : ℕ) (l : List ℕ) → All NonNul l → All NonNul (take n l)
take-All zero l h = tt
take-All (suc n) [] h = tt
take-All (suc n) (x ∷ l) h = (h.0, take-All n l h.1)

place_part-NonNul :
    (level : ℕ) (file : List ℕ) (line : ℕ) (t : List ℕ) → All NonNul (place_part level file line t)
place_part-NonNul level file line t = elim (Bool-cases (leb 3 level)) [
  | inl e ↦ elim (Bool-cases (ltb (sum (length t) (strlen (filename file) + 16)) 511)) [
    | inl f ↦
        let name = until_nul (filename file) in
        let digits = b':' ∷ uint_digits line 10 false in
        rw (e, f)
          (joined (codes " [") (name ++ (digits ++ codes "]")) (is_plain-NonNul (codes " [") refl) (
            joined name (digits ++ codes "]") (until_nul-NonNul (filename file)) (
              joined digits (codes "]") (==→ne _ _ refl, digits-NonNul line)
                (is_plain-NonNul (codes "]") refl))))
    | inr f ↦ rw (e, f) tt
  ]
  | inr e ↦ rw e tt
]

log_text-NonNul :
    (level : ℕ) (file : List ℕ) (line : ℕ) (u : List ℕ)
    → All NonNul u
    → All NonNul (log_text level file line u)
log_text-NonNul level file line u h =
    let t = timestamp ++ level_part level in
    let part = place_part level file line t in
    let rest = take (510 - length (log_front level file line)) u in
    joined (log_front level file line) (rest ++ b'\n' ∷ [])
      (joined (t ++ part) (codes ": ")
        (joined t part
          (joined timestamp (level_part level) (is_plain-NonNul timestamp refl)
            (level_part-NonNul level))
          (place_part-NonNul level file line t))
        (is_plain-NonNul (codes ": ") refl))
      (joined rest (b'\n' ∷ []) (take-All _ u h) (==→ne _ _ refl, tt))

-- What the terminal shows behind a message: DEBUG does not go there.
abbrev pub after_message : ℕ → ℕ → List ℕ → Sheet → Sheet
after_message color level line s = if leb 1 level then type_all color line s else s

to_terminal-Shows :
    (color level : ℕ) (b : List ℕ) (s : Sheet) (t : Terminal)
    → Shows color s t
    → Ensures
        (λ q. Shows color (after_message color level (until_nul b) s) q.0)
        (to_terminal level b t)
to_terminal-Shows color level b s t h = elim (Bool-cases (leb 1 level)) [
  | inl e ↦ rw e (Ensures-weaken (λ q k. k.0) (terminal_writestring-Shows color b s t h))
  | inr e ↦ rw e (ensures (t, []) h)
]

-- A message whose text has no NUL is logged as one line: the time stamp, the level, from ERROR on the
-- file's name and the decimal line if they fit, and as much of the text as the array has room for.
-- The line goes to the serial port, and from INFO on to the terminal; the processor is halted exactly
-- at FATAL. No store is outside the array or the screen.
pub log_message-Logs :
    (color level : ℕ) (file : List ℕ) (line : ℕ) (format : List ℕ) (args : List Arg) {u : List ℕ}
    (buffer : List ℕ) (s : Sheet) (t : Terminal)
    → length buffer ≡ 512
    → line < 2 ^ 31
    → strlen (filename file) < 2 ^ 31
    → render 0 format args ≡ some u
    → length u < 2 ^ 31
    → All NonNul u
    → Shows color s t
    → let whole = log_text level file line u in
      Ensures
        (λ c.
          Shows color (after_message color level whole s) c.terminal
          × (c.halted ≡ (level == 4))
          × ((moves : List Outb) × (c.out
                ≡ serial_write whole ++ (moves ++ serial_write (halt_text level)))))
        (log_message level file line format args buffer t)
unfolding log_message
log_message-Logs color level file line format args {u} buffer s t room h n e k v shows =
    let whole = log_text level file line u in
    let b = placed buffer (whole ++ 0 ∷ []) in
    let string : until_nul b ≡ whole =
      ap until_nul (append_assoc whole (0 ∷ []) _)
      ∙ until_nul-append whole _ (log_text-NonNul level file line u v) in
    let serial : serial_write b ≡ serial_write whole =
      serial_write-until_nul b ∙ ap serial_write string in
    rw (log_line_lem buffer room level file line format args h n e k) (
      Ensures-bind (to_terminal-Shows color level b s t shows) (λ w shown. ensures _ (
        subst (λ l. Shows color (after_message color level l s) w.0) string shown,
        refl,
        (w.1, ap (λ l. l ++ (w.1 ++ serial_write (halt_text level))) serial),
      )))
