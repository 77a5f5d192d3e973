-- ===== src/Log/Message.antt =====
-- Whole log lines, and where they go.
use cllm.Common.{
  ℕ, suc, ◌+◌, ◌-◌, ◌^◌, ◌≤◌, ◌<◌, ◌≡◌, sym, ap, ◌∙◌, some, List, [], ◌∷◌, ◌++◌, arith, Bool-cases,
  inl, inr, leb, lt→ltb, leb→le, leb→lt, if◌then◌else◌, codes, length, take, drop, length-append,
  length-take, length-drop, length_concat, append_assoc, take-append_length, drop-append_length,
  drop-drop, drop-one-drop,
}
use cllm.Common.Maybe.{◌>>=◌}
use cllm.CString.{strlen, store}
use cllm.CString.Copy.{store-append}
use cllm.Format.{Arg}
use cllm.Format.Emit.{placed}
use cllm.Format.Truncate.{render, vsnprintf-render}
use cllm.Http.Generate.{sum}
use cllm.Log.{filename, put_message, put_end, timestamp, log_line}
use cllm.Log.Line.{
  holding, level_part, length-stamped, put_timestamp-Puts, put_level-holding, put_separator-Puts,
}
use cllm.Log.Place.{place_part, length-place_part, put_place-holding}

-- A message and the end of the line behind the text `t`, cut off where the array ends.
abbrev pub ended : List ℕ → List ℕ → List ℕ
ended t u = t ++ (take (510 - length t) u ++ b'\n' ∷ [])

placed-behind :
    (buffer t s : List ℕ) → t ++ placed (drop (length t) buffer) s ≡ placed buffer (t ++ s)
placed-behind buffer t s =
    rw (drop-drop (length s) (length t) buffer, ← length-append t s) (sym (append_assoc t s _))

-- What stands before the message.
abbrev pub log_front : ℕ → List ℕ → ℕ → List ℕ
log_front level file line =
    let t = timestamp ++ level_part level in (t ++ place_part level file line t) ++ codes ": "

abbrev pub log_text : ℕ → List ℕ → ℕ → List ℕ → List ℕ
log_text level file line u = ended (log_front level file line) u

length-log_front :
    (level : ℕ) (file : List ℕ) (line : ℕ)
    → line < 2 ^ 31
    → strlen (filename file) < 2 ^ 31
    → length (log_front level file line) ≤ 510
length-log_front level file line h n =
    let t = timestamp ++ level_part level in
    let short = length-stamped level in
    let part = place_part level file line t in
    omega (
      arith,
      length-place_part level file line t h n (omega (arith, short)),
      length-append t part,
      length-append (t ++ part) (codes ": "),
    )

module _ (buffer : List ℕ) (room : length buffer ≡ 512) where
  put_message-holding :
      (format : List ℕ) (args : List Arg) (t : List ℕ) {u : List ℕ}
      → length t ≤ 510
      → render 0 format args ≡ some u
      → length u < 2 ^ 31
      → put_message format args (holding buffer room t)
        ≡ some (placed buffer ((t ++ take (510 - length t) u) ++ 0 ∷ []), length t + length u)
  unfolding put_message
  put_message-holding format args t {u} h e k =
      let tail = drop (length t) buffer in
      let size = 511 - length t in
      let same : size - 1 ≡ 510 - length t = omega arith in
      let short : sum (length t) (length u) ≡ length t + length u = omega (arith, h, k) in
      rw
        (
          lt→ltb (length t) 511 (omega (arith, h)),
          drop-append_length t tail,
          take-append_length t tail,
          vsnprintf-render tail size format args
              (omega (arith, h, room, length-drop (length t) buffer)) (omega (arith, h)) e
              (omega (arith, k)),
          same,
          short,
        )
        (ap (λ l. some (l, length t + length u))
          (placed-behind buffer t (take (510 - length t) u ++ 0 ∷ [])
            ∙ ap (placed buffer) (sym (append_assoc t (take (510 - length t) u) (0 ∷ [])))))

  -- The terminator of the message becomes the newline.
  put_end-placed :
      (w : List ℕ) (n : ℕ)
      → (if leb 511 n then 510 else n) ≡ length w
      → length w ≤ 510
      → put_end (placed buffer (w ++ 0 ∷ []), n)
        ≡ some (placed buffer ((w ++ b'\n' ∷ []) ++ 0 ∷ []))
  unfolding put_end
  put_end-placed w n e h =
      let rest = drop (suc (length w)) buffer in
      let more : 0 < length rest = omega (arith, h, room, length-drop (suc (length w)) buffer) in
      let first : store (w ++ (0 ∷ rest)) (length w) b'\n' ≡ some ((w ++ b'\n' ∷ []) ++ rest) =
        store-append w (0 ∷ rest) b'\n' (omega arith)
        ∙ ap some (sym (append_assoc w (b'\n' ∷ []) rest)) in
      let second = store-append (w ++ b'\n' ∷ []) rest 0 more in
      let second' : store ((w ++ b'\n' ∷ []) ++ rest) (suc (length w)) 0
          ≡ some ((w ++ b'\n' ∷ []) ++ (0 ∷ drop 1 rest)) =
        (rw (length_concat w b'\n') at second) in
      rw
        (
          e,
          append_assoc w (0 ∷ []) _,
          length_concat w 0,
          first,
          second',
          drop-one-drop (suc (length w)) buffer,
          length_concat (w ++ b'\n' ∷ []) 0,
          length_concat w b'\n',
        )
        (ap some (sym (append_assoc (w ++ b'\n' ∷ []) (0 ∷ []) _)))

  pub put_message-put_end :
      (format : List ℕ) (args : List Arg) (t : List ℕ) {u : List ℕ}
      → length t ≤ 510
      → render 0 format args ≡ some u
      → length u < 2 ^ 31
      → (put_message format args (holding buffer room t) >>= λ p. put_end p)
        ≡ some (placed buffer (ended t u ++ 0 ∷ []))
  put_message-put_end format args t {u} h e k =
      let w = t ++ take (510 - length t) u in
      let size = length-append t (take (510 - length t) u) in
      let cut = length-take (510 - length t) u in
      let end : (if leb 511 (length t + length u) then 510 else length t + length u) ≡ length w =
        elim (Bool-cases (leb 511 (length t + length u))) [
          | inl c ↦ rw c (omega (arith, h, size, cut, leb→le _ _ c))
          | inr c ↦ rw c (omega (arith, h, size, cut, leb→lt _ _ c))
        ] in
      rw (put_message-holding format args t h e k) (
        put_end-placed w (length t + length u) end (omega (arith, h, size, cut))
        ∙ ap (λ l. some (placed buffer (l ++ 0 ∷ [])))
            (append_assoc t (take (510 - length t) u) (b'\n' ∷ [])))

  -- The array holds the text of the line, and its terminator.
  pub log_line_lem :
      (level : ℕ) (file : List ℕ) (line : ℕ) (format : List ℕ) (args : List Arg) {u : List ℕ}
      → line < 2 ^ 31
      → strlen (filename file) < 2 ^ 31
      → render 0 format args ≡ some u
      → length u < 2 ^ 31
      → log_line level file line format args buffer
        ≡ some (placed buffer (log_text level file line u ++ 0 ∷ []))
  unfolding log_line
  log_line_lem level file line format args {u} h n e k =
      let t = timestamp ++ level_part level in
      let short = length-stamped level in
      let part = place_part level file line t in
      let size = length-place_part level file line t h n (omega (arith, short)) in
      rw
        (
          put_timestamp-Puts buffer room,
          put_level-holding buffer room level timestamp (omega arith),
          put_place-holding buffer room level file line t h n (omega (arith, short)),
          put_separator-Puts buffer room (t ++ part) (omega (arith, size, length-append t part)),
        )
        (put_message-put_end format args (log_front level file line)
          (length-log_front level file line h n) e k)
