-- ===== src/Log/Line.antt =====
-- The parts of a log line, and the text in the array behind each.
use cllm.Common.{
  ℕ, zero, suc, ◌+◌, ◌≤◌, ◌<◌, ◌≡◌, refl, sym, ap, ◌∙◌, Option, some, List, [], ◌∷◌, ◌++◌, arith,
  Bool-cases, inl, inr, leb, lt→ltb, if◌then◌else◌, codes, get_or, drop, length, length-append,
  length_concat, length-drop, append_assoc, append-nil, drop-one-drop,
}
use cllm.Common.Maybe.{◌>>=◌}
use cllm.CString.{strlen}
use cllm.CString.Copy.{store-append, until_nul}
use cllm.CString.Compare.{padded-strlen, strlen-until_nul}
use cllm.Format.Emit.{placed}
use cllm.Http.Generate.Text.{copy_to_lem}
use cllm.Log.{
  Partial, put_byte, put_text, timestamp, put_timestamp, log_level_strings, put_level, copy_line,
  put_separator,
}

abbrev pub level_str : ℕ → List ℕ
level_str level = get_or log_level_strings level []

-- The level in brackets.
abbrev pub level_part : ℕ → List ℕ
level_part level =
    if leb level 4 then codes " [" ++ (until_nul (level_str level) ++ codes "]") else []

length-level_str : (level : ℕ) → length (until_nul (level_str level)) ≤ 5
length-level_str zero = omega arith
length-level_str (suc zero) = omega arith
length-level_str (suc (suc zero)) = omega arith
length-level_str (suc (suc (suc zero))) = omega arith
length-level_str (suc (suc (suc (suc zero)))) = omega arith
length-level_str (suc (suc (suc (suc (suc n))))) = omega arith

pub length-stamped : (level : ℕ) → length (timestamp ++ level_part level) ≤ 18
length-stamped level = elim (Bool-cases (leb level 4)) [
  | inl e ↦ rw e (
      omega
        (arith, length-level_str level, length-append (until_nul (level_str level)) (codes "]")))
  | inr e ↦ rw e (omega arith)
]

module _ (buffer : List ℕ) (room : length buffer ≡ 512) where
  -- The array starts with a text, and `offset` is behind it.
  abbrev pub holding : List ℕ → Partial
  holding t = (placed buffer t, length t)

  -- A step appends a text, where there is room for it.
  pub record Puts (s : List ℕ) (f : Partial → Option Partial) : Type 0 where
    pub puts : (t : List ℕ) → length t + length s ≤ 511 → f (holding t) ≡ some (holding (t ++ s))

  pub Puts-bind :
      (s u : List ℕ) {f g : Partial → Option Partial}
      → Puts s f
      → Puts u g
      → Puts (s ++ u) (λ p. f p >>= g)
  Puts-bind s u hf hg = record {
    puts = λ t h.
        let room = length-append s u in
        rw (hf.puts t (omega (arith, h, room))) (
          hg.puts (t ++ s) (omega (arith, h, room, length-append t s))
          ∙ rw (append_assoc t s u) refl);
  }

  Puts-none : Puts [] some
  Puts-none = record { puts = λ t h. ap (λ l. some (holding l)) (sym (append-nil t)) }

  pub put_byte-Puts : (c : ℕ) → Puts (c ∷ []) (put_byte c)
  unfolding put_byte
  put_byte-Puts c = record {
    puts = λ t h.
        rw
          (
            store-append t (drop (length t) buffer) c
                (omega (arith, h, room, length-drop (length t) buffer)),
            drop-one-drop (length t) buffer,
            length_concat t c,
          )
          (ap (λ l. some (l, suc (length t))) (sym (append_assoc t (c ∷ []) _)));
  }

  pub put_text-Puts : (s : List ℕ) → Puts (until_nul s) (put_text s)
  unfolding put_text
  put_text-Puts s = record {
    puts = λ t h.
        let copied =
          copy_to_lem s (strlen s) buffer t (omega (arith, room, h, strlen-until_nul s)) in
        let more : length t + strlen s ≡ length (t ++ until_nul s) =
          omega (arith, length-append t (until_nul s), strlen-until_nul s) in
        rw (copied, padded-strlen s, more) refl;
  }

  pub copy_line-Puts : (cs : List ℕ) → Puts cs (copy_line cs)
  unfolding copy_line
  copy_line-Puts [] = Puts-none
  copy_line-Puts (c ∷ cs) = record {
    puts = λ t h.
        rw (copy_line, lt→ltb (length t) 511 (omega (arith, h)))
          ((Puts-bind (c ∷ []) cs (put_byte-Puts c) (copy_line-Puts cs)).puts t h);
  }

  pub put_timestamp-Puts : put_timestamp (buffer, 0) ≡ some (holding timestamp)
  unfolding put_timestamp
  put_timestamp-Puts =
      rw (strlen-until_nul timestamp) ((put_text-Puts timestamp).puts [] (omega arith))

  pub put_level-holding :
      (level : ℕ) (t : List ℕ)
      → length t ≤ 10
      → put_level level (holding t) ≡ some (holding (t ++ level_part level))
  unfolding put_level
  put_level-holding level t h = elim (Bool-cases (leb level 4)) [
    | inl e ↦
        let s = level_str level in
        let short = length-level_str level in
        let fits : length t + strlen s + 3 < 511 = omega (arith, h, short, strlen-until_nul s) in
        let bound : length t + length (codes " [" ++ (until_nul s ++ codes "]")) ≤ 511 =
          omega (arith, h, short, length-append (until_nul s) (codes "]")) in
        rw (e, lt→ltb (length t + strlen s + 3) 511 fits)
          ((Puts-bind (b' ' ∷ []) (b'[' ∷ until_nul s ++ codes "]") (put_byte-Puts b' ') (
              Puts-bind (b'[' ∷ []) (until_nul s ++ codes "]") (put_byte-Puts b'[')
                (Puts-bind (until_nul s) (codes "]") (put_text-Puts s) (put_byte-Puts b']')))).puts
            t bound)
    | inr e ↦ rw e (ap (λ l. some (holding l)) (sym (append-nil t)))
  ]

  pub put_separator-Puts :
      (t : List ℕ) → length t ≤ 508 → put_separator (holding t) ≡ some (holding (t ++ codes ": "))
  unfolding put_separator
  put_separator-Puts t h = rw (lt→ltb (length t) 509 (omega (arith, h))) (
      (Puts-bind (b':' ∷ []) (b' ' ∷ []) (put_byte-Puts b':') (put_byte-Puts b' ')).puts t
        (omega (arith, h)))
