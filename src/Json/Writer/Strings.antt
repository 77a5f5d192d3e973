-- ===== src/Json/Writer/Strings.antt =====
-- The text of keys and of escaped string values.
use cllm.Common.{
  ℕ, ◌^◌, ◌≤◌, ◌<◌, ◌≡◌, refl, ◌≢◌, sym, ap, subst, List, [], ◌∷◌, ◌++◌, arith, Bool, true, false,
  Option, none, some, Bool-cases, inl, inr, length, All, append-nil, if◌then◌else◌, ◌==◌, ==→ne,
}
use cllm.CString.{strlen}
use cllm.CString.Copy.{NonNul, until_nul, until_nul-NonNul}
use cllm.CString.Compare.{strlen-until_nul, strlen_of_NonNul}
use cllm.Json.Writer.{
  Writer, done, ◌>>◌, write_raw, quote, escaped, write_escaped, write_chars, json_write_key,
  json_write_string,
}
use cllm.Json.Writer.Outcome.{Holds, Outcome, Outcome-bind, write_raw-Outcome}
use cllm.Json.Writer.Text.{
  comma_text, escape_text, escapes, Outcome-finish, literal-Outcome, value-Outcome,
}

-- A C string and what lies from its terminator on.
from_nul : (s : List ℕ) → (rest : List ℕ) × (s ≡ until_nul s ++ rest)
from_nul [] = ([], refl)
from_nul (c ∷ s) = elim (Bool-cases (c == 0)) [
  | inl e ↦ (c ∷ s, rw e refl)
  | inr e ↦ let (rest, p) = from_nul s in (rest, rw e (ap (λ x. c ∷ x) p))
]

-- The switch writes one or two bytes, none of them a terminator.
escaped_bytes :
    (c : ℕ) → c ≢ 0 → All NonNul (escape_text (escaped c)) × (length (escape_text (escaped c)) ≤ 2)
unfolding escaped
escaped_bytes c h = ground arith

-- The text of a string value.
abbrev pub string_text : Bool → List ℕ → List ℕ
string_text c value = ((comma_text c ++ quote) ++ escapes value) ++ quote

-- The text of a key, which is written as it is.
abbrev pub key_text : Bool → List ℕ → List ℕ
key_text c key = ((comma_text c ++ quote) ++ until_nul key) ++ (b'"' ∷ b':' ∷ [])

module _ (size : ℕ) where
  -- `write_raw(w, s, strlen(s))`.
  string-Outcome :
      (t s : List ℕ) (c : Bool) (w : Writer)
      → Holds size t w
      → w.needs_comma ≡ c
      → length (until_nul s) < 2 ^ 31
      → Outcome size t (until_nul s) c (write_raw s (strlen s) w)
  string-Outcome t s c w h e short =
      let (rest, split) = from_nul s in
      rw (strlen-until_nul s) (
        subst (λ x. Outcome size t (until_nul s) c (write_raw x (length (until_nul s)) w))
          (sym split)
          (subst
            (λ b.
              Outcome size t (until_nul s) b
                (write_raw (until_nul s ++ rest) (length (until_nul s)) w))
            e (write_raw-Outcome size t (until_nul s) rest w h (until_nul-NonNul s) short)))

  write_escaped-Outcome :
      (t : List ℕ) (c : Bool) (o : Option (List ℕ)) (w : Writer)
      → Holds size t w
      → w.needs_comma ≡ c
      → All NonNul (escape_text o)
      → length (escape_text o) ≤ 2
      → Outcome size t (escape_text o) c (write_escaped o w)
  write_escaped-Outcome t c none w h e nz short = (rw append-nil h, e)
  write_escaped-Outcome t c (some s) w h e nz short =
      rw (strlen_of_NonNul s nz) (literal-Outcome size t s c w h e nz (omega arith))

  write_chars-Outcome :
      (value t : List ℕ) (c : Bool) (w : Writer)
      → Holds size t w
      → w.needs_comma ≡ c
      → Outcome size t (escapes value) c (write_chars value w)
  unfolding write_chars escapes
  write_chars-Outcome [] t c w h e = (rw append-nil h, e)
  write_chars-Outcome (x ∷ value) t c w h e = go (x == 0) refl (write_chars-Outcome value)
    where
      go :
          (b : Bool)
          → (x == 0) ≡ b
          → ((t : List ℕ) (c : Bool) (w : Writer)
              → Holds size t w
              → w.needs_comma ≡ c
              → Outcome size t (escapes value) c (write_chars value w))
          → Outcome size t (if b then [] else escape_text (escaped x) ++ escapes value) c (elim b [
            | true ↦ done w
            | false ↦ write_escaped (escaped x) w >> λ w'. write_chars value w'
          ])
      go true p ih = (rw append-nil h, e)
      go false p ih =
          let bytes = escaped_bytes x (==→ne x 0 p) in
          Outcome-bind size t (escape_text (escaped x)) (escapes value) c c
            (write_escaped (escaped x) w) _
            (write_escaped-Outcome t c (escaped x) w h e bytes.0 bytes.1)
            (λ v hv ev. ih (t ++ escape_text (escaped x)) c v hv ev)

  pub write_string-Outcome :
      (value t : List ℕ) (c : Bool) (w : Writer)
      → Holds size t w
      → w.needs_comma ≡ c
      → Outcome size t (string_text c value) true (json_write_string value w)
  unfolding json_write_string
  write_string-Outcome value t c w h e = Outcome-finish size t _ c true _ _ (
      Outcome-bind size t ((comma_text c ++ quote) ++ escapes value) quote c c _ _
        (Outcome-bind size t (comma_text c ++ quote) (escapes value) c c _ _
          (value-Outcome size t quote c w h e (omega arith) (omega arith))
          (λ v hv ev. write_chars-Outcome value _ c v hv ev))
        (λ v hv ev. literal-Outcome size _ quote c v hv ev (omega arith) (omega arith)))

  pub write_key-Outcome :
      (key t : List ℕ) (c : Bool) (w : Writer)
      → Holds size t w
      → w.needs_comma ≡ c
      → length (until_nul key) < 2 ^ 31
      → Outcome size t (key_text c key) false (json_write_key key w)
  unfolding json_write_key
  write_key-Outcome key t c w h e short = Outcome-finish size t _ c false _ _ (
      Outcome-bind size t ((comma_text c ++ quote) ++ until_nul key) (b'"' ∷ b':' ∷ []) c c _ _
        (Outcome-bind size t (comma_text c ++ quote) (until_nul key) c c _ _
          (value-Outcome size t quote c w h e (omega arith) (omega arith))
          (λ v hv ev. string-Outcome _ key c v hv ev short))
        (λ v hv ev.
          literal-Outcome size _ (b'"' ∷ b':' ∷ []) c v hv ev (omega arith) (omega arith)))
