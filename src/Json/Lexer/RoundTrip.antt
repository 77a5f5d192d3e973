-- ===== src/Json/Lexer/RoundTrip.antt =====
-- The tokenizer reads back what the writer writes for a string.
use cllm.Common.{
  ℕ, ◌+◌, ◌≤◌, ◌≡◌, ◌∙◌, ◌≢◌, List, [], ◌∷◌, ◌++◌, arith, Option, none, some, Bool-cases, inl, inr,
  length, ◌==◌, ==→ne, if◌then◌else◌, append_assoc, append-nil, length-append,
}
use cllm.Json.Writer.{escaped, quote}
use cllm.Json.Writer.Text.{escape_text, escapes}
use cllm.Json.Lexer.{
  Parser, string, closed, string_char, unescape, string_loop, dispatch, skip_whitespace,
  json_next_token,
}

-- What is left of one character: those that the writer skips are gone.
abbrev pub kept_char : Option (List ℕ) → ℕ → List ℕ
kept_char none c = []
kept_char (some s) c = c ∷ []

-- A string up to its terminator, without the control characters that have no escape.
abbrev pub kept : List ℕ → List ℕ
kept [] = []
kept (c ∷ s) = if c == 0 then [] else kept_char (escaped c) c ++ kept s

-- The loop reads the text of one character as that character.
string_loop-escaped :
    (c : ℕ) (r buf : List ℕ)
    → c ≢ 0
    → length buf + length (kept_char (escaped c) c) ≤ 1023
    → string_loop 0 (escape_text (escaped c) ++ r) buf
      ≡ string_loop 0 r (buf ++ kept_char (escaped c) c)
unfolding string_loop escaped string_char unescape
string_loop-escaped c r buf h room = ground (arith, append-nil buf)

finish : (rest buf : List ℕ) → string_loop 0 (b'"' ∷ rest) buf ≡ closed (buf ++ []) rest
unfolding string_loop
finish rest buf = rw append-nil

string_loop-escapes :
    (value rest buf : List ℕ)
    → length buf + length (kept value) ≤ 1023
    → string_loop 0 (escapes value ++ (b'"' ∷ rest)) buf ≡ closed (buf ++ kept value) rest
unfolding escapes
string_loop-escapes [] rest buf h = finish rest buf
string_loop-escapes (c ∷ s) rest buf h = elim (Bool-cases (c == 0)) [
  | inl e ↦ rw e (finish rest buf)
  | inr e ↦
      let k = kept_char (escaped c) c in
      let split : length (k ++ kept s) ≡ length k + length (kept s) = length-append k (kept s) in
      let room : length buf + length (k ++ kept s) ≤ 1023 = (rw e at h) in
      rw
        (
          e,
          append_assoc (escape_text (escaped c)) (escapes s) (b'"' ∷ rest),
          string_loop-escaped c (escapes s ++ (b'"' ∷ rest)) buf (==→ne c 0 e) (omega arith),
        )
        (string_loop-escapes s rest (buf ++ k) (omega (arith, length-append buf k))
          ∙ rw append_assoc)
]

-- After whatever whitespace, the tokenizer takes a string as the writer wrote it, escapes and all, for
-- a string token with the characters of the value up to its terminator, control characters that JSON
-- has no short escape for left out, and stops right behind the closing quote. The value has at most
-- 1023 characters.
pub next_token-escapes :
    (value rest : List ℕ) (p : Parser)
    → skip_whitespace p.rest ≡ quote ++ (escapes value ++ (quote ++ rest))
    → length (kept value) ≤ 1023
    → json_next_token p ≡ record p { rest = rest; current = string; string_buf = kept value }
unfolding json_next_token dispatch
next_token-escapes value rest p e h = rw (e, string_loop-escapes value rest [] (omega arith))
