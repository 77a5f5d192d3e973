-- ===== src/Json/Lexer.antt =====
-- The tokenizer of src/json.c.
-- `input`, `len` and `pos` are the list of the bytes from `pos` to `len`. Of a number the state
-- keeps the lexeme that `parse_number` scans; its conversion to a `double` is not modelled.
use cllm.Common.{
  ℕ, zero, suc, ◌+◌, ◌-◌, Bool, true, false, not, ◌&&◌, ◌||◌, Option, none, some, List, [], ◌∷◌,
  ◌++◌, ltb, leb, ◌==◌, if◌then◌else◌, codes, length, take, drop,
}
use cllm.CString.{first, rest_of}
pub mod RoundTrip
pub mod Consume
pub mod Tests

-- `json_token_t`.
pub data Token : Type 0 where
  lbrace rbrace lbracket rbracket colon comma string number true_ false_ null eof error : Token

-- The texts that `error` may hold.
pub data Message : Type 0 where
  no_message invalid_escape unterminated invalid_token : Message
  unexpected : ℕ → Message

-- `json_parser_t`; `string_buf` holds its first `string_len` bytes.
pub record Parser : Type 0 where
  pub rest : List ℕ
  pub current : Token
  pub string_buf : List ℕ
  pub lexeme : List ℕ
  pub message : Message

unfoldable pub json_parser_init : List ℕ → Parser
json_parser_init input = record {
  rest = input;
  current = eof;
  string_buf = [];
  lexeme = [];
  message = no_message;
}

pub is_whitespace : ℕ → Bool
is_whitespace c = c == b' ' || c == 9 || c == 10 || c == 13

pub is_digit : ℕ → Bool
is_digit c = leb b'0' c && leb c b'9'

pub skip_whitespace : List ℕ → List ℕ
skip_whitespace [] = []
skip_whitespace (c ∷ s) = if is_whitespace c then skip_whitespace s else c ∷ s

-- The character that an escape stands for.
pub unescape : ℕ → ℕ
unescape c =
    if c == b'b'
    then 8
    else if c == b'f'
    then 12
    else if c == b'n'
    then 10
    else if c == b'r'
    then 13
    else if c == b't'
    then 9
    else c

-- One round of the string loop at `c`, with `s` behind it: how many further bytes it consumes and
-- the character to store; `none` for a `\u` with fewer than four bytes behind it.
pub string_char : ℕ → List ℕ → Option (ℕ × ℕ)
string_char c s =
    if not (c == b'\\' && ltb 0 (length s))
    then some (0, c)
    else if not (first s == b'u')
    then some (1, unescape (first s))
    else if ltb (length (rest_of s)) 4
    then none
    else some (5, b'?')

-- `string_buf` has 1024 bytes, one of them for the terminator.
abbrev pub push : List ℕ → ℕ → List ℕ
push buf c = if ltb (length buf) 1023 then buf ++ c ∷ [] else buf

pub data Scan : Type 0 where
  closed : List ℕ → List ℕ → Scan
  stopped : List ℕ → List ℕ → Message → Scan

-- The loop of `parse_string`; the number counts the bytes that `pos` still steps over.
unfoldable pub string_loop : ℕ → List ℕ → List ℕ → Scan
string_loop skip [] buf = stopped buf [] unterminated
string_loop (suc skip) (c ∷ s) buf = string_loop skip s buf
string_loop zero (c ∷ s) buf = elim (c == b'"') [
  | true ↦ closed buf s
  | false ↦ elim (string_char c s) [
    | none ↦ stopped buf s invalid_escape
    | some (skip, d) ↦ string_loop skip s (push buf d)
  ]
]

abbrev pub scanned : Parser → Scan → Parser
scanned p (closed buf s) = record p { rest = s; current = string; string_buf = buf }
scanned p (stopped buf s m) = record p { rest = s; current = error; string_buf = buf; message = m }

pub skip_digits : List ℕ → List ℕ
skip_digits [] = []
skip_digits (c ∷ s) = if is_digit c then skip_digits s else c ∷ s

abbrev pub skip_byte : (ℕ → Bool) → List ℕ → List ℕ
skip_byte p [] = []
skip_byte p (c ∷ s) = if p c then s else c ∷ s

abbrev pub fraction_part : List ℕ → List ℕ
fraction_part [] = []
fraction_part (c ∷ s) = if c == b'.' then skip_digits s else c ∷ s

abbrev pub exponent_part : List ℕ → List ℕ
exponent_part [] = []
exponent_part (c ∷ s) =
    if c == b'e' || c == b'E'
    then skip_digits (skip_byte (λ d. d == b'+' || d == b'-') s)
    else c ∷ s

-- What `parse_number` leaves: the sign, the digits, the fraction and the exponent are consumed.
pub number_end : List ℕ → List ℕ
number_end s = exponent_part (fraction_part (skip_digits (skip_byte (λ c. c == b'-') s)))

abbrev pub parse_number : Parser → Parser
parse_number p =
    let after = number_end p.rest in
    record p { rest = after; current = number; lexeme = take (length p.rest - length after) p.rest }

-- The bytes of a keyword, at the front of the input.
pub starts : List ℕ → List ℕ → Bool
starts [] s = true
starts (k ∷ ks) [] = false
starts (k ∷ ks) (c ∷ s) = k == c && starts ks s

abbrev pub keyword : List ℕ → Token → Parser → Parser
keyword word token p =
    if starts word p.rest
    then record p { rest = drop (length word) p.rest; current = token }
    else record p { current = error; message = invalid_token }

abbrev pub single : Parser → List ℕ → Token → Parser
single p s token = record p { rest = s; current = token }

-- The switch on the first byte `c`, with `s` behind it; `p.rest` is both.
pub dispatch : Parser → ℕ → List ℕ → Parser
dispatch p c s =
    if c == b'{'
    then single p s lbrace
    else if c == b'}'
    then single p s rbrace
    else if c == b'['
    then single p s lbracket
    else if c == b']'
    then single p s rbracket
    else if c == b':'
    then single p s colon
    else if c == b','
    then single p s comma
    else if c == b'"'
    then scanned p (string_loop 0 s [])
    else if c == b't'
    then keyword (codes "true") true_ p
    else if c == b'f'
    then keyword (codes "false") false_ p
    else if c == b'n'
    then keyword (codes "null") null p
    else if c == b'-' || is_digit c
    then parse_number p
    else record p { current = error; message = unexpected c }

abbrev pub dispatch_at : Parser → List ℕ → Parser
dispatch_at p [] = record p { rest = []; current = eof }
dispatch_at p (c ∷ s) = dispatch (record p { rest = c ∷ s }) c s

pub json_next_token : Parser → Parser
json_next_token p = dispatch_at p (skip_whitespace p.rest)
