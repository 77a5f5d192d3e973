-- ===== src/Http/Parse.antt =====
-- The request parser of src/http.c.
-- The request is the bytes from `raw_request` on, `length` of them the caller's. A result is 0 (`true`)
-- or -1 (`false`) and the request structure.
use cllm.Common.{
  ℕ, zero, suc, ◌+◌, ◌-◌, ◌*◌, ◌%◌, ◌^◌, Bool, true, false, not, ◌&&◌, ◌||◌, Option, none, some,
  List, [], ◌∷◌, ltb, leb, ◌==◌, if◌then◌else◌, codes, length, take, drop, replicate,
}
use cllm.Common.Maybe.{◌>>=◌}
use cllm.CString.{strlen, first, rest_of, store}
use cllm.Http.{Request, request_body_size, set_text}
pub mod Safe
pub mod Total
pub mod Line
pub mod NoBody
pub mod Tests

abbrev pub lower : ℕ → ℕ
lower c = if leb b'A' c && leb c b'Z' then c + 32 else c

-- `prefix` is a literal.
pub str_starts_with_ci : List ℕ → List ℕ → Bool
str_starts_with_ci str [] = true
str_starts_with_ci str (c ∷ prefix) =
    lower (first str) == lower c && str_starts_with_ci (rest_of str) prefix

pub skip_spaces : List ℕ → List ℕ
skip_spaces [] = []
skip_spaces (c ∷ s) = let later = skip_spaces s in if c == b' ' then later else c ∷ s

-- The digits of `Content-Length`, added to `acc` in a 32-bit `size_t`.
pub digits_value : ℕ → List ℕ → ℕ
digits_value acc [] = acc
digits_value acc (c ∷ s) =
    let later = digits_value ((acc * 10 + (c - b'0')) % 2 ^ 32) s in
    if leb b'0' c && leb c b'9' then later else acc

-- The characters that the loop for `Content-Type` copies.
pub type_text : ℕ → List ℕ → List ℕ
type_text zero s = []
type_text (suc n) [] = []
type_text (suc n) (c ∷ s) =
    let later = type_text n s in if c == 0 || c == 13 || c == 10 || c == b';' then [] else c ∷ later

pub parse_header : List ℕ → Request → Option Request
parse_header header r =
    let kind = type_text 63 (skip_spaces (drop 13 header)) in
    if str_starts_with_ci header (codes "Content-Length:")
    then some (record r { content_length = digits_value 0 (skip_spaces (drop 15 header)) })
    else if str_starts_with_ci header (codes "Content-Type:")
    then (set_text r.content_type kind (length kind) >>= λ b. some (record r { content_type = b }))
    else some r

-- The characters up to the next space or the terminator.
pub word_length : List ℕ → ℕ
word_length [] = 0
word_length (c ∷ s) = if c == b' ' || c == 0 then 0 else suc (word_length s)

pub parse_version : List ℕ → Request → Option (Bool × Request)
parse_version s r =
    let n = strlen s in
    if leb 16 n
    then some (false, r)
    else (set_text r.version s n >>= λ b. some (true, record r { version = b }))

pub parse_path : List ℕ → Request → Option (Bool × Request)
parse_path s r =
    let n = word_length s in
    if first (drop n s) == 0
    then some (false, r)
    else if leb 256 n
    then some (false, r)
    else (set_text r.path s n >>= λ b. parse_version (drop (suc n) s) (record r { path = b }))

pub parse_request_line : List ℕ → Request → Option (Bool × Request)
parse_request_line line r =
    let n = word_length line in
    if first (drop n line) == 0
    then some (false, r)
    else if leb 16 n
    then some (false, r)
    else (set_text r.method line n >>= λ b.
        parse_path (drop (suc n) line) (record r { method = b }))

-- The stores of the terminators, and of the counters.
pub clear : Request → Option Request
clear r = store r.method 0 0 >>= λ m. store r.path 0 0 >>= λ p. store r.version 0 0 >>= λ v.
    store r.headers 0 0 >>= λ h. store r.body 0 0 >>= λ b. store r.content_type 0 0 >>= λ t.
    some (record {
      method = m;
      path = p;
      version = v;
      headers = h;
      body = b;
      body_length = 0;
      content_type = t;
      content_length = 0;
    })

-- The index of the first CR LF.
pub find_crlf : List ℕ → Option ℕ
find_crlf (a ∷ b ∷ s) =
    let later = find_crlf (b ∷ s) in
    if a == 13 && b == 10 then some 0 else elim later [ none ↦ none | some n ↦ some (suc n) ]
find_crlf _ = none

-- `header_end - header_start`: to the next CR LF, or `n`.
pub line_end : ℕ → List ℕ → ℕ
line_end zero s = 0
line_end (suc n) s =
    let later = line_end n (rest_of s) in
    if first s == 13 && first (rest_of s) == 10 then 0 else suc later

abbrev pub parse_line : ℕ → List ℕ → Request → Option Request
parse_line n s r = if ltb 0 n then parse_header s r else some r

-- The loop over the lines before `pos`: `n` bytes of `s` are left before it, of which the loop has
-- stepped over `skip`.
pub parse_lines : ℕ → ℕ → List ℕ → Request → Option Request
parse_lines skip zero s r = some r
parse_lines (suc skip) (suc n) s r = parse_lines skip n (rest_of s) r
parse_lines zero (suc n) s r =
    let k = line_end (suc n) s in parse_line k s r >>= λ r'. parse_lines (suc k) n (rest_of s) r'

-- `headers_start` and `body_start` behind the loop that looks for the empty line.
pub record Scanned : Type 0 where
  pub request : Request
  pub headers_start : ℕ
  pub body_start : ℕ

abbrev pub starts_crlf : List ℕ → Bool
starts_crlf (a ∷ b ∷ s) = a == 13 && b == 10
starts_crlf _ = false

abbrev pub scanned : Request → ℕ → ℕ → Scanned
scanned r start body = record { request = r; headers_start = start; body_start = body }

-- That loop: `s` are the bytes from `pos` to `length`.
pub scan : List ℕ → ℕ → ℕ → List ℕ → Request → Option Scanned
scan raw pos start (a ∷ b ∷ s) r = elim (a == 13 && b == 10) [
  | true ↦ elim (starts_crlf s) [
    | true ↦ some (scanned r start (pos + 4))
    | false ↦ parse_lines 0 (pos - start) (drop start raw) r >>= λ r'.
        scan raw (suc pos) (pos + 2) (b ∷ s) r'
  ]
  | false ↦ scan raw (suc pos) start (b ∷ s) r
]
scan raw pos start _ r = some (scanned r start 0)

abbrev pub smaller : ℕ → ℕ → ℕ
smaller a b = if ltb a b then a else b

-- `headers_length` bytes, cut off at the size of the array.
pub copy_headers : List ℕ → ℕ → Request → Option Request
copy_headers src n r =
    if n == 0
    then some r
    else (set_text r.headers src (smaller n 1023) >>= λ b. some (record r { headers = b }))

-- The characters up to the end of the line or the terminator.
pub rest_of_line : List ℕ → ℕ
rest_of_line [] = 0
rest_of_line (c ∷ s) = if c == 0 || c == 13 || c == 10 then 0 else suc (rest_of_line s)

-- The loop over the lines of `request->headers`.
pub parse_copied : ℕ → List ℕ → Request → Option Request
parse_copied skip [] r = some r
parse_copied (suc skip) (c ∷ s) r = parse_copied skip s r
parse_copied zero (c ∷ s) r = elim (c == 0) [
  | true ↦ some r
  | false ↦ parse_line (rest_of_line (c ∷ s)) (c ∷ s) r >>= λ r'.
      parse_copied (rest_of_line (c ∷ s) - 1) s r'
]

-- The length of the body: what is left, cut off at `Content-Length` and at the array's size.
abbrev pub body_size : Request → ℕ → ℕ
body_size r n =
    let limited =
      if ltb 0 r.content_length && ltb r.content_length n then r.content_length else n in
    if leb request_body_size limited then request_body_size - 1 else limited

pub copy_body : List ℕ → ℕ → Request → Option Request
copy_body src n r =
    if n == 0
    then some r
    else (set_text r.body src (body_size r n) >>= λ b.
        some (record r { body = b; body_length = body_size r n }))

-- Behind the request line, which ends at `line_end`.
pub parse_rest : List ℕ → ℕ → ℕ → Request → Option (Bool × Request)
parse_rest raw length line_end r =
    let pos = line_end + 2 in
    scan raw pos pos (drop pos (take length raw)) r >>= λ sc.
    let body = if sc.body_start == 0 then length else sc.body_start in
    copy_headers (drop pos raw) (body - sc.headers_start - 4) sc.request >>= λ r1.
    parse_copied 0 r1.headers r1 >>= λ r2. copy_body (drop body raw) (length - body) r2 >>= λ r3.
    some (not (ltb (request_body_size - 1) r3.body_length), r3)

-- The array `request_line` is new; what is behind its terminator is never read.
abbrev pub parse_first : List ℕ → ℕ → Request → Option ℕ → Option (Bool × Request)
parse_first raw length r none = some (false, r)
parse_first raw length r (some n) =
    if leb 256 n
    then some (false, r)
    else (set_text (replicate 256 0) raw n >>= λ line. parse_request_line line r >>= λ p.
        elim p.0 as (λ _. Option (Bool × Request)) [
          | true ↦ parse_rest raw length n p.1
          | false ↦ some (false, p.1)
        ])

pub http_parse_request : List ℕ → ℕ → Request → Option (Bool × Request)
http_parse_request raw length r =
    if length == 0 || ltb (request_body_size + 4096) length
    then some (false, r)
    else (clear r >>= λ c. parse_first raw length c (find_crlf (take length raw)))
