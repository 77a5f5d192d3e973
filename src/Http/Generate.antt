-- ===== src/Http/Generate.antt =====
-- The response generator of src/http.c.
-- The result is 0 (`true`) or -1 (`false`), what `buffer` holds, and `*length`; `none` is a store
-- outside `buffer`. An `int` is negative from 2 ^ 31 on.
use cllm.Common.{
  ℕ, ◌+◌, ◌%◌, ◌^◌, Bool, true, false, ◌||◌, Option, none, some, List, [], ◌∷◌, ◌++◌, leb, ◌==◌,
  if◌then◌else◌, codes, replicate,
}
use cllm.Common.Maybe.{◌>>=◌}
use cllm.CString.{strlen, strncpy, at_offset, store}
use cllm.Format.{Arg, word, vsnprintf}
use cllm.Http.{Response}
pub mod Outcome
pub mod Text
pub mod Tests

abbrev pub Sent : Type 0
Sent = Bool × List ℕ × ℕ

-- The sum of two 32-bit `size_t`.
abbrev pub sum : ℕ → ℕ → ℕ
sum a b = (a + b) % 2 ^ 32

abbrev pub crlf : List ℕ
crlf = 13 ∷ 10 ∷ []

-- The formats of the `switch`.
pub status_format : ℕ → List ℕ
status_format code =
    if code == 200
    then codes "HTTP/1.1 200 OK" ++ crlf
    else if code == 400
    then codes "HTTP/1.1 400 Bad Request" ++ crlf
    else if code == 404
    then codes "HTTP/1.1 404 Not Found" ++ crlf
    else if code == 405
    then codes "HTTP/1.1 405 Method Not Allowed" ++ crlf
    else if code == 422
    then codes "HTTP/1.1 422 Unprocessable Entity" ++ crlf
    else if code == 500
    then codes "HTTP/1.1 500 Internal Server Error" ++ crlf
    else if code == 503
    then codes "HTTP/1.1 503 Service Unavailable" ++ crlf
    else codes "HTTP/1.1 200 OK" ++ crlf

abbrev pub length_format : List ℕ
length_format = codes "Content-Length: %zu" ++ crlf

-- `snprintf` into one of the two new arrays of 64 bytes.
abbrev pub print_line : List ℕ → List Arg → Option (ℕ × List ℕ)
print_line format args = vsnprintf (replicate 64 0) 64 format args

-- The test that a line did not come out whole.
abbrev pub cut_off : ℕ → Bool
cut_off n = leb (2 ^ 31) n || leb 64 n

-- `strncpy(buffer + offset, src, n)`.
pub copy_to : List ℕ → ℕ → List ℕ → ℕ → Option (List ℕ)
copy_to src n buf off = at_offset off (λ b. strncpy b src n) buf

-- A part that is copied when it leaves room; `next` goes on from the new offset.
abbrev pub put_part : List ℕ → ℕ → ℕ → List ℕ → ℕ → (List ℕ → ℕ → Option Sent) → Option Sent
put_part src n length buf off next =
    if leb length (sum off n)
    then some (false, buf, length)
    else (copy_to src n buf off >>= λ b. next b (sum off n))

abbrev pub finish : List ℕ → ℕ → Option Sent
finish buf off = some (true, buf, off)

pub put_body : Response → ℕ → List ℕ → ℕ → Option Sent
put_body r length buf off =
    if r.body_length == 0
    then finish buf off
    else put_part r.body r.body_length length buf off finish

pub put_blank : Response → ℕ → List ℕ → ℕ → Option Sent
put_blank r length buf off =
    if leb length (sum off 2)
    then some (false, buf, length)
    else (store buf off 13 >>= λ b.
        store b (sum off 1) 10 >>= λ b'. put_body r length b' (sum off 2))

pub put_content_length : Response → ℕ → List ℕ → ℕ → Option Sent
put_content_length r length buf off = print_line length_format (word r.body_length ∷ []) >>= λ p.
    if cut_off p.0
    then some (false, buf, length)
    else put_part p.1 p.0 length buf off (put_blank r length)

pub put_headers : Response → ℕ → List ℕ → ℕ → Option Sent
put_headers r length buf off =
    let n = strlen r.headers in
    if n == 0
    then put_content_length r length buf off
    else put_part r.headers n length buf off (put_content_length r length)

pub http_generate_response : Response → List ℕ → ℕ → Option Sent
http_generate_response r buffer length = print_line (status_format r.status_code) [] >>= λ p.
    if cut_off p.0
    then some (false, buffer, length)
    else (copy_to p.1 p.0 buffer 0 >>= λ b. put_headers r length b p.0)
