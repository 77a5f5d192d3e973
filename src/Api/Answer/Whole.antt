-- ===== src/Api/Answer/Whole.antt =====
-- A whole response: its status, its headers and its body.
use cllm.Common.{
  ℕ, suc, ◌+◌, ◌^◌, ◌≤◌, ◌<◌, ◌≡◌, refl, ◌∙◌, List, [], ◌∷◌, ◌++◌, arith, false, length,
  length-append, length-drop, drop, All, append_assoc, codes, replicate, take-all, if_both, ◌%◌,
  ◌/◌, ◌==◌,
}
use cllm.Common.Maybe.{Ensures, ensures, Ensures-bind}
use cllm.CString.{first}
use cllm.CString.Copy.{until_nul, NonNul}
use cllm.Format.{text, word}
use cllm.Format.Plain.{is_plain-NonNul}
use cllm.Format.Numerals.{render_id}
use cllm.Format.Truncate.{vsnprintf-render}
use cllm.SafeString.{safe_strcpy}
use cllm.SafeString.Bounds.{safe_strcpy_lem}
use cllm.Http.{Response}
use cllm.Http.Text.{until_nul-append}
use cllm.Json.Writer.{json_writer_init}
use cllm.Json.Writer.Outcome.{Holds}
use cllm.Json.Writer.Text.{json_writer_init-Ensures}
use cllm.Api.Answer.{
  Context, Call, json_header, set_json_headers, generate_request_id, write_response, error_calls,
  build_error_response, optional,
}
use cllm.Api.Answer.Safe.{InRange, calls_text, perform_each-Held, perform_each-Wrote}

-- The arrays of `http_response_t`.
pub record IsResponse (r : Response) : Type 0 where
  pub headers : length r.headers ≡ 1024
  pub body : 16384 ≤ length r.body

-- A response that can be sent.
pub record Answered (r : Response) : Type 0 where
  pub sizes : IsResponse r
  pub header : until_nul r.headers ≡ json_header
  pub body_length : r.body_length < 16384

json_header-NonNul : All NonNul json_header
json_header-NonNul = is_plain-NonNul json_header refl

abbrev the_rest : List ℕ → List ℕ
the_rest dst = drop (suc (length json_header)) dst

set_headers_lem :
    (dst : List ℕ)
    → length dst ≡ 1024
    → (safe_strcpy dst json_header).0 ≡ json_header ++ (0 ∷ the_rest dst)
set_headers_lem dst h = rw (safe_strcpy_lem dst json_header (omega (arith, h)), h) refl

pub set_json_headers-Answered :
    (r : Response)
    → IsResponse r
    → (length (set_json_headers r).headers ≡ 1024)
      × (until_nul (set_json_headers r).headers ≡ json_header)
unfolding set_json_headers
set_json_headers-Answered r h = rw (set_headers_lem r.headers h.headers) (
  omega (
    arith,
    length-append json_header (0 ∷ the_rest r.headers),
    length-drop 33 r.headers,
    h.headers,
  ),
  until_nul-append json_header (the_rest r.headers) json_header-NonNul,
)

init-Holds :
    (buf : List ℕ)
    → 16384 ≤ length buf
    → Ensures (λ w. Holds 16384 [] w × (w.needs_comma ≡ false)) (json_writer_init buf 16384)
init-Holds buf h = json_writer_init-Ensures 16384 buf (omega arith) h (omega arith)

-- Whatever the calls are, the response can be sent.
pub write_response-Answered :
    (status : ℕ) (calls : List Call) (r : Response)
    → IsResponse r
    → All InRange calls
    → Ensures (λ r'. Answered r' × (r'.status_code ≡ status)) (write_response status calls r)
unfolding write_response
write_response-Answered status calls r h k = Ensures-bind (init-Holds r.body h.body) (λ w l.
    Ensures-bind (perform_each-Held 16384 calls w ([], l.0) k) (λ v m.
      let g = set_json_headers-Answered r h in
      ensures _ (
        record {
          sizes = record { headers = g.0; body = m.1.object };
          header = g.1;
          body_length = omega (arith, m.1.offset, m.1.room);
        },
        refl,
      )))

-- The body is exactly this text, with its terminator, and the stated length is the text's.
pub record HasBody (t : List ℕ) (r : Response) : Type 0 where
  pub behind : List ℕ
  pub body : r.body ≡ t ++ (0 ∷ behind)
  pub body_length : r.body_length ≡ length t

-- Calls whose text fits come out whole.
pub write_response-HasBody :
    (status : ℕ) (calls : List Call) (r : Response)
    → IsResponse r
    → All InRange calls
    → length (calls_text false calls) < 16384
    → Ensures (HasBody (calls_text false calls)) (write_response status calls r)
unfolding write_response
write_response-HasBody status calls r h k s = Ensures-bind (init-Holds r.body h.body) (λ w l.
    Ensures-bind (perform_each-Wrote 16384 calls [] false w l.0 l.1 k (omega (arith, s)))
      (λ v m. ensures _ (record { behind = m.rest; body = m.buf; body_length = m.offset })))

optional-InRange :
    (name value : List ℕ) → length (until_nul name) < 2 ^ 31 → InRange (optional name value)
optional-InRange name value h = if_both InRange (first value == 0) h h

error_calls-InRange :
    (message kind param code : List ℕ) → All InRange (error_calls message kind param code)
error_calls-InRange message kind param code =
    let p = optional-InRange (codes "param") param (omega arith) in
    let c = optional-InRange (codes "code") code (omega arith) in
    (tt, (omega arith, (tt, (omega arith, (omega arith, (p, (c, (tt, (tt, tt)))))))))

pub build_error_response-Answered :
    (r : Response) (status : ℕ) (message kind param code : List ℕ)
    → IsResponse r
    → Ensures
        (λ r'. Answered r' × (r'.status_code ≡ status))
        (build_error_response r status message kind param code)
unfolding build_error_response
build_error_response-Answered r status message kind param code h =
    write_response-Answered status (error_calls message kind param code) r h
      (error_calls-InRange message kind param code)

-- The identifier of every request whose prefix is shorter than 50 bytes is this prefix and the same
-- eight characters, `-%016llx`, whatever the counter is.
pub generate_request_id_lem :
    (c : Context) (prefix : List ℕ)
    → length (until_nul prefix) < 50
    → Ensures
        (λ p. (rest : List ℕ) × (p.1 ≡ until_nul prefix ++ (codes "-%016llx" ++ (0 ∷ rest))))
        (generate_request_id c prefix)
unfolding generate_request_id
generate_request_id_lem c prefix h =
    let t = until_nul prefix ++ codes "-%016llx" in
    let short : length t < 63 =
      omega (arith, length-append (until_nul prefix) (codes "-%016llx"), h) in
    let n = (c.request_counter + 1) % 2 ^ 64 in
    let args = word (n % 2 ^ 32) ∷ word (n / 2 ^ 32) ∷ [] in
    rw
      (
        vsnprintf-render (replicate 64 0) 64 (codes "%s-%016llx") (text prefix ∷ args) (omega arith)
            (omega arith) (render_id prefix args) (omega (arith, short)),
        take-all 63 t (omega (arith, short)),
      )
      (let rest = drop (length (t ++ 0 ∷ [])) (replicate 64 0) in
        ensures _ (
          rest,
          append_assoc t (0 ∷ []) rest
              ∙ append_assoc (until_nul prefix) (codes "-%016llx") (0 ∷ rest),
        ))
