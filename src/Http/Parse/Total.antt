-- ===== src/Http/Parse/Total.antt =====
-- The request parser faults on no input.
use cllm.Common.{
  ℕ, zero, ◌+◌, ◌<◌, ◌≡◌, refl, ◌∙◌, List, arith, Option, none, some, Bool, true, false, Bool-cases,
  inl, inr, length, drop, length-drop, take, replicate, ltb, leb, leb→lt, ◌==◌, ◌||◌,
  length-replicate,
}
use cllm.Common.Maybe.{Ensures, ensures, Ensures-bind, Ensures-weaken}
use cllm.CString.{strlen, first, store}
use cllm.CString.Copy.{store_lem}
use cllm.Http.{Request, request_body_size}
use cllm.Http.Text.{set_text-Ensures}
use cllm.Http.Parse.{
  word_length, parse_version, parse_path, parse_request_line, clear, find_crlf, parse_rest,
  parse_first, http_parse_request,
}
use cllm.Http.Parse.Safe.{IsRequest, Keeps, parse_rest-Keeps}

length-store :
    (buf : List ℕ) (c : ℕ) → 0 < length buf → Ensures (λ b. length b ≡ length buf) (store buf 0 c)
length-store buf c h = record {
  value = _;
  same = store_lem buf 0 c h;
  holds = omega (arith, length-drop 1 buf, h);
}

abbrev pub Cleared : Request → Type 0
Cleared r = IsRequest r × (r.body_length ≡ 0)

pub clear-IsRequest : (r : Request) → IsRequest r → Ensures Cleared (clear r)
unfolding clear
clear-IsRequest r h = Ensures-bind (length-store r.method 0 (omega (arith, h.method))) (λ m hm.
    Ensures-bind (length-store r.path 0 (omega (arith, h.path))) (λ p hp.
      Ensures-bind (length-store r.version 0 (omega (arith, h.version))) (λ v hv.
        Ensures-bind (length-store r.headers 0 (omega (arith, h.headers))) (λ hs hh.
          Ensures-bind (length-store r.body 0 (omega (arith, h.body))) (λ b hb.
            Ensures-bind (length-store r.content_type 0 (omega (arith, h.content_type))) (λ t ht.
              ensures _ (
                record {
                  method = hm ∙ h.method;
                  path = hp ∙ h.path;
                  version = hv ∙ h.version;
                  headers = hh ∙ h.headers;
                  body = hb ∙ h.body;
                  content_type = ht ∙ h.content_type;
                },
                refl,
              )))))))

-- What holds of a result.
abbrev Answered : Bool × Request → Type 0
Answered p = Cleared p.1

parse_version-Cleared :
    (s : List ℕ) (r : Request) → Cleared r → Ensures Answered (parse_version s r)
unfolding parse_version
parse_version-Cleared s r h = elim (Bool-cases (leb 16 (strlen s))) [
  | inl e ↦ rw e (ensures _ h)
  | inr e ↦ rw e (
      Ensures-bind
        (set_text-Ensures r.version s (strlen s)
          (omega (arith, leb→lt 16 (strlen s) e, h.0.version)))
        (λ b k. ensures _ (
          record {
            method = h.0.method;
            path = h.0.path;
            version = k ∙ h.0.version;
            headers = h.0.headers;
            body = h.0.body;
            content_type = h.0.content_type;
          },
          h.1,
        )))
]

parse_path-Cleared : (s : List ℕ) (r : Request) → Cleared r → Ensures Answered (parse_path s r)
unfolding parse_path
parse_path-Cleared s r h = elim (Bool-cases (first (drop (word_length s) s) == 0)) [
  | inl e ↦ rw e (ensures _ h)
  | inr e ↦ rw e (elim (Bool-cases (leb 256 (word_length s))) [
    | inl f ↦ rw f (ensures _ h)
    | inr f ↦ rw f (
        Ensures-bind
          (set_text-Ensures r.path s (word_length s)
            (omega (arith, leb→lt 256 (word_length s) f, h.0.path)))
          (λ b k. parse_version-Cleared _ _ (
            record {
              method = h.0.method;
              path = k ∙ h.0.path;
              version = h.0.version;
              headers = h.0.headers;
              body = h.0.body;
              content_type = h.0.content_type;
            },
            h.1,
          )))
  ])
]

pub parse_request_line-Cleared :
    (s : List ℕ) (r : Request) → Cleared r → Ensures Answered (parse_request_line s r)
unfolding parse_request_line
parse_request_line-Cleared s r h = elim (Bool-cases (first (drop (word_length s) s) == 0)) [
  | inl e ↦ rw e (ensures _ h)
  | inr e ↦ rw e (elim (Bool-cases (leb 16 (word_length s))) [
    | inl f ↦ rw f (ensures _ h)
    | inr f ↦ rw f (
        Ensures-bind
          (set_text-Ensures r.method s (word_length s)
            (omega (arith, leb→lt 16 (word_length s) f, h.0.method)))
          (λ b k. parse_path-Cleared _ _ (
            record {
              method = k ∙ h.0.method;
              path = h.0.path;
              version = h.0.version;
              headers = h.0.headers;
              body = h.0.body;
              content_type = h.0.content_type;
            },
            h.1,
          )))
  ])
]

-- From the parsed request line on.
pub start : (most : ℕ) (r : Request) → Cleared r → Keeps r most r
start most r h = record {
  sizes = h.0;
  method = refl;
  path = refl;
  version = refl;
  limit = omega (arith, h.1);
}

-- What a caller may rely on: the arrays are whole, and a request that is accepted has a body that
-- leaves room for its terminator.
abbrev pub Parsed : Bool × Request → Type 0
Parsed p = IsRequest p.1 × (p.0 ≡ true → p.1.body_length < 8192)

parse_first-Parsed :
    (raw : List ℕ) (length : ℕ) (r : Request) (o : Option ℕ)
    → Cleared r
    → Ensures Parsed (parse_first raw length r o)
parse_first-Parsed raw length r none h = ensures _ (h.0, λ e. cc)
parse_first-Parsed raw length r (some n) h = elim (Bool-cases (leb 256 n)) [
  | inl e ↦ rw e (ensures _ (h.0, λ e. cc))
  | inr e ↦ rw e (
      Ensures-bind
        (set_text-Ensures (replicate 256 0) raw n
          (omega (arith, leb→lt 256 n e, length-replicate 256 (zero))))
        (λ line k. Ensures-bind (parse_request_line-Cleared line r h) (λ p c. go p.0 p.1 c)))
]
  where
    go :
        (b : Bool) (q : Request)
        → Cleared q
        → Ensures Parsed (elim b as (λ _. Option (Bool × Request)) [
          | true ↦ parse_rest raw length n q
          | false ↦ some (false, q)
        ])
    go true q c =
        Ensures-weaken (λ p k. (k.0.sizes, λ _. omega (arith, k.0.limit)))
          (parse_rest-Keeps q raw length n q (start 8191 q c))
    go false q c = ensures _ (c.0, λ e. cc)

-- On any bytes, and with any length, `http_parse_request` stores only inside the arrays of the request
-- structure and its own, and a request that it accepts has a body of less than 8192 bytes.
pub http_parse_request-Parsed :
    (raw : List ℕ) (length : ℕ) (r : Request)
    → IsRequest r
    → Ensures Parsed (http_parse_request raw length r)
unfolding http_parse_request
http_parse_request-Parsed raw length r h =
    elim (Bool-cases (length == 0 || ltb (request_body_size + 4096) length)) [
      | inl e ↦ rw e (ensures _ (h, λ e. cc))
      | inr e ↦ rw e (
          Ensures-bind (clear-IsRequest r h)
            (λ c k. parse_first-Parsed raw length c (find_crlf (take length raw)) k))
    ]
