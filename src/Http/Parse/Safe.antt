-- ===== src/Http/Parse/Safe.antt =====
-- The request parser stores inside the arrays of the request, whatever the bytes are.
use cllm.Common.{
  ℕ, zero, suc, ◌+◌, ◌-◌, ◌≤◌, ◌≡◌, refl, ap, ◌∙◌, List, [], ◌∷◌, arith, true, Bool-cases, inl, inr,
  length, drop, ltb, ◌==◌, if◌then◌else◌, not, ◌&&◌, codes,
}
use cllm.Common.Maybe.{Ensures, ensures, Ensures-bind}
use cllm.CString.{rest_of}
use cllm.Http.{Request}
use cllm.Http.Text.{set_text-Ensures}
use cllm.Http.Parse.{
  str_starts_with_ci, skip_spaces, type_text, parse_header, line_end, parse_line, parse_lines,
  starts_crlf, scan, smaller, copy_headers, rest_of_line, parse_copied, body_size, copy_body,
  parse_rest,
}

-- The arrays have the sizes of `http_request_t`.
pub record IsRequest (r : Request) : Type 0 where
  pub method : length r.method ≡ 16
  pub path : length r.path ≡ 256
  pub version : length r.version ≡ 16
  pub headers : length r.headers ≡ 1024
  pub body : length r.body ≡ 8192
  pub content_type : length r.content_type ≡ 64

-- The request line's fields are those of `r0`, the arrays have their sizes, and the body has at most
-- `most` bytes.
pub record Keeps (r0 : Request) (most : ℕ) (r : Request) : Type 0 where
  pub sizes : IsRequest r
  pub method : r.method ≡ r0.method
  pub path : r.path ≡ r0.path
  pub version : r.version ≡ r0.version
  pub limit : r.body_length ≤ most

length-type_text : (n : ℕ) (s : List ℕ) → length (type_text n s) ≤ n
unfolding type_text
length-type_text zero s = omega arith
length-type_text (suc n) [] = omega arith
length-type_text (suc n) (c ∷ s) = ground (arith, length-type_text n s)

-- A request with other headers, body or content type.
rebuild :
    {r0 r : Request} {most : ℕ} (r' : Request)
    → Keeps r0 most r
    → r'.method ≡ r.method
    → r'.path ≡ r.path
    → r'.version ≡ r.version
    → length r'.headers ≡ 1024
    → length r'.body ≡ 8192
    → length r'.content_type ≡ 64
    → r'.body_length ≤ most
    → Keeps r0 most r'
rebuild r' h m p v hs b t limit = record {
  sizes = record {
    method = ap length m ∙ h.sizes.method;
    path = ap length p ∙ h.sizes.path;
    version = ap length v ∙ h.sizes.version;
    headers = hs;
    body = b;
    content_type = t;
  };
  method = m ∙ h.method;
  path = p ∙ h.path;
  version = v ∙ h.version;
  limit = limit;
}

module _ (r0 : Request) (most : ℕ) where
  parse_header-Keeps :
      (s : List ℕ) (r : Request) → Keeps r0 most r → Ensures (Keeps r0 most) (parse_header s r)
  unfolding parse_header
  parse_header-Keeps s r h = elim (Bool-cases (str_starts_with_ci s (codes "Content-Length:"))) [
    | inl e ↦ rw e (
        ensures _
          (rebuild _ h refl refl refl h.sizes.headers h.sizes.body h.sizes.content_type h.limit))
    | inr e ↦ rw e (elim (Bool-cases (str_starts_with_ci s (codes "Content-Type:"))) [
      | inl f ↦
          let kind = type_text 63 (skip_spaces (drop 13 s)) in
          rw f (
            Ensures-bind
              (set_text-Ensures r.content_type kind (length kind) (
                omega (arith, length-type_text 63 (skip_spaces (drop 13 s)), h.sizes.content_type)))
              (λ b k. ensures _ (
                rebuild _ h refl refl refl h.sizes.headers h.sizes.body (k ∙ h.sizes.content_type)
                  h.limit)))
      | inr f ↦ rw f (ensures r h)
    ])
  ]

  parse_line-Keeps :
      (n : ℕ) (s : List ℕ) (r : Request)
      → Keeps r0 most r
      → Ensures (Keeps r0 most) (parse_line n s r)
  parse_line-Keeps n s r h = elim (Bool-cases (ltb 0 n)) [
    | inl e ↦ rw e (parse_header-Keeps s r h)
    | inr e ↦ rw e (ensures r h)
  ]

  pub parse_lines-Keeps :
      (skip n : ℕ) (s : List ℕ) (r : Request)
      → Keeps r0 most r
      → Ensures (Keeps r0 most) (parse_lines skip n s r)
  unfolding parse_lines
  parse_lines-Keeps zero zero s r h = ensures r h
  parse_lines-Keeps (suc skip) zero s r h = ensures r h
  parse_lines-Keeps (suc skip) (suc n) s r h = parse_lines-Keeps skip n (rest_of s) r h
  parse_lines-Keeps zero (suc n) s r h =
      Ensures-bind (parse_line-Keeps (line_end (suc n) s) s r h)
        (λ r' k. parse_lines-Keeps (suc (line_end (suc n) s)) n (rest_of s) r' k)

  scan-Keeps :
      (raw : List ℕ) (pos start : ℕ) (s : List ℕ) (r : Request)
      → Keeps r0 most r
      → Ensures (λ sc. Keeps r0 most sc.request) (scan raw pos start s r)
  unfolding scan
  scan-Keeps raw pos start [] r h = ensures _ h
  scan-Keeps raw pos start (a ∷ []) r h = ensures _ h
  scan-Keeps raw pos start (a ∷ b ∷ s) r h = elim (Bool-cases (a == 13 && b == 10)) [
    | inl e ↦
        rw (e, scan)
          (elim (Bool-cases (starts_crlf s)) [
            | inl f ↦ rw f (ensures _ h)
            | inr f ↦ rw f (
                Ensures-bind (parse_lines-Keeps 0 (pos - start) (drop start raw) r h)
                  (λ r' k. scan-Keeps raw (suc pos) (pos + 2) (b ∷ s) r' k))
          ])
    | inr e ↦ rw (e, scan) (scan-Keeps raw (suc pos) start (b ∷ s) r h)
  ]

  pub copy_headers-Keeps :
      (src : List ℕ) (n : ℕ) (r : Request)
      → Keeps r0 most r
      → Ensures (Keeps r0 most) (copy_headers src n r)
  unfolding copy_headers
  copy_headers-Keeps src n r h = elim (Bool-cases (n == 0)) [
    | inl e ↦ rw e (ensures r h)
    | inr e ↦ rw e (
        Ensures-bind
          (set_text-Ensures r.headers src (smaller n 1023) (ground (arith, h.sizes.headers)))
          (λ b k. ensures _ (
            rebuild _ h refl refl refl (k ∙ h.sizes.headers) h.sizes.body h.sizes.content_type
              h.limit)))
  ]

  pub parse_copied-Keeps :
      (skip : ℕ) (s : List ℕ) (r : Request)
      → Keeps r0 most r
      → Ensures (Keeps r0 most) (parse_copied skip s r)
  unfolding parse_copied
  parse_copied-Keeps zero [] r h = ensures r h
  parse_copied-Keeps (suc skip) [] r h = ensures r h
  parse_copied-Keeps (suc skip) (c ∷ s) r h = parse_copied-Keeps skip s r h
  parse_copied-Keeps zero (c ∷ s) r h = elim (Bool-cases (c == 0)) [
    | inl e ↦ rw (e, parse_copied) (ensures r h)
    | inr e ↦
        rw (e, parse_copied)
          (Ensures-bind (parse_line-Keeps (rest_of_line (c ∷ s)) (c ∷ s) r h)
            (λ r' k. parse_copied-Keeps (rest_of_line (c ∷ s) - 1) s r' k))
  ]

module _ (r0 : Request) where
  body_size-lt : (r : Request) (n : ℕ) → body_size r n ≤ 8191
  body_size-lt r n = ground arith

  copy_body-Keeps :
      (src : List ℕ) (n : ℕ) (r : Request)
      → Keeps r0 8191 r
      → Ensures (Keeps r0 8191) (copy_body src n r)
  unfolding copy_body
  copy_body-Keeps src n r h = elim (Bool-cases (n == 0)) [
    | inl e ↦ rw e (ensures r h)
    | inr e ↦ rw e (
        Ensures-bind
          (set_text-Ensures r.body src (body_size r n)
            (omega (arith, body_size-lt r n, h.sizes.body)))
          (λ b k. ensures _ (
            rebuild _ h refl refl refl h.sizes.headers (k ∙ h.sizes.body) h.sizes.content_type
              (body_size-lt r n))))
  ]

  limit_passes : (r : Request) → Keeps r0 8191 r → not (ltb 8191 r.body_length) ≡ true
  limit_passes r h = ground (arith, h.limit)

  -- Behind the request line nothing fails.
  pub parse_rest-Keeps :
      (raw : List ℕ) (length line_end : ℕ) (r : Request)
      → Keeps r0 8191 r
      → Ensures (λ p. Keeps r0 8191 p.1 × (p.0 ≡ true)) (parse_rest raw length line_end r)
  unfolding parse_rest
  parse_rest-Keeps raw length line_end r h =
      Ensures-bind (scan-Keeps r0 8191 raw (line_end + 2) (line_end + 2) _ r h) (λ sc k.
        let body = if sc.body_start == 0 then length else sc.body_start in
        Ensures-bind
          (copy_headers-Keeps r0 8191 (drop (line_end + 2) raw) (body - sc.headers_start - 4)
            sc.request k)
          (λ r1 k1. Ensures-bind (parse_copied-Keeps r0 8191 0 r1.headers r1 k1) (λ r2 k2.
            Ensures-bind (copy_body-Keeps (drop body raw) (length - body) r2 k2)
              (λ r3 k3. ensures _ (k3, limit_passes r3 k3)))))
