-- ===== src/Http/Parse/NoBody.antt =====
-- A request that ends with its headers is parsed as one without a body.
use cllm.Common.{
  ℕ, zero, suc, ◌+◌, ◌-◌, ◌≤◌, ◌≡◌, refl, ap, ◌∙◌, inl, inr, List, [], ◌∷◌, arith, Bool, true,
  false, ◌⊎◌, Option, none, some, Bool-cases, Option-cases, length, take, drop, ltb, leb, leb→lt,
  ◌==◌, ◌&&◌, ◌||◌, if◌then◌else◌, replicate, length-replicate, length-drop,
}
use cllm.Common.Maybe.{some_inj, some_none, Ensures, ensures, Ensures-bind}
use cllm.Http.{Request, request_body_size}
use cllm.Http.Text.{set_text-Ensures}
use cllm.Http.Parse.{
  find_crlf, Scanned, starts_crlf, scan, copy_body, parse_rest, parse_first, http_parse_request,
}
use cllm.Http.Parse.Safe.{
  IsRequest, Keeps, parse_lines-Keeps, copy_headers-Keeps, parse_copied-Keeps,
}
use cllm.Http.Parse.Total.{Cleared, clear-IsRequest, start, parse_request_line-Cleared}
use cllm.Net.Tcp.{headers_end}
use cllm.Net.Tcp.Header.{
  length-front, EndsOnce-take, headers_end_front, EndsOnce, EndsOnce-tail, EndsOnce-drop,
}

all_four : (p q r s : Bool) → (p && q) ≡ true → (r && s) ≡ true → (p && q && r && s) ≡ true
all_four false q r s h k = cc
all_four true false r s h k = cc
all_four true true false s h k = cc
all_four true true true s h k = k

-- The empty line that is found stands at the end.
found :
    (pos a b : ℕ) (s : List ℕ)
    → (a == 13 && b == 10) ≡ true
    → starts_crlf s ≡ true
    → EndsOnce (a ∷ b ∷ s)
    → pos + 4 ≡ pos + length (a ∷ b ∷ s)
found pos a b [] e f one = cc
found pos a b (c ∷ []) e f one = cc
found pos a b (c ∷ d ∷ l) e f one =
    let t = all_four (a == 13) (b == 10) (c == 13) (d == 10) e f in
    ap (λ n. pos + n) (one 4 (headers_end_front a b c d l t))

module _ (r0 : Request) where
  -- Where the body starts: at the end, or nowhere.
  abbrev AtEnd : ℕ → Scanned → Type 0
  AtEnd total sc = Keeps r0 0 sc.request × ((sc.body_start ≡ 0) ⊎ (sc.body_start ≡ total))

  scan-AtEnd :
      (raw : List ℕ) (pos start : ℕ) (s : List ℕ) (r : Request)
      → Keeps r0 0 r
      → EndsOnce s
      → Ensures (AtEnd (pos + length s)) (scan raw pos start s r)
  unfolding scan
  scan-AtEnd raw pos start [] r h one = ensures _ (h, inl refl)
  scan-AtEnd raw pos start (a ∷ []) r h one = ensures _ (h, inl refl)
  scan-AtEnd raw pos start (a ∷ b ∷ s) r h one =
      let next = EndsOnce-tail a (b ∷ s) one in
      let further : suc pos + length (b ∷ s) ≡ pos + length (a ∷ b ∷ s) = omega arith in
      elim (Bool-cases (a == 13 && b == 10)) [
        | inl e ↦
            rw (e, scan)
              (elim (Bool-cases (starts_crlf s)) [
                | inl f ↦ rw f (ensures _ (h, inr (found pos a b s e f one)))
                | inr f ↦ rw f (
                    Ensures-bind (parse_lines-Keeps r0 0 0 (pos - start) (drop start raw) r h)
                      (λ r' k.
                        rw (← further) (scan-AtEnd raw (suc pos) (pos + 2) (b ∷ s) r' k next)))
              ])
        | inr e ↦ rw (e, scan, ← further) (scan-AtEnd raw (suc pos) start (b ∷ s) r h next)
      ]

-- What a caller may rely on.
abbrev pub NoBody : Bool × Request → Type 0
NoBody p = IsRequest p.1 × (p.1.body_length ≡ 0)

parse_rest-NoBody :
    (raw : List ℕ) (n i : ℕ) (r : Request)
    → Cleared r
    → EndsOnce (take n raw)
    → length (take n raw) ≡ n
    → i + 2 ≤ n
    → Ensures NoBody (parse_rest raw n i r)
unfolding parse_rest copy_body
parse_rest-NoBody raw n i r h one all k =
    let whole : i + 2 + length (drop (i + 2) (take n raw)) ≡ n =
      omega (arith, length-drop (i + 2) (take n raw), all, k) in
    Ensures-bind
      (scan-AtEnd r raw (i + 2) (i + 2) (drop (i + 2) (take n raw)) r (start 0 r h)
        (EndsOnce-drop (i + 2) (take n raw) one))
      (λ sc q.
        let body = if sc.body_start == 0 then n else sc.body_start in
        Ensures-bind
          (copy_headers-Keeps r 0 (drop (i + 2) raw) (body - sc.headers_start - 4) sc.request q.0)
          (λ r1 k1. Ensures-bind (parse_copied-Keeps r 0 0 r1.headers r1 k1) (λ r2 k2.
            rw (nothing_left sc.body_start n (at_end' q.1 whole))
              (ensures _ (k2.sizes, omega (arith, k2.limit))))))
  where
    at_end' : {x t n : ℕ} → (x ≡ 0) ⊎ (x ≡ t) → t ≡ n → (x ≡ 0) ⊎ (x ≡ n)
    at_end' (inl e) k = inl e
    at_end' (inr e) k = inr (e ∙ k)

    nothing_left : (x n : ℕ) → (x ≡ 0) ⊎ (x ≡ n) → n - (if x == 0 then n else x) ≡ 0
    nothing_left x n (inl e) = rw e (omega arith)
    nothing_left x n (inr e) = ground (arith, e)

find_crlf-le : (s : List ℕ) (n : ℕ) → find_crlf s ≡ some n → n + 2 ≤ length s
unfolding find_crlf
find_crlf-le [] n h = some_none h
find_crlf-le (a ∷ []) n h = some_none h
find_crlf-le (a ∷ b ∷ s) n h = elim (Bool-cases (a == 13 && b == 10)) [
  | inl e ↦ omega (arith, some_inj (rw (e, find_crlf) at h))
  | inr e ↦ elim (Option-cases (find_crlf (b ∷ s))) [
    | inl f ↦ some_none (rw (e, find_crlf, f) at h)
    | inr (m, f) ↦ omega (arith, find_crlf-le (b ∷ s) m f, some_inj (rw (e, find_crlf, f) at h))
  ]
]

module _ (raw : List ℕ) (n : ℕ) (r : Request) (ends : headers_end raw ≡ some n) where
  parse_first-NoBody :
      (c : Request) (o : Option ℕ)
      → find_crlf (take n raw) ≡ o
      → Cleared c
      → Ensures NoBody (parse_first raw n c o)
  parse_first-NoBody c none e h = ensures _ h
  parse_first-NoBody c (some i) e h = elim (Bool-cases (leb 256 i)) [
    | inl t ↦ rw t (ensures _ h)
    | inr t ↦ rw t (
        Ensures-bind
          (set_text-Ensures (replicate 256 0) raw i
            (omega (arith, leb→lt 256 i t, length-replicate 256 (zero))))
          (λ line k. Ensures-bind (parse_request_line-Cleared line c h) (λ p q. go p.0 p.1 q)))
  ]
    where
      all : length (take n raw) ≡ n
      all = length-front raw n ends

      go :
          (b : Bool) (q : Request)
          → Cleared q
          → Ensures NoBody (elim b as (λ _. Option (Bool × Request)) [
            | true ↦ parse_rest raw n i q
            | false ↦ some (false, q)
          ])
      go true q k =
          parse_rest-NoBody raw n i q k (EndsOnce-take raw n ends) all
            (omega (arith, all, find_crlf-le (take n raw) i e))
      go false q k = ensures _ k

  -- When the length that `http_parse_request` is given ends with the first empty line of the bytes,
  -- the request that it leaves has a body of length 0, whatever follows in the bytes.
  pub http_parse_request-NoBody : Cleared r → Ensures NoBody (http_parse_request raw n r)
  unfolding http_parse_request
  http_parse_request-NoBody h = elim (Bool-cases (n == 0 || ltb (request_body_size + 4096) n)) [
    | inl e ↦ rw e (ensures _ h)
    | inr e ↦ rw e (
        Ensures-bind (clear-IsRequest r h.0)
          (λ c k. parse_first-NoBody c (find_crlf (take n raw)) refl k))
  ]
