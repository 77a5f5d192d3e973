-- ===== src/Http/Parse/Line.antt =====
-- A request line is read back as it was written.
use cllm.Common.{
  ℕ, zero, suc, ◌+◌, ◌≤◌, ◌<◌, ◌≡◌, refl, ap, ◌∙◌, sym, ◌≢◌, List, [], ◌∷◌, ◌++◌, arith, Option,
  some, Bool, true, false, length, All, All-map, All-append, drop, take, replicate,
  length-replicate, drop-append_length, drop-one-drop, take-append_ge, ◌-◌, append_assoc, lt→leb,
  le→ltb, ne→==,
}
use cllm.Common.Maybe.{◌>>=◌, Ensures, ensures, Ensures-bind, Ensures-weaken}
use cllm.CString.Copy.{NonNul, until_nul, padded-append}
use cllm.CString.Compare.{strlen_before}
use cllm.Http.{Request}
use cllm.Http.Text.{set_text_lem, set_text-word}
use cllm.Http.Parse.{
  word_length, parse_version, parse_path, parse_request_line, find_crlf, parse_rest, parse_first,
  http_parse_request,
}
use cllm.Http.Parse.Safe.{IsRequest, parse_rest-Keeps}
use cllm.Http.Parse.Total.{Cleared, clear-IsRequest, start}

-- A character of a method or a path.
abbrev pub IsWord : ℕ → Type 0
IsWord c = (c ≢ 0) × (c ≢ b' ') × (c ≢ 13)

-- A character of the version.
abbrev pub IsLast : ℕ → Type 0
IsLast c = (c ≢ 0) × (c ≢ 13)

-- The request line.
abbrev pub line_text : List ℕ → List ℕ → List ℕ → List ℕ
line_text m p v = m ++ (b' ' ∷ (p ++ (b' ' ∷ v)))

word_length-append : (w s : List ℕ) → All IsWord w → word_length (w ++ (b' ' ∷ s)) ≡ length w
unfolding word_length
word_length-append [] s h = refl
word_length-append (c ∷ w) s h =
    rw (ne→== c b' ' h.0.1, ne→== c 0 h.0.0) (ap suc (word_length-append w s h.1))

behind_word : (w s : List ℕ) → drop (suc (length w)) (w ++ (b' ' ∷ s)) ≡ s
behind_word w s =
    sym (drop-one-drop (length w) (w ++ (b' ' ∷ s))) ∙ ap (drop 1) (drop-append_length w (b' ' ∷ s))

-- The three fields.
pub record HasLine (m p v : List ℕ) (r : Request) : Type 0 where
  pub method : until_nul r.method ≡ m
  pub path : until_nul r.path ≡ p
  pub version : until_nul r.version ≡ v

abbrev Accepted : List ℕ → List ℕ → List ℕ → Bool × Request → Type 0
Accepted m p v q = (q.0 ≡ true) × Cleared q.1 × HasLine m p v q.1

module _ (m p v : List ℕ) (short_p : length p < 256) (short_v : length v < 16) where
  version-Accepted :
      (junk : List ℕ) (r : Request)
      → Cleared r
      → All NonNul v
      → until_nul r.method ≡ m
      → until_nul r.path ≡ p
      → Ensures (Accepted m p v) (parse_version (v ++ (0 ∷ junk)) r)
  unfolding parse_version
  version-Accepted junk r h nv em ep =
      rw (strlen_before v junk nv, lt→leb 16 (length v) short_v)
        (Ensures-bind
          (set_text-word r.version v (0 ∷ junk) (omega (arith, short_v, h.0.version)) nv)
          (λ b k. ensures _ (
            refl,
            (
              record {
                method = h.0.method;
                path = h.0.path;
                version = k.0 ∙ h.0.version;
                headers = h.0.headers;
                body = h.0.body;
                content_type = h.0.content_type;
              },
              h.1,
            ),
            record { method = em; path = ep; version = k.1 },
          )))

  path-Accepted :
      (junk : List ℕ) (r : Request)
      → Cleared r
      → All IsWord p
      → All NonNul v
      → until_nul r.method ≡ m
      → Ensures (Accepted m p v) (parse_path (p ++ (b' ' ∷ (v ++ (0 ∷ junk)))) r)
  unfolding parse_path
  path-Accepted junk r h wp nv em =
      let rest = v ++ (0 ∷ junk) in
      rw
        (
          word_length-append p rest wp,
          drop-append_length p (b' ' ∷ rest),
          behind_word p rest,
          lt→leb 256 (length p) short_p,
        )
        (Ensures-bind
          (set_text-word r.path p (b' ' ∷ rest) (omega (arith, short_p, h.0.path))
            (All-map p (λ c k. k.0) wp))
          (λ b k.
            version-Accepted junk _
              (
                record {
                  method = h.0.method;
                  path = k.0 ∙ h.0.path;
                  version = h.0.version;
                  headers = h.0.headers;
                  body = h.0.body;
                  content_type = h.0.content_type;
                },
                h.1,
              )
              nv em k.1))

  request_line-Accepted :
      (junk : List ℕ) (r : Request)
      → Cleared r
      → All IsWord m
      → All IsWord p
      → All NonNul v
      → length m < 16
      → Ensures
          (Accepted m p v)
          (parse_request_line (m ++ (b' ' ∷ (p ++ (b' ' ∷ (v ++ (0 ∷ junk)))))) r)
  unfolding parse_request_line
  request_line-Accepted junk r h wm wp nv short =
      let rest = p ++ (b' ' ∷ (v ++ (0 ∷ junk))) in
      rw
        (
          word_length-append m rest wm,
          drop-append_length m (b' ' ∷ rest),
          behind_word m rest,
          lt→leb 16 (length m) short,
        )
        (Ensures-bind
          (set_text-word r.method m (b' ' ∷ rest) (omega (arith, short, h.0.method))
            (All-map m (λ c k. k.0) wm))
          (λ b k.
            path-Accepted junk _
              (
                record {
                  method = k.0 ∙ h.0.method;
                  path = h.0.path;
                  version = h.0.version;
                  headers = h.0.headers;
                  body = h.0.body;
                  content_type = h.0.content_type;
                },
                h.1,
              )
              wp nv k.1))

find_crlf-append :
    (line rest : List ℕ)
    → All (λ c. c ≢ 13) line
    → find_crlf (line ++ (13 ∷ 10 ∷ rest)) ≡ some (length line)
unfolding find_crlf
find_crlf-append [] rest h = refl
find_crlf-append (c ∷ []) rest h = rw (ne→== c 13 h.0) refl
find_crlf-append (c ∷ d ∷ line) rest h =
    rw (ne→== c 13 h.0, find_crlf-append (d ∷ line) rest h.1) refl

-- The whole line is seen by a caller whose length covers it.
find_crlf-take :
    (line rest : List ℕ) (n : ℕ)
    → All (λ c. c ≢ 13) line
    → length line + 2 ≤ n
    → find_crlf (take n (line ++ (13 ∷ 10 ∷ rest))) ≡ some (length line)
find_crlf-take line rest n h k =
    ap find_crlf (
      take-append_ge n line (13 ∷ 10 ∷ rest) (omega (arith, k))
      ∙ ap (λ i. line ++ take i (13 ∷ 10 ∷ rest)) (the_rest n (length line) k))
    ∙ find_crlf-append line (take (n - length line - 2) rest) h
  where
    the_rest : (n i : ℕ) → i + 2 ≤ n → n - i ≡ suc (suc (n - i - 2))
    the_rest n i h = omega (arith, h)

module _ (m p v : List ℕ) (wm : All IsWord m) (wp : All IsWord p) (wv : All IsLast v) where
  line_text-NonCr : All (λ c. c ≢ 13) (line_text m p v)
  line_text-NonCr = All-append _ m (b' ' ∷ (p ++ (b' ' ∷ v))) (All-map m (λ c k. k.2) wm) (
    (λ e. cc),
    All-append _ p (b' ' ∷ v) (All-map p (λ c k. k.2) wp) ((λ e. cc), All-map v (λ c k. k.1) wv),
  )

  line_text-NonNul : All NonNul (line_text m p v)
  line_text-NonNul = All-append _ m (b' ' ∷ (p ++ (b' ' ∷ v))) (All-map m (λ c k. k.0) wm) (
    (λ e. cc),
    All-append _ p (b' ' ∷ v) (All-map p (λ c k. k.0) wp) ((λ e. cc), All-map v (λ c k. k.0) wv),
  )

  line_text_assoc :
      (junk : List ℕ)
      → line_text m p v ++ (0 ∷ junk) ≡ m ++ (b' ' ∷ (p ++ (b' ' ∷ (v ++ (0 ∷ junk)))))
  line_text_assoc junk = rw append_assoc (rw append_assoc refl)

  -- What the parser then says of the request.
  abbrev pub Reads : Bool × Request → Type 0
  Reads q = (q.0 ≡ true) × HasLine m p v q.1

  module _ (short_m : length m < 16) (short_p : length p < 256) (short_v : length v < 16) where
    line-Reads :
        (raw : List ℕ) (n : ℕ) (junk : List ℕ) (r : Request)
        → Cleared r
        → Ensures Reads (
            parse_request_line (line_text m p v ++ (0 ∷ junk)) r >>= λ q.
            elim q.0 as (λ _. Option (Bool × Request)) [
              | true ↦ parse_rest raw n (length (line_text m p v)) q.1
              | false ↦ some (false, q.1)
            ])
    line-Reads raw n junk r h = rw (line_text_assoc junk) (
        Ensures-bind
          (request_line-Accepted m p v short_p short_v junk r h wm wp (All-map v (λ c k. k.0) wv)
            short_m)
          (λ q k. rw k.0 (
            Ensures-weaken
              (λ e l. (
                l.1,
                record {
                  method = ap until_nul l.0.method ∙ k.2.method;
                  path = ap until_nul l.0.path ∙ k.2.path;
                  version = ap until_nul l.0.version ∙ k.2.version;
                },
              ))
              (parse_rest-Keeps q.1 raw n (length (line_text m p v)) q.1 (start 8191 q.1 k.1)))))

    parse_first-Reads :
        (rest : List ℕ) (n : ℕ) (r : Request)
        → Cleared r
        → length (line_text m p v) < 256
        → Ensures Reads
            (parse_first (line_text m p v ++ rest) n r (some (length (line_text m p v))))
    parse_first-Reads rest n r h short =
        let line = line_text m p v in
        let room : length line < length (replicate 256 (zero)) =
          omega (arith, length-replicate 256 (zero), short) in
        rw
          (
            lt→leb 256 (length line) short,
            set_text_lem (replicate 256 0) (line ++ rest) (length line) room,
            padded-append line rest line_text-NonNul,
          )
          (line-Reads (line ++ rest) n (drop (suc (length line)) (replicate 256 0)) r h)

    -- A request that starts with a request line of a method, a path and a version, separated by
    -- single spaces and ended by CR LF, is accepted with exactly these three strings, whatever
    -- bytes follow the line: when the method and the version have less than 16 characters, the path
    -- less than 256, the line less than 256, when no character of them is a terminator or a CR and
    -- none of the method and the path a space, and when the stated length covers the line and is at
    -- most 12288.
    pub http_parse_request-line :
        (rest : List ℕ) (n : ℕ) (r : Request)
        → IsRequest r
        → length (line_text m p v) < 256
        → length (line_text m p v) + 2 ≤ n
        → n ≤ 12288
        → Ensures Reads (http_parse_request (line_text m p v ++ (13 ∷ 10 ∷ rest)) n r)
    unfolding http_parse_request
    http_parse_request-line rest n r h short covered limit =
        rw
          (
            ne→== n 0 (λ e. omega (arith, covered)),
            le→ltb (8192 + 4096) n limit,
            find_crlf-take (line_text m p v) rest n line_text-NonCr covered,
          )
          (Ensures-bind (clear-IsRequest r h)
            (λ c k. parse_first-Reads (13 ∷ 10 ∷ rest) n c k short))
