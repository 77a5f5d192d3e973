-- ===== src/Json/Lexer/Consume.antt =====
-- Every token consumes input.
use cllm.Common.{
  ℕ, zero, suc, ◌≤◌, ◌<◌, ◌≡◌, refl, List, [], ◌∷◌, arith, Bool, true, false, Option, none, some,
  Bool-cases, inl, inr, length, length-drop, codes, ◌==◌, ◌||◌, if◌then◌else◌, if_both, subst,
}
use cllm.Json.Lexer.{
  Parser, Token, lbrace, rbrace, lbracket, rbracket, colon, comma, true_, false_, null, eof, error,
  Scan, unexpected, closed, stopped, invalid_escape, string_char, push, string_loop, scanned,
  dispatch, dispatch_at, is_digit, skip_digits, skip_byte, fraction_part, exponent_part, number_end,
  parse_number, starts, keyword, single, skip_whitespace, json_next_token,
}

-- A token that stands for a piece of the input.
abbrev pub is_live : Token → Bool
is_live eof = false
is_live error = false
is_live _ = true

-- From `n` bytes of input to this parser.
abbrev Consumes : ℕ → Parser → Type 0
Consumes n q = (length q.rest ≤ n) × (is_live q.current ≡ true → length q.rest < n)

length-skip_whitespace : (s : List ℕ) → length (skip_whitespace s) ≤ length s
unfolding skip_whitespace
length-skip_whitespace [] = omega arith
length-skip_whitespace (c ∷ s) = ground (arith, length-skip_whitespace s)

length-skip_digits : (s : List ℕ) → length (skip_digits s) ≤ length s
unfolding skip_digits
length-skip_digits [] = omega arith
length-skip_digits (c ∷ s) = ground (arith, length-skip_digits s)

length-skip_byte : (p : ℕ → Bool) (s : List ℕ) → length (skip_byte p s) ≤ length s
length-skip_byte p [] = omega arith
length-skip_byte p (c ∷ s) = ground arith

length-fraction_part : (s : List ℕ) → length (fraction_part s) ≤ length s
length-fraction_part [] = omega arith
length-fraction_part (c ∷ s) = ground (arith, length-skip_digits s)

length-exponent_part : (s : List ℕ) → length (exponent_part s) ≤ length s
length-exponent_part [] = omega arith
length-exponent_part (c ∷ s) =
    if_both (λ r. length r ≤ length (c ∷ s)) (c == b'e' || c == b'E')
      (omega (
        arith,
        length-skip_digits (skip_byte (λ d. d == b'+' || d == b'-') s),
        length-skip_byte (λ d. d == b'+' || d == b'-') s,
      ))
      (omega arith)

-- A number has a sign or a digit to begin with.
length-number_end :
    (c : ℕ) (s : List ℕ) → (c == b'-' || is_digit c) ≡ true → length (number_end (c ∷ s)) ≤ length s
unfolding number_end
length-number_end c s h =
    let t = skip_digits (skip_byte (λ d. d == b'-') (c ∷ s)) in
    omega (arith, length-exponent_part (fraction_part t), length-fraction_part t, front)
  where
    front : length (skip_digits (skip_byte (λ d. d == b'-') (c ∷ s))) ≤ length s
    front = elim (Bool-cases (c == b'-')) [
      | inl e ↦ rw e (length-skip_digits s)
      | inr e ↦
          let digit : is_digit c ≡ true = (rw e at h) in
          rw e (unfold skip_digits in rw digit (length-skip_digits s))
    ]

abbrev ScanEnds : ℕ → Scan → Type 0
ScanEnds n (closed buf s) = length s ≤ n
ScanEnds n (stopped buf s m) = length s ≤ n

ScanEnds-weaken : (n m : ℕ) (r : Scan) → n ≤ m → ScanEnds n r → ScanEnds m r
ScanEnds-weaken n m (closed buf s) h k = omega (arith, h, k)
ScanEnds-weaken n m (stopped buf s e) h k = omega (arith, h, k)

string_loop-ScanEnds : (skip : ℕ) (s buf : List ℕ) → ScanEnds (length s) (string_loop skip s buf)
unfolding string_loop
string_loop-ScanEnds zero [] buf = omega arith
string_loop-ScanEnds (suc skip) [] buf = omega arith
string_loop-ScanEnds (suc skip) (c ∷ s) buf =
    ScanEnds-weaken (length s) (suc (length s)) (string_loop skip s buf) (omega arith)
      (string_loop-ScanEnds skip s buf)
string_loop-ScanEnds zero (c ∷ s) buf =
    quoted (c == b'"') (string_char c s) (λ skip d. string_loop-ScanEnds skip s (push buf d))
  where
    quoted :
        (b : Bool) (o : Option (ℕ × ℕ))
        → ((skip d : ℕ) → ScanEnds (length s) (string_loop skip s (push buf d)))
        → ScanEnds (suc (length s)) (elim b as (λ _. Scan) [
          | true ↦ closed buf s
          | false ↦ elim o as (λ _. Scan) [
            | none ↦ stopped buf s invalid_escape
            | some (skip, d) ↦ string_loop skip s (push buf d)
          ]
        ])
    quoted true o k = omega arith
    quoted false none k = omega arith
    quoted false (some (skip, d)) k =
        ScanEnds-weaken (length s) (suc (length s)) _ (omega arith) (k skip d)

scanned-Consumes : (p : Parser) (n : ℕ) (r : Scan) → ScanEnds n r → Consumes (suc n) (scanned p r)
scanned-Consumes p n (closed buf s) h = (omega (arith, h), λ _. omega (arith, h))
scanned-Consumes p n (stopped buf s m) h = (omega (arith, h), λ _. omega (arith, h))

keyword-Consumes :
    (word : List ℕ) (token : Token) (p : Parser)
    → 0 < length word
    → 0 < length p.rest
    → Consumes (length p.rest) (keyword word token p)
keyword-Consumes word token p h k =
    if_both (Consumes (length p.rest)) (starts word p.rest)
      (
        omega (arith, length-drop (length word) p.rest),
        λ _. omega (arith, length-drop (length word) p.rest, h, k),
      )
      (omega arith, λ e. cc)

parse_number-Consumes :
    (p : Parser) (c : ℕ) (s : List ℕ)
    → p.rest ≡ c ∷ s
    → (c == b'-' || is_digit c) ≡ true
    → Consumes (suc (length s)) (parse_number p)
parse_number-Consumes p c s e h =
    let k : length (number_end p.rest) ≤ length s = rw e (length-number_end c s h) in
    (omega (arith, k), λ _. omega (arith, k))

dispatch-Consumes :
    (p : Parser) (c : ℕ) (s : List ℕ) → p.rest ≡ c ∷ s → Consumes (suc (length s)) (dispatch p c s)
unfolding dispatch
dispatch-Consumes p c s e = one lbrace _ (c == b'{') (
    one rbrace _ (c == b'}') (
      one lbracket _ (c == b'[') (
        one rbracket _ (c == b']') (
          one colon _ (c == b':') (
            one comma _ (c == b',') (
              if_both C (c == b'"') (scanned-Consumes p (length s) _ (string_loop-ScanEnds 0 s []))
                (if_both C (c == b't') (word (codes "true") true_ (omega arith)) (
                  if_both C (c == b'f') (word (codes "false") false_ (omega arith))
                    (if_both C (c == b'n') (word (codes "null") null (omega arith)) last)))))))))
  where
    C : Parser → Type 0
    C q = Consumes (suc (length s)) q

    one : (token : Token) (q : Parser) (b : Bool) → C q → C (if b then single p s token else q)
    one token q b h = if_both C b (omega arith, λ _. omega arith) h

    size : length p.rest ≡ suc (length s)
    size = rw e refl

    word : (w : List ℕ) (token : Token) → 0 < length w → C (keyword w token p)
    word w token h =
        subst (λ n. Consumes n (keyword w token p)) size
          (keyword-Consumes w token p h (omega (arith, size)))

    other : C (record p { current = error; message = unexpected c })
    other = (omega (arith, size), λ e. cc)

    last : C (
        if c == b'-' || is_digit c
        then parse_number p
        else record p { current = error; message = unexpected c })
    last = elim (Bool-cases (c == b'-' || is_digit c)) [
      | inl h ↦ rw h (parse_number-Consumes p c s e h)
      | inr h ↦ rw h other
    ]

-- Whatever the input, `json_next_token` leaves no more of it than there was, and less unless the
-- token is the end of the input or an error.
pub json_next_token-Consumes :
    (p : Parser)
    → (length (json_next_token p).rest ≤ length p.rest)
      × (is_live (json_next_token p).current ≡ true
          → length (json_next_token p).rest < length p.rest)
unfolding json_next_token
json_next_token-Consumes p = go (skip_whitespace p.rest) (length-skip_whitespace p.rest)
  where
    go : (s : List ℕ) → length s ≤ length p.rest → Consumes (length p.rest) (dispatch_at p s)
    go [] h = (omega arith, λ e. cc)
    go (c ∷ s) h =
        let k = dispatch-Consumes (record p { rest = c ∷ s }) c s refl in
        (omega (arith, k.0, h), λ e. omega (arith, k.1 e, h))
