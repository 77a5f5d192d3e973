-- ===== src/Api/Arrays/Progress.antt =====
-- The loop over an array returns, and keeps what its elements keep.
use cllm.Common.{
  ℕ, zero, suc, ◌≤◌, ◌<◌, ◌≡◌, refl, arith, Bool, true, false, some, Bool-cases, inl, inr, length,
  if◌then◌else◌,
}
use cllm.Common.Maybe.{◌>>=◌, Ensures, ensures, Ensures-bind, Ensures-weaken}
use cllm.Json.Lexer.{Token, lbracket, rbracket, eof, Parser, json_next_token}
use cllm.Json.Reader.{after_comma}
use cllm.Json.Reader.Progress.{left, left_of, next-left, left-le, after_comma-left}
use cllm.Api.Loop.{Read}
use cllm.Api.Loop.Progress.{Advances}
use cllm.Api.Arrays.{
  behind_array, closed, next_element, at_element, array_loop, at_bracket, parse_array,
}

module _ {R : Type 0} (P : R → Type 0) (element : Token → Parser → R → Read R)
    (full : R → Bool) where
  -- An element is read from what is left.
  abbrev pub ElementAdvances : Type 0
  ElementAdvances =
      (t : Token) (p : Parser) (r : R)
      → p.current ≡ t
      → full r ≡ false
      → P r
      → Ensures (λ q. P q.2 × (q.0 ≡ true → left q.1 < left p)) (element t p r)

  module _ (elements : ElementAdvances) where
    abbrev Again : ℕ → (Parser → R → Read R) → Type 0
    Again n again = (p : Parser) (r : R) → P r → left p < n → Advances P (left p) (again p r)

    next_element-Advances :
        (m n : ℕ) (again : Parser → R → Read R) (q : Bool × Parser × R)
        → Again n again
        → m ≤ n
        → P q.2 × (q.0 ≡ true → left q.1 < m)
        → Advances P m (next_element element full again q)
    next_element-Advances m n again (true, p, r) ih h k =
        let c = after_comma-left p.current p refl in
        Ensures-weaken (λ q l. (l.0, λ e. omega (arith, c, k.1 refl, l.1 e)))
          (ih (after_comma p.current p) r k.0 (omega (arith, c, k.1 refl, h)))
    next_element-Advances m n again (false, p, r) ih h k = ensures _ (k.0, λ e. cc)

    one_more :
        (n : ℕ) (again : Parser → R → Read R) (t : Token) (p : Parser) (r : R)
        → p.current ≡ t
        → Again n again
        → left p ≤ n
        → P r
        → Advances P (left p) (
            if full r
            then some (true, p, r)
            else (element t p r >>= λ q. next_element element full again q))
    one_more n again t p r e ih h k = elim (Bool-cases (full r)) [
      | inl f ↦ rw f (ensures _ (k, λ _. omega arith))
      | inr f ↦ rw f (
          Ensures-bind (elements t p r e f k)
            (λ q l. next_element-Advances (left p) n again q ih h l))
    ]

    at_element-Advances :
        (n : ℕ) (again : Parser → R → Read R) (t : Token) (p : Parser) (r : R)
        → p.current ≡ t
        → Again n again
        → left p ≤ n
        → P r
        → Advances P (left p) (at_element element full again t p r)
    at_element-Advances n again rbracket p r e ih h k = ensures _ (k, λ _. omega arith)
    at_element-Advances n again eof p r e ih h k = ensures _ (k, λ _. omega arith)
    at_element-Advances n again t p r e ih h k = one_more n again t p r e ih h k

    array_loop-Advances :
        (fuel : ℕ) (p : Parser) (r : R)
        → left p < fuel
        → P r
        → Advances P (left p) (array_loop element full fuel p r)
    unfolding array_loop
    array_loop-Advances zero p r h k = absurd (omega arith)
    array_loop-Advances (suc fuel) p r h k =
        at_element-Advances fuel (λ q s. array_loop element full fuel q s) p.current p r refl
          (λ q s b l. array_loop-Advances fuel q s l b) (omega (arith, h)) k

    behind_array-Advances :
        (t : Token) (p : Parser) (r : R)
        → p.current ≡ t
        → P r
        → Advances P (left p) (behind_array t p r)
    behind_array-Advances rbracket p r e k =
        ensures _ (k, λ _. omega (arith, next-left p, left_of rbracket p e))
    behind_array-Advances _ p r e k = ensures _ (k, λ _. omega arith)

    closed-Advances :
        (n : ℕ) (q : Bool × Parser × R)
        → P q.2 × (q.0 ≡ true → left q.1 ≤ n)
        → Advances P n (closed q)
    closed-Advances n (true, p, r) k =
        Ensures-weaken (λ q l. (l.0, λ e. omega (arith, l.1 e, k.1 refl)))
          (behind_array-Advances p.current p r refl k.0)
    closed-Advances n (false, p, r) k = ensures _ (k.0, λ e. cc)

    at_bracket-Advances :
        (t : Token) (p : Parser) (r : R)
        → p.current ≡ t
        → P r
        → Advances P (left p) (at_bracket element full t p r)
    at_bracket-Advances lbracket p r e k =
        let q = json_next_token p in
        Ensures-bind
          (array_loop-Advances (suc (suc (length q.rest))) q r (omega (arith, left-le q)) k)
          (λ s l.
            closed-Advances (left p) s
              (l.0, λ t. omega (arith, l.1 t, next-left p, left_of lbracket p e)))
    at_bracket-Advances _ p r e k = ensures _ (k, λ e. cc)

    pub parse_array-Advances :
        (p : Parser) (r : R) → P r → Advances P (left p) (parse_array element full p r)
    unfolding parse_array
    parse_array-Advances p r k = at_bracket-Advances p.current p r refl k
