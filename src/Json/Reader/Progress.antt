-- ===== src/Json/Reader/Progress.antt =====
-- `json_skip_value` always returns.
use cllm.Common.{
  ap, ℕ, zero, suc, ◌+◌, ◌*◌, ◌≤◌, ◌<◌, ◌≡◌, refl, arith, Bool, true, false, some, length,
}
use cllm.Common.Maybe.{◌>>=◌}
use cllm.Json.Lexer.{
  Parser, Token, lbrace, rbrace, lbracket, rbracket, colon, comma, string, number, true_, false_,
  null, eof, error, json_next_token,
}
use cllm.Json.Lexer.Consume.{is_live, json_next_token-Consumes}
use cllm.Json.Reader.{
  Reading, Mode, value, members, elements, after_comma, then_loop, skip_one, skip_member,
  skip_members, skip_elements, skip, json_skip_value,
}

-- What is left to read: nothing behind the end of the input or an error.
abbrev pub left_at : Token → ℕ → ℕ
left_at eof n = 0
left_at error n = 0
left_at _ n = suc n

abbrev pub left : Parser → ℕ
left p = left_at p.current (length p.rest)

left_at-le : (t : Token) (n m : ℕ) → n ≤ m → (is_live t ≡ true → n < m) → left_at t n ≤ m
left_at-le eof n m h k = omega arith
left_at-le error n m h k = omega arith
left_at-le lbrace n m h k = omega (arith, k refl)
left_at-le rbrace n m h k = omega (arith, k refl)
left_at-le lbracket n m h k = omega (arith, k refl)
left_at-le rbracket n m h k = omega (arith, k refl)
left_at-le colon n m h k = omega (arith, k refl)
left_at-le comma n m h k = omega (arith, k refl)
left_at-le string n m h k = omega (arith, k refl)
left_at-le number n m h k = omega (arith, k refl)
left_at-le true_ n m h k = omega (arith, k refl)
left_at-le false_ n m h k = omega (arith, k refl)
left_at-le null n m h k = omega (arith, k refl)

pub next-left : (p : Parser) → left (json_next_token p) ≤ length p.rest
next-left p =
    let h = json_next_token-Consumes p in
    left_at-le (json_next_token p).current (length (json_next_token p).rest) (length p.rest) h.0 h.1

-- A call that returns, with less than `n` left if it succeeds.
record Returns (n : ℕ) (r : Reading) : Type 0 where
  result : Bool × Parser
  same : r ≡ some result
  less : result.0 ≡ true → left result.1 < n

-- The fuel that a call needs.
abbrev need : Mode → ℕ → ℕ
need value n = 2 * n + 1
need members n = 2 * n + 2
need elements n = 2 * n + 2

-- What is left behind a call: less for a value, no more for a loop.
abbrev bound : Mode → ℕ → ℕ
bound value n = n
bound members n = suc n
bound elements n = suc n

need-le : (m : Mode) (n : ℕ) → need m n ≤ 2 * n + 2
need-le value n = omega arith
need-le members n = omega arith
need-le elements n = omega arith

bound-le : (m : Mode) (n : ℕ) → bound m n ≤ suc n
bound-le value n = omega arith
bound-le members n = omega arith
bound-le elements n = omega arith

bind-Returns :
    (v n : ℕ) (o : Reading) (k : Bool × Parser → Reading)
    → Returns v o
    → ((r : Bool × Parser) → (r.0 ≡ true → left r.1 < v) → Returns n (k r))
    → Returns n (o >>= k)
bind-Returns v n o k h f = rw h.same (f h.result h.less)

weaken : (n m : ℕ) (r : Reading) → n ≤ m → Returns n r → Returns m r
weaken n m r h k = record {
  result = k.result;
  same = k.same;
  less = λ e. omega (arith, k.less e, h);
}

pub left_of : (t : Token) (p : Parser) → p.current ≡ t → left p ≡ left_at t (length p.rest)
left_of t p e = ap (λ u. left_at u (length p.rest)) e

pub after_comma-left : (t : Token) (p : Parser) → p.current ≡ t → left (after_comma t p) ≤ left p
after_comma-left comma p e = omega (arith, next-left p, left_of comma p e)
after_comma-left _ p e = omega arith

at_end : (n : ℕ) (p : Parser) → left p < n → Returns n (some (true, p))
at_end n p h = record { result = (true, p); same = refl; less = λ _. h }

refused : (n : ℕ) (p : Parser) → Returns n (some (false, p))
refused n p = record { result = (false, p); same = refl; less = λ e. cc }

module _ (again : Mode → Parser → Reading) (fuel : ℕ) where
  abbrev Ready : Type 0
  Ready = (m : Mode) (p : Parser) → need m (left p) ≤ fuel → Returns (bound m (left p)) (again m p)

  then_loop-Returns :
      (loop : Mode) (n : ℕ) (r : Bool × Parser)
      → Ready
      → (r.0 ≡ true → left r.1 < n)
      → 2 * n ≤ fuel
      → Returns n (then_loop again loop r)
  then_loop-Returns loop n (false, p) ih h k = refused n p
  then_loop-Returns loop n (true, p) ih h k =
      let q = after_comma p.current p in
      let c = after_comma-left p.current p refl in
      let i = ih loop q (omega (arith, need-le loop (left q), c, h refl, k)) in
      record {
        result = i.result;
        same = i.same;
        less = λ e. omega (arith, i.less e, bound-le loop (left q), c, h refl);
      }

  -- A nested value or loop behind the token at hand.
  descend :
      (m : Mode) (p : Parser)
      → Ready
      → left p ≡ suc (length p.rest)
      → 2 * left p ≤ fuel
      → Returns (left p) (again m (json_next_token p))
  descend m p ih l k =
      let q = json_next_token p in
      let i = ih m q (omega (arith, need-le m (left q), next-left p, l, k)) in
      record {
        result = i.result;
        same = i.same;
        less = λ e. omega (arith, i.less e, bound-le m (left q), next-left p, l);
      }

  skip_one-Returns :
      (t : Token) (p : Parser)
      → p.current ≡ t
      → Ready
      → 2 * left p ≤ fuel
      → Returns (left p) (skip_one again t p)
  skip_one-Returns lbrace p e ih k = descend members p ih (left_of lbrace p e) k
  skip_one-Returns lbracket p e ih k = descend elements p ih (left_of lbracket p e) k
  skip_one-Returns string p e ih k = at_end _ _ (omega (arith, next-left p, left_of string p e))
  skip_one-Returns number p e ih k = at_end _ _ (omega (arith, next-left p, left_of number p e))
  skip_one-Returns true_ p e ih k = at_end _ _ (omega (arith, next-left p, left_of true_ p e))
  skip_one-Returns false_ p e ih k = at_end _ _ (omega (arith, next-left p, left_of false_ p e))
  skip_one-Returns null p e ih k = at_end _ _ (omega (arith, next-left p, left_of null p e))
  skip_one-Returns _ p e ih k = refused _ p

  skip_member-Returns :
      (t : Token) (p : Parser)
      → p.current ≡ t
      → Ready
      → 2 * left p ≤ fuel
      → Returns (left p) (skip_member again t p)
  skip_member-Returns colon p e ih k =
      let q = json_next_token p in
      let n = next-left p in
      let l = left_of colon p e in
      weaken (left q) (left p) (again value q >>= λ r. then_loop again members r)
        (omega (arith, n, l))
        (bind-Returns (left q) (left q) (again value q) (λ r. then_loop again members r)
          (ih value q (omega (arith, n, l, k)))
          (λ r h. then_loop-Returns members (left q) r ih h (omega (arith, n, l, k))))
  skip_member-Returns _ p e ih k = refused _ p

  skip_members-Returns :
      (t : Token) (p : Parser)
      → p.current ≡ t
      → Ready
      → 2 * left p + 1 ≤ fuel
      → Returns (suc (left p)) (skip_members again t p)
  skip_members-Returns rbrace p e ih k = at_end _ _ (omega (arith, next-left p, left_of rbrace p e))
  skip_members-Returns eof p e ih k = at_end _ _ (omega arith)
  skip_members-Returns string p e ih k =
      let q = json_next_token p in
      let n = next-left p in
      let l = left_of string p e in
      weaken (left q) (suc (left p)) (skip_member again q.current q) (omega (arith, n, l))
        (skip_member-Returns q.current q refl ih (omega (arith, n, l, k)))
  skip_members-Returns _ p e ih k = refused _ p

  element-Returns :
      (p : Parser)
      → Ready
      → 2 * left p + 1 ≤ fuel
      → Returns (suc (left p)) (again value p >>= λ r. then_loop again elements r)
  element-Returns p ih k =
      weaken (left p) (suc (left p)) (again value p >>= λ r. then_loop again elements r)
        (omega arith)
        (bind-Returns (left p) (left p) (again value p) (λ r. then_loop again elements r)
          (ih value p k) (λ r h. then_loop-Returns elements (left p) r ih h (omega (arith, k))))

  skip_elements-Returns :
      (t : Token) (p : Parser)
      → p.current ≡ t
      → Ready
      → 2 * left p + 1 ≤ fuel
      → Returns (suc (left p)) (skip_elements again t p)
  skip_elements-Returns rbracket p e ih k =
      at_end _ _ (omega (arith, next-left p, left_of rbracket p e))
  skip_elements-Returns eof p e ih k = at_end _ _ (omega arith)
  skip_elements-Returns _ p e ih k = element-Returns p ih k

skip-Returns :
    (fuel : ℕ) (m : Mode) (p : Parser)
    → need m (left p) ≤ fuel
    → Returns (bound m (left p)) (skip fuel m p)
unfolding skip
skip-Returns zero value p h = absurd (omega arith)
skip-Returns zero members p h = absurd (omega arith)
skip-Returns zero elements p h = absurd (omega arith)
skip-Returns (suc fuel) value p h =
    skip_one-Returns (λ m q. skip fuel m q) fuel p.current p refl (λ m q k. skip-Returns fuel m q k)
      (omega (arith, h))
skip-Returns (suc fuel) members p h =
    skip_members-Returns (λ m q. skip fuel m q) fuel p.current p refl
      (λ m q k. skip-Returns fuel m q k) (omega (arith, h))
skip-Returns (suc fuel) elements p h =
    skip_elements-Returns (λ m q. skip fuel m q) fuel p.current p refl
      (λ m q k. skip-Returns fuel m q k) (omega (arith, h))

pub left-le : (p : Parser) → left p ≤ suc (length p.rest)
left-le p =
    left_at-le p.current (length p.rest) (suc (length p.rest)) (omega arith) (λ _. omega arith)

-- `json_skip_value` returns on every input, however deeply nested or malformed, and where it
-- succeeds it has consumed input.
pub json_skip_value-Returns :
    (p : Parser)
    → (r : Bool × Parser) × (json_skip_value p ≡ some r) × (r.0 ≡ true → left r.1 < left p)
unfolding json_skip_value
json_skip_value-Returns p =
    let r = skip-Returns (2 * suc (length p.rest) + 1) value p (omega (arith, left-le p)) in
    (r.result, r.same, r.less)
