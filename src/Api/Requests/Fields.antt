-- ===== src/Api/Requests/Fields.antt =====
-- The kinds of field: each returns, reads on, and keeps what its store keeps.
use cllm.Common.{
  ℕ, ◌≤◌, ◌<◌, ◌≡◌, refl, arith, true, Option, none, some, List, Bool-cases, inl, inr, length,
}
use cllm.Common.Maybe.{ensures, Ensures-bind}
use cllm.Json.Lexer.{Token, true_, false_, Parser}
use cllm.Json.Reader.{is_number, bool_at, json_parse_number, json_parse_int, json_parse_bool}
use cllm.Json.Reader.Progress.{left, left_of, next-left}
use cllm.Api.Loop.Progress.{Advances, is_number-left, json_parse_string-Advances}
use cllm.Api.Requests.{string_field, value_field}

pub json_parse_number-left : (p : Parser) → left (json_parse_number p).1 ≤ left p
unfolding json_parse_number
json_parse_number-left p = elim (Bool-cases (is_number p.current)) [
  | inl e ↦ rw e (omega (arith, next-left p, is_number-left p.current (length p.rest) e))
  | inr e ↦ rw e (omega arith)
]

pub json_parse_int-less :
    (p : Parser) → is_number p.current ≡ true → left (json_parse_int p).1 < left p
unfolding json_parse_int
json_parse_int-less p e =
    rw e (omega (arith, next-left p, is_number-left p.current (length p.rest) e))

pub json_parse_int-left : (p : Parser) → left (json_parse_int p).1 ≤ left p
unfolding json_parse_int
json_parse_int-left p = elim (Bool-cases (is_number p.current)) [
  | inl e ↦ rw e (omega (arith, next-left p, is_number-left p.current (length p.rest) e))
  | inr e ↦ rw e (omega arith)
]

pub json_parse_bool-left : (p : Parser) → left (json_parse_bool p).1 ≤ left p
unfolding json_parse_bool
json_parse_bool-left p = go p.current refl
  where
    go : (t : Token) → p.current ≡ t → left (bool_at t p).1 ≤ left p
    go true_ e = omega (arith, next-left p, left_of true_ p e)
    go false_ e = omega (arith, next-left p, left_of false_ p e)
    go _ e = omega arith

module _ {R : Type 0} (P : R → Type 0) where
  pub string_field-Advances :
      (size : ℕ) (buf : List ℕ) (store_it : List ℕ → R) (p : Parser)
      → 0 < size
      → length buf ≡ size
      → ((b : List ℕ) → length b ≡ size → P (store_it b))
      → Advances P (left p) (string_field size buf store_it p)
  string_field-Advances size buf store_it p h e k =
      Ensures-bind (json_parse_string-Advances size buf p h e)
        (λ q l. ensures _ (k q.2 l.0, λ t. omega (arith, l.1 t)))

  pub value_field-Advances :
      {A : Type 0} (r : R) (store_it : A → R) (n : ℕ) (o : Option A × Parser)
      → P r
      → ((v : A) → P (store_it v))
      → left o.1 ≤ n
      → Advances P n (value_field r store_it o)
  value_field-Advances r store_it n (none, p) h k l = ensures _ (h, λ e. cc)
  value_field-Advances r store_it n (some v, p) h k l = ensures _ (k v, λ _. l)
