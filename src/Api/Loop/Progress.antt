-- ===== src/Api/Loop/Progress.antt =====
-- The loop over an object returns, and keeps what its fields keep.
use cllm.Common.{
  ℕ, zero, suc, ◌-◌, ◌≤◌, ◌<◌, ◌≡◌, refl, ◌∙◌, arith, Bool, true, false, some, List, Bool-cases,
  inl, inr, length, replicate, length-replicate, ltb, if◌then◌else◌,
}
use cllm.Common.Maybe.{>>=_assoc, Ensures, ensures, Ensures-bind, Ensures-weaken}
use cllm.CString.{strncpy, store}
use cllm.Http.{set_text}
use cllm.Http.Text.{set_text-Ensures}
use cllm.Json.Lexer.{
  Token, lbrace, rbrace, colon, string, number, eof, Parser, json_parser_init, json_next_token,
}
use cllm.Json.Reader.{after_comma, is_string, is_number, json_parse_string}
use cllm.Json.Lexer.Consume.{json_next_token-Consumes}
use cllm.Json.Reader.Progress.{
  left, left_at, left_of, next-left, after_comma-left, json_skip_value-Returns,
}
use cllm.Api.Loop.{
  Read, skip_field, next_member, at_colon, at_key, at_member, object_loop, at_brace, parse_object,
}

-- A call that returns: the request keeps a property, and where it succeeds no more is left to read.
abbrev pub Advances {ℓ κ} : {R : Type ℓ} → (R → Type κ) → ℕ → Read R → Type (ℓ ⊔ κ)
Advances P n o = Ensures (λ q. P q.2 × (q.0 ≡ true → left q.1 ≤ n)) o

is_string-left : (t : Token) (n : ℕ) → is_string t ≡ true → left_at t n ≡ suc n
is_string-left string n e = refl
is_string-left _ n e = cc

pub is_number-left : (t : Token) (n : ℕ) → is_number t ≡ true → left_at t n ≡ suc n
is_number-left number n e = refl
is_number-left _ n e = cc

pub json_parse_string-Advances :
    (size : ℕ) (buf : List ℕ) (p : Parser)
    → 0 < size
    → length buf ≡ size
    → Ensures
        (λ q. (length q.2 ≡ size) × (q.0 ≡ true → left q.1 < left p))
        (json_parse_string size buf p)
unfolding json_parse_string set_text
json_parse_string-Advances size buf p h e = elim (Bool-cases (is_string p.current)) [
  | inl t ↦
      let n = if ltb (length p.string_buf) (size - 1) then length p.string_buf else size - 1 in
      let fits : n < length buf = ground (arith, h, e) in
      let less : left (json_next_token p) < left p =
        omega (arith, next-left p, is_string-left p.current (length p.rest) t) in
      rw
        (
          t,
          ← >>=_assoc {C = Bool × Parser × List ℕ} (strncpy buf p.string_buf n) (λ b. store b n 0)
              (λ b. some (true, json_next_token p, b)),
        )
        (Ensures-bind (set_text-Ensures buf p.string_buf n fits)
          (λ b k. ensures _ (k ∙ e, λ _. less)))
  | inr t ↦ rw t (ensures _ (e, λ k. cc))
]

module _ {R : Type 0} (P : R → Type 0) where
  pub skip_field-Advances : (p : Parser) (r : R) → P r → Advances P (left p) (skip_field p r)
  skip_field-Advances p r h =
      let q = json_skip_value-Returns p in rw q.1 (ensures _ (h, λ e. omega (arith, q.2 e)))

  module _ (key_size : ℕ) (field : List ℕ → Parser → R → Read R) (some_room : 0 < key_size) where
    abbrev pub FieldAdvances : Type 0
    FieldAdvances = (key : List ℕ) (p : Parser) (r : R) → P r → Advances P (left p) (field key p r)

    module _ (fields : FieldAdvances) where
      abbrev Again : ℕ → (Parser → R → Read R) → Type 0
      Again n again = (p : Parser) (r : R) → P r → left p < n → Advances P (left p) (again p r)

      weaken : (n m : ℕ) (o : Read R) → n ≤ m → Advances P n o → Advances P m o
      weaken n m o h k = Ensures-weaken (λ q l. (l.0, λ e. omega (arith, h, l.1 e))) k

      next_member-Advances :
          (n : ℕ) (again : Parser → R → Read R) (m : ℕ) (q : Bool × Parser × R)
          → Again n again
          → m < n
          → P q.2 × (q.0 ≡ true → left q.1 ≤ m)
          → Advances P m (next_member key_size field again q)
      next_member-Advances n again m (true, p, r) ih h k =
          let c = after_comma-left p.current p refl in
          weaken (left (after_comma p.current p)) m (again (after_comma p.current p) r)
            (omega (arith, c, k.1 refl))
            (ih (after_comma p.current p) r k.0 (omega (arith, c, k.1 refl, h)))
      next_member-Advances n again m (false, p, r) ih h k = ensures _ (k.0, λ e. cc)

      at_colon-Advances :
          (n : ℕ) (again : Parser → R → Read R) (key : List ℕ) (t : Token) (p : Parser) (r : R)
          → p.current ≡ t
          → Again n again
          → left p < n
          → P r
          → Advances P (left p) (at_colon key_size field again key t p r)
      at_colon-Advances n again key colon p r e ih h k =
          let l = left_of colon p e in
          Ensures-bind (fields key (json_next_token p) r k) (λ q b.
            next_member-Advances n again (left p) q ih h
              (b.0, λ t. omega (arith, b.1 t, next-left p, l)))
      at_colon-Advances n again key _ p r e ih h k = ensures _ (k, λ t. cc)

      at_key-Advances :
          (n : ℕ) (again : Parser → R → Read R) (m : ℕ) (q : Bool × Parser × List ℕ) (r : R)
          → Again n again
          → m ≤ n
          → P r
          → (q.0 ≡ true → left q.1 < m)
          → Advances P m (at_key key_size field again q r)
      at_key-Advances n again m (true, p, key) r ih h k l =
          weaken (left p) m (at_key key_size field again (true, p, key) r) (omega (arith, l refl))
            (at_colon-Advances n again key p.current p r refl ih (omega (arith, l refl, h)) k)
      at_key-Advances n again m (false, p, key) r ih h k l = ensures _ (k, λ e. cc)

      at_member-Advances :
          (n : ℕ) (again : Parser → R → Read R) (t : Token) (p : Parser) (r : R)
          → Again n again
          → left p ≤ n
          → P r
          → Advances P (left p) (at_member key_size field again t p r)
      at_member-Advances n again rbrace p r ih h k = ensures _ (k, λ _. omega arith)
      at_member-Advances n again eof p r ih h k = ensures _ (k, λ _. omega arith)
      at_member-Advances n again string p r ih h k =
          Ensures-bind
            (json_parse_string-Advances key_size (replicate key_size 0) p some_room
              (length-replicate key_size (zero)))
            (λ q l. at_key-Advances n again (left p) q r ih h k l.1)
      at_member-Advances n again _ p r ih h k = ensures _ (k, λ e. cc)

      pub object_loop-Advances :
          (fuel : ℕ) (p : Parser) (r : R)
          → left p < fuel
          → P r
          → Advances P (left p) (object_loop key_size field fuel p r)
      unfolding object_loop
      object_loop-Advances zero p r h k = absurd (omega arith)
      object_loop-Advances (suc fuel) p r h k =
          at_member-Advances fuel (λ q s. object_loop key_size field fuel q s) p.current p r
            (λ q s b l. object_loop-Advances fuel q s l b) (omega (arith, h)) k

      at_brace-Ensures :
          (fuel : ℕ) (t : Token) (p : Parser) (r : R)
          → length p.rest < fuel
          → P r
          → Ensures (λ q. P q.2) (at_brace key_size field fuel t p r)
      at_brace-Ensures fuel lbrace p r h k =
          Ensures-weaken (λ q l. l.0)
            (object_loop-Advances fuel (json_next_token p) r (omega (arith, next-left p, h)) k)
      at_brace-Ensures fuel _ p r h k = ensures _ k

      pub parse_object-Ensures :
          (body : List ℕ) (r : R) → P r → Ensures (λ q. P q.2) (parse_object key_size field body r)
      unfolding parse_object json_parser_init
      parse_object-Ensures body r k =
          let p = json_next_token (json_parser_init body) in
          at_brace-Ensures (suc (suc (length body))) p.current p r
            (omega (arith, (json_next_token-Consumes (json_parser_init body)).0)) k
