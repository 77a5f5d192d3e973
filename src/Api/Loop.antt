-- ===== src/Api/Loop.antt =====
-- The loop over the members of an object that every request parser of src/api_v1.c runs, and its body
-- up to the dispatch on the key. A result is 0 (`true`) or -1 (`false`), the parser, and the request.
use cllm.Common.{
  ℕ, zero, suc, Bool, true, false, Option, none, some, List, [], ◌∷◌, length, replicate, ◌==◌,
}
use cllm.Common.Int.{ℤ, pos, negsuc}
use cllm.Common.Maybe.{◌>>=◌}
use cllm.CString.{strcmp}
use cllm.Json.Lexer.{
  Token, lbrace, rbrace, lbracket, rbracket, colon, string, eof, Parser, json_parser_init,
  json_next_token,
}
use cllm.Json.Reader.{after_comma, json_parse_string, json_skip_value}
pub mod Progress

abbrev pub Read {ℓ} : Type ℓ → Type ℓ
Read R = Option (Bool × Parser × R)

abbrev pub refused {ℓ} : {R : Type ℓ} → Parser → R → Read R
refused p r = some (false, p, r)

-- `strcmp(key, name) == 0`.
pub is_key : List ℕ → List ℕ → Bool
is_key key name = elim (strcmp key name) [
  | pos zero ↦ true
  | pos (suc n) ↦ false
  | negsuc n ↦ false
]

-- An unknown field.
abbrev pub skip_field {ℓ} : {R : Type ℓ} → Parser → R → Read R
skip_field p r = json_skip_value p >>= λ q. some (q.0, q.1, r)

module _ {R : Type 0} (key_size : ℕ) (field : List ℕ → Parser → R → Read R) where
  -- Behind the value.
  abbrev pub next_member : (Parser → R → Read R) → Bool × Parser × R → Read R
  next_member again (true, p, r) = again (after_comma p.current p) r
  next_member again (false, p, r) = refused p r

  -- Behind the key.
  abbrev pub at_colon : (Parser → R → Read R) → List ℕ → Token → Parser → R → Read R
  at_colon again key colon p r = field key (json_next_token p) r >>= λ q. next_member again q
  at_colon again key _ p r = refused p r

  abbrev pub at_key : (Parser → R → Read R) → Bool × Parser × List ℕ → R → Read R
  at_key again (true, p, key) r = at_colon again key p.current p r
  at_key again (false, p, key) r = refused p r

  -- The loop's test, and its body.
  abbrev pub at_member : (Parser → R → Read R) → Token → Parser → R → Read R
  at_member again rbrace p r = some (true, p, r)
  at_member again eof p r = some (true, p, r)
  at_member again string p r =
      json_parse_string key_size (replicate key_size 0) p >>= λ q. at_key again q r
  at_member again _ p r = refused p r

  -- `none` where the fuel has run out.
  pub object_loop : ℕ → Parser → R → Read R
  object_loop zero p r = none
  object_loop (suc fuel) p r = at_member (λ q s. object_loop fuel q s) p.current p r

  abbrev at_brace : ℕ → Token → Parser → R → Read R
  at_brace fuel lbrace p r = object_loop fuel (json_next_token p) r
  at_brace fuel _ p r = refused p r

  -- A round of the loop takes a byte of the body at least.
  pub parse_object : List ℕ → R → Read R
  parse_object body r =
      let p = json_next_token (json_parser_init body) in
      at_brace (suc (suc (length body))) p.current p r
