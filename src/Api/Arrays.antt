-- ===== src/Api/Arrays.antt =====
-- The two request parsers of src/api_v1.c that read arrays: messages and tokens.
use cllm.Common.{
  ℕ, zero, suc, Bool, true, false, Option, none, some, List, [], ◌∷◌, ◌++◌, leb, if◌then◌else◌,
  codes, length,
}
use cllm.Common.Maybe.{◌>>=◌}
use cllm.Json.Lexer.{
  Token, lbrace, rbrace, lbracket, rbracket, comma, number, eof, Parser, json_next_token,
}
use cllm.Json.Reader.{
  after_comma, json_parse_string, json_parse_number, json_parse_int, json_parse_bool,
}
use cllm.Api.Loop.{Read, refused, is_key, skip_field, object_loop, parse_object}
use cllm.Api.Requests.{
  ChatMessage, ChatRequest, DetokenizeRequest, empty_message, chat_completion_request_init,
  max_prompt_length, max_model_id_length, max_chat_messages, max_tokens_count, string_field,
  value_field, clamp_tokens,
}
pub mod Progress
pub mod Total
pub mod Tests

-- `[`, and the first token behind it; then a loop over the elements, and `]` behind it.
abbrev pub behind_array {ℓ} : {R : Type ℓ} → Token → Parser → R → Read R
behind_array rbracket p r = some (true, json_next_token p, r)
behind_array _ p r = some (true, p, r)

abbrev pub closed {ℓ} : {R : Type ℓ} → Bool × Parser × R → Read R
closed (true, p, r) = behind_array p.current p r
closed (false, p, r) = refused p r

module _ {R : Type 0} (element : Token → Parser → R → Read R) (full : R → Bool) where
  abbrev pub next_element : (Parser → R → Read R) → Bool × Parser × R → Read R
  next_element again (true, p, r) = again (after_comma p.current p) r
  next_element again (false, p, r) = refused p r

  -- `break` where there is no room for another element.
  abbrev pub at_element : (Parser → R → Read R) → Token → Parser → R → Read R
  at_element again rbracket p r = some (true, p, r)
  at_element again eof p r = some (true, p, r)
  at_element again t p r =
      if full r then some (true, p, r) else (element t p r >>= λ q. next_element again q)

  pub array_loop : ℕ → Parser → R → Read R
  array_loop zero p r = none
  array_loop (suc fuel) p r = at_element (λ q s. array_loop fuel q s) p.current p r

  abbrev pub at_bracket : Token → Parser → R → Read R
  at_bracket lbracket p r =
      let q = json_next_token p in array_loop (suc (suc (length q.rest))) q r >>= λ s. closed s
  at_bracket _ p r = refused p r

  pub parse_array : Parser → R → Read R
  parse_array p r = at_bracket p.current p r

pub message_field : List ℕ → Parser → ChatMessage → Read ChatMessage
message_field key p m =
    if is_key key (codes "role")
    then string_field 16 m.role (λ b. record m { role = b }) p
    else if is_key key (codes "content")
    then string_field max_prompt_length m.content (λ b. record m { content = b }) p
    else skip_field p m

-- A message counts when its closing brace is there.
abbrev pub add_message : List ChatMessage → Token → Parser → ChatMessage → Read (List ChatMessage)
add_message l rbrace p m = some (true, json_next_token p, l ++ (m ∷ []))
add_message l _ p m = some (true, p, l)

abbrev pub message_read : List ChatMessage → Bool × Parser × ChatMessage → Read (List ChatMessage)
message_read l (true, p, m) = add_message l p.current p m
message_read l (false, p, m) = refused p l

abbrev pub message : Token → Parser → List ChatMessage → Read (List ChatMessage)
message lbrace p l =
    let q = json_next_token p in
    object_loop 32 message_field (suc (suc (length q.rest))) q empty_message >>= λ s.
    message_read l s
message _ p l = refused p l

abbrev pub messages_full : List ChatMessage → Bool
messages_full l = leb max_chat_messages (length l)

module _ (int_of : List ℕ → ℕ) where
  pub chat_field : List ℕ → Parser → ChatRequest → Read ChatRequest
  chat_field key p r =
      if is_key key (codes "messages")
      then (parse_array message messages_full p r.messages >>= λ q.
          some (q.0, q.1, record r { messages = q.2 }))
      else if is_key key (codes "model")
      then string_field max_model_id_length r.model (λ b. record r { model = b }) p
      else if is_key key (codes "max_tokens")
      then value_field r (λ v. record r { max_tokens = clamp_tokens (int_of v) }) (json_parse_int p)
      else if is_key key (codes "temperature")
      then value_field r (λ v. record r { temperature = v }) (json_parse_number p)
      else if is_key key (codes "top_p")
      then value_field r (λ v. record r { top_p = v }) (json_parse_number p)
      else if is_key key (codes "stream")
      then value_field r (λ v. record r { stream = v }) (json_parse_bool p)
      else skip_field p r

  pub parse_chat_request : List ℕ → Read ChatRequest
  parse_chat_request body = parse_object 64 chat_field body chat_completion_request_init

  abbrev pub token : Token → Parser → DetokenizeRequest → Read DetokenizeRequest
  token number p l = value_field l (λ v. l ++ (int_of v ∷ [])) (json_parse_int p)
  token _ p l = refused p l

  abbrev pub tokens_full : DetokenizeRequest → Bool
  tokens_full l = leb max_tokens_count (length l)

  pub detokenize_field : List ℕ → Parser → DetokenizeRequest → Read DetokenizeRequest
  detokenize_field key p r =
      if is_key key (codes "tokens") then parse_array token tokens_full p r else skip_field p r

  pub parse_detokenize_request : List ℕ → Read DetokenizeRequest
  parse_detokenize_request body = parse_object 64 detokenize_field body []
