-- ===== src/Api/Arrays/Total.antt =====
-- The request parsers with arrays return on every body and stay within the arrays.
use cllm.Common.{
  ℕ, suc, ◌≤◌, ◌<◌, ◌≡◌, refl, ap, arith, Bool, true, false, List, [], ◌∷◌, codes, length,
  length_concat, All, All-append, if_both, leb→lt,
}
use cllm.Common.Maybe.{Ensures, ensures, Ensures-bind, Ensures-weaken}
use cllm.Json.Lexer.{Token, lbrace, rbrace, number, Parser, json_next_token}
use cllm.Json.Reader.{is_number, json_parse_number, json_parse_int, json_parse_bool}
use cllm.Json.Reader.Progress.{left, left_of, next-left, left-le}
use cllm.Api.Loop.{is_key}
use cllm.Api.Loop.Progress.{
  Advances, FieldAdvances, skip_field-Advances, object_loop-Advances, parse_object-Ensures,
}
use cllm.Api.Arrays.{
  message_field, add_message, message_read, message, messages_full, chat_field, parse_chat_request,
  token, tokens_full, detokenize_field, parse_detokenize_request,
}
use cllm.Api.Arrays.Progress.{ElementAdvances, parse_array-Advances}
use cllm.Api.Requests.{
  ChatMessage, ChatRequest, DetokenizeRequest, empty_message, chat_completion_request_init,
}
use cllm.Api.Requests.Fields.{
  json_parse_number-left, json_parse_int-left, json_parse_int-less, json_parse_bool-left,
  string_field-Advances, value_field-Advances,
}
use cllm.Api.Requests.Total.{clamp_tokens-le}

pub record IsMessage (m : ChatMessage) : Type 0 where
  pub role : length m.role ≡ 16
  pub content : length m.content ≡ 4096

message_field-Advances : FieldAdvances IsMessage 32 message_field (omega arith)
unfolding message_field
message_field-Advances key p m h =
    let A = Advances IsMessage (left p) in
    if_both A (is_key key (codes "role"))
      (string_field-Advances IsMessage 16 m.role _ p (omega arith) h.role
        (λ b e. record { role = e; content = h.content }))
      (if_both A (is_key key (codes "content"))
        (string_field-Advances IsMessage 4096 m.content _ p (omega arith) h.content
          (λ b e. record { role = h.role; content = e }))
        (skip_field-Advances IsMessage p m h))

-- What the array of messages has room for.
pub record AreMessages (l : List ChatMessage) : Type 0 where
  pub room : length l ≤ 32
  pub each : All IsMessage l

add_message-Advances :
    (l : List ChatMessage) (t : Token) (p : Parser) (m : ChatMessage)
    → p.current ≡ t
    → length l < 32
    → AreMessages l
    → IsMessage m
    → Advances AreMessages (left p) (add_message l t p m)
add_message-Advances l rbrace p m e h k i = ensures _ (
  record {
    room = omega (arith, h, length_concat l m);
    each = All-append IsMessage l (m ∷ []) k.each (i, tt);
  },
  λ _. omega (arith, next-left p, left_of rbrace p e),
)
add_message-Advances l _ p m e h k i = ensures _ (k, λ _. omega arith)

message_read-Advances :
    (l : List ChatMessage) (n : ℕ) (q : Bool × Parser × ChatMessage)
    → length l < 32
    → AreMessages l
    → IsMessage q.2 × (q.0 ≡ true → left q.1 ≤ n)
    → Advances AreMessages n (message_read l q)
message_read-Advances l n (true, p, m) h k i =
    Ensures-weaken (λ q b. (b.0, λ e. omega (arith, b.1 e, i.1 refl)))
      (add_message-Advances l p.current p m refl h k i.0)
message_read-Advances l n (false, p, m) h k i = ensures _ (k, λ e. cc)

message-Advances : ElementAdvances AreMessages message messages_full
message-Advances lbrace p l e f k =
    let q = json_next_token p in
    let start : IsMessage empty_message = record { role = refl; content = refl } in
    let less = next-left p in
    let here = left_of lbrace p e in
    Ensures-bind
      (object_loop-Advances IsMessage 32 message_field (omega arith) message_field-Advances
        (suc (suc (length q.rest))) q empty_message (omega (arith, left-le q)) start)
      (λ s i.
        Ensures-weaken (λ q b. (b.0, λ t. omega (arith, b.1 t, less, here)))
          (message_read-Advances l (left q) s (leb→lt _ _ f) k i))
message-Advances _ p l e f k = ensures _ (k, λ e. cc)

pub record IsChat (r : ChatRequest) : Type 0 where
  pub messages : AreMessages r.messages
  pub model : length r.model ≡ 64
  pub max_tokens : r.max_tokens ≤ 512

module _ (int_of : List ℕ → ℕ) where
  chat_field-Advances : FieldAdvances IsChat 64 (chat_field int_of) (omega arith)
  unfolding chat_field
  chat_field-Advances key p r h =
      let A = Advances IsChat (left p) in
      let V = value_field-Advances IsChat r in
      let number = json_parse_number-left p in
      if_both A (is_key key (codes "messages"))
        (Ensures-bind
          (parse_array-Advances AreMessages message messages_full message-Advances p r.messages
            h.messages)
          (λ q l.
            ensures _ (record { messages = l.0; model = h.model; max_tokens = h.max_tokens }, l.1)))
        (if_both A (is_key key (codes "model"))
          (string_field-Advances IsChat 64 r.model _ p (omega arith) h.model
            (λ b e. record { messages = h.messages; model = e; max_tokens = h.max_tokens }))
          (if_both A (is_key key (codes "max_tokens"))
            (V _ (left p) (json_parse_int p) h
              (λ v. record {
                messages = h.messages;
                model = h.model;
                max_tokens = clamp_tokens-le (int_of v);
              })
              (json_parse_int-left p))
            (if_both A (is_key key (codes "temperature"))
              (V _ (left p) (json_parse_number p) h (λ v. other h) number)
              (if_both A (is_key key (codes "top_p"))
                (V _ (left p) (json_parse_number p) h (λ v. other h) number)
                (if_both A (is_key key (codes "stream"))
                  (value_field-Advances IsChat r _ (left p) (json_parse_bool p) h (λ v. other h)
                    (json_parse_bool-left p))
                  (skip_field-Advances IsChat p r h))))))
    where
      other :
          {t s : List ℕ} {b : Bool}
          → IsChat r
          → IsChat (record r { temperature = t; top_p = s; stream = b })
      other h = record { messages = h.messages; model = h.model; max_tokens = h.max_tokens }

  -- The parser of a chat request returns on every body, and leaves a request with at most 32
  -- messages, each with its role and its content inside their arrays, that asks for at most 512
  -- tokens.
  pub parse_chat_request-IsChat :
      (body : List ℕ) → Ensures (λ q. IsChat q.2) (parse_chat_request int_of body)
  unfolding parse_chat_request
  parse_chat_request-IsChat body =
      parse_object-Ensures IsChat 64 (chat_field int_of) (omega arith) chat_field-Advances body
        chat_completion_request_init
        (record {
          messages = record { room = omega arith; each = tt };
          model = refl;
          max_tokens = omega arith;
        })

  -- At most 2048 tokens.
  abbrev pub IsDetokenize : DetokenizeRequest → Type 0
  IsDetokenize l = length l ≤ 2048

  token-Advances : ElementAdvances IsDetokenize (token int_of) (tokens_full int_of)
  token-Advances number p l e f k =
      let here = left_of number p e in
      let less = json_parse_int-less p (ap is_number e) in
      let room = leb→lt _ _ f in
      Ensures-weaken (λ q b. (b.0, λ t. omega (arith, b.1 t, here)))
        (value_field-Advances IsDetokenize l _ (length p.rest) (json_parse_int p) k
          (λ v. omega (arith, room, length_concat l (int_of v))) (omega (arith, less, here)))
  token-Advances _ p l e f k = ensures _ (k, λ e. cc)

  detokenize_field-Advances : FieldAdvances IsDetokenize 64 (detokenize_field int_of) (omega arith)
  unfolding detokenize_field
  detokenize_field-Advances key p r h =
      if_both (Advances IsDetokenize (left p)) (is_key key (codes "tokens"))
        (parse_array-Advances IsDetokenize (token int_of) (tokens_full int_of) token-Advances p r h)
        (skip_field-Advances IsDetokenize p r h)

  -- The parser of a detokenize request returns on every body, and leaves at most 2048 tokens.
  pub parse_detokenize_request-IsDetokenize :
      (body : List ℕ) → Ensures (λ q. IsDetokenize q.2) (parse_detokenize_request int_of body)
  unfolding parse_detokenize_request
  parse_detokenize_request-IsDetokenize body =
      parse_object-Ensures IsDetokenize 64 (detokenize_field int_of) (omega arith)
        detokenize_field-Advances body [] (omega arith)
