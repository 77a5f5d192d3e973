-- ===== src/Api/Requests.antt =====
-- The request types of src/include/api_types.h and their parsers in src/api_v1.c.
-- An `int` is its pattern of 32 bits. A `float` is the text of the number that it was read from, and
-- `int_of` gives the `int` that json_parse_int makes of such a text.
use cllm.Common.{
  ℕ, zero, suc, ◌^◌, Bool, true, false, ◌||◌, Option, none, some, List, [], ◌∷◌, ◌++◌, ltb, leb,
  if◌then◌else◌, codes, length, replicate,
}
use cllm.Common.Maybe.{◌>>=◌}
use cllm.Json.Lexer.{
  Token, lbrace, rbrace, lbracket, rbracket, comma, number, eof, Parser, json_next_token,
}
use cllm.Json.Reader.{
  after_comma, json_parse_string, json_parse_number, json_parse_int, json_parse_bool,
}
use cllm.Api.Loop.{Read, refused, is_key, skip_field, object_loop, parse_object}
pub mod Fields
pub mod Total

abbrev pub max_prompt_length : ℕ
max_prompt_length = 4096

abbrev pub max_tokens_count : ℕ
max_tokens_count = 2048

abbrev pub max_chat_messages : ℕ
max_chat_messages = 32

abbrev pub max_model_id_length : ℕ
max_model_id_length = 64

abbrev pub max_generation_tokens : ℕ
max_generation_tokens = 512

-- A new array whose first character is the terminator. What is behind it is never read.
abbrev pub empty_text : ℕ → List ℕ
empty_text n = replicate n 0

-- `completion_request_t`; `stop` and `stop_count` are never used.
pub record CompletionRequest : Type 0 where
  pub prompt : List ℕ
  pub model : List ℕ
  pub max_tokens : ℕ
  pub temperature : List ℕ
  pub top_p : List ℕ
  pub top_k : ℕ
  pub frequency_penalty : List ℕ
  pub presence_penalty : List ℕ
  pub stream : Bool
  pub seed : ℕ
  pub echo : Bool
  pub n : ℕ

abbrev pub completion_request_init : CompletionRequest
completion_request_init = record {
  prompt = empty_text max_prompt_length;
  model = empty_text max_model_id_length;
  max_tokens = 64;
  temperature = codes "0.8";
  top_p = codes "0.95";
  top_k = 40;
  frequency_penalty = codes "0.0";
  presence_penalty = codes "0.0";
  stream = false;
  seed = 0xFFFFFFFF;
  echo = false;
  n = 1;
}

pub record ChatMessage : Type 0 where
  pub role : List ℕ
  pub content : List ℕ

abbrev pub empty_message : ChatMessage
empty_message = record { role = empty_text 16; content = empty_text max_prompt_length }

-- `chat_completion_request_t`; `messages` are the first `message_count`. The fields that no code reads
-- or parses are left out.
pub record ChatRequest : Type 0 where
  pub messages : List ChatMessage
  pub model : List ℕ
  pub max_tokens : ℕ
  pub temperature : List ℕ
  pub top_p : List ℕ
  pub stream : Bool

abbrev pub chat_completion_request_init : ChatRequest
chat_completion_request_init = record {
  messages = [];
  model = empty_text max_model_id_length;
  max_tokens = 64;
  temperature = codes "0.8";
  top_p = codes "0.95";
  stream = false;
}

pub record EmbeddingRequest : Type 0 where
  pub input : List ℕ
  pub model : List ℕ

abbrev pub embedding_request_init : EmbeddingRequest
embedding_request_init = record {
  input = empty_text max_prompt_length;
  model = empty_text max_model_id_length;
}

pub record TokenizeRequest : Type 0 where
  pub content : List ℕ
  pub add_special : Bool

abbrev pub tokenize_request_init : TokenizeRequest
tokenize_request_init = record { content = empty_text max_prompt_length; add_special = true }

-- `detokenize_request_t`: the first `token_count` tokens.
abbrev pub DetokenizeRequest : Type 0
DetokenizeRequest = List ℕ

-- `json_parse_string` into a field.
abbrev pub string_field {ℓ} : {R : Type ℓ} → ℕ → List ℕ → (List ℕ → R) → Parser → Read R
string_field size buf store_it p =
    json_parse_string size buf p >>= λ q. some (q.0, q.1, store_it q.2)

-- A number or a Boolean into a field, where there is one.
abbrev pub value_field {ℓ κ} : {A : Type ℓ} {R : Type κ} → R → (A → R) → Option A × Parser → Read R
value_field r store_it (none, p) = refused p r
value_field r store_it (some v, p) = some (true, p, store_it v)

-- `if (max_tokens < 0 || max_tokens > MAX_GENERATION_TOKENS)`.
abbrev pub clamp_tokens : ℕ → ℕ
clamp_tokens v = if leb (2 ^ 31) v || ltb max_generation_tokens v then max_generation_tokens else v

module _ (int_of : List ℕ → ℕ) where
  pub completion_field : List ℕ → Parser → CompletionRequest → Read CompletionRequest
  completion_field key p r =
      if is_key key (codes "prompt")
      then string_field max_prompt_length r.prompt (λ b. record r { prompt = b }) p
      else if is_key key (codes "model")
      then string_field max_model_id_length r.model (λ b. record r { model = b }) p
      else if is_key key (codes "max_tokens")
      then value_field r (λ v. record r { max_tokens = clamp_tokens (int_of v) }) (json_parse_int p)
      else if is_key key (codes "temperature")
      then value_field r (λ v. record r { temperature = v }) (json_parse_number p)
      else if is_key key (codes "top_p")
      then value_field r (λ v. record r { top_p = v }) (json_parse_number p)
      else if is_key key (codes "top_k")
      then value_field r (λ v. record r { top_k = int_of v }) (json_parse_int p)
      else if is_key key (codes "frequency_penalty")
      then value_field r (λ v. record r { frequency_penalty = v }) (json_parse_number p)
      else if is_key key (codes "presence_penalty")
      then value_field r (λ v. record r { presence_penalty = v }) (json_parse_number p)
      else if is_key key (codes "stream")
      then value_field r (λ v. record r { stream = v }) (json_parse_bool p)
      else if is_key key (codes "seed")
      then value_field r (λ v. record r { seed = int_of v }) (json_parse_int p)
      else if is_key key (codes "echo")
      then value_field r (λ v. record r { echo = v }) (json_parse_bool p)
      else if is_key key (codes "n")
      then value_field r (λ v. record r { n = int_of v }) (json_parse_int p)
      else skip_field p r

  pub parse_completion_request : List ℕ → Read CompletionRequest
  parse_completion_request body = parse_object 64 completion_field body completion_request_init

pub tokenize_field : List ℕ → Parser → TokenizeRequest → Read TokenizeRequest
tokenize_field key p r =
    if is_key key (codes "content")
    then string_field max_prompt_length r.content (λ b. record r { content = b }) p
    else if is_key key (codes "add_special")
    then value_field r (λ v. record r { add_special = v }) (json_parse_bool p)
    else skip_field p r

pub parse_tokenize_request : List ℕ → Read TokenizeRequest
parse_tokenize_request body = parse_object 64 tokenize_field body tokenize_request_init

pub embedding_field : List ℕ → Parser → EmbeddingRequest → Read EmbeddingRequest
embedding_field key p r =
    if is_key key (codes "input")
    then string_field max_prompt_length r.input (λ b. record r { input = b }) p
    else if is_key key (codes "model")
    then string_field max_model_id_length r.model (λ b. record r { model = b }) p
    else skip_field p r

pub parse_embedding_request : List ℕ → Read EmbeddingRequest
parse_embedding_request body = parse_object 64 embedding_field body embedding_request_init
