-- ===== src/Api/Bodies.antt =====
-- The writer calls and the texts that the handlers of src/api_v1.c build their bodies from.
use cllm.Common.{ℕ, ◌+◌, ◌-◌, ◌%◌, ◌^◌, List, [], ◌∷◌, ◌++◌, codes, take, Option, none, some}
use cllm.CString.{strlen}
use cllm.SafeString.{safe_strcpy, safe_strcat}
use cllm.Api.Requests.{ChatMessage, DetokenizeRequest, max_prompt_length}
use cllm.Api.Answer.{
  Context, Call, object_start, object_end, array_start, array_end, key, kv_null, kv_string, kv_int,
  kv_int64, int_array, float_array, model_id,
}
pub mod InRange

abbrev pub usage : ℕ → ℕ → List Call
usage prompt completion =
    key (codes "usage")
    ∷ object_start
    ∷ kv_int (codes "prompt_tokens") prompt
    ∷ kv_int (codes "completion_tokens") completion
    ∷ kv_int (codes "total_tokens") ((prompt + completion) % 2 ^ 32)
    ∷ object_end
    ∷ []

abbrev pub identity : Context → List ℕ → List ℕ → List Call
identity c id kind =
    object_start
    ∷ kv_string (codes "id") id
    ∷ kv_string (codes "object") kind
    ∷ kv_int64 (codes "created") c.created_time.0 c.created_time.1
    ∷ kv_string (codes "model") model_id
    ∷ key (codes "choices")
    ∷ array_start
    ∷ object_start
    ∷ []

abbrev pub completion_calls : Context → List ℕ → List ℕ → ℕ → List Call
completion_calls c id text n =
    identity c id (codes "text_completion")
    ++ (kv_string (codes "text") text
        ∷ kv_int (codes "index") 0
        ∷ kv_null (codes "logprobs")
        ∷ kv_string (codes "finish_reason") (codes "stop")
        ∷ object_end
        ∷ array_end
        ∷ [])
    ++ usage n 1
    ++ (object_end ∷ [])

abbrev pub chat_calls : Context → List ℕ → List ℕ → ℕ → ℕ → List Call
chat_calls c id text prompt completion =
    identity c id (codes "chat.completion")
    ++ (kv_int (codes "index") 0
        ∷ key (codes "message")
        ∷ object_start
        ∷ kv_string (codes "role") (codes "assistant")
        ∷ kv_string (codes "content") text
        ∷ object_end
        ∷ kv_string (codes "finish_reason") (codes "stop")
        ∷ object_end
        ∷ array_end
        ∷ [])
    ++ usage prompt completion
    ++ (object_end ∷ [])

abbrev pub embedding_calls : List (ℕ × ℕ) → ℕ → List Call
embedding_calls embedding n =
    object_start
    ∷ kv_string (codes "object") (codes "list")
    ∷ key (codes "data")
    ∷ array_start
    ∷ object_start
    ∷ kv_string (codes "object") (codes "embedding")
    ∷ kv_int (codes "index") 0
    ∷ key (codes "embedding")
    ∷ float_array embedding
    ∷ object_end
    ∷ array_end
    ∷ kv_string (codes "model") model_id
    ∷ key (codes "usage")
    ∷ object_start
    ∷ kv_int (codes "prompt_tokens") n
    ∷ kv_int (codes "total_tokens") n
    ∷ object_end
    ∷ object_end
    ∷ []

abbrev pub models_calls : Context → List Call
models_calls c =
    object_start
    ∷ kv_string (codes "object") (codes "list")
    ∷ key (codes "data")
    ∷ array_start
    ∷ object_start
    ∷ kv_string (codes "id") model_id
    ∷ kv_string (codes "object") (codes "model")
    ∷ kv_int64 (codes "created") c.created_time.0 c.created_time.1
    ∷ kv_string (codes "owned_by") (codes "cllm-unikernel")
    ∷ object_end
    ∷ array_end
    ∷ object_end
    ∷ []

-- `safe_strcat` of the contents, with a line feed between two.
pub join_messages : List ℕ → List ChatMessage → List ℕ
join_messages prompt [] = prompt
join_messages prompt (m ∷ []) = (safe_strcat prompt m.content).0
join_messages prompt (m ∷ n ∷ l) =
    join_messages (safe_strcat (safe_strcat prompt m.content).0 (10 ∷ [])).0 (n ∷ l)

-- The lengths of the contents, as the `int` `prompt_tokens`.
pub count_messages : List ChatMessage → ℕ
count_messages [] = 0
count_messages (m ∷ l) = (strlen m.content + count_messages l) % 2 ^ 32

abbrev pub greeting : List ℕ
greeting = codes "Hello! I'm a placeholder response from the CLLM unikernel."

-- `(int)(unsigned char)content[i]`.
pub bytes_of : List ℕ → List ℕ
bytes_of [] = []
bytes_of (c ∷ l) = c % 256 ∷ bytes_of l

-- `tokens[i] & 0x7F`.
pub low_bits : List ℕ → List ℕ
low_bits [] = []
low_bits (t ∷ l) = t % 128 ∷ low_bits l

-- The fallback of `handle_detokenize`.
abbrev pub ascii_text : DetokenizeRequest → List ℕ
ascii_text tokens = low_bits (take (max_prompt_length - 1) tokens) ++ (0 ∷ [])
