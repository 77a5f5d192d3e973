-- ===== src/Json/Writer/Calls.antt =====
-- Any sequence of writer calls against the text that it stands for.
use cllm.Common.{
  ℕ, ◌^◌, ◌<◌, ◌≡◌, List, [], ◌∷◌, ◌++◌, Bool, true, false, length, All, append-nil, codes,
  if◌then◌else◌,
}
use cllm.CString.Copy.{until_nul}
use cllm.Format.Numerals.{int_text}
use cllm.Json.Writer.{
  Writer, Result, done, ◌>>◌, json_write_object_start, json_write_object_end,
  json_write_array_start, json_write_array_end, json_write_key, json_write_string, json_write_int,
  json_write_bool, json_write_null,
}
use cllm.Json.Writer.Outcome.{Holds, Outcome, Outcome-bind}
use cllm.Json.Writer.Text.{
  comma_text, object_start-Outcome, object_end-Outcome, array_start-Outcome, array_end-Outcome,
  null-Outcome, bool-Outcome,
}
use cllm.Json.Writer.Strings.{string_text, key_text, write_string-Outcome, write_key-Outcome}
use cllm.Json.Writer.Numbers.{write_int-Outcome}

-- A call of the writer's interface.
pub data Call : Type 0 where
  object_start object_end array_start array_end null : Call
  key string : List ℕ → Call
  int : ℕ → Call
  bool : Bool → Call

pub perform : Call → Writer → Result
perform object_start w = json_write_object_start w
perform object_end w = json_write_object_end w
perform array_start w = json_write_array_start w
perform array_end w = json_write_array_end w
perform null w = json_write_null w
perform (key k) w = json_write_key k w
perform (string s) w = json_write_string s w
perform (int v) w = json_write_int v w
perform (bool b) w = json_write_bool b w

-- A caller that stops at the first failure.
unfoldable pub perform_all : List Call → Writer → Result
perform_all [] w = done w
perform_all (call ∷ calls) w = perform call w >> λ w'. perform_all calls w'

-- The text of a call where a comma is due or is not.
abbrev pub call_text : Bool → Call → List ℕ
call_text c object_start = comma_text c ++ codes "{"
call_text c object_end = codes "}"
call_text c array_start = comma_text c ++ codes "["
call_text c array_end = codes "]"
call_text c null = comma_text c ++ codes "null"
call_text c (key k) = key_text c k
call_text c (string s) = string_text c s
call_text c (int v) = comma_text c ++ int_text v
call_text c (bool b) = comma_text c ++ (if b then codes "true" else codes "false")

-- A comma is due behind a value or a closing bracket.
abbrev pub comma_after : Call → Bool
comma_after object_start = false
comma_after array_start = false
comma_after (key k) = false
comma_after _ = true

abbrev pub calls_text : Bool → List Call → List ℕ
calls_text c [] = []
calls_text c (call ∷ calls) = call_text c call ++ calls_text (comma_after call) calls

abbrev pub comma_behind : Bool → List Call → Bool
comma_behind c [] = c
comma_behind c (call ∷ calls) = comma_behind (comma_after call) calls

-- Arguments within the machine's ranges.
abbrev pub InRange : Call → Type 0
InRange (key k) = length (until_nul k) < 2 ^ 31
InRange (int v) = v < 2 ^ 32
InRange _ = Unit

call-Outcome :
    (size : ℕ) (t : List ℕ) (c : Bool) (call : Call) (w : Writer)
    → Holds size t w
    → w.needs_comma ≡ c
    → InRange call
    → Outcome size t (call_text c call) (comma_after call) (perform call w)
unfolding perform
call-Outcome size t c object_start w h e r = object_start-Outcome size t c w h e
call-Outcome size t c object_end w h e r = object_end-Outcome size t c w h e
call-Outcome size t c array_start w h e r = array_start-Outcome size t c w h e
call-Outcome size t c array_end w h e r = array_end-Outcome size t c w h e
call-Outcome size t c null w h e r = null-Outcome size t c w h e
call-Outcome size t c (key k) w h e r = write_key-Outcome size k t c w h e r
call-Outcome size t c (string s) w h e r = write_string-Outcome size s t c w h e
call-Outcome size t c (int v) w h e r = write_int-Outcome size v t c w h e r
call-Outcome size t c (bool b) w h e r = bool-Outcome size b t c w h e

-- Any sequence of calls on a writer whose buffer holds the text `t`: if all succeed, the buffer
-- holds `t` and the text of the calls, with commas between the values and strings escaped; if one
-- fails, `t` and that text with a terminator do not fit into `size` bytes, and the buffer holds `t` and
-- a front of that text; no call stores outside the buffer. Keys are shorter than 2 ^ 31, and integers have 32 bits.
pub perform_all-Outcome :
    (size : ℕ) (calls : List Call) (t : List ℕ) (c : Bool) (w : Writer)
    → Holds size t w
    → w.needs_comma ≡ c
    → All InRange calls
    → Outcome size t (calls_text c calls) (comma_behind c calls) (perform_all calls w)
unfolding perform_all
perform_all-Outcome size [] t c w h e r = (rw append-nil h, e)
perform_all-Outcome size (call ∷ calls) t c w h e r =
    Outcome-bind size t (call_text c call) (calls_text (comma_after call) calls) (comma_after call)
      (comma_behind (comma_after call) calls) (perform call w) _
      (call-Outcome size t c call w h e r.0)
      (λ v hv ev.
        perform_all-Outcome size calls (t ++ call_text c call) (comma_after call) v hv ev r.1)
