-- ===== src/Api/Answer/Safe.antt =====
-- The responses that the handlers build: what is written, and that it stays inside the body.
use cllm.Common.{
  ℕ, ◌+◌, ◌^◌, ◌<◌, ◌≡◌, refl, List, [], ◌∷◌, ◌++◌, arith, Bool, true, false, length, length-append,
  All, append-nil, append_assoc, codes,
}
use cllm.Common.Maybe.{Ensures, ensures, Ensures-bind}
use cllm.CString.Copy.{until_nul}
use cllm.Format.Numerals.{int_text}
use cllm.Json.Writer.{
  Writer, Result, done, failed, fault, ◌>>◌, json_write_key, json_write_kv_null,
  json_write_kv_string, json_write_kv_int, json_write_kv_int64,
}
use cllm.Json.Writer.Outcome.{Holds, Outcome, Outcome-bind}
use cllm.Json.Writer.Text.{
  comma_text, object_start-Outcome, object_end-Outcome, array_start-Outcome, array_end-Outcome,
  null-Outcome,
}
use cllm.Json.Writer.Strings.{string_text, key_text, write_string-Outcome, write_key-Outcome}
use cllm.Json.Writer.Numbers.{write_int-Outcome, write_int64-Outcome}
use cllm.Json.Writer.Arrays.{
  IsInt, IsFloat, float_text, array_text, write_int_array-Outcome, write_float_array-Outcome,
}
use cllm.Api.Answer.{
  Call, object_start, object_end, array_start, array_end, key, kv_null, kv_string, kv_int, kv_int64,
  int_array, float_array, perform, ignored, perform_each,
}

-- The text of a call where a comma is due or is not.
abbrev pub call_text : Bool → Call → List ℕ
call_text c object_start = comma_text c ++ codes "{"
call_text c object_end = codes "}"
call_text c array_start = comma_text c ++ codes "["
call_text c array_end = codes "]"
call_text c (key k) = key_text c k
call_text c (kv_null k) = key_text c k ++ codes "null"
call_text c (kv_string k s) = key_text c k ++ string_text false s
call_text c (kv_int k v) = key_text c k ++ int_text v
call_text c (kv_int64 k low high) = key_text c k ++ codes "%lld"
call_text c (int_array l) = array_text int_text c l
call_text c (float_array l) = array_text float_text c l

abbrev pub comma_after : Call → Bool
comma_after object_start = false
comma_after array_start = false
comma_after (key k) = false
comma_after _ = true

abbrev pub calls_text : Bool → List Call → List ℕ
calls_text c [] = []
calls_text c (call ∷ calls) = call_text c call ++ calls_text (comma_after call) calls

-- Arguments within the machine's ranges.
abbrev pub InRange : Call → Type 0
InRange (key k) = length (until_nul k) < 2 ^ 31
InRange (kv_null k) = length (until_nul k) < 2 ^ 31
InRange (kv_string k s) = length (until_nul k) < 2 ^ 31
InRange (kv_int k v) = (length (until_nul k) < 2 ^ 31) × IsInt v
InRange (kv_int64 k low high) = length (until_nul k) < 2 ^ 31
InRange (int_array l) = All IsInt l
InRange (float_array l) = All IsFloat l
InRange _ = Unit

module _ (size : ℕ) where
  -- A key, and a value behind it.
  behind_key :
      (t : List ℕ) (c : Bool) (k s : List ℕ) (w : Writer) (value : Writer → Result)
      → Holds size t w
      → w.needs_comma ≡ c
      → length (until_nul k) < 2 ^ 31
      → ((v : Writer)
          → Holds size (t ++ key_text c k) v
          → v.needs_comma ≡ false
          → Outcome size (t ++ key_text c k) s true (value v))
      → Outcome size t (key_text c k ++ s) true (json_write_key k w >> value)
  behind_key t c k s w value h e r f =
      Outcome-bind size t (key_text c k) s false true _ value (write_key-Outcome size k t c w h e r)
        f

  call-Outcome :
      (t : List ℕ) (c : Bool) (call : Call) (w : Writer)
      → Holds size t w
      → w.needs_comma ≡ c
      → InRange call
      → Outcome size t (call_text c call) (comma_after call) (perform call w)
  unfolding perform json_write_kv_null json_write_kv_string json_write_kv_int json_write_kv_int64
  call-Outcome t c object_start w h e r = object_start-Outcome size t c w h e
  call-Outcome t c object_end w h e r = object_end-Outcome size t c w h e
  call-Outcome t c array_start w h e r = array_start-Outcome size t c w h e
  call-Outcome t c array_end w h e r = array_end-Outcome size t c w h e
  call-Outcome t c (key k) w h e r = write_key-Outcome size k t c w h e r
  call-Outcome t c (kv_null k) w h e r =
      behind_key t c k (codes "null") w _ h e r (λ v g d. null-Outcome size _ false v g d)
  call-Outcome t c (kv_string k s) w h e r =
      behind_key t c k (string_text false s) w _ h e r
        (λ v g d. write_string-Outcome size s _ false v g d)
  call-Outcome t c (kv_int k n) w h e r =
      behind_key t c k (int_text n) w _ h e r.0
        (λ v g d. write_int-Outcome size n _ false v g d r.1)
  call-Outcome t c (kv_int64 k low high) w h e r =
      behind_key t c k (codes "%lld") w _ h e r
        (λ v g d. write_int64-Outcome size low high _ false v g d)
  call-Outcome t c (int_array l) w h e r = write_int_array-Outcome size l t c w h e r
  call-Outcome t c (float_array l) w h e r = write_float_array-Outcome size l t c w h e r

  -- Some text is in the buffer.
  abbrev pub Held : Writer → Type 0
  Held w = (t : List ℕ) × Holds size t w

  ignored-Held :
      (t s : List ℕ) (c : Bool) (r : Result) → Outcome size t s c r → Ensures Held (ignored r)
  ignored-Held t s c (done w) o = ensures w (t ++ s, o.0)
  ignored-Held t s c (failed w) o = ensures w (t ++ o.1.0, o.1.3)
  ignored-Held t s c fault o = absurd o

  -- Whether or not the calls fit, none of them stores outside the buffer.
  pub perform_each-Held :
      (calls : List Call) (w : Writer)
      → Held w
      → All InRange calls
      → Ensures Held (perform_each calls w)
  unfolding perform_each
  perform_each-Held [] w h r = ensures w h
  perform_each-Held (call ∷ calls) w h r =
      Ensures-bind
        (ignored-Held h.0 (call_text w.needs_comma call) (comma_after call) (perform call w)
          (call-Outcome h.0 w.needs_comma call w h.1 refl r.0))
        (λ v k. perform_each-Held calls v k r.1)

  -- The buffer holds this text.
  abbrev pub Wrote : List ℕ → Writer → Type 0
  Wrote t w = Holds size t w

  ignored-Wrote :
      (t s : List ℕ) (c : Bool) (r : Result)
      → Outcome size t s c r
      → length t + length s < size
      → Ensures (λ w. Holds size (t ++ s) w × (w.needs_comma ≡ c)) (ignored r)
  ignored-Wrote t s c (done w) o h = ensures w o
  ignored-Wrote t s c (failed w) o h = absurd (omega (arith, o.0, h))
  ignored-Wrote t s c fault o h = absurd o

  -- Calls that fit are written whole.
  pub perform_each-Wrote :
      (calls : List Call) (t : List ℕ) (c : Bool) (w : Writer)
      → Holds size t w
      → w.needs_comma ≡ c
      → All InRange calls
      → length t + length (calls_text c calls) < size
      → Ensures (Wrote (t ++ calls_text c calls)) (perform_each calls w)
  unfolding perform_each
  perform_each-Wrote [] t c w h e r k = ensures w (rw append-nil h)
  perform_each-Wrote (call ∷ calls) t c w h e r k =
      let here = call_text c call in
      let later = calls_text (comma_after call) calls in
      let all = length-append here later in
      rw (← append_assoc t here later) (
        Ensures-bind
          (ignored-Wrote t here (comma_after call) (perform call w)
            (call-Outcome t c call w h e r.0) (omega (arith, all, k)))
          (λ v b.
            perform_each-Wrote calls (t ++ here) (comma_after call) v b.0 b.1 r.1
              (omega (arith, all, k, length-append t here))))
