-- ===== src/Json/Writer.antt =====
-- The JSON writer of src/json.c, over a caller's buffer.
-- An operation returns 0 (`done`) or -1 (`failed`); either way the writer keeps what was written. A
-- store outside the buffer is `fault`. Values are bit patterns of 32 bits.
use cllm.Common.{
  ℕ, zero, suc, ◌+◌, ◌-◌, ◌/◌, ◌%◌, ◌^◌, Bool, true, false, not, ◌&&◌, ◌||◌, Option, none, some,
  List, [], ◌∷◌, ◌++◌, ltb, leb, ◌==◌, if◌then◌else◌, codes, length, replicate,
}
use cllm.Common.Int.{ℤ, pos, ◌+ℤ◌, ◌-ℤ◌}
use cllm.Common.Maybe.{◌>>=◌}
use cllm.CString.{strlen, strncpy, at_offset, store}
use cllm.Format.{Arg, word, vsnprintf, negate32}
pub mod Outcome
pub mod Text
pub mod Strings
pub mod Numbers
pub mod Calls
pub mod Arrays
pub mod Tests

-- `json_writer_t`.
pub record Writer : Type 0 where
  pub buf : List ℕ
  pub size : ℕ
  pub offset : ℕ
  pub needs_comma : Bool
  pub depth : ℤ

pub data Result : Type 0 where
  done failed : Writer → Result
  fault : Result

-- `if (a(w) != 0) return -1;` before what follows.
infixl 5 ◌>>◌
abbrev pub ◌>>◌ : Result → (Writer → Result) → Result
done w >> k = k w
failed w >> k = failed w
fault >> k = fault

abbrev pub fresh : List ℕ → ℕ → Writer
fresh buf size = record { buf = buf; size = size; offset = 0; needs_comma = false; depth = pos 0 }

pub json_writer_init : List ℕ → ℕ → Option Writer
json_writer_init buf size =
    if ltb 0 size then (store buf 0 0 >>= λ b. some (fresh b size)) else some (fresh buf size)

-- The writes behind the guard of `write_raw`; `to` is the new offset.
abbrev pub copy_in : Writer → List ℕ → ℕ → ℕ → Option (List ℕ)
copy_in w str len to = at_offset w.offset (λ dest. strncpy dest str len) w.buf >>= λ b. store b to 0

abbrev pub placed_in : Writer → ℕ → Option (List ℕ) → Result
placed_in w to none = fault
placed_in w to (some b) = done (record w { buf = b; offset = to })

pub write_raw : List ℕ → ℕ → Writer → Result
write_raw str len w =
    let to = (w.offset + len) % 2 ^ 32 in
    if leb w.size to then failed w else placed_in w to (copy_in w str len to)

pub maybe_comma : Writer → Result
maybe_comma w = if w.needs_comma then write_raw (codes ",") 1 w else done w

abbrev pub after_open : Writer → Result
after_open w = done (record w { needs_comma = false; depth = w.depth +ℤ pos 1 })

abbrev pub after_close : Writer → Result
after_close w = done (record w { needs_comma = true; depth = w.depth -ℤ pos 1 })

abbrev pub after_value : Writer → Result
after_value w = done (record w { needs_comma = true })

abbrev pub after_key : Writer → Result
after_key w = done (record w { needs_comma = false })

pub json_write_object_start : Writer → Result
json_write_object_start w = maybe_comma w >> write_raw (codes "{") 1 >> after_open

pub json_write_object_end : Writer → Result
json_write_object_end w = write_raw (codes "}") 1 w >> after_close

pub json_write_array_start : Writer → Result
json_write_array_start w = maybe_comma w >> write_raw (codes "[") 1 >> after_open

pub json_write_array_end : Writer → Result
json_write_array_end w = write_raw (codes "]") 1 w >> after_close

abbrev pub quote : List ℕ
quote = b'"' ∷ []

pub json_write_key : List ℕ → Writer → Result
json_write_key key w =
    maybe_comma w
    >> write_raw quote 1
    >> write_raw key (strlen key)
    >> write_raw (b'"' ∷ b':' ∷ []) 2
    >> after_key

-- The switch on one character: what is written for it, `none` where it is skipped.
unfoldable pub escaped : ℕ → Option (List ℕ)
escaped c =
    if c == b'"'
    then some (b'\\' ∷ b'"' ∷ [])
    else if c == b'\\'
    then some (b'\\' ∷ b'\\' ∷ [])
    else if c == 8
    then some (b'\\' ∷ b'b' ∷ [])
    else if c == 12
    then some (b'\\' ∷ b'f' ∷ [])
    else if c == 10
    then some (b'\\' ∷ b'n' ∷ [])
    else if c == 13
    then some (b'\\' ∷ b'r' ∷ [])
    else if c == 9
    then some (b'\\' ∷ b't' ∷ [])
    else if ltb c 32
    then none
    else some (c ∷ [])

abbrev pub write_escaped : Option (List ℕ) → Writer → Result
write_escaped none w = done w
write_escaped (some s) w = write_raw s (strlen s) w

-- The loop over the value.
pub write_chars : List ℕ → Writer → Result
write_chars [] w = done w
write_chars (c ∷ s) w = elim (c == 0) [
  | true ↦ done w
  | false ↦ write_escaped (escaped c) w >> λ w'. write_chars s w'
]

pub json_write_string : List ℕ → Writer → Result
json_write_string value w =
    maybe_comma w >> write_raw quote 1 >> write_chars value >> write_raw quote 1 >> after_value

-- `char num[32]`, and the text that `snprintf` puts there.
abbrev pub write_num : Option (ℕ × List ℕ) → Writer → Result
write_num none w = fault
write_num (some (len, num)) w = if leb 32 len then failed w else write_raw num len w

abbrev pub num : List ℕ
num = replicate 32 0

pub json_write_int : ℕ → Writer → Result
json_write_int value w =
    maybe_comma w >> write_num (vsnprintf num 32 (codes "%d") (word value ∷ [])) >> after_value

-- A `long long` argument is two words.
pub json_write_int64 : ℕ → ℕ → Writer → Result
json_write_int64 low high w =
    maybe_comma w
    >> write_num (vsnprintf num 32 (codes "%lld") (word low ∷ word high ∷ []))
    >> after_value

-- `while (fracpart % 10 == 0 && fracpart > 0)`, with the rounds that a value below 10 ^ k can take.
pub trim_zeros : ℕ → ℕ → ℕ
trim_zeros zero f = f
trim_zeros (suc k) f = elim (f % 10 == 0 && ltb 0 f) [ true ↦ trim_zeros k (f / 10) | false ↦ f ]

-- `if (fracpart < 0) fracpart = -fracpart;`
pub magnitude : ℕ → ℕ
magnitude frac = if leb (2 ^ 31) frac then negate32 frac else frac

-- The two calls of `snprintf`. Ten rounds trim any 32-bit value.
pub format_float : ℕ → ℕ → Option (ℕ × List ℕ)
format_float intpart fracpart =
    if fracpart == 0
    then vsnprintf num 32 (codes "%d.0") (word intpart ∷ [])
    else vsnprintf num 32 (codes "%d.%d") (word intpart ∷ word (trim_zeros 10 fracpart) ∷ [])

-- The float enters as the two patterns that the code truncates it to: `(int)value` and
-- `(int)((value - intpart) * 1000000)`.
pub json_write_float : ℕ → ℕ → Writer → Result
json_write_float intpart frac w =
    maybe_comma w >> write_num (format_float intpart (magnitude frac)) >> after_value

pub json_write_bool : Bool → Writer → Result
json_write_bool value w =
    maybe_comma w
    >> (λ w'. if value then write_raw (codes "true") 4 w' else write_raw (codes "false") 5 w')
    >> after_value

pub json_write_null : Writer → Result
json_write_null w = maybe_comma w >> write_raw (codes "null") 4 >> after_value

unfoldable pub json_write_kv_string : List ℕ → List ℕ → Writer → Result
json_write_kv_string key value w = json_write_key key w >> json_write_string value

unfoldable pub json_write_kv_int : List ℕ → ℕ → Writer → Result
json_write_kv_int key value w = json_write_key key w >> json_write_int value

unfoldable pub json_write_kv_int64 : List ℕ → ℕ → ℕ → Writer → Result
json_write_kv_int64 key low high w = json_write_key key w >> json_write_int64 low high

pub json_write_kv_float : List ℕ → ℕ → ℕ → Writer → Result
json_write_kv_float key intpart frac w = json_write_key key w >> json_write_float intpart frac

pub json_write_kv_bool : List ℕ → Bool → Writer → Result
json_write_kv_bool key value w = json_write_key key w >> json_write_bool value

unfoldable pub json_write_kv_null : List ℕ → Writer → Result
json_write_kv_null key w = json_write_key key w >> json_write_null

-- The loops of the array writers.
pub write_ints : List ℕ → Writer → Result
write_ints [] w = done w
write_ints (v ∷ vs) w = json_write_int v w >> λ w'. write_ints vs w'

pub json_write_int_array : List ℕ → Writer → Result
json_write_int_array arr w = json_write_array_start w >> write_ints arr >> json_write_array_end

pub write_floats : List (ℕ × ℕ) → Writer → Result
write_floats [] w = done w
write_floats ((i, f) ∷ vs) w = json_write_float i f w >> λ w'. write_floats vs w'

pub json_write_float_array : List (ℕ × ℕ) → Writer → Result
json_write_float_array arr w = json_write_array_start w >> write_floats arr >> json_write_array_end

abbrev pub json_writer_length : Writer → ℕ
json_writer_length w = w.offset
