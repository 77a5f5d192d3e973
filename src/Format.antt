-- ===== src/Format.antt =====
-- src/string.c: `vsnprintf` and the helpers that it appends by.
-- `size` is the room that the caller states, `buf` the object behind `str`; a store outside the
-- object is the fault `none`, and so is a read past the end of the format or of the arguments.
use mathlib.Core.Option
use cllm.Common.{
  ℕ, zero, suc, ◌+◌, ◌-◌, ◌/◌, ◌%◌, ◌^◌, Bool, true, false, not, ◌&&◌, ◌||◌, Option, none, some,
  List, [], ◌∷◌, ltb, ◌==◌, if◌then◌else◌, get_or, codes,
}
use cllm.Common.Maybe.{◌>>=◌}
use cllm.CString.{first, rest_of, store}
pub mod Emit
pub mod Digits
pub mod Truncate
pub mod Numerals
pub mod Plain
pub mod Tests

-- `str` and `*off`.
pub record Out : Type 0 where
  pub buf : List ℕ
  pub off : ℕ

abbrev pub advance : Out → ℕ
advance o = (o.off + 1) % 2 ^ 32

pub append_char : ℕ → ℕ → Out → Option Out
append_char size c o =
    if ltb (advance o) size
    then Option.map (λ b. record { buf = b; off = advance o }) (store o.buf o.off c)
    else some (record o { off = advance o })

pub append_str : ℕ → List ℕ → Out → Option Out
append_str size [] o = some o
append_str size (c ∷ s) o = elim (c == 0) [
  | true ↦ some o
  | false ↦ append_char size c o >>= λ o'. append_str size s o'
]

-- `digits[d]`.
abbrev pub digit : Bool → ℕ → ℕ
digit upper d = get_or (if upper then codes "0123456789ABCDEF" else codes "0123456789abcdef") d 0

-- The first loop of `append_uint`, with the rounds that `buf` has room for; `buf` is kept from its
-- last element to its first, the order in which the second loop reads it.
unfoldable pub fill_digits : ℕ → ℕ → ℕ → Bool → List ℕ → List ℕ
fill_digits zero v base upper buf = buf
fill_digits (suc room) v base upper buf = elim (v == 0) [
  | true ↦ buf
  | false ↦ fill_digits room (v / base) base upper (digit upper (v % base) ∷ buf)
]

unfoldable pub uint_digits : ℕ → ℕ → Bool → List ℕ
unfolding fill_digits
uint_digits v base upper = if v == 0 then b'0' ∷ [] else fill_digits 32 v base upper []

-- The second loop of `append_uint`.
pub append_buf : ℕ → List ℕ → Out → Option Out
append_buf size [] o = some o
append_buf size (c ∷ cs) o = append_char size c o >>= λ o'. append_buf size cs o'

pub append_uint : ℕ → ℕ → ℕ → Bool → Out → Option Out
append_uint size v base upper = append_buf size (uint_digits v base upper)

-- The arguments behind `...`: 32-bit words, and pointers to strings. NULL is the word 0.
pub data Arg : Type 0 where
  word : ℕ → Arg
  text : List ℕ → Arg

-- What the characters behind a `%` ask for.
pub data Conversion : Type 0 where
  str int uint hex hex_upper pointer size_t percent : Conversion
  unsupported : ℕ → Conversion

-- The tests on `format[i]`, in order.
pub classify : ℕ → ℕ → Conversion
classify c next =
    if c == b's'
    then str
    else if c == b'd' || c == b'i'
    then int
    else if c == b'u'
    then uint
    else if c == b'x'
    then hex
    else if c == b'X'
    then hex_upper
    else if c == b'p'
    then pointer
    else if c == b'z' && next == b'u'
    then size_t
    else if c == b'%'
    then percent
    else unsupported c

abbrev pub conversion_at : List ℕ → Conversion
unfolding classify
conversion_at rest = classify (first rest) (first (rest_of rest))

-- How far `i` moves behind the `%`.
pub width : Conversion → ℕ
width size_t = 2
width _ = 1

-- `-(long)v` for a negative `v`, given as its bit pattern.
abbrev pub negate32 : ℕ → ℕ
negate32 w = (2 ^ 32 - w) % 2 ^ 32

abbrev pub null_text : List ℕ
null_text = codes "(null)"

-- One branch of the loop's body: what is appended, and the arguments left.
pub convert : ℕ → Conversion → List Arg → Out → Option (Out × List Arg)
convert size str (text s ∷ args) o = append_str size s o >>= λ o'. some (o', args)
convert size str (word w ∷ args) o =
    if w == 0 then (append_str size null_text o >>= λ o'. some (o', args)) else none
convert size int (word w ∷ args) o =
    if ltb w (2 ^ 31)
    then (append_uint size w 10 false o >>= λ o'. some (o', args))
    else (append_char size b'-' o >>= (λ o'. append_uint size (negate32 w) 10 false o') >>= λ o'.
        some (o', args))
convert size uint (word w ∷ args) o = append_uint size w 10 false o >>= λ o'. some (o', args)
convert size hex (word w ∷ args) o = append_uint size w 16 false o >>= λ o'. some (o', args)
convert size hex_upper (word w ∷ args) o = append_uint size w 16 true o >>= λ o'. some (o', args)
convert size pointer (word w ∷ args) o =
    append_str size (codes "0x") o >>= (λ o'. append_uint size w 16 false o') >>= λ o'.
    some (o', args)
convert size size_t (word w ∷ args) o = append_uint size w 10 false o >>= λ o'. some (o', args)
convert size percent args o = append_char size b'%' o >>= λ o'. some (o', args)
convert size (unsupported c) args o =
    append_char size b'%' o >>= (λ o'. append_char size c o') >>= λ o'. some (o', args)
convert size _ _ o = none

-- The loop over the format; the first argument counts the characters that `i++` inside the body
-- has stepped over.
pub format_loop : ℕ → ℕ → List ℕ → List Arg → Out → Option Out
format_loop size skip [] args o = some o
format_loop size (suc skip) (c ∷ rest) args o = format_loop size skip rest args o
format_loop size zero (c ∷ rest) args o =
    if c == 0
    then some o
    else if not (c == b'%')
    then (append_char size c o >>= λ o'. format_loop size zero rest args o')
    else if first rest == 0
    then none
    else (convert size (conversion_at rest) args o >>= λ r.
        format_loop size (width (conversion_at rest)) rest r.1 r.0)

-- The terminator, where there is room for it, and the returned length.
pub terminate : ℕ → Out → Option (ℕ × List ℕ)
terminate size o =
    if ltb 0 size
    then (store o.buf (if ltb o.off size then o.off else size - 1) 0 >>= λ b. some (o.off, b))
    else some (o.off, o.buf)

pub vsnprintf : List ℕ → ℕ → List ℕ → List Arg → Option (ℕ × List ℕ)
vsnprintf buf size format args =
    format_loop size 0 format args (record { buf = buf; off = 0 }) >>= λ o. terminate size o
