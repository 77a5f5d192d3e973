-- ===== src/SafeString.antt =====
-- src/safestring.c: bounds-checked string helpers. A buffer is the list of its `dst_size` bytes; a
-- result is the bytes behind the call and the returned number. Null pointers are not modelled.
use cllm.Common.{
  ℕ, zero, suc, ◌+◌, ◌-◌, ◌^◌, Bool, true, false, ◌||◌, Option, none, some, List, [], ◌∷◌, ◌++◌,
  ltb, leb, ◌==◌, if◌then◌else◌, length, take, drop,
}
use cllm.Common.Maybe.{◌>>=◌}
use cllm.CString.{strlen, first, rest_of, store}
use cllm.Format.{Arg, vsnprintf}
pub mod Bounds
pub mod Tests

-- The copying loop with `dst[i] = '\0'` behind it, from `dst` on: `n` is what is left of its bound.
pub copy_loop : ℕ → List ℕ → List ℕ → List ℕ × ℕ
copy_loop n [] src = ([], 0)
copy_loop zero (x ∷ dst) src = (0 ∷ dst, 0)
copy_loop (suc n) (x ∷ dst) [] = (0 ∷ dst, 0)
copy_loop (suc n) (x ∷ dst) (c ∷ src) =
    let (copied, i) = copy_loop n dst src in if c == 0 then (0 ∷ dst, 0) else (c ∷ copied, suc i)

abbrev pub safe_strcpy : List ℕ → List ℕ → List ℕ × ℕ
safe_strcpy dst src = if length dst == 0 then (dst, 0) else copy_loop (length dst - 1) dst src

abbrev pub smaller : ℕ → ℕ → ℕ
smaller a b = if ltb a b then a else b

pub safe_strncpy : List ℕ → List ℕ → ℕ → List ℕ × ℕ
safe_strncpy dst src n =
    if length dst == 0 then (dst, 0) else copy_loop (smaller (length dst - 1) n) dst src

-- `dst_len` is the length of the string in `dst`, or all of `dst_size`.
pub safe_strcat : List ℕ → List ℕ → List ℕ × ℕ
safe_strcat dst src =
    let dst_len = strlen dst in
    let (copied, n) = safe_strcpy (drop dst_len dst) src in
    if length dst == 0 || leb (length dst) dst_len
    then (dst, 0)
    else (take dst_len dst ++ copied, dst_len + n)

-- `*offset`, and the result.
pub record Appended : Type 0 where
  pub dst : List ℕ
  pub offset : ℕ
  pub result : ℕ

-- What is done with the `int` that `vsnprintf` returns, as a number below 2 ^ 32: from 2 ^ 31 on it is
-- negative. The result of a cut-off text is computed from the new offset.
abbrev pub appended : List ℕ → ℕ → ℕ → List ℕ → Option Appended
appended dst offset n tail =
    let size = length dst in
    let whole = take offset dst ++ tail in
    if leb (2 ^ 31) n
    then some (record { dst = whole; offset = offset; result = n })
    else if leb (size - offset) n
    then (store whole (size - 1) 0 >>= λ b.
        some (record { dst = b; offset = size - 1; result = size - 1 - (size - 1) }))
    else some (record { dst = whole; offset = offset + n; result = n })

-- `none` is the result -1, or a fault of `vsnprintf`.
pub safe_snprintf_append : List ℕ → ℕ → List ℕ → List Arg → Option Appended
safe_snprintf_append dst offset format args =
    let call = vsnprintf (drop offset dst) (length dst - offset) format args in
    if length dst == 0 || leb (length dst) offset
    then none
    else (call >>= λ r. appended dst offset r.0 r.1)
