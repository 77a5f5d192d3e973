-- ===== src/CString.antt =====
-- src/string.c: the string and memory functions of the C library subset.
-- A pointer into an object is the list of the bytes from there to the object's end. A string's
-- terminator is a 0 in it, or the end of the list. `none` is a write outside the object.
use mathlib.Core.Option
use cllm.Common.{
  ℕ, zero, suc, ◌+◌, ◌-◌, ◌%◌, Bool, true, false, ◌&&◌, not, Option, none, some, List, [], ◌∷◌, ltb,
  ◌==◌, if◌then◌else◌,
}
use cllm.Common.Int.{ℤ, pos, negsuc, sub_ℕ, ◌-ℤ◌}
pub mod Copy
pub mod Compare
pub mod Tests

-- An `int` from a (signed) `char`.
abbrev pub signed_char : ℕ → ℤ
signed_char c = if ltb c 128 then pos c else negsuc (255 - c)

unfoldable pub strlen : List ℕ → ℕ
strlen [] = 0
strlen (c ∷ s) = if c == 0 then 0 else suc (strlen s)

-- The read `s[0]`.
abbrev pub first : List ℕ → ℕ
first [] = 0
first (c ∷ s) = c

abbrev pub rest_of : List ℕ → List ℕ
rest_of [] = []
rest_of (c ∷ s) = s

unfoldable pub strncmp : List ℕ → List ℕ → ℕ → ℤ
strncmp s1 s2 zero = pos 0
strncmp s1 s2 (suc n) =
    let later = strncmp (rest_of s1) (rest_of s2) n in
    if not (first s1 == first s2)
    then signed_char (first s1) -ℤ signed_char (first s2)
    else if first s1 == 0
    then pos 0
    else later

pub strcmp : List ℕ → List ℕ → ℤ
strcmp [] s2 = pos 0 -ℤ pos (first s2)
strcmp (c ∷ s1) s2 =
    let later = strcmp s1 (rest_of s2) in
    if not (c == 0) && c == first s2 then later else pos c -ℤ pos (first s2)

-- The objects are at least `n` bytes long; `none` is a read outside.
unfoldable pub memcmp : List ℕ → List ℕ → ℕ → Option ℤ
memcmp a b zero = some (pos 0)
memcmp (x ∷ a) (y ∷ b) (suc n) =
    let later = memcmp a b n in if not (x == y) then some (pos x -ℤ pos y) else later
memcmp [] b (suc n) = none
memcmp (x ∷ a) [] (suc n) = none

abbrev pub prepend : ℕ → Option (List ℕ) → Option (List ℕ)
prepend c = Option.map (λ s. c ∷ s)

-- `memset`; the padding loop of `strncpy` is the same at 0.
pub memset : List ℕ → ℕ → ℕ → Option (List ℕ)
memset s c zero = some s
memset [] c (suc n) = none
memset (x ∷ s) c (suc n) = prepend (c % 256) (memset s c n)

pub strncpy : List ℕ → List ℕ → ℕ → Option (List ℕ)
unfolding memset
strncpy dest src zero = some dest
strncpy [] src (suc n) = none
strncpy (x ∷ dest) [] (suc n) = memset (x ∷ dest) 0 (suc n)
strncpy (x ∷ dest) (c ∷ src) (suc n) =
    let copied = strncpy dest src n in
    if c == 0 then memset (x ∷ dest) 0 (suc n) else prepend c copied

-- A read outside `src` is a fault as well.
pub memcpy : List ℕ → List ℕ → ℕ → Option (List ℕ)
memcpy dest src zero = some dest
memcpy (x ∷ dest) (c ∷ src) (suc n) = prepend c (memcpy dest src n)
memcpy [] src (suc n) = none
memcpy (x ∷ dest) [] (suc n) = none

-- A write through `buf + off`.
pub at_offset : ℕ → (List ℕ → Option (List ℕ)) → List ℕ → Option (List ℕ)
at_offset zero write buf = write buf
at_offset (suc n) write [] = none
at_offset (suc n) write (x ∷ buf) = prepend x (at_offset n write buf)

-- `buf[0] = c`.
abbrev pub store_first : ℕ → List ℕ → Option (List ℕ)
store_first c [] = none
store_first c (x ∷ buf) = some (c ∷ buf)

-- `buf[off] = c`.
pub store : List ℕ → ℕ → ℕ → Option (List ℕ)
unfolding at_offset
store buf off c = at_offset off (store_first c) buf
