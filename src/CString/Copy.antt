-- ===== src/CString/Copy.antt =====
-- The copying functions write exactly their `n` bytes, and nothing behind them.
use mathlib.Core.Option
use cllm.Common.{
  ℕ, zero, suc, ◌%◌, ◌≤◌, ◌<◌, ◌≡◌, refl, ap, List, [], ◌∷◌, ◌++◌, arith, Bool-cases, Option, some,
  inl, inr, length, take, drop, replicate, ◌==◌, ne→==, ==→ne, ◌≢◌, All, if◌then◌else◌,
}
use cllm.CString.{prepend, memset, strncpy, memcpy, at_offset, store_first, store}

-- The bytes of a string, without its terminator.
abbrev pub until_nul : List ℕ → List ℕ
until_nul [] = []
until_nul (c ∷ s) = if c == 0 then [] else c ∷ until_nul s

-- What `strncpy` writes: the string cut off at `n`, filled up with zeros to `n` bytes.
abbrev pub padded : ℕ → List ℕ → List ℕ
padded zero s = []
padded (suc n) [] = 0 ∷ padded n []
padded (suc n) (c ∷ s) = if c == 0 then 0 ∷ padded n [] else c ∷ padded n s

prepend-eq : (c : ℕ) {o : Option (List ℕ)} {s : List ℕ} → o ≡ some s → prepend c o ≡ some (c ∷ s)
prepend-eq c e = rw (e, Option.map)

-- `memset` on an object of at least `n` bytes fills exactly the first `n`.
pub memset_lem :
    (s : List ℕ) (c n : ℕ) → n ≤ length s → memset s c n ≡ some (replicate n (c % 256) ++ drop n s)
unfolding memset
memset_lem s c zero h = refl
memset_lem [] c (suc n) h = absurd (omega arith)
memset_lem (x ∷ s) c (suc n) h = prepend-eq (c % 256) (memset_lem s c n (omega arith))

padded-nil : (n : ℕ) → padded n [] ≡ replicate n 0
padded-nil zero = refl
padded-nil (suc n) = ap (λ t. 0 ∷ t) (padded-nil n)

memset-padded : (s : List ℕ) (n : ℕ) → n ≤ length s → memset s 0 n ≡ some (padded n [] ++ drop n s)
memset-padded s n h = rw (padded-nil, memset_lem s 0 n h)

-- `strncpy` into an object of at least `n` bytes writes the source up to its terminator, then zeros
-- up to `n` bytes, and leaves the rest of the object alone.
pub strncpy_lem :
    (dest src : List ℕ) (n : ℕ)
    → n ≤ length dest
    → strncpy dest src n ≡ some (padded n src ++ drop n dest)
unfolding strncpy
strncpy_lem dest src zero h = refl
strncpy_lem [] src (suc n) h = absurd (omega arith)
strncpy_lem (x ∷ dest) [] (suc n) h = memset-padded (x ∷ dest) (suc n) h
strncpy_lem (x ∷ dest) (c ∷ src) (suc n) h = elim (Bool-cases (c == 0)) [
  | inl e ↦ rw e (memset-padded (x ∷ dest) (suc n) h)
  | inr e ↦ rw e (prepend-eq c (strncpy_lem dest src n (omega arith)))
]

-- `memcpy` between objects of at least `n` bytes copies exactly `n` bytes.
pub memcpy_lem :
    (dest src : List ℕ) (n : ℕ)
    → n ≤ length dest
    → n ≤ length src
    → memcpy dest src n ≡ some (take n src ++ drop n dest)
unfolding memcpy
memcpy_lem dest src zero h k = refl
memcpy_lem [] src (suc n) h k = absurd (omega arith)
memcpy_lem (x ∷ dest) [] (suc n) h k = absurd (omega arith)
memcpy_lem (x ∷ dest) (c ∷ src) (suc n) h k =
    prepend-eq c (memcpy_lem dest src n (omega arith) (omega arith))

pub at_offset_lem :
    (n : ℕ) (write : List ℕ → Option (List ℕ)) (buf : List ℕ) {out : List ℕ}
    → n ≤ length buf
    → write (drop n buf) ≡ some out
    → at_offset n write buf ≡ some (take n buf ++ out)
unfolding at_offset
at_offset_lem zero write buf h e = e
at_offset_lem (suc n) write [] h e = absurd (omega arith)
at_offset_lem (suc n) write (x ∷ buf) h e = prepend-eq x (at_offset_lem n write buf (omega arith) e)

store_first-drop :
    (n c : ℕ) (buf : List ℕ)
    → n < length buf
    → store_first c (drop n buf) ≡ some (c ∷ drop (suc n) buf)
store_first-drop zero c [] h = absurd (omega arith)
store_first-drop zero c (x ∷ buf) h = refl
store_first-drop (suc n) c [] h = absurd (omega arith)
store_first-drop (suc n) c (x ∷ buf) h = store_first-drop n c buf (omega arith)

-- A store inside the buffer changes that byte alone.
pub store_lem :
    (buf : List ℕ) (n c : ℕ)
    → n < length buf
    → store buf n c ≡ some (take n buf ++ (c ∷ drop (suc n) buf))
unfolding store
store_lem buf n c h = at_offset_lem n (store_first c) buf (omega arith) (store_first-drop n c buf h)

-- A store at the end of the first part of a buffer.
pub store-append :
    (t rest : List ℕ) (c : ℕ)
    → 0 < length rest
    → store (t ++ rest) (length t) c ≡ some (t ++ (c ∷ drop 1 rest))
unfolding store at_offset
store-append [] [] c h = absurd (omega arith)
store-append [] (x ∷ rest) c h = refl
store-append (x ∷ t) rest c h = prepend-eq x (store-append t rest c h)

-- A write through a pointer behind the first part of a buffer.
pub at_offset-append :
    (t rest : List ℕ) (write : List ℕ → Option (List ℕ)) {out : List ℕ}
    → write rest ≡ some out
    → at_offset (length t) write (t ++ rest) ≡ some (t ++ out)
unfolding at_offset
at_offset-append [] rest write e = e
at_offset-append (x ∷ t) rest write e = prepend-eq x (at_offset-append t rest write e)

abbrev pub NonNul : ℕ → Type 0
NonNul c = c ≢ 0

-- What `strncpy` writes from a string of which `n` is the length.
pub padded-append : (s rest : List ℕ) → All NonNul s → padded (length s) (s ++ rest) ≡ s
padded-append [] rest h = refl
padded-append (c ∷ s) rest h = rw (ne→== c 0 h.0) (ap (λ t. c ∷ t) (padded-append s rest h.1))

pub until_nul-NonNul : (s : List ℕ) → All NonNul (until_nul s)
until_nul-NonNul [] = tt
until_nul-NonNul (c ∷ s) = elim (Bool-cases (c == 0)) [
  | inl e ↦ rw e tt
  | inr e ↦ rw e (==→ne c 0 e, until_nul-NonNul s)
]

pub until_nul_whole : (t : List ℕ) → All NonNul t → until_nul t ≡ t
until_nul_whole [] h = refl
until_nul_whole (c ∷ t) h = rw (ne→== c 0 h.0) (ap (λ s. c ∷ s) (until_nul_whole t h.1))

-- A string that `strncpy` has copied with its terminator.
pub until_nul-padded :
    (n : ℕ) (t rest : List ℕ) → All NonNul t → length t < n → until_nul (padded n t ++ rest) ≡ t
until_nul-padded zero t rest h k = absurd (omega (arith, k))
until_nul-padded (suc n) [] rest h k = refl
until_nul-padded (suc n) (c ∷ t) rest h k =
    rw (ne→== c 0 h.0, ne→== c 0 h.0)
      (ap (λ s. c ∷ s) (until_nul-padded n t rest h.1 (omega (arith, k))))
