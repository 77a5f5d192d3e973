-- ===== src/SafeString/Bounds.antt =====
-- The bounds-checked helpers stay within the buffer and leave a string in it.
use cllm.Common.{
  ℕ, zero, suc, ◌+◌, ◌-◌, ◌^◌, ◌<◌, ◌≡◌, refl, List, [], ◌∷◌, ◌++◌, arith, leb, ltb, if◌then◌else◌,
  ltb→lt, Bool-cases, inl, inr, length, take, drop, ◌==◌, ne→==, lt→leb, length-append, length-take,
  append-nil, append_assoc, ltb→le, le→leb, sym, ap, ◌≤◌, drop-all, All, drop-append_length,
  take-append_length, length-drop, some,
}
use cllm.CString.Compare.{strlen_before}
use cllm.CString.{store}
use cllm.CString.Copy.{until_nul, NonNul, store-append}
use cllm.Format.{Arg}
use cllm.Format.Emit.{placed}
use cllm.Format.Truncate.{render, vsnprintf-render}
use cllm.SafeString.{
  copy_loop, safe_strcpy, safe_strncpy, safe_strcat, smaller, safe_snprintf_append, appended,
}

-- The text of the copy, its terminator, and what was behind it.
copy_loop_lem :
    (n : ℕ) (dst src : List ℕ)
    → n < length dst
    → let t = take n (until_nul src) in
      copy_loop n dst src ≡ (t ++ 0 ∷ drop (suc (length t)) dst, length t)
unfolding copy_loop
copy_loop_lem n [] src h = absurd (omega arith)
copy_loop_lem zero (x ∷ dst) src h = refl
copy_loop_lem (suc n) (x ∷ dst) [] h = refl
copy_loop_lem (suc n) (x ∷ dst) (c ∷ src) h = elim (Bool-cases (c == 0)) [
  | inl e ↦ rw e refl
  | inr e ↦ rw (e, copy_loop_lem n dst src (omega (arith, h))) refl
]

-- `safe_strncpy` into a buffer of at least one byte writes the source's first characters, up to its
-- terminator, `n`, or the last byte of the buffer, then a terminator; it leaves every byte behind
-- that alone and returns the number of characters.
safe_strncpy_lem :
    (dst src : List ℕ) (n : ℕ)
    → 0 < length dst
    → let t = take (smaller (length dst - 1) n) (until_nul src) in
      safe_strncpy dst src n ≡ (t ++ 0 ∷ drop (suc (length t)) dst, length t)
unfolding safe_strncpy
safe_strncpy_lem dst src n h =
    rw (ne→== (length dst) 0 (λ e. absurd (omega (arith, e, h))))
      (copy_loop_lem (smaller (length dst - 1) n) dst src (ground (arith, h)))

pub safe_strcpy_lem :
    (dst src : List ℕ)
    → 0 < length dst
    → let t = take (length dst - 1) (until_nul src) in
      safe_strcpy dst src ≡ (t ++ 0 ∷ drop (suc (length t)) dst, length t)
safe_strcpy_lem dst src h =
    rw (ne→== (length dst) 0 (λ e. absurd (omega (arith, e, h))))
      (copy_loop_lem (length dst - 1) dst src (omega (arith, h)))

-- `safe_strcat` to a buffer that holds the string `t` appends to it as many characters of the source
-- as leave room for the terminator, and returns the length of the whole string.
safe_strcat_lem :
    (t rest src : List ℕ)
    → All NonNul t
    → let u = take (length rest) (until_nul src) in
      safe_strcat (t ++ 0 ∷ rest) src
      ≡ (t ++ (u ++ 0 ∷ drop (suc (length u)) (0 ∷ rest)), length t + length u)
unfolding safe_strcat
safe_strcat_lem t rest src h =
    let more : length t < length (t ++ 0 ∷ rest) = omega (arith, length-append t (0 ∷ rest)) in
    let less : length (0 ∷ rest) - 1 ≡ length rest = omega arith in
    rw
      (
        strlen_before t rest h,
        ne→== (length (t ++ 0 ∷ rest)) 0 (λ e. absurd (omega (arith, e, more))),
        lt→leb (length (t ++ 0 ∷ rest)) (length t) more,
        drop-append_length t (0 ∷ rest),
        take-append_length t (0 ∷ rest),
        ne→== (length (0 ∷ rest)) 0 (λ e. absurd (omega (arith, e))),
        less,
        copy_loop_lem (length rest) (0 ∷ rest) src (omega arith),
      )
      refl

-- The last byte of a buffer that ends in a terminator.
store-last : (t : List ℕ) (n : ℕ) → n ≡ length t → store (t ++ 0 ∷ []) n 0 ≡ some (t ++ 0 ∷ [])
store-last t n e = rw e (store-append t (0 ∷ []) 0 (omega arith))

-- The new offset and the result behind a text of length `n` in a buffer of `size` bytes.
abbrev pub advance : ℕ → ℕ → ℕ → ℕ × ℕ
advance size offset n =
    if leb (2 ^ 31) n
    then (offset, n)
    else if ltb (offset + n) size
    then (offset + n, n)
    else (size - 1, 0)

-- What `vsnprintf` leaves from the offset on.
abbrev pub behind : List ℕ → ℕ → List ℕ → List ℕ
behind dst offset t = placed (drop offset dst) (take (length dst - offset - 1) t ++ 0 ∷ [])

-- The terminator of a text that is cut off stands in the last byte already.
store-behind :
    (dst : List ℕ) (offset : ℕ) (t : List ℕ)
    → offset < length dst
    → length dst ≤ offset + length t
    → store (take offset dst ++ behind dst offset t) (length dst - 1) 0
      ≡ some (take offset dst ++ behind dst offset t)
store-behind dst offset t inside long =
    let text = take (length dst - offset - 1) t in
    let nothing : drop (length (text ++ 0 ∷ [])) (drop offset dst) ≡ [] =
      drop-all (length (text ++ 0 ∷ [])) (drop offset dst) (
        omega (
          arith,
          inside,
          long,
          length-drop offset dst,
          length-append text (0 ∷ []),
          length-take (length dst - offset - 1) t,
        )) in
    let same : take offset dst ++ behind dst offset t ≡ (take offset dst ++ text) ++ 0 ∷ [] =
      rw (nothing, append-nil) (sym (append_assoc (take offset dst) text (0 ∷ []))) in
    rw same (
      store-last (take offset dst ++ text) (length dst - 1) (
        omega (
          arith,
          inside,
          long,
          length-append (take offset dst) text,
          length-take offset dst,
          length-take (length dst - offset - 1) t,
        )))

appended-behind :
    (dst : List ℕ) (offset : ℕ) (t : List ℕ)
    → offset < length dst
    → appended dst offset (length t) (behind dst offset t)
      ≡ some (record {
        dst = take offset dst ++ behind dst offset t;
        offset = (advance (length dst) offset (length t)).0;
        result = (advance (length dst) offset (length t)).1;
      })
appended-behind dst offset t inside = elim (Bool-cases (leb (2 ^ 31) (length t))) [
  | inl f ↦ rw f refl
  | inr f ↦ elim (Bool-cases (ltb (offset + length t) (length dst))) [
    | inl g ↦
        let fits = ltb→lt _ _ g in
        rw (f, g, lt→leb (length dst - offset) (length t) (omega (arith, fits))) refl
    | inr g ↦
        let long = ltb→le _ _ g in
        rw
          (
            f,
            g,
            le→leb (length dst - offset) (length t) (omega (arith, long)),
            store-behind dst offset t inside long,
          )
          (ap
            (λ n. some (record {
              dst = take offset dst ++ behind dst offset t;
              offset = length dst - 1;
              result = n;
            }))
            (omega arith))
  ]
]

-- From an offset inside the buffer, `safe_snprintf_append` of a format and arguments that stand for
-- the text `t` leaves what is before the offset alone, writes as much of `t` as fits in front of the
-- last byte, and a terminator. A text that fits advances the offset to that terminator and is
-- returned as its length; one that is cut off moves the offset to the last byte and returns 0; one
-- of 2 ^ 31 bytes or more, whose length is negative as an `int`, leaves the offset alone. `t` is
-- shorter than 2 ^ 32.
pub safe_snprintf_append-render :
    (dst : List ℕ) (offset : ℕ) (format : List ℕ) (args : List Arg) {t : List ℕ}
    → render 0 format args ≡ some t
    → offset < length dst
    → length t < 2 ^ 32
    → safe_snprintf_append dst offset format args
      ≡ some (record {
        dst = take offset dst ++ behind dst offset t;
        offset = (advance (length dst) offset (length t)).0;
        result = (advance (length dst) offset (length t)).1;
      })
unfolding safe_snprintf_append
safe_snprintf_append-render dst offset format args {t} e inside short =
    rw
      (
        ne→== (length dst) 0 (λ z. absurd (omega (arith, z, inside))),
        lt→leb (length dst) offset inside,
        vsnprintf-render (drop offset dst) (length dst - offset) format args
            (omega (arith, length-drop offset dst)) (omega (arith, inside)) e short,
      )
      (appended-behind dst offset t inside)
