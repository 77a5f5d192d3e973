-- ===== src/Format/Truncate.antt =====
-- `vsnprintf` against the text that its format and arguments stand for.
use cllm.Common.{
  ℕ, zero, suc, ◌+◌, ◌-◌, ◌≤◌, ◌<◌, ◌^◌, ◌≡◌, refl, ap, ◌∙◌, List, [], ◌∷◌, ◌++◌, arith, true,
  false, not, Option, none, some, Bool-cases, inl, inr, length, take, drop, ltb, lt→ltb, ◌==◌,
  if◌then◌else◌, codes, length-append, length_concat, length-drop, length-take, take-nil,
  append_assoc, append-nil,
}
use cllm.Common.Maybe.{◌>>=◌, >>=-eq-some}
use cllm.CString.{first}
use cllm.CString.Copy.{until_nul, store-append}
use cllm.Format.{
  Arg, word, text, Conversion, str, int, uint, hex, hex_upper, pointer, size_t, percent,
  unsupported, append_char, append_str, append_buf, append_uint, uint_digits, negate32, null_text,
  conversion_at, width, convert, format_loop, terminate, vsnprintf,
}
use cllm.Format.Emit.{
  placed, placed_concat, emitted, append_char-emitted, append_str-emitted, append_buf-emitted,
}

-- The text of one conversion, and the arguments left.
abbrev pub conversion_text : Conversion → List Arg → Option (List ℕ × List Arg)
conversion_text str (text s ∷ args) = some (until_nul s, args)
conversion_text str (word w ∷ args) = if w == 0 then some (null_text, args) else none
conversion_text int (word w ∷ args) =
    if ltb w (2 ^ 31)
    then some (uint_digits w 10 false, args)
    else some (b'-' ∷ uint_digits (negate32 w) 10 false, args)
conversion_text uint (word w ∷ args) = some (uint_digits w 10 false, args)
conversion_text hex (word w ∷ args) = some (uint_digits w 16 false, args)
conversion_text hex_upper (word w ∷ args) = some (uint_digits w 16 true, args)
conversion_text pointer (word w ∷ args) = some (codes "0x" ++ uint_digits w 16 false, args)
conversion_text size_t (word w ∷ args) = some (uint_digits w 10 false, args)
conversion_text percent args = some (b'%' ∷ [], args)
conversion_text (unsupported c) args = some (b'%' ∷ c ∷ [], args)
conversion_text _ _ = none

-- The whole text, with no buffer in sight.
unfoldable pub render : ℕ → List ℕ → List Arg → Option (List ℕ)
render skip [] args = some []
render (suc skip) (c ∷ rest) args = render skip rest args
render zero (c ∷ rest) args =
    if c == 0
    then some []
    else if not (c == b'%')
    then (render zero rest args >>= λ t. some (c ∷ t))
    else if first rest == 0
    then none
    else (conversion_text (conversion_at rest) args >>= λ r.
        render (width (conversion_at rest)) rest r.1 >>= λ t. some (r.0 ++ t))

module _ (size : ℕ) (buf : List ℕ) (fits : size ≤ length buf) where
  -- A minus sign, and the digits.
  signed :
      (t cs : List ℕ)
      → length t + length (b'-' ∷ cs) < 2 ^ 32
      → (append_char size b'-' (emitted size buf t) >>= λ o'. append_buf size cs o')
        ≡ some (emitted size buf (t ++ (b'-' ∷ cs)))
  signed t cs short = rw (append_char-emitted size buf t b'-' fits (omega arith)) (
      append_buf-emitted size buf (t ++ b'-' ∷ []) cs fits (omega (arith, length_concat t b'-'))
      ∙ rw append_assoc)

  prefixed :
      (t cs : List ℕ)
      → length t + length (codes "0x" ++ cs) < 2 ^ 32
      → (append_str size (codes "0x") (emitted size buf t) >>= λ o'. append_buf size cs o')
        ≡ some (emitted size buf (t ++ (codes "0x" ++ cs)))
  prefixed t cs short = rw (append_str-emitted size buf t (codes "0x") fits (omega arith)) (
      append_buf-emitted size buf (t ++ codes "0x") cs fits
        (omega (arith, length-append t (codes "0x")))
      ∙ rw append_assoc)

  two :
      (t : List ℕ) (c : ℕ)
      → length t + 2 < 2 ^ 32
      → (append_char size b'%' (emitted size buf t) >>= λ o'. append_char size c o')
        ≡ some (emitted size buf (t ++ (b'%' ∷ c ∷ [])))
  two t c short = rw (append_char-emitted size buf t b'%' fits (omega arith)) (
      append_char-emitted size buf (t ++ b'%' ∷ []) c fits (omega (arith, length_concat t b'%'))
      ∙ rw append_assoc)

  -- One conversion appends its text.
  convert-emitted :
      (conv : Conversion) (args : List Arg) (t : List ℕ) {s : List ℕ} {left : List Arg}
      → conversion_text conv args ≡ some (s, left)
      → length t + length s < 2 ^ 32
      → convert size conv args (emitted size buf t) ≡ some (emitted size buf (t ++ s), left)
  unfolding convert append_uint
  convert-emitted str [] t e short = cc
  convert-emitted str (text s ∷ args) t e short =
      ground (arith, append_str-emitted size buf t s fits)
  convert-emitted str (word w ∷ args) t e short =
      ground (arith, append_str-emitted size buf t null_text fits)
  convert-emitted int [] t e short = cc
  convert-emitted int (text s ∷ args) t e short = cc
  convert-emitted int (word w ∷ args) t e short = ground (
    arith,
    append_buf-emitted size buf t (uint_digits w 10 false) fits,
    signed t (uint_digits (negate32 w) 10 false),
  )
  convert-emitted uint [] t e short = cc
  convert-emitted uint (text s ∷ args) t e short = cc
  convert-emitted uint (word w ∷ args) t e short =
      ground (arith, append_buf-emitted size buf t (uint_digits w 10 false) fits)
  convert-emitted hex [] t e short = cc
  convert-emitted hex (text s ∷ args) t e short = cc
  convert-emitted hex (word w ∷ args) t e short =
      ground (arith, append_buf-emitted size buf t (uint_digits w 16 false) fits)
  convert-emitted hex_upper [] t e short = cc
  convert-emitted hex_upper (text s ∷ args) t e short = cc
  convert-emitted hex_upper (word w ∷ args) t e short =
      ground (arith, append_buf-emitted size buf t (uint_digits w 16 true) fits)
  convert-emitted pointer [] t e short = cc
  convert-emitted pointer (text s ∷ args) t e short = cc
  convert-emitted pointer (word w ∷ args) t e short =
      ground (arith, prefixed t (uint_digits w 16 false))
  convert-emitted size_t [] t e short = cc
  convert-emitted size_t (text s ∷ args) t e short = cc
  convert-emitted size_t (word w ∷ args) t e short =
      ground (arith, append_buf-emitted size buf t (uint_digits w 10 false) fits)
  convert-emitted percent args t e short = ground (arith, append_char-emitted size buf t b'%' fits)
  convert-emitted (unsupported c) args t e short = ground (arith, two t c)

  done :
      (t s : List ℕ)
      → some [] ≡ some s
      → some (emitted size buf t) ≡ some (emitted size buf (t ++ s))
  done t s e = ap (λ x. some (emitted size buf x)) (ground (arith, append-nil t))

  -- The loop appends the rendered text.
  format_loop-emitted :
      (skip : ℕ) (format : List ℕ) (args : List Arg) (t : List ℕ) {s : List ℕ}
      → render skip format args ≡ some s
      → length t + length s < 2 ^ 32
      → format_loop size skip format args (emitted size buf t) ≡ some (emitted size buf (t ++ s))
  unfolding format_loop render
  format_loop-emitted skip [] args t {s} e short = done t s e
  format_loop-emitted (suc skip) (c ∷ rest) args t e short =
      format_loop-emitted skip rest args t e short
  format_loop-emitted zero (c ∷ rest) args t {s} e short = elim (Bool-cases (c == 0)) [
    | inl z ↦ rw z (done t s (rw z at e))
    | inr z ↦ elim (Bool-cases (c == b'%')) [
      | inl p ↦ elim (Bool-cases (first rest == 0)) [
        | inl q ↦ let none≡some : none ≡ some s = (rw (z, p, q) at e) in cc
        | inr q ↦
            rw (z, p, q)
              (let (r, er, f) =
                  >>=-eq-some (conversion_text (conversion_at rest) args) _ (rw (z, p, q) at e) in
                let (x, ex, g) = >>=-eq-some (render (width (conversion_at rest)) rest r.1) _ f in
                let split : r.0 ++ x ≡ s = cc in
                let both = length-append r.0 x in
                let len : length (r.0 ++ x) ≡ length s = ap length split in
                rw
                  (convert-emitted (conversion_at rest) args t {s = r.0} {left = r.1} er
                    (omega arith))
                  (format_loop-emitted (width (conversion_at rest)) rest r.1 (t ++ r.0) ex
                      (omega (arith, length-append t r.0))
                    ∙ rw (append_assoc, split)))
      ]
      | inr p ↦
          rw (z, p)
            (let (x, ex, g) = >>=-eq-some (render 0 rest args) _ (rw (z, p) at e) in
              let split : c ∷ x ≡ s = cc in
              let len : length (c ∷ x) ≡ length s = ap length split in
              rw (append_char-emitted size buf t c fits (omega arith)) (
                format_loop-emitted 0 rest args (t ++ c ∷ []) ex (omega (arith, length_concat t c))
                ∙ rw (append_assoc, split)))
    ]
  ]

-- Where the terminator goes: behind what was stored.
terminator_at :
    (size : ℕ) (t : List ℕ)
    → 0 < size
    → (if ltb (length t) size then length t else size - 1) ≡ length (take (size - 1) t)
terminator_at size t h = ground (arith, length-take (size - 1) t)

-- For a format and arguments that stand for the text `t`, `vsnprintf` writes as much of `t` as fits
-- into `size - 1` bytes, a terminator behind it, nothing else, and returns the length of all of `t`.
-- The object has the stated size, which is not 0, and `t` is shorter than 2 ^ 32.
pub vsnprintf-render :
    (buf : List ℕ) (size : ℕ) (format : List ℕ) (args : List Arg) {t : List ℕ}
    → size ≤ length buf
    → 0 < size
    → render 0 format args ≡ some t
    → length t < 2 ^ 32
    → vsnprintf buf size format args ≡ some (length t, placed buf (take (size - 1) t ++ 0 ∷ []))
unfolding vsnprintf terminate
vsnprintf-render buf size format args {t} fits some_room e short =
    let front = take (size - 1) t in
    let room : 0 < length (drop (length front) buf) =
      omega (arith, length-drop (length front) buf, length-take (size - 1) t) in
    let start : emitted size buf [] ≡ record { buf = buf; off = 0 } = rw take-nil refl in
    rw (← start, format_loop-emitted size buf fits 0 format args [] e (omega arith))
      (rw (
        lt→ltb 0 size some_room,
        terminator_at size t some_room,
        store-append front (drop (length front) buf) 0 room,
        ← placed_concat buf front 0,
      ))
