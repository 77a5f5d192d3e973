-- ===== src/Json/Writer/Outcome.antt =====
-- What one writer operation does to the text in the buffer: the rule by which operations compose.
use cllm.Common.{
  ℕ, ◌+◌, ◌%◌, ◌^◌, ◌≤◌, ◌<◌, ◌≡◌, refl, sym, ap, ◌∙◌, List, [], ◌∷◌, ◌++◌, arith, Bool, some,
  Bool-cases, inl, inr, length, drop, All, leb, leb→le, leb→lt, append_assoc, append-nil,
  length-append, length-drop, if◌then◌else◌,
}
use cllm.Common.Maybe.{◌>>=◌}
use cllm.CString.{strncpy, at_offset, store}
use cllm.CString.Copy.{strncpy_lem, at_offset-append, store-append, padded-append, NonNul}
use cllm.Json.Writer.{Writer, Result, done, failed, fault, ◌>>◌, copy_in, placed_in, write_raw}

-- The buffer holds the text `t` and a terminator, `size` is the caller's, and `offset` is the text's
-- length.
pub record Holds (size : ℕ) (t : List ℕ) (w : Writer) : Type 0 where
  pub rest : List ℕ
  pub buf : w.buf ≡ t ++ (0 ∷ rest)
  pub offset : w.offset ≡ length t
  pub bound : w.size ≡ size
  pub room : length t < size
  pub object : size ≤ length w.buf
  pub small : size ≤ 2 ^ 31

-- From a writer that holds `t`: success appends `s` and leaves the comma flag `c`; failure means
-- that `s` does not fit, and leaves a front of it; there is no fault.
abbrev pub Outcome : ℕ → List ℕ → List ℕ → Bool → Result → Type 0
Outcome size t s c (done w) = Holds size (t ++ s) w × (w.needs_comma ≡ c)
Outcome size t s c (failed w) =
    (size ≤ length t + length s) × ((p q : List ℕ) × (s ≡ p ++ q) × Holds size (t ++ p) w)
Outcome size t s c fault = ⊥

pub Outcome-bind :
    (size : ℕ) (t s s' : List ℕ) (c c' : Bool) (r : Result) (k : Writer → Result)
    → Outcome size t s c r
    → ((w : Writer) → Holds size (t ++ s) w → w.needs_comma ≡ c → Outcome size (t ++ s) s' c' (k w))
    → Outcome size t (s ++ s') c' (r >> k)
Outcome-bind size t s s' c c' (done w) k o f = regroup (k w) (f w o.0 o.1)
  where
    regroup : (r : Result) → Outcome size (t ++ s) s' c' r → Outcome size t (s ++ s') c' r
    regroup (done v) h = (rw (← append_assoc t s s') h.0, h.1)
    regroup (failed v) h = (
      omega (arith, length-append t s, length-append s s'),
      (
        s ++ h.1.0,
        h.1.1,
        ap (λ l. s ++ l) h.1.2 ∙ sym (append_assoc s h.1.0 h.1.1),
        rw (← append_assoc t s h.1.0) h.1.3,
      ),
    )
    regroup fault h = h
Outcome-bind size t s s' c c' (failed w) k o f = (
  omega (arith, length-append s s'),
  (o.1.0, o.1.1 ++ s', ap (λ l. l ++ s') o.1.2 ∙ append_assoc o.1.0 o.1.1 s', o.1.3),
)
Outcome-bind size t s s' c c' fault k o f = o

-- What lies behind the new terminator.
abbrev behind_it : List ℕ → List ℕ → List ℕ
behind_it rest str = drop 1 (drop (length str) (0 ∷ rest))

copied :
    (t rest str behind : List ℕ)
    → All NonNul str
    → length str < length (0 ∷ rest)
    → (at_offset (length t) (λ dest. strncpy dest (str ++ behind) (length str)) (t ++ (0 ∷ rest))
        >>= λ b. store b (length t + length str) 0)
      ≡ some ((t ++ str) ++ (0 ∷ behind_it rest str))
copied t rest str behind nz fits =
    let behind_str = drop (length str) (0 ∷ rest) in
    let front : strncpy (0 ∷ rest) (str ++ behind) (length str) ≡ some (str ++ behind_str) =
      strncpy_lem (0 ∷ rest) (str ++ behind) (length str) (omega arith)
      ∙ rw (padded-append str behind nz) in
    rw
      (
        at_offset-append t (0 ∷ rest) (λ dest. strncpy dest (str ++ behind) (length str)) front,
        ← append_assoc t str behind_str,
        ← length-append t str,
      )
      (store-append (t ++ str) behind_str 0 (omega (arith, length-drop (length str) (0 ∷ rest))))

copy_in-copied :
    (w : Writer) (to : ℕ) (t rest str behind : List ℕ)
    → w.buf ≡ t ++ (0 ∷ rest)
    → w.offset ≡ length t
    → to ≡ length t + length str
    → All NonNul str
    → length str < length (0 ∷ rest)
    → copy_in w (str ++ behind) (length str) to ≡ some ((t ++ str) ++ (0 ∷ behind_it rest str))
copy_in-copied w to t rest str behind eb eo et nz fits =
    rw (et, eo, eb) (copied t rest str behind nz fits)

-- The writer behind a successful copy.
placed-Holds :
    (size : ℕ) (t rest str : List ℕ) (w : Writer) (to : ℕ)
    → Holds size t w
    → w.buf ≡ t ++ (0 ∷ rest)
    → to ≡ length t + length str
    → to < size
    → Holds size (t ++ str) (record w { buf = (t ++ str) ++ (0 ∷ behind_it rest str); offset = to })
placed-Holds size t rest str w to h eb et fits =
    let total = length-append t str in
    let len = length-append (t ++ str) (0 ∷ behind_it rest str) in
    let old = length-append t (0 ∷ rest) in
    let size_of = ap length eb in
    let d1 = length-drop 1 (drop (length str) (0 ∷ rest)) in
    let d2 = length-drop (length str) (0 ∷ rest) in
    record {
      rest = behind_it rest str;
      buf = refl;
      offset = omega arith;
      bound = h.bound;
      room = omega arith;
      object = omega (arith, h.object);
      small = h.small;
    }

-- A raw write of a string with no terminator in it; the source may go on behind its `len` bytes.
pub write_raw-Outcome :
    (size : ℕ) (t str behind : List ℕ) (w : Writer)
    → Holds size t w
    → All NonNul str
    → length str < 2 ^ 31
    → Outcome size t str w.needs_comma (write_raw (str ++ behind) (length str) w)
unfolding write_raw
write_raw-Outcome size t str behind w h nz short =
    go ((w.offset + length str) % 2 ^ 32) (omega (arith, h.offset, h.room, h.small))
  where
    go :
        (to : ℕ)
        → to ≡ length t + length str
        → Outcome size t str w.needs_comma (
            if leb w.size to
            then failed w
            else placed_in w to (copy_in w (str ++ behind) (length str) to))
    go to et = elim (Bool-cases (leb w.size to)) [
      | inl e ↦ rw e (omega (arith, leb→le _ _ e, h.bound), ([], str, refl, rw append-nil h))
      | inr e ↦
          let fits : to < size = omega (arith, leb→lt _ _ e, h.bound) in
          let old = length-append t (0 ∷ h.rest) in
          let size_of = ap length h.buf in
          rw
            (
              e,
              copy_in-copied w to t h.rest str behind h.buf h.offset et nz
                  (omega (arith, h.object)),
            )
            (placed-Holds size t h.rest str w to h h.buf et fits, refl)
    ]
