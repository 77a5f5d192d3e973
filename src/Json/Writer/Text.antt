-- ===== src/Json/Writer/Text.antt =====
-- The text of each writer operation on structure, keys, strings, booleans and null.
use cllm.Common.{
  ℕ, ◌^◌, ◌≤◌, ◌<◌, ◌≡◌, refl, List, [], ◌∷◌, ◌++◌, arith, Bool, true, false, Option, none, some,
  length, All, subst, append-nil, codes, if◌then◌else◌, ◌==◌,
}
use cllm.Common.Int.{ℤ}
use cllm.Common.Maybe.{Ensures}
use cllm.CString.Copy.{NonNul, store-append}
use cllm.Json.Writer.{
  Writer, Result, done, failed, fault, ◌>>◌, write_raw, maybe_comma, fresh, json_writer_init,
  escaped, json_write_object_start, json_write_object_end, json_write_array_start,
  json_write_array_end, json_write_bool, json_write_null,
}
use cllm.Json.Writer.Outcome.{Holds, Outcome, Outcome-bind, write_raw-Outcome}

-- The comma that `maybe_comma` writes.
abbrev pub comma_text : Bool → List ℕ
comma_text true = codes ","
comma_text false = []

-- The text of the switch on one character.
abbrev pub escape_text : Option (List ℕ) → List ℕ
escape_text none = []
escape_text (some s) = s

-- A string's characters, escaped, up to its terminator.
unfoldable pub escapes : List ℕ → List ℕ
escapes [] = []
escapes (c ∷ s) = if c == 0 then [] else escape_text (escaped c) ++ escapes s

-- A writer on a fresh buffer holds the empty text.
pub json_writer_init-Holds :
    (size : ℕ) (buf : List ℕ) {w : Writer}
    → 0 < size
    → size ≤ length buf
    → size ≤ 2 ^ 31
    → json_writer_init buf size ≡ some w
    → Holds size [] w × (w.needs_comma ≡ false)
unfolding json_writer_init
json_writer_init-Holds size [] positive object small e = absurd (omega arith)
json_writer_init-Holds size (x ∷ buf) {w} positive object small e =
    let start : json_writer_init (x ∷ buf) size ≡ some (fresh (0 ∷ buf) size) =
      ground (arith, store-append [] (x ∷ buf) 0) in
    let it : fresh (0 ∷ buf) size ≡ w = cc in
    rw (← it) (
      record {
        rest = buf;
        buf = refl;
        offset = refl;
        bound = refl;
        room = positive;
        object = object;
        small = small;
      },
      refl,
    )

pub json_writer_init-Ensures :
    (size : ℕ) (buf : List ℕ)
    → 0 < size
    → size ≤ length buf
    → size ≤ 2 ^ 31
    → Ensures (λ w. Holds size [] w × (w.needs_comma ≡ false)) (json_writer_init buf size)
unfolding json_writer_init
json_writer_init-Ensures size [] positive object small = absurd (omega arith)
json_writer_init-Ensures size (x ∷ buf) positive object small =
    let start : json_writer_init (x ∷ buf) size ≡ some (fresh (0 ∷ buf) size) =
      ground (arith, store-append [] (x ∷ buf) 0) in
    record {
      value = fresh (0 ∷ buf) size;
      same = start;
      holds = json_writer_init-Holds size (x ∷ buf) positive object small start;
    }

module _ (size : ℕ) where
  -- A last step that changes no more than the comma flag and the depth.
  pub Outcome-finish :
      (t s : List ℕ) (c c' : Bool) (d : Writer → ℤ) (r : Result)
      → Outcome size t s c r
      → Outcome size t s c' (r >> λ w. done (record w { needs_comma = c'; depth = d w }))
  Outcome-finish t s c c' d (done w) o =
      let h = o.0 in
      (
        record {
          rest = h.rest;
          buf = h.buf;
          offset = h.offset;
          bound = h.bound;
          room = h.room;
          object = h.object;
          small = h.small;
        },
        refl,
      )
  Outcome-finish t s c c' d (failed w) o = o
  Outcome-finish t s c c' d fault o = o

  pub literal-Outcome :
      (t str : List ℕ) (c : Bool) (w : Writer)
      → Holds size t w
      → w.needs_comma ≡ c
      → All NonNul str
      → length str < 2 ^ 31
      → Outcome size t str c (write_raw str (length str) w)
  literal-Outcome t str c w h e nz short =
      subst (λ b. Outcome size t str b (write_raw str (length str) w)) e
        (rw append-nil at (write_raw-Outcome size t str [] w h nz short))

  pub maybe_comma-Outcome :
      (t : List ℕ) (c : Bool) (w : Writer)
      → Holds size t w
      → w.needs_comma ≡ c
      → Outcome size t (comma_text c) c (maybe_comma w)
  unfolding maybe_comma
  maybe_comma-Outcome t c w h e =
      subst (λ b. Outcome size t (comma_text b) b (maybe_comma w)) e (go w.needs_comma refl)
    where
      go :
          (b : Bool)
          → w.needs_comma ≡ b
          → Outcome size t (comma_text b) b (if b then write_raw (codes ",") 1 w else done w)
      go true p = literal-Outcome t (codes ",") true w h p (omega arith) (omega arith)
      go false p = (rw append-nil h, p)

  -- A comma where one is due, then a literal.
  pub value-Outcome :
      (t str : List ℕ) (c : Bool) (w : Writer)
      → Holds size t w
      → w.needs_comma ≡ c
      → All NonNul str
      → length str < 2 ^ 31
      → Outcome size t (comma_text c ++ str) c (maybe_comma w >> write_raw str (length str))
  value-Outcome t str c w h e nz short =
      Outcome-bind size t (comma_text c) str c c (maybe_comma w) _ (maybe_comma-Outcome t c w h e)
        (λ v hv ev. literal-Outcome (t ++ comma_text c) str c v hv ev nz short)

  pub object_start-Outcome :
      (t : List ℕ) (c : Bool) (w : Writer)
      → Holds size t w
      → w.needs_comma ≡ c
      → Outcome size t (comma_text c ++ codes "{") false (json_write_object_start w)
  unfolding json_write_object_start
  object_start-Outcome t c w h e =
      Outcome-finish t _ c false _ _
        (value-Outcome t (codes "{") c w h e (omega arith) (omega arith))

  pub object_end-Outcome :
      (t : List ℕ) (c : Bool) (w : Writer)
      → Holds size t w
      → w.needs_comma ≡ c
      → Outcome size t (codes "}") true (json_write_object_end w)
  unfolding json_write_object_end
  object_end-Outcome t c w h e =
      Outcome-finish t _ c true _ _
        (literal-Outcome t (codes "}") c w h e (omega arith) (omega arith))

  pub array_start-Outcome :
      (t : List ℕ) (c : Bool) (w : Writer)
      → Holds size t w
      → w.needs_comma ≡ c
      → Outcome size t (comma_text c ++ codes "[") false (json_write_array_start w)
  unfolding json_write_array_start
  array_start-Outcome t c w h e =
      Outcome-finish t _ c false _ _
        (value-Outcome t (codes "[") c w h e (omega arith) (omega arith))

  pub array_end-Outcome :
      (t : List ℕ) (c : Bool) (w : Writer)
      → Holds size t w
      → w.needs_comma ≡ c
      → Outcome size t (codes "]") true (json_write_array_end w)
  unfolding json_write_array_end
  array_end-Outcome t c w h e =
      Outcome-finish t _ c true _ _
        (literal-Outcome t (codes "]") c w h e (omega arith) (omega arith))

  pub null-Outcome :
      (t : List ℕ) (c : Bool) (w : Writer)
      → Holds size t w
      → w.needs_comma ≡ c
      → Outcome size t (comma_text c ++ codes "null") true (json_write_null w)
  unfolding json_write_null
  null-Outcome t c w h e =
      Outcome-finish t _ c true _ _
        (value-Outcome t (codes "null") c w h e (omega arith) (omega arith))

  pub bool-Outcome :
      (b : Bool) (t : List ℕ) (c : Bool) (w : Writer)
      → Holds size t w
      → w.needs_comma ≡ c
      → Outcome size t
          (comma_text c ++ (if b then codes "true" else codes "false"))
          true
          (json_write_bool b w)
  unfolding json_write_bool
  bool-Outcome true t c w h e =
      Outcome-finish t _ c true _ _
        (value-Outcome t (codes "true") c w h e (omega arith) (omega arith))
  bool-Outcome false t c w h e =
      Outcome-finish t _ c true _ _
        (value-Outcome t (codes "false") c w h e (omega arith) (omega arith))
