-- ===== src/Embedding/Checks.antt =====
-- The checks of the model's format.
use mathlib.Core.Option
use cllm.Common.{
  ℕ, ◌≤◌, ◌≡◌, refl, ap, some, List, [], ◌∷◌, arith, Bool, true, false, not, ◌||◌, Bool-cases, inl,
  inr, leb, ltb, ltb→lt, ltb→le, ==→eq, lt→leb, le→leb, ◌==◌, ==→ne, if◌then◌else◌, length,
}
use cllm.Common.Int.{pos, ◌-ℤ◌}
use cllm.CString.{memcmp}
use cllm.Net.Wire.{byte_at}
use cllm.Embedding.{
  magic, is_zero, validate_embedded_model, c_get_embedded_model, c_validate_embedded_model,
  c_load_embedded_model, validate_data, verify_embedded_model, c_validate_gguf_format,
  c_validate_header, c_verify_model_integrity,
}

-- The second list starts with the first.
abbrev pub starts_with : List ℕ → List ℕ → Bool
starts_with [] l = true
starts_with (c ∷ m) [] = false
starts_with (c ∷ m) (d ∷ l) = if d == c then starts_with m l else false

is_zero-sub : (x y : ℕ) → (x == y) ≡ false → is_zero (pos x -ℤ pos y) ≡ false
unfolding ◌-ℤ◌
is_zero-sub x y e = ground (arith, ==→ne x y e)

memcmp-starts_with :
    (m l : List ℕ)
    → length m ≤ length l
    → Option.map is_zero (memcmp l m (length m)) ≡ some (starts_with m l)
unfolding memcmp
memcmp-starts_with [] l h = refl
memcmp-starts_with (c ∷ m) [] h = absurd (omega (arith, h))
memcmp-starts_with (c ∷ m) (d ∷ l) h = elim (Bool-cases (d == c)) [
  | inl e ↦ rw e (memcmp-starts_with m l (omega (arith, h)))
  | inr e ↦ rw e (ap some (is_zero-sub d c e))
]

-- A file in the format: long enough, and with the magic number.
abbrev pub is_gguf : ℕ → ℕ → List ℕ → Bool
is_gguf least size bytes = if leb least size then starts_with magic bytes else false

gguf-format :
    (size : ℕ) (bytes : List ℕ)
    → size ≤ length bytes
    → c_validate_gguf_format (some bytes) size ≡ some (is_gguf 4 size bytes)
unfolding c_validate_gguf_format
gguf-format size bytes h = elim (Bool-cases (ltb size 4)) [
  | inl e ↦ rw (e, lt→leb 4 size (ltb→lt _ _ e)) refl
  | inr e ↦
      let more = ltb→le _ _ e in
      rw (e, le→leb 4 size more) (memcmp-starts_with magic bytes (omega (arith, more, h)))
]

four :
    (p q r s : Bool)
    → not (false || not p || not q || not r || not s)
      ≡ (if p then if q then if r then if s then true else false else false else false else false)
four false q r s = refl
four true false r s = refl
four true true false s = refl
four true true true false = refl
four true true true true = refl

bytes-magic :
    (bytes : List ℕ)
    → 4 ≤ length bytes
    → not (
        false
        || not (byte_at bytes 0 == b'G')
        || not (byte_at bytes 1 == b'G')
        || not (byte_at bytes 2 == b'U')
        || not (byte_at bytes 3 == b'F'))
      ≡ starts_with magic bytes
bytes-magic [] h = absurd (omega (arith, h))
bytes-magic (a ∷ []) h = absurd (omega (arith, h))
bytes-magic (a ∷ b ∷ []) h = absurd (omega (arith, h))
bytes-magic (a ∷ b ∷ c ∷ []) h = absurd (omega (arith, h))
bytes-magic (a ∷ b ∷ c ∷ d ∷ l) h = four (a == b'G') (b == b'G') (c == b'U') (d == b'F')

nonzero-gguf : (size : ℕ) (bytes : List ℕ) → (size == 0) ≡ true → is_gguf 4 size bytes ≡ false
nonzero-gguf size bytes e = rw (==→eq _ _ e) refl

verify-gguf :
    (size : ℕ) (bytes : List ℕ)
    → size ≤ length bytes
    → verify_embedded_model (some bytes) size ≡ is_gguf 4 size bytes
unfolding verify_embedded_model
verify-gguf size bytes h = elim (Bool-cases (size == 0)) [
  | inl e ↦ rw (e, nonzero-gguf size bytes e) refl
  | inr e ↦ elim (Bool-cases (ltb size 4)) [
    | inl f ↦ rw (e, f, lt→leb 4 size (ltb→lt _ _ f)) refl
    | inr f ↦
        let more = ltb→le _ _ f in
        rw (e, f, le→leb 4 size more) (bytes-magic bytes (omega (arith, more, h)))
  ]
]

integrity-gguf :
    (size : ℕ) (bytes : List ℕ)
    → size ≤ length bytes
    → c_verify_model_integrity (some bytes) size ≡ some (is_gguf 4 size bytes)
unfolding c_verify_model_integrity
integrity-gguf size bytes h = elim (Bool-cases (size == 0)) [
  | inl e ↦ rw (e, nonzero-gguf size bytes e) refl
  | inr e ↦ rw e (gguf-format size bytes h)
]

same-test : (b : Bool) → (if not b then some false else some true) ≡ some b
same-test true = refl
same-test false = refl

header-gguf :
    (size : ℕ) (bytes : List ℕ)
    → size ≤ length bytes
    → c_validate_header (some bytes) size ≡ some (is_gguf 16 size bytes)
unfolding c_validate_header
header-gguf size bytes h = elim (Bool-cases (ltb size 16)) [
  | inl e ↦ rw (e, lt→leb 16 size (ltb→lt _ _ e)) refl
  | inr e ↦
      let more = ltb→le _ _ e in
      rw (e, le→leb 16 size more, gguf-format size bytes h, le→leb 4 size (omega (arith, more)))
        (same-test (starts_with magic bytes))
]

long-enough :
    (size : ℕ) (b : Bool)
    → (if not b then some false else if ltb size 16 then some false else some true)
      ≡ some (if leb 16 size then b else false)
long-enough size b = ground arith

validate-gguf :
    (size : ℕ) (bytes : List ℕ)
    → size ≤ length bytes
    → validate_data size (some bytes) ≡ some (is_gguf 16 size bytes)
unfolding validate_data
validate-gguf size bytes h = elim (Bool-cases (size == 0)) [
  | inl e ↦ rw (e, ==→eq _ _ e) refl
  | inr e ↦ elim (Bool-cases (ltb size 4)) [
    | inl f ↦ rw (e, f, lt→leb 16 size (omega (arith, ltb→lt _ _ f))) refl
    | inr f ↦
        let more = ltb→le _ _ f in
        rw (e, f, memcmp-starts_with magic bytes (omega (arith, more, h)))
          (long-enough size (starts_with magic bytes))
  ]
]

-- For bytes that are really there, the five checks are two: three ask for four bytes that start with
-- the magic number, and the other two for sixteen.
pub validate_embedded_model-agrees :
    (size : ℕ) (bytes : List ℕ) (valid : Bool) (checksum : ℕ)
    → size ≤ length bytes
    → (c_validate_gguf_format (some bytes) size ≡ some (is_gguf 4 size bytes))
      × (c_verify_model_integrity (some bytes) size ≡ some (is_gguf 4 size bytes))
      × (verify_embedded_model (some bytes) size ≡ is_gguf 4 size bytes)
      × (c_validate_header (some bytes) size ≡ some (is_gguf 16 size bytes))
      × (validate_embedded_model (
            some
              (record { bytes = some bytes; size = size; is_valid = valid; checksum = checksum }))
          ≡ some (is_gguf 16 size bytes))
unfolding validate_embedded_model
validate_embedded_model-agrees size bytes valid checksum h = (
  gguf-format size bytes h,
  integrity-gguf size bytes h,
  verify-gguf size bytes h,
  header-gguf size bytes h,
  validate-gguf size bytes h,
)

-- The embedded model passes its own check.
pub c_load_embedded_model-valid :
    c_load_embedded_model
    ≡ some (record { bytes = c_get_embedded_model; size = 28; is_valid = true })
unfolding c_load_embedded_model c_validate_embedded_model memcmp ◌-ℤ◌
c_load_embedded_model-valid = refl
