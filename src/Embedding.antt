-- ===== src/Embedding.antt =====
-- src/model_embedding.c and src/c_model_interface.c: the embedded model and its checks.
-- A pointer is `none` for NULL, else the bytes of the object from there on. A check's `none` is a read
-- outside the object. The calls of the log are left out.
use Prim.Native.Nat.{bit_xor}
use mathlib.Core.Option
use cllm.Common.{
  ℕ, zero, suc, ◌/◌, ◌%◌, ◌^◌, Bool, true, false, not, ◌||◌, Option, none, some, List, [], ◌∷◌,
  ◌++◌, ltb, ◌==◌, if◌then◌else◌, codes, length, replicate,
}
use cllm.Common.Int.{ℤ, pos, negsuc}
use cllm.Common.Maybe.{◌>>=◌}
use cllm.CString.{memcmp}
use cllm.Net.Wire.{byte_at}
pub mod Integrity
pub mod Checks
pub mod Tests

abbrev pub Pointer : Type 0
Pointer = Option (List ℕ)

-- `model_embedding_info_t`.
pub record ModelInfo : Type 0 where
  pub bytes : Pointer
  pub size : ℕ
  pub is_valid : Bool
  pub checksum : ℕ

pub load_embedded_model : ModelInfo
load_embedded_model = record { bytes = none; size = 0; is_valid = false; checksum = 0 }

abbrev pub magic : List ℕ
magic = codes "GGUF"

-- `memcmp(...) == 0`.
abbrev pub is_zero : ℤ → Bool
is_zero (pos n) = n == 0
is_zero (negsuc n) = false

abbrev pub has_magic : List ℕ → Option Bool
has_magic bytes = Option.map is_zero (memcmp bytes magic 4)

-- `data` and `size` behind the test for NULL.
pub validate_data : ℕ → Pointer → Option Bool
validate_data size none = some false
validate_data size (some bytes) =
    if size == 0
    then some false
    else if ltb size 4
    then some false
    else (has_magic bytes >>= λ same.
        if not same then some false else if ltb size 16 then some false else some true)

pub validate_embedded_model : Option ModelInfo → Option Bool
validate_embedded_model none = some false
validate_embedded_model (some info) = validate_data info.size info.bytes

-- The loop over `n` bytes.
pub xor_loop : ℕ → ℕ → List ℕ → Option ℕ
xor_loop zero checksum bytes = some checksum
xor_loop (suc n) checksum [] = none
xor_loop (suc n) checksum (b ∷ bytes) = xor_loop n (bit_xor checksum b) bytes

pub calculate_model_checksum : Pointer → ℕ → Option ℕ
calculate_model_checksum none size = some 0
calculate_model_checksum (some bytes) size =
    let sum = xor_loop size 0 bytes in if size == 0 then some 0 else sum

abbrev pub embedded_model_checksum : ℕ
embedded_model_checksum = 0x12345678

pub verify_model_integrity : Option ModelInfo → Option Bool
verify_model_integrity none = some false
verify_model_integrity (some info) =
    calculate_model_checksum info.bytes info.size >>= λ sum. some (sum == embedded_model_checksum)

-- `true` for the result 0, `false` for -1.
pub embed_model_from_file : Option (List ℕ) → Bool
embed_model_from_file none = false
embed_model_from_file (some file_path) = true

pub embed_model_data : Pointer → ℕ → Bool
embed_model_data none size = false
embed_model_data (some bytes) size = not (size == 0)

pub generate_model_embedding_code : Pointer → ℕ → Option (List ℕ) → Bool
generate_model_embedding_code none size path = false
generate_model_embedding_code (some bytes) size none = false
generate_model_embedding_code (some bytes) size (some path) = not (size == 0)

-- `true` for the result 0. Four bytes can be read behind the test of `size`.
pub verify_embedded_model : Pointer → ℕ → Bool
verify_embedded_model none size = false
verify_embedded_model (some bytes) size =
    if size == 0
    then false
    else not (
        ltb size 4
        || not (byte_at bytes 0 == b'G')
        || not (byte_at bytes 1 == b'G')
        || not (byte_at bytes 2 == b'U')
        || not (byte_at bytes 3 == b'F'))

-- The bytes of `embedded_model_bytes`: the magic number, the version, two counts and twelve more.
abbrev pub c_get_embedded_model : List ℕ
c_get_embedded_model =
    magic ++ (3 ∷ replicate 11 0) ++ (0 ∷ 1 ∷ 2 ∷ 3 ∷ 4 ∷ 5 ∷ 6 ∷ 7 ∷ 8 ∷ 9 ∷ 10 ∷ 11 ∷ [])

abbrev pub c_get_embedded_model_size : ℕ
c_get_embedded_model_size = length c_get_embedded_model

pub c_validate_embedded_model : Option Bool
c_validate_embedded_model =
    if ltb c_get_embedded_model_size 4 then some false else has_magic c_get_embedded_model

-- `embedded_model_info_t`.
pub record EmbeddedInfo : Type 0 where
  pub bytes : List ℕ
  pub size : ℕ
  pub is_valid : Bool

pub c_load_embedded_model : Option EmbeddedInfo
unfolding c_validate_embedded_model
c_load_embedded_model = c_validate_embedded_model >>= λ valid.
    some
      (record { bytes = c_get_embedded_model; size = c_get_embedded_model_size; is_valid = valid })

pub c_validate_gguf_format : Pointer → ℕ → Option Bool
c_validate_gguf_format none size = some false
c_validate_gguf_format (some bytes) size = if ltb size 4 then some false else has_magic bytes

pub c_validate_header : Pointer → ℕ → Option Bool
c_validate_header none size = some false
c_validate_header (some bytes) size =
    if ltb size 16
    then some false
    else (c_validate_gguf_format (some bytes) size >>= λ good.
        if not good then some false else some true)

pub c_verify_model_integrity : Pointer → ℕ → Option Bool
c_verify_model_integrity none size = some false
c_verify_model_integrity (some bytes) size =
    if size == 0 then some false else c_validate_gguf_format (some bytes) size

-- One round of the inner loop of `crc32_calc`.
abbrev pub crc_round : ℕ → ℕ
crc_round crc = if crc % 2 == 1 then bit_xor (crc / 2) 0xEDB88320 else crc / 2

pub crc_rounds : ℕ → ℕ → ℕ
crc_rounds zero crc = crc
crc_rounds (suc j) crc = crc_rounds j (crc_round crc)

pub crc_loop : ℕ → ℕ → List ℕ → Option ℕ
crc_loop zero crc bytes = some crc
crc_loop (suc n) crc [] = none
crc_loop (suc n) crc (b ∷ bytes) = crc_loop n (crc_rounds 8 (bit_xor crc b)) bytes

pub crc32_calc : List ℕ → ℕ → Option ℕ
crc32_calc bytes size = crc_loop size 0xFFFFFFFF bytes >>= λ crc. some (bit_xor crc 0xFFFFFFFF)

pub c_calculate_model_checksum : Pointer → ℕ → Option ℕ
c_calculate_model_checksum none size = some 0
c_calculate_model_checksum (some bytes) size =
    let crc = crc32_calc bytes size in if size == 0 then some 0 else crc
