-- ===== src/Embedding/Tests.antt =====
-- The model that is embedded.
use cllm.Common.{◌≡◌, refl, arith, true, false, some, codes}
use cllm.Embedding.{
  c_get_embedded_model, verify_model_integrity, validate_embedded_model, c_validate_gguf_format,
  c_validate_header, c_verify_model_integrity, verify_embedded_model, crc_rounds, crc_loop,
  crc32_calc, magic,
}
use cllm.Embedding.Integrity.{verify_model_integrity-false}
use cllm.Embedding.Checks.{validate_embedded_model-agrees}

verify_model_integrity-false_example :
    verify_model_integrity
      (some (record { bytes = some magic; size = 4; is_valid = true; checksum = 0x12345678 }))
    ≡ some false
verify_model_integrity-false_example =
    verify_model_integrity-false magic 4 true 0x12345678 (omega arith)
      (omega arith, (omega arith, (omega arith, (omega arith, tt))))

validate_embedded_model-agrees_example :
    (c_validate_gguf_format (some c_get_embedded_model) 28 ≡ some true)
    × (c_verify_model_integrity (some c_get_embedded_model) 28 ≡ some true)
    × (verify_embedded_model (some c_get_embedded_model) 28 ≡ true)
    × (c_validate_header (some c_get_embedded_model) 28 ≡ some true)
    × (validate_embedded_model (
          some (record {
            bytes = some c_get_embedded_model;
            size = 28;
            is_valid = true;
            checksum = 0;
          }))
        ≡ some true)
validate_embedded_model-agrees_example =
    validate_embedded_model-agrees 28 c_get_embedded_model true 0 (omega arith)

crc32_calc-check : crc32_calc (codes "123456789") 9 ≡ some 0xCBF43926
unfolding crc32_calc crc_loop crc_rounds
crc32_calc-check = refl
