-- ===== src/Net/Wire.antt =====
-- Fields of packed headers: `be16` and `be32` of a little-endian load are big-endian reads.
use cllm.Common.{ℕ, suc, ◌+◌, ◌*◌, ◌/◌, ◌%◌, ◌^◌, List, ◌∷◌, [], Bool, get_or, ◌==◌}

abbrev pub byte_at : List ℕ → ℕ → ℕ
byte_at packet i = get_or packet i 0

abbrev pub be16_at : List ℕ → ℕ → ℕ
be16_at packet i = byte_at packet i * 256 + byte_at packet (suc i)

abbrev pub be32_at : List ℕ → ℕ → ℕ
be32_at packet i = be16_at packet i * 65536 + be16_at packet (suc (suc i))

-- `flags & (1 << k)`.
abbrev pub bit_set : ℕ → ℕ → Bool
bit_set flags k = flags / 2 ^ k % 2 == 1

-- Numbers in network order.
abbrev pub be16_bytes : ℕ → List ℕ
be16_bytes x = x / 256 % 256 ∷ x % 256 ∷ []

abbrev pub be32_bytes : ℕ → List ℕ
be32_bytes x = x / 2 ^ 24 % 256 ∷ x / 2 ^ 16 % 256 ∷ x / 256 % 256 ∷ x % 256 ∷ []
