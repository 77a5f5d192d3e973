-- ===== src/CString/Tests.antt =====
-- The string functions on short strings.
use cllm.Common.{ℕ, ◌≡◌, refl, List, ◌++◌, arith, some, codes, replicate, drop, take, ◌↔◌, ◌%◌}
use cllm.Common.Int.{pos}
use cllm.CString.{memset, strncmp}
use cllm.CString.Copy.{until_nul, memset_lem}
use cllm.CString.Compare.{strncmp-zero_iff}

abbrev cat : List ℕ
cat = codes "cat"

abbrev car : List ℕ
car = codes "car"

-- The prefix test of a route.
strncmp_prefix : strncmp cat car 2 ≡ pos 0
unfolding strncmp
strncmp_prefix = refl

memset_lem_example :
    memset (replicate 5 1) 300 3 ≡ some (replicate 3 (300 % 256) ++ drop 3 (replicate 5 1))
memset_lem_example = memset_lem (replicate 5 1) 300 3 (omega arith)

strncmp-zero_iff_example :
    (strncmp cat car 2 ≡ pos 0) ↔ (take 2 (until_nul cat) ≡ take 2 (until_nul car))
strncmp-zero_iff_example =
    strncmp-zero_iff cat car 2 (omega arith, (omega arith, (omega arith, tt)))
      (omega arith, (omega arith, (omega arith, tt)))
