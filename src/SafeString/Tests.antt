-- ===== src/SafeString/Tests.antt =====
-- The bounds-checked helpers on short buffers.
use cllm.Common.{ℕ, ◌≡◌, refl, List, [], ◌++◌, arith, some, codes, replicate, take}
use cllm.Format.Truncate.{render}
use cllm.SafeString.{safe_snprintf_append}
use cllm.SafeString.Bounds.{advance, behind, safe_snprintf_append-render}

abbrev word_text : List ℕ
word_text = codes "llama"

render_plain : render 0 word_text [] ≡ some word_text
unfolding render
render_plain = refl

-- Two of the five letters fit.
safe_snprintf_append-render_example :
    safe_snprintf_append (replicate 5 7) 2 word_text []
    ≡ some (record {
      dst = take 2 (replicate 5 7) ++ behind (replicate 5 7) 2 word_text;
      offset = (advance 5 2 5).0;
      result = (advance 5 2 5).1;
    })
safe_snprintf_append-render_example =
    safe_snprintf_append-render (replicate 5 7) 2 word_text [] render_plain (omega arith)
      (omega arith)
