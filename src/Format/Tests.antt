-- ===== src/Format/Tests.antt =====
-- `vsnprintf` into a buffer that is too short.
use cllm.Common.{
  ℕ, ◌≡◌, refl, List, [], ◌∷◌, ◌++◌, arith, some, codes, replicate, length, take, false,
}
use cllm.Format.{Arg, word, text, uint_digits, vsnprintf, classify, width}
use cllm.Format.Emit.{placed}
use cllm.Format.Digits.{decimal_from, uint_digits-decimal}
use cllm.Format.Truncate.{render, vsnprintf-render}

abbrev arguments : List Arg
arguments = text (codes "heap") ∷ word 42 ∷ []

abbrev out : List ℕ
out = codes "heap: 42"

render-out : render 0 (codes "%s: %d") arguments ≡ some out
unfolding render classify width uint_digits
render-out = refl

vsnprintf-render_example :
    vsnprintf (replicate 8 1) 6 (codes "%s: %d") arguments
    ≡ some (length out, placed (replicate 8 1) (take 5 out ++ 0 ∷ []))
vsnprintf-render_example =
    vsnprintf-render (replicate 8 1) 6 (codes "%s: %d") arguments (omega arith) (omega arith)
      render-out (omega arith)

uint_digits-decimal_example : decimal_from 0 (uint_digits 4096 10 false) ≡ 4096
uint_digits-decimal_example = uint_digits-decimal 4096 false (omega arith)
