-- ===== src/Json/Writer/Tests.antt =====
-- The writer on a buffer of 64 bytes.
use cllm.Common.{refl, List, [], ◌∷◌, arith, true, false, codes, replicate}
use cllm.Json.Writer.{Writer, fresh}
use cllm.Json.Writer.Outcome.{Holds, Outcome}
use cllm.Json.Writer.Calls.{
  Call, object_start, object_end, key, string, int, bool, calls_text, comma_behind, perform_all,
  perform_all-Outcome,
}

abbrev empty_writer : Writer
empty_writer = fresh (replicate 64 0) 64

empty_writer-Holds : Holds 64 [] empty_writer
empty_writer-Holds = record {
  rest = replicate 63 0;
  buf = refl;
  offset = refl;
  bound = refl;
  room = omega arith;
  object = omega arith;
  small = omega arith;
}

-- An object with an escaped string and a Boolean.
abbrev calls : List Call
calls =
    object_start
    ∷ key (codes "name")
    ∷ string (codes "a\"b")
    ∷ key (codes "ready")
    ∷ bool true
    ∷ key (codes "layers")
    ∷ int 12
    ∷ object_end
    ∷ []

perform_all-Outcome_example :
    Outcome 64 []
      (calls_text false calls)
      (comma_behind false calls)
      (perform_all calls empty_writer)
perform_all-Outcome_example =
    perform_all-Outcome 64 calls [] false empty_writer empty_writer-Holds refl
      (tt, (omega arith, (tt, (omega arith, (tt, (omega arith, (omega arith, (tt, tt))))))))
