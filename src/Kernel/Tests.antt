-- ===== src/Kernel/Tests.antt =====
-- A boot over memory that is not zeroed.
use cllm.Common.{ℕ, ◌≡◌, refl, arith, true, none, codes, replicate, List}
use cllm.Common.Maybe.{Ensures}
use cllm.Http.{Request, Response, zeroed_request}
use cllm.Api.Routes.Tests.{char_model, no_number, one_float}
use cllm.Terminal.{Terminal, vga_entry}
use cllm.Terminal.Cursor.{Shows, type_all}
use cllm.Kernel.{blank_context, kernel_main}
use cllm.Kernel.Boot.{whole_arena, kernel_main-runs}

abbrev dirty : List ℕ
dirty = replicate 64 0xAA

abbrev found_request : Request
found_request = record zeroed_request { path = replicate 256 0xAA; method = replicate 16 0xAA }

abbrev found_response : Response
found_response = record { status_code = 7; headers = dirty; body = dirty; body_length = 7 }

abbrev unset_terminal : Terminal
unset_terminal = record { row = 0; column = 0; color = 0; buffer = none }

kernel_main-runs_example :
    Ensures
      (λ m.
        (m.running ≡ true)
        × (m.heap ≡ whole_arena)
        × (m.context ≡ blank_context)
        × Shows 7
            (type_all 7 (codes "CLLM unikernel\n") (0, replicate 2000 (vga_entry b' ' 7)))
            m.terminal)
      (kernel_main no_number one_float char_model dirty found_request found_response unset_terminal)
kernel_main-runs_example =
    kernel_main-runs no_number one_float char_model dirty found_request found_response
      unset_terminal (omega arith) (record { path = refl; method = refl })
