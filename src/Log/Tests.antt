-- ===== src/Log/Tests.antt =====
-- A message at ERROR on the fresh terminal.
use cllm.Common.{ℕ, ◌^◌, ◌<◌, ◌≡◌, ◌==◌, refl, arith, List, [], ◌++◌, codes, replicate}
use cllm.Common.Maybe.{Ensures}
use cllm.CString.{strlen}
use cllm.Format.{fill_digits, uint_digits}
use cllm.Format.Plain.{is_plain-NonNul, render_plain}
use cllm.Terminal.{Outb, serial_write}
use cllm.Terminal.Cursor.{Shows}
use cllm.Terminal.Tests.{fresh, empty_screen, fresh-Shows}
use cllm.Log.{filename, filename_loop, halt_text, log_message}
use cllm.Log.Message.{log_text}
use cllm.Log.Outputs.{after_message, log_message-Logs}

abbrev file_name : List ℕ
file_name = codes "src/memory.c"

filename-base : filename file_name ≡ codes "memory.c"
unfolding filename filename_loop strlen
filename-base = refl

name-short : strlen (filename file_name) < 2 ^ 31
unfolding filename filename_loop strlen
name-short = omega arith

abbrev message : List ℕ
message = codes "out of memory"

stamped :
    log_text 3 file_name 42 message ≡ codes "[00:00:00] [ERROR] [memory.c:42]: out of memory\n"
unfolding filename filename_loop strlen uint_digits fill_digits
stamped = refl

log_message-Logs_example :
    let whole = log_text 3 file_name 42 message in
    Ensures
      (λ c.
        Shows 7 (after_message 7 3 whole (0, empty_screen)) c.terminal
        × (c.halted ≡ (3 == 4))
        × ((moves : List Outb) × (c.out
              ≡ serial_write whole ++ (moves ++ serial_write (halt_text 3)))))
      (log_message 3 file_name 42 message [] (replicate 512 0) fresh)
log_message-Logs_example =
    log_message-Logs 7 3 file_name 42 message [] (replicate 512 0) (0, empty_screen) fresh refl
      (omega arith) name-short (render_plain message [] refl) (omega arith)
      (is_plain-NonNul message refl) fresh-Shows
