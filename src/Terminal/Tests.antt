-- ===== src/Terminal/Tests.antt =====
-- The banner of the kernel on a fresh terminal.
use cllm.Common.{ℕ, ◌≡◌, refl, none, codes, List, replicate}
use cllm.Common.Maybe.{Ensures}
use cllm.CString.Copy.{until_nul}
use cllm.Terminal.{Terminal, vga_entry, terminal_init, terminal_writestring}
use cllm.Terminal.Cursor.{Shows, type_one, type_all, cursor_trace, terminal_init-Shows}
use cllm.Terminal.Shown.{terminal_writestring-Shows}

abbrev dark : Terminal
dark = record { row = 3; column = 4; color = 0; buffer = none }

abbrev pub fresh : Terminal
fresh = (terminal_init dark).0

abbrev banner : List ℕ
banner = codes "CLLM unikernel\n"

abbrev pub empty_screen : List ℕ
empty_screen = replicate 2000 (vga_entry b' ' 7)

pub fresh-Shows : Shows 7 (0, empty_screen) fresh
fresh-Shows = (terminal_init-Shows dark).0

terminal_writestring-Shows_example :
    Ensures
      (λ q.
        Shows 7 (type_all 7 (until_nul banner) (0, empty_screen)) q.0
        × (q.1 ≡ cursor_trace 7 (until_nul banner) (0, empty_screen)))
      (terminal_writestring banner fresh)
terminal_writestring-Shows_example =
    terminal_writestring-Shows 7 banner (0, empty_screen) fresh fresh-Shows

-- A newline in the last row goes on in the first, and so does the character behind the last cell.
newline-wraps : (type_one 7 b'\n' (1999, empty_screen)).0 ≡ 0
newline-wraps = refl

last_cell-wraps : (type_one 7 b'x' (1999, empty_screen)).0 ≡ 0
last_cell-wraps = refl
