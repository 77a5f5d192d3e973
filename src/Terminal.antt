-- ===== src/Terminal.antt =====
-- The VGA text terminal of src/kernel.c.
-- A screen is the 2000 cells at 0xB8000; NULL is `none`, and a store through it or outside the cells is
-- the fault `none`. The calls of `outb` are the output, in order.
use cllm.Common.{
  ℕ, suc, ◌+◌, ◌*◌, ◌/◌, ◌%◌, ◌^◌, Option, none, some, List, [], ◌∷◌, ◌++◌, ◌==◌, if◌then◌else◌,
  take, replicate,
}
use cllm.Common.Maybe.{◌>>=◌}
use cllm.CString.{strlen, store}
pub mod Cursor
pub mod Shown
pub mod Tests

abbrev pub vga_width : ℕ
vga_width = 80

abbrev pub vga_height : ℕ
vga_height = 25

-- `terminal_row` to `terminal_buffer`.
pub record Terminal : Type 0 where
  pub row : ℕ
  pub column : ℕ
  pub color : ℕ
  pub buffer : Option (List ℕ)

-- One call of `outb`.
pub record Outb : Type 0 where
  pub port : ℕ
  pub value : ℕ

-- What a terminal function leaves and sends; `none` is a fault.
abbrev pub Written : Type 0
Written = Option (Terminal × List Outb)

-- The two fields have their own bits.
pub vga_entry_color : ℕ → ℕ → ℕ
vga_entry_color fg bg = (fg + bg * 16) % 256

pub vga_entry : ℕ → ℕ → ℕ
vga_entry uc color = uc + color * 256

pub update_cursor : ℕ → ℕ → List Outb
update_cursor row col =
    let position = (row * vga_width + col) % 2 ^ 16 in
    record { port = 0x3D4; value = 0x0F }
    ∷ record { port = 0x3D5; value = position % 256 }
    ∷ record { port = 0x3D4; value = 0x0E }
    ∷ record { port = 0x3D5; value = position / 256 % 256 }
    ∷ []

abbrev pub blank_screen : ℕ → List ℕ
unfolding vga_entry
blank_screen color = replicate (vga_height * vga_width) (vga_entry b' ' color)

pub vga_init : Terminal → Terminal
vga_init t = record t { buffer = some (blank_screen t.color) }

pub terminal_init : Terminal → Terminal × List Outb
unfolding vga_entry_color
terminal_init t =
    let color = vga_entry_color 7 0 in
    (
      record { row = 0; column = 0; color = color; buffer = some (blank_screen color) },
      update_cursor 0 0,
    )

-- `if (++terminal_row == VGA_HEIGHT) terminal_row = 0`, at the first column.
pub next_row : Terminal → Terminal
next_row t =
    let row = if suc t.row == vga_height then 0 else suc t.row in record t { row = row; column = 0 }

-- `if (++terminal_column == VGA_WIDTH)` and its block.
pub next_column : Terminal → Terminal
unfolding next_row
next_column t = if suc t.column == vga_width then next_row t else record t { column = suc t.column }

-- The update of the cursor at the end of either path.
abbrev pub moved : Terminal → Terminal × List Outb
moved t = (t, update_cursor t.row t.column)

abbrev pub put_cell : ℕ → ℕ → Option (List ℕ) → Option (List ℕ)
put_cell index entry none = none
put_cell index entry (some cells) = store cells index entry

pub terminal_putchar : ℕ → Terminal → Written
unfolding next_column next_row
terminal_putchar c t =
    if c == b'\n'
    then some (moved (next_row t))
    else (put_cell (t.row * vga_width + t.column) (vga_entry c t.color) t.buffer >>= λ cells.
        some (moved (next_column (record t { buffer = some cells }))))

-- The loop of `terminal_write` over the first bytes of `data`.
pub write_loop : List ℕ → Terminal → Written
write_loop [] t = some (t, [])
write_loop (c ∷ text) t =
    terminal_putchar c t >>= λ p. write_loop text p.0 >>= λ q. some (q.0, p.1 ++ q.1)

pub terminal_write : List ℕ → ℕ → Terminal → Written
terminal_write text size t = write_loop (take size text) t

-- The bytes that `serial_write` sends to the port, where it has become ready for each.
pub serial_write : List ℕ → List Outb
serial_write [] = []
serial_write (c ∷ text) =
    let later = serial_write text in
    if c == 0 then [] else record { port = 0x3F8; value = c } ∷ later

abbrev pub write_or_serial : List ℕ → Terminal → Option (List ℕ) → Written
write_or_serial text t none = some (t, serial_write text)
write_or_serial text t (some cells) = terminal_write text (strlen text) t

pub terminal_writestring : List ℕ → Terminal → Written
terminal_writestring text t = write_or_serial text t t.buffer
