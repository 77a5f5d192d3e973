-- ===== src/Terminal/Cursor.antt =====
-- The terminal as a sheet of 2000 cells with one position in it.
use cllm.Common.{
  ℕ, zero, suc, sym, take, drop, ◌+◌, ◌*◌, ◌/◌, ◌%◌, ◌^◌, ◌<◌, ◌≡◌, refl, ap, subst, ap₂, ◌∙◌, some,
  List, [], ◌∷◌, ◌++◌, arith, Bool-cases, inl, inr, length, length-set, set, length-replicate,
  replicate, ◌==◌, if◌then◌else◌, ==→eq, ==→ne,
}
use cllm.Common.Maybe.{Ensures, ensures, Ensures-bind}
use cllm.CString.{store}
use cllm.CString.Copy.{store_lem}
use cllm.Terminal.{
  Terminal, vga_entry_color, Outb, vga_entry, update_cursor, next_row, next_column, moved,
  blank_screen, terminal_putchar, write_loop, terminal_init,
}

pub set-split {ℓ} :
    {A : Type ℓ} (l : List A) (i : ℕ) (v : A)
    → i < length l
    → set l i v ≡ take i l ++ (v ∷ drop (suc i) l)
set-split [] i v h = absurd (omega (arith, h))
set-split (x ∷ l) zero v h = refl
set-split (x ∷ l) (suc i) v h = ap (λ t. x ∷ t) (set-split l i v (omega (arith, h)))

store-set : (l : List ℕ) (i v : ℕ) → i < length l → store l i v ≡ some (set l i v)
store-set l i v h = store_lem l i v h ∙ ap some (sym (set-split l i v h))

abbrev pub Sheet : Type 0
Sheet = ℕ × List ℕ

-- A newline goes on to the next row, any other character fills its cell; behind the last cell comes
-- the first.
abbrev pub type_one : ℕ → ℕ → Sheet → Sheet
type_one color c (at, cells) =
    if c == b'\n'
    then ((at / 80 + 1) * 80 % 2000, cells)
    else ((at + 1) % 2000, set cells at (vga_entry c color))

abbrev pub type_all : ℕ → List ℕ → Sheet → Sheet
type_all color [] s = s
type_all color (c ∷ text) s = type_all color text (type_one color c s)

abbrev pub cursor_at : ℕ → List Outb
cursor_at at =
    record { port = 0x3D4; value = 0x0F }
    ∷ record { port = 0x3D5; value = at % 256 }
    ∷ record { port = 0x3D4; value = 0x0E }
    ∷ record { port = 0x3D5; value = at / 256 }
    ∷ []

-- The cursor follows every character.
abbrev pub cursor_trace : ℕ → List ℕ → Sheet → List Outb
cursor_trace color [] s = []
cursor_trace color (c ∷ text) s =
    cursor_at (type_one color c s).0 ++ cursor_trace color text (type_one color c s)

pub record Shows (color : ℕ) (s : Sheet) (t : Terminal) : Type 0 where
  pub row : t.row < 25
  pub column : t.column < 80
  pub place : t.row * 80 + t.column ≡ s.0
  pub ink : t.color ≡ color
  pub buffer : t.buffer ≡ some s.1
  pub cells : length s.1 ≡ 2000

update_cursor-at :
    (r c at : ℕ) → r < 25 → c < 80 → r * 80 + c ≡ at → update_cursor r c ≡ cursor_at at
unfolding update_cursor
update_cursor-at r c at h k e =
    let low : (r * 80 + c) % 2 ^ 16 % 256 ≡ at % 256 = omega (arith, h, k, e) in
    let high : (r * 80 + c) % 2 ^ 16 / 256 % 256 ≡ at / 256 = omega (arith, h, k, e) in
    rw (low, high) refl

next_row-Shows :
    (color at : ℕ) (cells : List ℕ) (t : Terminal)
    → Shows color (at, cells) t
    → Shows color ((at / 80 + 1) * 80 % 2000, cells) (next_row t)
unfolding next_row
next_row-Shows color at cells t h = elim (Bool-cases (suc t.row == 25)) [
  | inl e ↦ rw e (record {
    row = omega arith;
    column = omega arith;
    place = omega (arith, h.row, h.column, h.place, ==→eq _ _ e);
    ink = h.ink;
    buffer = h.buffer;
    cells = h.cells;
  })
  | inr e ↦ rw e (record {
    row = let n = ==→ne _ _ e in omega (arith, h.row, n);
    column = omega arith;
    place = let n = ==→ne _ _ e in omega (arith, h.row, h.column, h.place, n);
    ink = h.ink;
    buffer = h.buffer;
    cells = h.cells;
  })
]

next_column-Shows :
    (color at : ℕ) (cells : List ℕ) (t : Terminal)
    → Shows color (at, cells) t
    → Shows color ((at + 1) % 2000, cells) (next_column t)
unfolding next_column
next_column-Shows color at cells t h = elim (Bool-cases (suc t.column == 80)) [
  | inl e ↦
      let wrap : (at / 80 + 1) * 80 % 2000 ≡ (at + 1) % 2000 =
        omega (arith, h.column, h.row, h.place, ==→eq _ _ e) in
      rw e
        (subst (λ n. Shows color (n, cells) (next_row t)) wrap (next_row-Shows color at cells t h))
  | inr e ↦
      let n = ==→ne _ _ e in
      rw e (record {
        row = h.row;
        column = omega (arith, h.column, n);
        place = omega (arith, h.row, h.column, h.place, n);
        ink = h.ink;
        buffer = h.buffer;
        cells = h.cells;
      })
]

moved-at : (color : ℕ) (s : Sheet) (t : Terminal) → Shows color s t → moved t ≡ (t, cursor_at s.0)
moved-at color s t h = ap (λ l. (t, l)) (update_cursor-at t.row t.column s.0 h.row h.column h.place)

-- A character is typed on the sheet, and the cursor follows it.
terminal_putchar-Shows :
    (color c : ℕ) (s : Sheet) (t : Terminal)
    → Shows color s t
    → Ensures
        (λ q. Shows color (type_one color c s) q.0 × (q.1 ≡ cursor_at (type_one color c s).0))
        (terminal_putchar c t)
unfolding terminal_putchar
terminal_putchar-Shows color c (at, cells) t h = elim (Bool-cases (c == b'\n')) [
  | inl e ↦
      let k = next_row-Shows color at cells t h in
      rw e (ensures (moved (next_row t)) (k, ap (λ p. p.1) (moved-at color _ (next_row t) k)))
  | inr e ↦
      let cells' = set cells at (vga_entry c color) in
      let u = record t { buffer = some cells' } in
      let room : at < length cells = omega (arith, h.row, h.column, h.place, h.cells) in
      let k = next_column-Shows color at cells' u (record {
        row = h.row;
        column = h.column;
        place = h.place;
        ink = h.ink;
        buffer = refl;
        cells = length-set cells at (vga_entry c color) ∙ h.cells;
      }) in
      let entry : vga_entry c t.color ≡ vga_entry c color = ap (vga_entry c) h.ink in
      rw (e, h.buffer, h.place, entry, store-set cells at (vga_entry c color) room)
        (ensures (moved (next_column u)) (k, ap (λ p. p.1) (moved-at color _ (next_column u) k)))
]

-- From the sheet's position on, a text is typed character by character.
pub write_loop-Shows :
    (color : ℕ) (text : List ℕ) (s : Sheet) (t : Terminal)
    → Shows color s t
    → Ensures
        (λ q. Shows color (type_all color text s) q.0 × (q.1 ≡ cursor_trace color text s))
        (write_loop text t)
unfolding write_loop
write_loop-Shows color [] s t h = ensures (t, []) (h, refl)
write_loop-Shows color (c ∷ text) s t h =
    Ensures-bind (terminal_putchar-Shows color c s t h) (λ p k.
      Ensures-bind (write_loop-Shows color text (type_one color c s) p.0 k.0)
        (λ q l. ensures (q.0, p.1 ++ q.1) (l.0, ap₂ (λ x y. x ++ y) k.1 l.1)))

pub terminal_init-Shows :
    (t : Terminal)
    → let (u, out) = terminal_init t in
      Shows 7 (0, replicate 2000 (vga_entry b' ' 7)) u × (out ≡ cursor_at 0)
unfolding terminal_init vga_entry_color update_cursor blank_screen
terminal_init-Shows t = (
  record {
    row = omega arith;
    column = omega arith;
    place = refl;
    ink = refl;
    buffer = refl;
    cells = length-replicate 2000 (vga_entry b' ' 7);
  },
  refl,
)
