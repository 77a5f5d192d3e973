-- ===== src/Log.antt =====
-- src/error.c: the log lines, on the stack arrays that they are made in.
-- A level and an error code are their numbers; a line number is the bit pattern of an `int`. `none` is a
-- store outside an array or a fault of `vsnprintf`.
use cllm.Common.{
  ℕ, zero, suc, ◌+◌, ◌-◌, ◌/◌, ◌%◌, ◌^◌, Bool, true, false, Option, some, List, [], ◌∷◌, ◌++◌, leb,
  ltb, ◌==◌, if◌then◌else◌, codes, get_or, take, drop,
}
use cllm.Common.Maybe.{◌>>=◌}
use cllm.CString.{strlen, store}
use cllm.Format.{Arg, text, vsnprintf}
use cllm.Http.Generate.{sum, copy_to}
use cllm.Terminal.{Terminal, Outb, Written, serial_write, terminal_writestring}
pub mod Line
pub mod Place
pub mod Message
pub mod Outputs
pub mod Tests

abbrev pub log_level_strings : List (List ℕ)
log_level_strings = codes "DEBUG" ∷ codes "INFO" ∷ codes "WARN" ∷ codes "ERROR" ∷ codes "FATAL" ∷ []

abbrev pub error_code_strings : List (List ℕ)
error_code_strings =
    codes "SUCCESS"
    ∷ codes "OUT_OF_MEMORY"
    ∷ codes "INVALID_PARAMETER"
    ∷ codes "NOT_IMPLEMENTED"
    ∷ codes "IO_ERROR"
    ∷ codes "NETWORK_ERROR"
    ∷ codes "MODEL_LOAD_ERROR"
    ∷ codes "INFERENCE_ERROR"
    ∷ codes "CUDA_ERROR"
    ∷ codes "UNKNOWN_ERROR"
    ∷ []

-- `buffer` and `offset`.
abbrev pub Partial : Type 0
Partial = List ℕ × ℕ

abbrev pub capacity : ℕ
capacity = 512

pub put_byte : ℕ → Partial → Option Partial
put_byte c (b, off) = store b off c >>= λ b'. some (b', suc off)

-- `strncpy(buffer + offset, s, strlen(s)); offset += strlen(s)`.
pub put_text : List ℕ → Partial → Option Partial
put_text s (b, off) = copy_to s (strlen s) b off >>= λ b'. some (b', off + strlen s)

abbrev pub timestamp : List ℕ
timestamp = codes "[00:00:00]"

pub put_timestamp : Partial → Option Partial
put_timestamp p =
    if ltb (p.1 + strlen timestamp) (capacity - 1) then put_text timestamp p else some p

pub put_level : ℕ → Partial → Option Partial
put_level level p =
    let level_str = get_or log_level_strings level [] in
    if leb level 4
    then (if ltb (p.1 + strlen level_str + 3) (capacity - 1)
        then (put_byte b' ' p >>= λ q.
            put_byte b'[' q >>= λ q. put_text level_str q >>= λ q. put_byte b']' q)
        else some p)
    else some p

-- The loop over `i`, of which `n` values are left.
pub filename_loop : ℕ → List ℕ → List ℕ
filename_loop zero file = file
filename_loop (suc i) file =
    let later = filename_loop i file in if get_or file i 0 == b'/' then drop (suc i) file else later

pub filename : List ℕ → List ℕ
filename file = filename_loop (strlen file) file

-- The loop that fills `line_str`, in the order in which it is then copied.
pub line_loop : ℕ → ℕ → List ℕ → List ℕ
line_loop zero n buf = buf
line_loop (suc room) n buf = elim (n == 0) [
  | true ↦ buf
  | false ↦ line_loop room (n / 10) ((b'0' + n % 10) ∷ buf)
]

pub line_str : ℕ → List ℕ
unfolding line_loop
line_str line =
    b':' ∷ (if line == 0 then b'0' ∷ [] else if leb (2 ^ 31) line then [] else line_loop 15 line [])

-- The copy of `line_str`.
pub copy_line : List ℕ → Partial → Option Partial
copy_line [] p = some p
copy_line (c ∷ cs) p = elim (ltb p.1 (capacity - 1)) [
  | true ↦ put_byte c p >>= λ q. copy_line cs q
  | false ↦ some p
]

pub put_place : ℕ → List ℕ → ℕ → Partial → Option Partial
put_place level file line p =
    let name = filename file in
    if leb 3 level
    then (if ltb (sum p.1 (strlen name + 16)) (capacity - 1)
        then (put_byte b' ' p >>= λ q. put_byte b'[' q >>= λ q.
            put_text name q >>= λ q. copy_line (line_str line) q >>= λ q. put_byte b']' q)
        else some p)
    else some p

pub put_separator : Partial → Option Partial
put_separator p =
    if ltb p.1 (capacity - 3) then (put_byte b':' p >>= λ q. put_byte b' ' q) else some p

pub put_message : List ℕ → List Arg → Partial → Option Partial
put_message format args (b, off) =
    if ltb off (capacity - 1)
    then (vsnprintf (drop off b) (capacity - 1 - off) format args >>= λ r.
        some (take off b ++ r.1, sum off r.0))
    else some (b, off)

-- The end of the line.
pub put_end : Partial → Option (List ℕ)
put_end (b, off) =
    let end = if leb (capacity - 1) off then capacity - 2 else off in
    store b end b'\n' >>= λ b'. store b' (suc end) 0

-- What `log_message` has in `buffer` before it writes it out.
pub log_line : ℕ → List ℕ → ℕ → List ℕ → List Arg → List ℕ → Option (List ℕ)
log_line level file line format args buffer = put_timestamp (buffer, 0) >>= λ p.
    put_level level p >>= λ p. put_place level file line p >>= λ p.
    put_separator p >>= λ p. put_message format args p >>= λ p. put_end p

-- The terminal, the calls of `outb`, and whether the processor has been halted.
pub record Console : Type 0 where
  pub terminal : Terminal
  pub out : List Outb
  pub halted : Bool

abbrev pub to_terminal : ℕ → List ℕ → Terminal → Written
to_terminal level buffer t = if leb 1 level then terminal_writestring buffer t else some (t, [])

abbrev pub halt_text : ℕ → List ℕ
halt_text level = if level == 4 then codes "SYSTEM HALTED due to fatal error\n" else []

pub log_message : ℕ → List ℕ → ℕ → List ℕ → List Arg → List ℕ → Terminal → Option Console
log_message level file line format args buffer t =
    log_line level file line format args buffer >>= λ b. to_terminal level b t >>= λ w.
    some (record {
      terminal = w.0;
      out = serial_write b ++ (w.1 ++ serial_write (halt_text level));
      halted = level == 4;
    })

pub put_code : ℕ → Partial → Option Partial
put_code code p =
    let code_str = get_or error_code_strings code [] in
    if leb code 9
    then (if ltb (p.1 + strlen code_str + 4) (capacity - 1)
        then (put_byte b'[' p >>= λ q.
            put_text code_str q >>= λ q. put_byte b']' q >>= λ q. put_byte b' ' q)
        else some p)
    else some p

-- `log_error` and `log_panic` have the arrays of their own and of `log_message`.
pub log_error : ℕ → List ℕ → ℕ → List ℕ → List Arg → List ℕ → List ℕ → Terminal → Option Console
log_error code file line format args own buffer t = put_code code (own, 0) >>= λ p.
    put_message format args p >>= λ p.
    put_end p >>= λ b. log_message 3 file line (codes "%s") (text b ∷ []) buffer t

pub log_panic : List ℕ → ℕ → List ℕ → List Arg → List ℕ → List ℕ → Terminal → Option Console
log_panic file line format args own buffer t = vsnprintf own capacity format args >>= λ r.
    log_message 4 file line (codes "%s") (text r.1 ∷ []) buffer t
