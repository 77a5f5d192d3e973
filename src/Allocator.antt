-- ===== src/Allocator.antt =====
-- src/allocator.c: the 4 MB arena, its free list, and malloc, free and realloc over it.
-- A block's address is the offset of its header in `heap`; the payload starts 16 bytes behind.
-- `free` is the chain from `free_list_head`, `used` are the headers whose `is_free` is 0.
use cllm.Common.{
  ℕ, zero, suc, ◌+◌, ◌-◌, ◌*◌, ◌/◌, ◌%◌, ◌^◌, Bool, true, false, not, ◌&&◌, ◌||◌, Option, none,
  some, List, [], ◌∷◌, ltb, leb, ◌==◌, if◌then◌else◌,
}
use cllm.Common.Maybe.{◌>>=◌}
pub mod Layout
pub mod Chain
pub mod Malloc
pub mod Coalesce
pub mod Free
pub mod Bytes
pub mod Tests

abbrev pub heap_size : ℕ
heap_size = 4 * 1024 * 1024

-- `sizeof(mem_block_t)` is 12 on the 32-bit target; the macro rounds it up to 16.
abbrev pub header_size : ℕ
header_size = (12 + 7) / 8 * 8

-- `mem_block_t`: `is_free` and `next` are the list that the block stands in.
pub record Block : Type 0 where
  pub addr : ℕ
  pub size : ℕ

pub record Heap : Type 0 where
  pub initialized : Bool
  pub free : List Block
  pub used : List Block

-- `heap` and its statics at load time.
abbrev pub blank : Heap
blank = record { initialized = false; free = []; used = [] }

abbrev pub end_of : Block → ℕ
end_of b = b.addr + header_size + b.size

-- `(size + 7) & ~7` on a 32-bit `size_t`.
abbrev pub round_up : ℕ → ℕ
round_up size = (size + 7) % 2 ^ 32 / 8 * 8

-- The alignment in `malloc`, with the case of a wrap to 0.
pub align_size : ℕ → ℕ
align_size size = if round_up size == 0 then 8 else round_up size

unfoldable pub memory_init_heap : Heap → Heap
memory_init_heap h = if h.initialized then h else record h {
  initialized = true;
  free = record { addr = 0; size = heap_size - header_size } ∷ [];
}

pub heap_ensure_initialized : Heap → Heap
unfolding memory_init_heap
heap_ensure_initialized h = if h.initialized then h else memory_init_heap h

-- The search loop: the first block that is large enough, and the chain with it unlinked.
pub first_fit : ℕ → List Block → Option (Block × List Block)
first_fit size [] = none
first_fit size (b ∷ bs) =
    let rest = first_fit size bs in
    if leb size b.size
    then some (b, bs)
    else elim rest [ none ↦ none | some (c, cs) ↦ some (c, b ∷ cs) ]

-- The insertion loops: before the first block whose address is not lower.
pub insert_block : Block → List Block → List Block
insert_block new [] = new ∷ []
insert_block new (b ∷ bs) = if ltb b.addr new.addr then b ∷ insert_block new bs else new ∷ b ∷ bs

-- The two parts of a block that is split: what is handed out, and the remainder.
abbrev pub front : ℕ → Block → Block
front size b = record b { size = size }

abbrev pub remainder : ℕ → Block → Block
remainder size b = record b {
  addr = b.addr + (size + header_size);
  size = b.size - (size + header_size);
}

-- What `malloc` does with the block it found: split, or hand out whole.
pub carve : ℕ → Block → List Block → Block × List Block
unfolding insert_block
carve size b chain =
    if leb (size + header_size + header_size + 8) b.size
    then (front size b, insert_block (remainder size b) chain)
    else (b, chain)

-- The payload pointer, or `none` for NULL, and the new heap.
pub malloc_found : Heap → ℕ → Option (Block × List Block) → Option ℕ × Heap
unfolding carve
malloc_found h size none = (none, h)
malloc_found h size (some (b, chain)) =
    let (taken, chain') = carve size b chain in
    (some (b.addr + header_size), record h { free = chain'; used = taken ∷ h.used })

unfoldable pub malloc : ℕ → Heap → Option ℕ × Heap
unfolding heap_ensure_initialized align_size first_fit malloc_found
malloc size h =
    let h' = heap_ensure_initialized h in
    if size == 0
    then (none, h)
    else malloc_found h' (align_size size) (first_fit (align_size size) h'.free)

-- The header at an address, if its `is_free` is 0, and the other such headers.
pub take_used : ℕ → List Block → Option (Block × List Block)
take_used a [] = none
take_used a (b ∷ bs) =
    let rest = take_used a bs in
    if b.addr == a
    then some (b, bs)
    else elim rest [ none ↦ none | some (c, cs) ↦ some (c, b ∷ cs) ]

-- A block with its right neighbour taken in.
abbrev pub merged : Block → Block → Block
merged c n = record c { size = c.size + (header_size + n.size) }

-- The coalescing loop at `curr`, with what follows it in the chain.
pub coalesce_from : Block → List Block → List Block
coalesce_from c [] = c ∷ []
coalesce_from c (n ∷ rest) = elim (end_of c == n.addr) [
  | true ↦ coalesce_from (merged c n) rest
  | false ↦ c ∷ coalesce_from n rest
]

pub coalesce : List Block → List Block
unfolding coalesce_from
coalesce [] = []
coalesce (b ∷ bs) = coalesce_from b bs

-- Whether a block of the chain has its header at the address.
pub heads : ℕ → List Block → Bool
heads a [] = false
heads a (b ∷ bs) = b.addr == a || heads a bs

-- A header whose `is_free` is 0 goes back to the chain, and neighbours are merged; one in the chain
-- (`guarded`) is left alone by the double-free guard. `none` is any other address: the code takes for a
-- header the caller's bytes, or what is left of a header that was merged, and what it then does is
-- not modelled.
pub free_found : Heap → Bool → Option (Block × List Block) → Option Heap
unfolding insert_block coalesce
free_found h guarded none = if guarded then some h else none
free_found h guarded (some (b, others)) =
    some (record h { free = coalesce (insert_block b h.free); used = others })

unfoldable pub free : Option ℕ → Heap → Option Heap
unfolding take_used heads free_found
free none h = some h
free (some p) h =
    if ltb p header_size
    then none
    else free_found h (heads (p - header_size) h.free) (take_used (p - header_size) h.used)

-- The copy goes through `memcpy`, which changes no header. `none` is a pointer to no live block, which
-- the code does not test for.
pub realloc_found : ℕ → ℕ → Heap → Option (Block × List Block) → Option (Option ℕ × Heap)
unfolding malloc free
realloc_found p size h none = none
realloc_found p size h (some (b, others)) =
    let grown = malloc size h in
    if leb size b.size
    then some (some p, record h { used = record b { size = size } ∷ others })
    else elim grown.0 [
      | none ↦ some grown
      | some q ↦ free (some p) grown.1 >>= λ g. some (some q, g)
    ]

pub realloc : Option ℕ → ℕ → Heap → Option (Option ℕ × Heap)
unfolding malloc free take_used realloc_found
realloc none size h = some (malloc size h)
realloc (some p) size h =
    if size == 0
    then (free (some p) h >>= λ g. some (none, g))
    else if ltb p header_size
    then none
    else realloc_found p size h (take_used (p - header_size) h.used)
