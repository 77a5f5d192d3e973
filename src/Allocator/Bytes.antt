-- ===== src/Allocator/Bytes.antt =====
-- No byte of the arena is lost between `malloc` and `free`.
use cllm.Common.{
  ℕ, zero, suc, ◌+◌, ◌-◌, ◌≤◌, ◌≡◌, refl, ap, ◌∙◌, List, [], ◌∷◌, All, arith, subst, Bool,
  Bool-cases, ltb, inl, inr, Option, none, some,
}
use cllm.Common.Maybe.{some_inj, some_none}
use cllm.Allocator.{
  Block, Heap, end_of, header_size, heap_size, align_size, remainder, carve, insert_block, merged,
  coalesce_from, coalesce, take_used, malloc_found, malloc, free_found, free, memory_init_heap,
  blank,
}
use cllm.Allocator.Layout.{IsChain, IsFreeList, InArena, IsValid}
use cllm.Allocator.Chain.{Pick, Taken, take_used-Taken, Found, first_fit-Found}
use cllm.Allocator.Malloc.{malloc_of_pos, malloc-IsValid, memory_init_heap-IsValid}
use cllm.Allocator.Free.{free_returned-IsValid}

-- The bytes that the blocks of a list take up, headers included.
pub total : List Block → ℕ
total [] = 0
total (b ∷ bs) = header_size + b.size + total bs

Pick-total : {l m : List Block} {b : Block} → Pick l b m → total l ≡ header_size + b.size + total m
unfolding total
Pick-total Pick.here = refl
Pick-total (Pick.there p) = omega (arith, Pick-total p)

insert_block-total :
    (b : Block) (l : List Block) → total (insert_block b l) ≡ header_size + b.size + total l
unfolding insert_block total
insert_block-total b [] = refl
insert_block-total b (c ∷ l) = ground (arith, insert_block-total b l)

coalesce_from-total :
    (c : Block) (l : List Block) → total (coalesce_from c l) ≡ header_size + c.size + total l
unfolding coalesce_from total
coalesce_from-total c [] = refl
coalesce_from-total c (n ∷ l) =
    ground (arith, coalesce_from-total (merged c n) l, coalesce_from-total n l)

coalesce-total : (l : List Block) → total (coalesce l) ≡ total l
unfolding coalesce total
coalesce-total [] = refl
coalesce-total (b ∷ l) = coalesce_from-total b l

carve-total :
    (size : ℕ) (b : Block) (m : List Block)
    → (carve size b m).0.size + total (carve size b m).1 ≡ b.size + total m
unfolding carve
carve-total size b m = ground (arith, insert_block-total (remainder size b) m)

malloc_found-total :
    (h : Heap) (size : ℕ) (o : Option (Block × List Block))
    → Found size h.free o
    → total (malloc_found h size o).1.free + total (malloc_found h size o).1.used
      ≡ total h.free + total h.used
unfolding malloc_found total
malloc_found-total h size none f = refl
malloc_found-total h size (some (b, m)) f = omega (arith, Pick-total f.0, carve-total size b m)

-- In a valid arena `malloc` moves bytes between the free list and the live blocks, and loses none.
malloc-total :
    (size : ℕ) (h : Heap)
    → IsValid h
    → total (malloc size h).1.free + total (malloc size h).1.used ≡ total h.free + total h.used
malloc-total zero h v = unfold malloc in refl
malloc-total (suc n) h v =
    rw (malloc_of_pos (suc n) h (omega arith) v)
      (malloc_found-total h (align_size (suc n)) _ (first_fit-Found (align_size (suc n)) h.free))

free_found-total :
    (h g : Heap) (a : ℕ) (guarded : Bool) (o : Option (Block × List Block))
    → Taken a h.used o
    → free_found h guarded o ≡ some g
    → total g.free + total g.used ≡ total h.free + total h.used
unfolding free_found
free_found-total h g a guarded none f e = elim (Bool-cases guarded) [
  | inl t ↦ let same : some h ≡ some g = (rw t at e) in rw (some_inj same) refl
  | inr t ↦ some_none (rw t at e)
]
free_found-total h g a guarded (some (b, m)) f e =
    let same = some_inj e in
    subst (λ x. total x.free + total x.used ≡ total h.free + total h.used) same
      (omega (
        arith,
        Pick-total f.0,
        coalesce-total (insert_block b h.free),
        insert_block-total b h.free,
      ))

-- `free` moves bytes from the live blocks back to the free list, and loses none.
free-total :
    (p : Option ℕ) (h g : Heap)
    → free p h ≡ some g
    → total g.free + total g.used ≡ total h.free + total h.used
unfolding free
free-total none h g e = rw (some_inj e) refl
free-total (some p) h g e = elim (Bool-cases (ltb p header_size)) [
  | inl t ↦ some_none (rw t at e)
  | inr t ↦
      free_found-total h g (p - header_size) _ (take_used (p - header_size) h.used)
        (take_used-Taken (p - header_size) h.used) (rw t at e)
]

chain-total :
    (lo : ℕ) (l : List Block)
    → IsChain 1 lo l
    → All InArena l
    → lo ≤ heap_size + 1
    → total l + lo ≤ heap_size + 1
unfolding total
chain-total lo [] c a h = omega arith
chain-total lo (b ∷ l) c a h =
    omega (arith, c.0, a.0.ends, chain-total (end_of b + 1) l c.1 a.1 (omega (arith, a.0.ends)))

whole_chain :
    (l : List Block)
    → IsFreeList l
    → All InArena l
    → total l ≡ heap_size
    → l ≡ record { addr = 0; size = heap_size - header_size } ∷ []
unfolding total
whole_chain [] c a t = absurd (omega arith)
whole_chain (b ∷ []) c a t = ground arith
whole_chain (b ∷ d ∷ l) c a t = absurd (
    omega (
      arith,
      c.1.0,
      a.1.0.ends,
      chain-total (end_of d + 1) l c.1.1 a.1.1 (omega (arith, a.1.0.ends)),
    ))

-- A list that covers the arena with no block live is the one block.
whole_arena :
    (h : Heap)
    → IsValid h
    → h.used ≡ []
    → total h.free + total h.used ≡ heap_size
    → h.free ≡ record { addr = 0; size = heap_size - header_size } ∷ []
unfolding total
whole_arena h v e t = whole_chain h.free v.chain v.free_in (omega (arith, t, ap total e))

-- The arenas that calls of `malloc` and `free` lead to; `free` is called with NULL, with a live block,
-- or with one that is in the free list.
pub data History : Heap → Type 0 where
  start : History (memory_init_heap blank)
  allocate : (size : ℕ) (h : Heap) → History h → History (malloc size h).1
  release : (p : Option ℕ) (h g : Heap) → History h → free p h ≡ some g → History g

History-IsValid : (h : Heap) → History h → IsValid h
History-IsValid _ start = memory_init_heap-IsValid
History-IsValid _ (allocate size h r) = malloc-IsValid size h (History-IsValid h r)
History-IsValid _ (release p h g r e) = free_returned-IsValid p h g e (History-IsValid h r)

History-total : (h : Heap) → History h → total h.free + total h.used ≡ heap_size
unfolding total memory_init_heap
History-total _ start = refl
History-total _ (allocate size h r) = malloc-total size h (History-IsValid h r) ∙ History-total h r
History-total _ (release p h g r e) = free-total p h g e ∙ History-total h r

-- After any sequence of `malloc` calls and of `free` calls with NULL, live blocks or blocks that are in
-- the free list, which leaves no block live, in whatever order the blocks were freed, the free list is
-- one block, the whole arena as `memory_init_heap` made it.
pub History-whole_arena :
    (h : Heap)
    → History h
    → h.used ≡ []
    → h.free ≡ record { addr = 0; size = heap_size - header_size } ∷ []
History-whole_arena h r e = whole_arena h (History-IsValid h r) e (History-total h r)
