-- ===== src/Allocator/Malloc.antt =====
-- `malloc`: the invariant, what the caller gets, and when it gets NULL.
use cllm.Common.{
  ℕ, zero, suc, ◌+◌, ◌%◌, ◌^◌, ◌≤◌, ◌<◌, ◌≡◌, refl, ap, sym, ◌∙◌, ◌↔◌, inl, inr, List, [], ◌∷◌, All,
  All-map, arith, true, Option, none, some, Bool-cases, leb, leb→le, ne→==,
}
use cllm.Allocator.{
  Block, Heap, blank, end_of, header_size, heap_size, align_size, front, remainder, carve,
  first_fit, memory_init_heap, heap_ensure_initialized, malloc_found, malloc,
}
use cllm.Allocator.Layout.{IsFreeList, ApartBy, InArena, IsValid}
use cllm.Allocator.Chain.{
  Pick, Found, first_fit-Found, Pick-All, Pick-IsChain, Pick-ApartBy, insert_block-All,
  insert_block-IsChain,
}

align_size_multiple : (size : ℕ) → align_size size % 8 ≡ 0
unfolding align_size
align_size_multiple size = ground arith

le-align_size : (size : ℕ) → size + 7 < 2 ^ 32 → size ≤ align_size size
unfolding align_size
le-align_size size h = ground arith

-- The arena as `memory_init_heap` leaves it.
pub memory_init_heap-IsValid : IsValid (memory_init_heap blank)
unfolding memory_init_heap
memory_init_heap-IsValid = record {
  ready = refl;
  chain = omega arith;
  free_in = omega arith;
  used_in = tt;
  used_apart = tt;
  free_apart = tt;
}

-- What the code hands out for a block `b` that it found, and what it puts back.
module _ (size : ℕ) (b : Block) (m : List Block) where
  -- The block handed out lies inside `b` and holds `size` bytes.
  carve_front :
      size ≤ b.size
      → ((carve size b m).0.addr ≡ b.addr)
        × (size ≤ (carve size b m).0.size)
        × (end_of (carve size b m).0 ≤ end_of b)
  unfolding carve
  carve_front h = ground arith

  carve-All {κ} :
      (P : Block → Type κ)
      → (header_size + size ≤ b.size → P (remainder size b))
      → All P m
      → All P (carve size b m).1
  unfolding carve
  carve-All P p h = elim (Bool-cases (leb (size + header_size + header_size + 8) b.size)) [
    | inl e ↦ rw e (insert_block-All P (remainder size b) m (p (omega (arith, leb→le _ _ e))) h)
    | inr e ↦ rw e h
  ]

  carve-IsChain : IsFreeList m → All (ApartBy 1 b) m → IsFreeList (carve size b m).1
  unfolding carve
  carve-IsChain c a = elim (Bool-cases (leb (size + header_size + header_size + 8) b.size)) [
    | inl e ↦ rw e (
        insert_block-IsChain 1 0 (remainder size b) m (omega arith) c
          (All-map m (λ d h. shrink e d h) a))
    | inr e ↦ rw e c
  ]
    where
      shrink :
          leb (size + header_size + header_size + 8) b.size ≡ true
          → (d : Block) → ApartBy 1 b d
          → ApartBy 1 (remainder size b) d
      shrink e d h = omega (arith, leb→le _ _ e)

  -- The remainder begins behind the block handed out.
  carve-ApartBy :
      size ≤ b.size → All (ApartBy 1 b) m → All (ApartBy 0 (carve size b m).0) (carve size b m).1
  unfolding carve
  carve-ApartBy h a = elim (Bool-cases (leb (size + header_size + header_size + 8) b.size)) [
    | inl e ↦ rw e (
        insert_block-All (ApartBy 0 (front size b)) (remainder size b) m (inl (omega arith))
          (All-map m (λ d k. omega arith) a))
    | inr e ↦ rw e (All-map m (λ d k. omega arith) a)
  ]

malloc_found-IsValid :
    (h : Heap) (size : ℕ) (o : Option (Block × List Block))
    → size % 8 ≡ 0
    → Found size h.free o
    → IsValid h
    → IsValid (malloc_found h size o).1
unfolding malloc_found
malloc_found-IsValid h size none e f v = v
malloc_found-IsValid h size (some (b, m)) e (p, big) v = record {
  ready = v.ready;
  chain = carve-IsChain size b m (Pick-IsChain 1 0 p v.chain).0 (Pick-ApartBy 1 0 p v.chain);
  free_in = carve-All size b m InArena (λ k. omega (arith, found_in)) found_in.1;
  used_in = (omega (arith, taken, found_in), v.used_in);
  used_apart = (All-map h.used (λ u a. omega (arith, taken)) split, v.used_apart);
  free_apart = (
    carve-ApartBy size b m big (Pick-ApartBy 1 0 p v.chain),
    All-map h.used (λ u a. carve-All size b m (ApartBy 0 u) (λ k. omega arith) a.1) split,
  );
}
  where
    taken :
        ((carve size b m).0.addr ≡ b.addr)
        × (size ≤ (carve size b m).0.size)
        × (end_of (carve size b m).0 ≤ end_of b)
    taken = carve_front size b m big

    found_in : InArena b × All InArena m
    found_in = Pick-All InArena p v.free_in

    split : All (λ u. ApartBy 0 u b × All (ApartBy 0 u) m) h.used
    split = All-map h.used (λ u a. Pick-All (ApartBy 0 u) p a) v.free_apart

ensured : (h : Heap) → IsValid h → heap_ensure_initialized h ≡ h
unfolding heap_ensure_initialized
ensured h v = ground arith

pub malloc_of_pos :
    (size : ℕ) (h : Heap)
    → 0 < size
    → IsValid h
    → malloc size h ≡ malloc_found h (align_size size) (first_fit (align_size size) h.free)
unfolding malloc
malloc_of_pos size h p v = rw (ensured h v, ne→== size 0 (omega arith))

-- `malloc` keeps the arena valid: the free list sorted and coalesced, every block inside the arena
-- and on an 8-byte boundary, and no two blocks overlapping.
pub malloc-IsValid : (size : ℕ) (h : Heap) → IsValid h → IsValid (malloc size h).1
malloc-IsValid zero h v = unfold malloc in v
malloc-IsValid (suc n) h v = rw (malloc_of_pos (suc n) h (omega arith) v) (
    malloc_found-IsValid h (align_size (suc n)) _ (align_size_multiple (suc n))
      (first_fit-Found (align_size (suc n)) h.free) v)

malloc_found-Pick :
    (size : ℕ) (h : Heap) (o : Option (Block × List Block)) {b : Block} {m : List Block}
    → Pick h.used b m
    → (l : List Block) × Pick (malloc_found h size o).1.used b l
unfolding malloc_found
malloc_found-Pick size h none {m = m} p = (m, p)
malloc_found-Pick size h (some (c, chain)) p = (_, Pick.there p)

-- No live block goes away.
pub malloc-Pick :
    (size : ℕ) (h : Heap) {b : Block} {m : List Block}
    → IsValid h
    → Pick h.used b m
    → (l : List Block) × Pick (malloc size h).1.used b l
malloc-Pick zero h {m = m} v p = unfold malloc in (m, p)
malloc-Pick (suc n) h v p =
    rw (malloc_of_pos (suc n) h (omega arith) v)
      (malloc_found-Pick (align_size (suc n)) h (first_fit (align_size (suc n)) h.free) p)

-- What the caller of `malloc` relies on: `p` is the payload of a new live block that holds the
-- request.
pub record Allocated (size p : ℕ) (h h' : Heap) : Type 0 where
  pub block : Block
  pub used : h'.used ≡ block ∷ h.used
  pub payload : p ≡ block.addr + header_size
  pub aligned : p % 8 ≡ 0
  pub holds : size ≤ block.size
  pub inside : end_of block ≤ heap_size
  pub apart : All (ApartBy 0 block) h.used

malloc_found-Allocated :
    (h : Heap) (size : ℕ) (o : Option (Block × List Block)) {p : ℕ} {h' : Heap}
    → Found size h.free o
    → IsValid h
    → size % 8 ≡ 0
    → malloc_found h size o ≡ (some p, h')
    → Allocated size p h h'
unfolding malloc_found
malloc_found-Allocated h size none f v k e = cc
malloc_found-Allocated h size (some (b, m)) {p} {h'} f v k e =
    let v' = malloc_found-IsValid h size (some (b, m)) k f v in
    let fits = carve_front size b m f.1 in
    let at : p ≡ b.addr + header_size = cc in
    let here = (Pick-All InArena f.0 v.free_in).0 in
    record {
      block = (carve size b m).0;
      used = cc;
      payload = omega arith;
      aligned = omega arith;
      holds = fits.1;
      inside = omega arith;
      apart = v'.used_apart.0;
    }

-- A successful `malloc` of a positive size in a valid arena returns an 8-byte aligned payload inside the arena that holds the request and
-- overlaps no live block, and every other live block stays as it was. The request is not so large
-- that rounding it up wraps.
pub malloc-Allocated :
    (size : ℕ) (h : Heap) {p : ℕ} {h' : Heap}
    → 0 < size
    → size + 7 < 2 ^ 32
    → IsValid h
    → malloc size h ≡ (some p, h')
    → Allocated size p h h'
malloc-Allocated size h {p} {h'} pos fits v e =
    let a =
      malloc_found-Allocated h (align_size size) (first_fit (align_size size) h.free)
        (first_fit-Found (align_size size) h.free) v (align_size_multiple size)
        (sym (malloc_of_pos size h pos v) ∙ e) in
    record {
      block = a.block;
      used = a.used;
      payload = a.payload;
      aligned = a.aligned;
      holds = omega (arith, a.holds, le-align_size size fits);
      inside = a.inside;
      apart = a.apart;
    }

malloc_found-none :
    (h : Heap) (size : ℕ) (o : Option (Block × List Block))
    → Found size h.free o
    → (malloc_found h size o).0 ≡ none
    → All (λ b. b.size < size) h.free
unfolding malloc_found
malloc_found-none h size none f e = f
malloc_found-none h size (some (b, m)) f e = cc

first_fit-none : (size : ℕ) (l : List Block) → All (λ b. b.size < size) l → first_fit size l ≡ none
unfolding first_fit
first_fit-none size [] a = refl
first_fit-none size (b ∷ l) a = ground (arith, first_fit-none size l a.1)

-- In a valid arena `malloc` of a positive size returns NULL exactly if every free block is too small for the rounded
-- request.
pub malloc-none_iff :
    (size : ℕ) (h : Heap)
    → 0 < size
    → IsValid h
    → ((malloc size h).0 ≡ none) ↔ All (λ b. b.size < align_size size) h.free
malloc-none_iff size h pos v = (
  λ e.
      malloc_found-none h (align_size size) _ (first_fit-Found (align_size size) h.free)
        (rw (← malloc_of_pos size h pos v) e),
  λ a.
      rw (malloc_of_pos size h pos v, first_fit-none (align_size size) h.free a)
        (unfold malloc_found in refl),
)

align_size_wraps : (size : ℕ) → 2 ^ 32 ≤ size + 7 → size < 2 ^ 32 → align_size size ≡ align_size 8
unfolding align_size
align_size_wraps size h k = ground arith

-- A request of more than 2 ^ 32 - 8 bytes wraps when it is rounded up: `malloc` then does what it
-- does for 8 bytes, and a caller that asked for almost 4 GB gets a block of 8.
malloc_wraps :
    (size : ℕ) (h : Heap)
    → 2 ^ 32 ≤ size + 7
    → size < 2 ^ 32
    → IsValid h
    → malloc size h ≡ malloc 8 h
malloc_wraps size h big small v =
    malloc_of_pos size h (omega (arith, big)) v
    ∙ ap (λ n. malloc_found h n (first_fit n h.free)) (align_size_wraps size big small)
    ∙ sym (malloc_of_pos 8 h (omega arith) v)
