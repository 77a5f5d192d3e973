-- ===== src/Allocator/Tests.antt =====
-- The allocator on a small arena: two live blocks of 104 and 24 bytes in front of a free one.
use cllm.Common.{◌-◌, ◌<◌, ◌≡◌, refl, subst, inl, inr, [], ◌∷◌, arith, true, none, some, All, ◌↔◌}
use cllm.Allocator.{
  Block, Heap, blank, heap_size, header_size, align_size, memory_init_heap, malloc, free, realloc,
}
use cllm.Common.Maybe.{Ensures}
use cllm.Allocator.Chain.{Pick}
use cllm.Allocator.Layout.{IsValid}
use cllm.Allocator.Malloc.{Allocated, malloc-IsValid, malloc-Allocated, malloc-none_iff}
use cllm.Allocator.Free.{Owned, free-IsValid}
use cllm.Allocator.Bytes.{History, start, allocate, release, History-whole_arena}

abbrev near : Block
near = record { addr = 0; size = 104 }

abbrev far : Block
far = record { addr = 120; size = 24 }

abbrev rest : Block
rest = record { addr = 160; size = 4194128 }

abbrev two_live : Heap
two_live = record { initialized = true; free = rest ∷ []; used = far ∷ near ∷ [] }

-- Two calls of `malloc` on the blank arena make it.
malloc_twice : (malloc 24 (malloc 100 blank).1).1 ≡ two_live
unfolding malloc
malloc_twice = refl

-- With `far` freed, `rest` has been merged into it.
abbrev near_live : Heap
near_live = record {
  initialized = true;
  free = record { addr = 120; size = 4194168 } ∷ [];
  used = near ∷ [];
}

free_far : free (some 136) two_live ≡ some near_live
unfolding free
free_far = refl

-- The double-free guard.
free_twice : free (some 136) near_live ≡ some near_live
unfolding free
free_twice = refl

abbrev emptied : Heap
emptied = record { initialized = true; free = record { addr = 0; size = 4194288 } ∷ []; used = [] }

free_near : free (some 16) near_live ≡ some emptied
unfolding free
free_near = refl

-- No block begins there.
free_stray : free (some 24) two_live ≡ none
unfolding free
free_stray = refl

abbrev moved : Heap
moved = record {
  initialized = true;
  free = record { addr = 0; size = 104 } ∷ record { addr = 376; size = 4193912 } ∷ [];
  used = record { addr = 160; size = 200 } ∷ far ∷ [];
}

realloc_moves : realloc (some 16) 200 two_live ≡ some (some 176, moved)
unfolding realloc
realloc_moves = refl

two_live-IsValid : IsValid two_live
two_live-IsValid = record {
  ready = refl;
  chain = (omega arith, tt);
  free_in = (record { ends = omega arith; aligned = omega arith }, tt);
  used_in = (
    record { ends = omega arith; aligned = omega arith },
    (record { ends = omega arith; aligned = omega arith }, tt),
  );
  used_apart = ((inr (omega arith), tt), (tt, tt));
  free_apart = ((inl (omega arith), tt), ((inl (omega arith), tt), tt));
}

malloc-IsValid_example : IsValid (malloc 50 two_live).1
malloc-IsValid_example = malloc-IsValid 50 two_live two_live-IsValid

abbrev three_live : Heap
three_live = record {
  initialized = true;
  free = record { addr = 232; size = 4194056 } ∷ [];
  used = record { addr = 160; size = 56 } ∷ far ∷ near ∷ [];
}

malloc_50 : malloc 50 two_live ≡ (some 176, three_live)
unfolding malloc
malloc_50 = refl

malloc-Allocated_example : Allocated 50 176 two_live three_live
malloc-Allocated_example =
    malloc-Allocated 50 two_live (omega arith) (omega arith) two_live-IsValid malloc_50

malloc-none_iff_example :
    ((malloc 5000000 two_live).0 ≡ none) ↔ All (λ b. b.size < align_size 5000000) (rest ∷ [])
malloc-none_iff_example = malloc-none_iff 5000000 two_live (omega arith) two_live-IsValid

near-Owned : Owned (some 16) two_live
near-Owned = (near, far ∷ [], Pick.there Pick.here, omega arith)

free-IsValid_example : Ensures IsValid (free (some 16) two_live)
free-IsValid_example = free-IsValid (some 16) two_live (inl near-Owned) two_live-IsValid

two_live-History : History (malloc 24 (malloc 100 (memory_init_heap blank)).1).1
two_live-History = allocate 24 _ (allocate 100 _ start)

malloc_started : (malloc 24 (malloc 100 (memory_init_heap blank)).1).1 ≡ two_live
unfolding malloc memory_init_heap
malloc_started = refl

emptied-History : History emptied
emptied-History =
    release (some 16) near_live emptied
      (release (some 136) two_live near_live (subst History malloc_started two_live-History)
        free_far)
      free_near

History-whole_arena_example :
    emptied.free ≡ record { addr = 0; size = heap_size - header_size } ∷ []
History-whole_arena_example = History-whole_arena emptied emptied-History refl
