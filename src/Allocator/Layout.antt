-- ===== src/Allocator/Layout.antt =====
-- The invariant of the arena.
use cllm.Common.{ℕ, ◌+◌, ◌%◌, ◌≤◌, ◌≡◌, ◌⊎◌, List, [], ◌∷◌, All, true}
use cllm.Allocator.{Block, Heap, end_of, heap_size}

-- A chain sorted by address whose blocks keep a distance `gap`, none before `lo`.
abbrev pub IsChain : ℕ → ℕ → List Block → Type 0
IsChain gap lo [] = Unit
IsChain gap lo (b ∷ bs) = (lo ≤ b.addr) × IsChain gap (end_of b + gap) bs

-- The free list is sorted, and no free block touches the next one.
abbrev pub IsFreeList : List Block → Type 0
IsFreeList = IsChain 1 0

-- Two blocks, headers included, keep a distance `gap`.
abbrev pub ApartBy : ℕ → Block → Block → Type 0
ApartBy gap a b = (end_of a + gap ≤ b.addr) ⊎ (end_of b + gap ≤ a.addr)

abbrev pub AllApart : List Block → Type 0
AllApart [] = Unit
AllApart (b ∷ bs) = All (ApartBy 0 b) bs × AllApart bs

-- A block lies in the arena, on an 8-byte boundary.
pub record InArena (b : Block) : Type 0 where
  pub ends : end_of b ≤ heap_size
  pub aligned : b.addr % 8 ≡ 0

pub record IsValid (h : Heap) : Type 0 where
  pub ready : h.initialized ≡ true
  pub chain : IsFreeList h.free
  pub free_in : All InArena h.free
  pub used_in : All InArena h.used
  pub used_apart : AllApart h.used
  pub free_apart : All (λ u. All (ApartBy 0 u) h.free) h.used
