-- ===== src/Allocator/Coalesce.antt =====
-- The coalescing loop of `free`, and a block taken off a list of blocks that are apart.
use cllm.Common.{ℕ, ◌+◌, ◌≡◌, refl, List, [], ◌∷◌, All, arith, Bool, true, false, ◌==◌, ==→eq}
use cllm.Allocator.{Block, end_of, merged, coalesce_from, coalesce}
use cllm.Allocator.Layout.{IsChain, IsFreeList, ApartBy, AllApart, InArena}
use cllm.Allocator.Chain.{Pick, Pick-All, IsChain-weaken, coalesce_from-IsChain}

pub IsChain-loosen : (lo : ℕ) (l : List Block) → IsChain 1 lo l → IsChain 0 lo l
IsChain-loosen lo [] c = tt
IsChain-loosen lo (b ∷ l) c = (
  c.0,
  IsChain-weaken 0 (end_of b + 0) (end_of b + 1) l (omega arith)
      (IsChain-loosen (end_of b + 1) l c.1),
)

-- What holds of two neighbours and of the block that they make holds all along the chain.
coalesce_from-All {κ} :
    (P : Block → Type κ)
    → ((c n : Block) → end_of c ≡ n.addr → P c → P n → P (merged c n))
    → (c : Block) (l : List Block) → P c
    → All P l
    → All P (coalesce_from c l)
unfolding coalesce_from
coalesce_from-All P join c [] p h = (p, tt)
coalesce_from-All P join c (n ∷ l) p h =
    go (end_of c == n.addr) refl (coalesce_from-All P join (merged c n) l)
      (coalesce_from-All P join n l)
  where
    go :
        (t : Bool)
        → (end_of c == n.addr) ≡ t
        → (P (merged c n) → All P l → All P (coalesce_from (merged c n) l))
        → (P n → All P l → All P (coalesce_from n l))
        → All P (elim t [ true ↦ coalesce_from (merged c n) l | false ↦ c ∷ coalesce_from n l ])
    go true e f g = f (join c n (==→eq _ _ e) p h.0) h.1
    go false e f g = (p, g h.0 h.1)

pub coalesce-All {κ} :
    (P : Block → Type κ)
    → ((c n : Block) → end_of c ≡ n.addr → P c → P n → P (merged c n))
    → (l : List Block) → All P l
    → All P (coalesce l)
unfolding coalesce
coalesce-All P join [] h = tt
coalesce-All P join (b ∷ l) h = coalesce_from-All P join b l h.0 h.1

pub coalesce-IsFreeList : (l : List Block) → IsChain 0 0 l → IsFreeList (coalesce l)
unfolding coalesce
coalesce-IsFreeList [] c = tt
coalesce-IsFreeList (b ∷ l) c = coalesce_from-IsChain b 0 l c.0 c.1

pub merged-InArena :
    (c n : Block) → end_of c ≡ n.addr → InArena c → InArena n → InArena (merged c n)
merged-InArena c n e p q = omega arith

pub merged-ApartBy :
    (u c n : Block) → end_of c ≡ n.addr → ApartBy 0 u c → ApartBy 0 u n → ApartBy 0 u (merged c n)
merged-ApartBy u c n e p q = omega arith

pub Pick-AllApart :
    {l m : List Block} {b : Block} → Pick l b m → AllApart l → All (ApartBy 0 b) m × AllApart m
Pick-AllApart Pick.here a = a
Pick-AllApart (Pick.there {b} {c} {l} p) a =
    let r = Pick-AllApart p a.1 in
    let s = Pick-All (ApartBy 0 c) p a.0 in
    let flip : ApartBy 0 b c = (let k = s.0 in omega arith) in ((flip, r.0), (s.1, r.1))
