-- ===== src/Allocator/Chain.antt =====
-- The loops over the free list: search, insertion in address order, coalescing.
use cllm.Common.{
  ℕ, ◌+◌, ◌≤◌, ◌<◌, ◌≡◌, refl, ◌≢◌, inl, inr, List, [], ◌∷◌, All, All-map, arith, Bool, true, false,
  Option, none, some, Bool-cases, leb, ltb, ◌==◌, if◌then◌else◌, ltb→lt, ltb→le, leb→le, leb→lt,
  ==→eq, ==→ne,
}
use cllm.Allocator.{Block, end_of, first_fit, insert_block, coalesce_from, merged, take_used}
use cllm.Allocator.Layout.{IsChain, ApartBy}

-- A block and the list without it.
pub data Pick : List Block → Block → List Block → Type 0 where
  here : {b : Block} {l : List Block} → Pick (b ∷ l) b l
  there : {b c : Block} {l m : List Block} → Pick l b m → Pick (c ∷ l) b (c ∷ m)

-- What the search of `malloc` says of the chain.
abbrev pub Found : ℕ → List Block → Option (Block × List Block) → Type 0
Found size l none = All (λ c. c.size < size) l
Found size l (some (b, rest)) = Pick l b rest × (size ≤ b.size)

pub first_fit-Found : (size : ℕ) (l : List Block) → Found size l (first_fit size l)
unfolding first_fit
first_fit-Found size [] = tt
first_fit-Found size (c ∷ l) = go (leb size c.size) refl (first_fit size l) (first_fit-Found size l)
  where
    go :
        (t : Bool)
        → leb size c.size ≡ t
        → (o : Option (Block × List Block)) → Found size l o
        → Found size
            (c ∷ l)
            (if t then some (c, l) else elim o [ none ↦ none | some (b, m) ↦ some (b, c ∷ m) ])
    go true e o f = (here, leb→le _ _ e)
    go false e none f = (leb→lt _ _ e, f)
    go false e (some (b, m)) f = (there f.0, f.1)

-- What the read of a header at an address says of the live blocks.
abbrev pub Taken : ℕ → List Block → Option (Block × List Block) → Type 0
Taken a l none = All (λ c. c.addr ≢ a) l
Taken a l (some (b, rest)) = Pick l b rest × (b.addr ≡ a)

pub take_used-Taken : (a : ℕ) (l : List Block) → Taken a l (take_used a l)
unfolding take_used
take_used-Taken a [] = tt
take_used-Taken a (c ∷ l) = go (c.addr == a) refl (take_used a l) (take_used-Taken a l)
  where
    go :
        (t : Bool)
        → (c.addr == a) ≡ t
        → (o : Option (Block × List Block)) → Taken a l o
        → Taken a
            (c ∷ l)
            (if t then some (c, l) else elim o [ none ↦ none | some (b, m) ↦ some (b, c ∷ m) ])
    go true e o f = (here, ==→eq _ _ e)
    go false e none f = (==→ne _ _ e, f)
    go false e (some (b, m)) f = (there f.0, f.1)

pub Pick-All {κ} :
    (P : Block → Type κ) {l m : List Block} {b : Block} → Pick l b m → All P l → P b × All P m
Pick-All P here h = h
Pick-All P (there p) h = let r = Pick-All P p h.1 in (r.0, (h.0, r.1))

pub IsChain-weaken :
    (gap lo hi : ℕ) (l : List Block) → lo ≤ hi → IsChain gap hi l → IsChain gap lo l
IsChain-weaken gap lo hi [] p c = tt
IsChain-weaken gap lo hi (b ∷ l) p c = (omega arith, c.1)

pub IsChain-All : (gap lo : ℕ) (l : List Block) → IsChain gap lo l → All (λ c. lo ≤ c.addr) l
IsChain-All gap lo [] c = tt
IsChain-All gap lo (b ∷ l) c =
    (c.0, IsChain-All gap lo l (IsChain-weaken gap lo (end_of b + gap) l (omega arith) c.1))

pub Pick-IsChain :
    (gap lo : ℕ) {l m : List Block} {b : Block}
    → Pick l b m
    → IsChain gap lo l
    → IsChain gap lo m × (lo ≤ b.addr)
Pick-IsChain gap lo (here {b} {l}) c =
    (IsChain-weaken gap lo (end_of b + gap) l (omega arith) c.1, c.0)
Pick-IsChain gap lo (there {c = d} p) c =
    let r = Pick-IsChain gap (end_of d + gap) p c.1 in ((c.0, r.0), omega arith)

-- The block found keeps its distance from all that stays in the chain.
pub Pick-ApartBy :
    (gap lo : ℕ) {l m : List Block} {b : Block}
    → Pick l b m
    → IsChain gap lo l
    → All (ApartBy gap b) m
Pick-ApartBy gap lo (here {b} {l}) c =
    All-map l (λ d h. inl h) (IsChain-All gap (end_of b + gap) l c.1)
Pick-ApartBy gap lo (there {c = d} p) c =
    (inr (Pick-IsChain gap (end_of d + gap) p c.1).1, Pick-ApartBy gap (end_of d + gap) p c.1)

pub insert_block-All {κ} :
    (P : Block → Type κ) (new : Block) (l : List Block)
    → P new
    → All P l
    → All P (insert_block new l)
unfolding insert_block
insert_block-All P new [] p h = (p, tt)
insert_block-All P new (c ∷ l) p h = elim (Bool-cases (ltb c.addr new.addr)) [
  | inl e ↦ rw e (h.0, insert_block-All P new l p h.1)
  | inr e ↦ rw e (p, h)
]

pub insert_block-IsChain :
    (gap lo : ℕ) (new : Block) (l : List Block)
    → lo ≤ new.addr
    → IsChain gap lo l
    → All (ApartBy gap new) l
    → IsChain gap lo (insert_block new l)
unfolding insert_block
insert_block-IsChain gap lo new [] p c a = (p, tt)
insert_block-IsChain gap lo new (b ∷ l) p c a = elim (Bool-cases (ltb b.addr new.addr)) [
  | inl e ↦ rw e (c.0, insert_block-IsChain gap (end_of b + gap) new l (after e a.0) c.1 a.1)
  | inr e ↦ rw e (p, (before e a.0, c.1))
]
  where
    after : ltb b.addr new.addr ≡ true → ApartBy gap new b → end_of b + gap ≤ new.addr
    after e d = omega (arith, ltb→lt b.addr new.addr e)

    before : ltb b.addr new.addr ≡ false → ApartBy gap new b → end_of new + gap ≤ b.addr
    before e d = omega (arith, ltb→le b.addr new.addr e)

-- From weakly sorted to sorted with no two blocks that touch.
pub coalesce_from-IsChain :
    (c : Block) (lo : ℕ) (l : List Block)
    → lo ≤ c.addr
    → IsChain 0 (end_of c + 0) l
    → IsChain 1 lo (coalesce_from c l)
unfolding coalesce_from
coalesce_from-IsChain c lo [] p h = (omega arith, tt)
coalesce_from-IsChain c lo (n ∷ l) p h =
    go (end_of c == n.addr) refl (coalesce_from-IsChain (merged c n) lo l p)
      (coalesce_from-IsChain n (end_of c + 1) l)
  where
    go :
        (t : Bool)
        → (end_of c == n.addr) ≡ t
        → (IsChain 0 (end_of (merged c n) + 0) l → IsChain 1 lo (coalesce_from (merged c n) l))
        → (end_of c + 1 ≤ n.addr
            → IsChain 0 (end_of n + 0) l
            → IsChain 1 (end_of c + 1) (coalesce_from n l))
        → IsChain 1 lo
            (elim t [ true ↦ coalesce_from (merged c n) l | false ↦ c ∷ coalesce_from n l ])
    go true e f g = f (IsChain-weaken 0 _ (end_of n + 0) l (omega (arith, ==→eq _ _ e)) h.1)
    go false e f g = (omega arith, g (omega (arith, ==→ne _ _ e, h.0)) h.1)
