-- ===== src/Allocator/Free.antt =====
-- `free` and `realloc`: the invariant, and which blocks stay live.
use cllm.Common.{
  ℕ, ◌+◌, ◌-◌, ◌≤◌, ◌≡◌, refl, sym, subst, ◌∙◌, List, All, All-zip, arith, ◌≢◌, ◌⊎◌, inl, inr, Bool,
  true, Option, none, some, Bool-cases, ltb, le→ltb, eq→==, ◌==◌,
}
use cllm.Common.Maybe.{Ensures, ensures, some_inj, some_none}
use cllm.Allocator.{Block, heads, Heap, header_size, take_used, free_found, free}
use cllm.Allocator.Layout.{ApartBy, InArena, IsValid}
use cllm.Allocator.Chain.{
  Pick, Taken, take_used-Taken, Pick-All, insert_block-All, insert_block-IsChain,
}
use cllm.Allocator.Coalesce.{
  IsChain-loosen, coalesce-All, coalesce-IsFreeList, merged-InArena, merged-ApartBy, Pick-AllApart,
}

-- NULL, or the payload of a live block.
abbrev pub Owned : Option ℕ → Heap → Type 0
Owned none h = Unit
Owned (some p) h = (b : Block) × (m : List Block) × Pick h.used b m × (p ≡ b.addr + header_size)

-- The payload of a block in the free list.
abbrev pub Freed : Option ℕ → Heap → Type 0
Freed none h = ⊥
Freed (some p) h = (b : Block) × (m : List Block) × Pick h.free b m × (p ≡ b.addr + header_size)

Pick-heads : {l m : List Block} {b : Block} (a : ℕ) → Pick l b m → b.addr ≡ a → heads a l ≡ true
unfolding heads
Pick-heads a (Pick.here {b}) e = rw (eq→== b.addr a e) refl
Pick-heads a (Pick.there {c = c} p) e = elim (Bool-cases (c.addr == a)) [
  | inl f ↦ rw f refl
  | inr f ↦ rw (f, Pick-heads a p e) refl
]

-- A header that is live or in the chain.
abbrev Known : ℕ → Bool → List Block → Type 0
Known a guarded l = (guarded ≡ true) ⊎ (All (λ c. c.addr ≢ a) l → ⊥)

free_found-IsValid :
    (h : Heap) (a : ℕ) (guarded : Bool) (o : Option (Block × List Block))
    → Taken a h.used o
    → Known a guarded h.used
    → IsValid h
    → Ensures IsValid (free_found h guarded o)
unfolding free_found
free_found-IsValid h a guarded none f (inl e) v = rw e (ensures h v)
free_found-IsValid h a guarded none f (inr n) v = absurd (n f)
free_found-IsValid h a guarded (some (b, m)) (p, e) k v =
    let used = Pick-AllApart p v.used_apart in
    let inside = Pick-All InArena p v.used_in in
    let free = Pick-All (λ u. All (ApartBy 0 u) h.free) p v.free_apart in
    ensures _ (record {
      ready = v.ready;
      chain = coalesce-IsFreeList _ (
          insert_block-IsChain 0 0 b h.free (omega arith) (IsChain-loosen 0 h.free v.chain) free.0);
      free_in =
          coalesce-All InArena merged-InArena _
            (insert_block-All InArena b h.free inside.0 v.free_in);
      used_in = inside.1;
      used_apart = used.1;
      free_apart =
          All-zip m
            (λ u x y.
              coalesce-All (ApartBy 0 u) (merged-ApartBy u) _
                (insert_block-All (ApartBy 0 u) b h.free (omega arith) y))
            used.0 free.1;
    })

Owned-Known :
    (p : ℕ) (h : Heap) (guarded : Bool) → Owned (some p) h → Known (p - header_size) guarded h.used
Owned-Known p h guarded (b, m, pick, e) =
    inr (λ all. (Pick-All (λ c. c.addr ≢ p - header_size) pick all).0 (omega (arith, e)))

free_some-IsValid :
    (p : ℕ) (h : Heap)
    → header_size ≤ p
    → Known (p - header_size) (heads (p - header_size) h.free) h.used
    → IsValid h
    → Ensures IsValid (free (some p) h)
unfolding free
free_some-IsValid p h low k v =
    rw (le→ltb p header_size low)
      (free_found-IsValid h (p - header_size) _ _ (take_used-Taken (p - header_size) h.used) k v)

-- `free` of NULL, of a live block, or of a block that is in the free list already, keeps the arena
-- valid: the free list is again sorted with no two neighbours that touch, and apart from every block
-- that stays live.
pub free-IsValid :
    (p : Option ℕ) (h : Heap) → Owned p h ⊎ Freed p h → IsValid h → Ensures IsValid (free p h)
free-IsValid none h k v = unfold free in ensures h v
free-IsValid (some p) h (inl k) v =
    free_some-IsValid p h (omega (arith, k.3)) (Owned-Known p h _ k) v
free-IsValid (some p) h (inr k) v =
    free_some-IsValid p h (omega (arith, k.3))
      (inl (Pick-heads (p - header_size) k.2 (omega (arith, k.3)))) v

-- `free` of a live block takes its header off the live blocks, and no other.
free-used :
    (p : ℕ) (h : Heap)
    → Owned (some p) h
    → Ensures
        (λ g. (b : Block) × Pick h.used b g.used × (p ≡ b.addr + header_size))
        (free (some p) h)
unfolding free
free-used p h k =
    let low : header_size ≤ p = (let e = k.3 in omega (arith, e)) in
    rw (le→ltb p header_size low)
      (go (take_used (p - header_size) h.used) (take_used-Taken (p - header_size) h.used))
  where
    go :
        (o : Option (Block × List Block))
        → Taken (p - header_size) h.used o
        → Ensures
            (λ g. (b : Block) × Pick h.used b g.used × (p ≡ b.addr + header_size))
            (free_found h (heads (p - header_size) h.free) o)
    go none f =
        absurd
          ((Pick-All (λ c. c.addr ≢ p - header_size) k.2 f).0 (let e = k.3 in omega (arith, e)))
    go (some (b, m)) f =
        unfold free_found in ensures _ (b, f.0, (let e = k.3 in let d = f.1 in omega (arith, e, d)))

-- A call that returns was given a header that is live or in the chain.
Known-free_found :
    (h g : Heap) (a : ℕ) (guarded : Bool) (o : Option (Block × List Block))
    → Taken a h.used o
    → free_found h guarded o ≡ some g
    → Known a guarded h.used
unfolding free_found
Known-free_found h g a guarded none f e = elim (Bool-cases guarded) [
  | inl t ↦ inl t
  | inr t ↦ some_none (rw t at e)
]
Known-free_found h g a guarded (some (b, m)) f e =
    inr (λ all. (Pick-All (λ c. c.addr ≢ a) f.0 all).0 f.1)

-- Wherever `free` is modelled it keeps the arena valid.
pub free_returned-IsValid : (p : Option ℕ) (h g : Heap) → free p h ≡ some g → IsValid h → IsValid g
unfolding free
free_returned-IsValid none h g e v = subst IsValid (some_inj e) v
free_returned-IsValid (some p) h g e v = elim (Bool-cases (ltb p header_size)) [
  | inl t ↦ some_none (rw t at e)
  | inr t ↦
      let a = p - header_size in
      let f = take_used-Taken a h.used in
      let returned : free_found h (heads a h.free) (take_used a h.used) ≡ some g = (rw t at e) in
      let k = Known-free_found h g a (heads a h.free) (take_used a h.used) f returned in
      let r = free_found-IsValid h a (heads a h.free) (take_used a h.used) f k v in
      subst IsValid (some_inj (sym r.same ∙ returned)) r.holds
]
