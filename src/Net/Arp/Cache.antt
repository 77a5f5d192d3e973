-- ===== src/Net/Arp/Cache.antt =====
-- What the table of hardware addresses remembers.
use cllm.Common.{
  ℕ, zero, suc, ◌<◌, ◌≡◌, refl, List, [], ◌∷◌, arith, Bool, true, false, not, Option, none, some,
  Bool-cases, inl, inr, length, set, get_or-set, ==_refl, if◌then◌else◌,
}
use cllm.Net.Arp.{
  Entry, blank_entry, find_entry, holds_ip, arp_lookup, slot, free_or_first, arp_store, arp_resolve,
}

abbrev In : List Entry → Option ℕ → Type 0
In l none = Unit
In l (some i) = i < length l

find_entry-In : (test : Entry → Bool) (l : List Entry) → In l (find_entry test l)
unfolding find_entry
find_entry-In test [] = tt
find_entry-In test (e ∷ l) = go (test e) (find_entry test l) (find_entry-In test l)
  where
    go :
        (b : Bool) (o : Option ℕ)
        → In l o
        → In (e ∷ l) (if b then some 0 else elim o [ none ↦ none | some i ↦ some (suc i) ])
    go true o k = omega arith
    go false none k = tt
    go false (some i) k = omega (arith, k)

-- The search stops at `i` or finds nothing.
AtMost : Option ℕ → ℕ → Type 0
AtMost none i = Unit
AtMost (some j) i = i ≡ j

find_entry-set :
    (test : Entry → Bool) (l : List Entry) (i : ℕ) (e : Entry)
    → i < length l
    → test e ≡ true
    → AtMost (find_entry test l) i
    → find_entry test (set l i e) ≡ some i
unfolding find_entry AtMost
find_entry-set test [] i e lt t h = absurd (omega arith)
find_entry-set test (x ∷ l) zero e lt t h = rw t refl
find_entry-set test (x ∷ l) (suc i) e lt t h = elim (Bool-cases (test x)) [
  | inl hit ↦ let h1 : AtMost (some 0) (suc i) = (rw hit at h) in absurd (omega (arith, h1))
  | inr miss ↦
      let h1 : AtMost (elim (find_entry test l) [ none ↦ none | some j ↦ some (suc j) ]) (suc i) =
        (rw miss at h) in
      rw (miss, find_entry-set test l i e (omega (arith, lt)) t (less (find_entry test l) h1)) refl
]
  where
    less :
        (o : Option ℕ)
        → AtMost (elim o [ none ↦ none | some j ↦ some (suc j) ]) (suc i)
        → AtMost o i
    less none k = tt
    less (some j) k = omega (arith, k)

slot-In :
    (table : List Entry) (o : Option ℕ)
    → 0 < length table
    → In table o
    → slot table o < length table
slot-In table (some i) h k = k
slot-In table none h k =
    go (find_entry (λ e. not e.valid) table) (find_entry-In (λ e. not e.valid) table)
  where
    go : (o : Option ℕ) → In table o → free_or_first o < length table
    go none k = h
    go (some i) k = k

slot-AtMost : (table : List Entry) (o : Option ℕ) → AtMost o (slot table o)
unfolding AtMost
slot-AtMost table none = tt
slot-AtMost table (some i) = refl

-- Right after `arp_store` has written an address into a table, full or not, `arp_resolve` finds it
-- without a request, if the table has an entry at all: neither an older entry for the address nor a free slot hides it.
pub arp_resolve-arp_store :
    (ip : ℕ) (mac : List ℕ) (table : List Entry)
    → 0 < length table
    → arp_resolve ip (arp_store ip mac table) ≡ (some mac, [])
unfolding arp_resolve arp_store
arp_resolve-arp_store ip mac table h =
    let new : Entry = record { ip = ip; mac = mac; valid = true } in
    let o = arp_lookup ip table in
    let i = slot table o in
    let lt : i < length table = slot-In table o h (find_entry-In (holds_ip ip) table) in
    rw
      (
        find_entry-set (holds_ip ip) table i new lt (==_refl ip) (slot-AtMost table o),
        get_or-set table i new blank_entry lt,
      )
      refl
