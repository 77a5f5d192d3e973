-- ===== src/Net/Card/Receive.antt =====
-- Packets come out of the receive ring in its order.
use cllm.Common.{
  ℕ, zero, suc, ◌+◌, ◌-◌, ◌%◌, ◌≤◌, ◌<◌, ◌≡◌, ◌≢◌, refl, sym, subst, ap, ap₂, take-append_length,
  ◌∙◌, true, Option, some, List, [], ◌∷◌, ◌++◌, arith, Bool, le→ltb, lt→ltb, if◌then◌else◌,
  get_or-set, ltb, set, get_or, get_or-set_other, length, take, drop, All, length-take,
}
use cllm.Common.Maybe.{◌>>=◌, Ensures, ensures, Ensures-bind, Ensures-weaken}
use cllm.Net.Wire.{bit_set}
use cllm.Net.Card.{
  Card, RxDescriptor, blank_rx, rx_current, received_length, handed_back, e1000_receive_packet,
}
use cllm.Net.Card.Ring.{
  HasBuffer, IsReceiving, received_length-le, current-HasBuffer, handed_back-IsReceiving, packet_of,
  e1000_receive_packet-taken, brought, buffer_then, filled-length,
}

-- The packets of `n` calls.
pub polls : ℕ → List ℕ → Card → Option (List (List ℕ) × Card)
polls zero b c = some ([], c)
polls (suc n) b c = e1000_receive_packet b c >>= λ r.
    polls n (buffer_then b r.0) r.1 >>= λ q. some (brought r.0 ++ q.0, q.1)

-- The descriptors from a place on, around the ring.
abbrev pub around : ℕ → ℕ → List RxDescriptor → List RxDescriptor
around zero at rx = []
around (suc n) at rx = get_or rx at blank_rx ∷ around n ((at + 1) % 32) rx

abbrev pub packets : List RxDescriptor → List (List ℕ)
packets [] = []
packets (d ∷ l) = packet_of d ∷ packets l

abbrev pub IsDone : RxDescriptor → Type 0
IsDone d = bit_set d.status 0 ≡ true

around-set :
    (n at place : ℕ) (rx : List RxDescriptor) (d : RxDescriptor)
    → at < 32
    → place < 32
    → n ≤ (place + 32 - at) % 32
    → around n at (set rx place d) ≡ around n at rx
around-set zero at place rx d h k m = refl
around-set (suc n) at place rx d h k m =
    let other : place ≢ at = λ e. omega (arith, e, m, h) in
    ap₂ (λ x l. x ∷ l) (get_or-set_other rx place at d blank_rx other)
      (around-set n ((at + 1) % 32) place rx d (omega arith) k (omega (arith, h, k, m)))

length-packet_of : (d : RxDescriptor) → HasBuffer d → length (packet_of d) ≡ received_length d
length-packet_of d h =
    let most = received_length-le d in
    omega (arith, length-take (received_length d) d.buffer, most, h)

-- A descriptor behind its packet is taken.
abbrev pub given_back : Bool → RxDescriptor → RxDescriptor
given_back taken d = if taken then record d { status = 0 } else d

-- The ring behind `n` polls: its descriptors from the old place on, the first `n` given back.
abbrev pub GivenBack : ℕ → Card → Card → ℕ → Type 0
GivenBack n c d i =
    get_or d.rx ((c.rx_head + i) % 32) blank_rx
    ≡ given_back (ltb i n) (get_or c.rx ((c.rx_head + i) % 32) blank_rx)

ltb-suc : (j n : ℕ) → ltb j n ≡ ltb (suc j) (suc n)
ltb-suc j n = ground arith

-- One poll later the place in front of the ring is the last one.
GivenBack-suc :
    (n : ℕ) (c d : Card) (i : ℕ)
    → IsReceiving c
    → n < 32
    → i < 32
    → ((j : ℕ) → j < 32 → GivenBack n (handed_back c) d j)
    → GivenBack (suc n) c d i
GivenBack-suc n c d zero h m k later =
    let low = h.head in
    let ring = h.ring in
    let here : (c.rx_head + 0) % 32 ≡ c.rx_head = omega (arith, low) in
    let there : ((c.rx_head + 1) % 32 + 31) % 32 ≡ c.rx_head = omega (arith, low) in
    let last = (rw (there, le→ltb 31 n (omega (arith, m))) at (later 31 (omega arith))) in
    rw (here, lt→ltb 0 (suc n) (omega arith))
      (last
        ∙ get_or-set c.rx c.rx_head (record (rx_current c) { status = 0 }) blank_rx
            (omega (arith, low, ring)))
GivenBack-suc n c d (suc j) h m k later =
    let low = h.head in
    let place : ((c.rx_head + 1) % 32 + j) % 32 ≡ (c.rx_head + suc j) % 32 = omega arith in
    let other : c.rx_head ≢ (c.rx_head + suc j) % 32 = λ e. omega (arith, e, low, k) in
    (rw place at (later j (omega (arith, k))))
    ∙ ap (given_back (ltb j n)) (
        get_or-set_other c.rx c.rx_head ((c.rx_head + suc j) % 32)
          (record (rx_current c) { status = 0 }) blank_rx other)
    ∙ ap (λ b. given_back b (get_or c.rx ((c.rx_head + suc j) % 32) blank_rx)) (ltb-suc j n)

-- What a run of polls brings and leaves.
abbrev pub Polled : ℕ → Card → List (List ℕ) × Card → Type 0
Polled n c q =
    (q.0 ≡ packets (around n c.rx_head c.rx))
    × (q.1.rx_head ≡ (c.rx_head + n) % 32)
    × IsReceiving q.1
    × ((i : ℕ) → i < 32 → GivenBack n c q.1 i)

polls-Polled :
    (n : ℕ) (buffer : List ℕ) (c : Card)
    → IsReceiving c
    → length buffer ≡ 2048
    → n ≤ 32
    → All IsDone (around n c.rx_head c.rx)
    → Ensures (Polled n c) (polls n buffer c)
unfolding polls
polls-Polled zero buffer c h k m done =
    ensures _
      (refl, (let r = h.head in omega (arith, r)), h, λ i _. rw (le→ltb i 0 (omega arith)) refl)
polls-Polled (suc n) buffer c h k m done =
    let d = rx_current c in
    let rest = drop (received_length d) buffer in
    let b = packet_of d ++ rest in
    let size = length-packet_of d (current-HasBuffer c h) in
    let cut : take (received_length d) b ≡ packet_of d =
      ap (λ i. take i b) (sym size) ∙ take-append_length (packet_of d) rest in
    let same =
      around-set n ((c.rx_head + 1) % 32) c.rx_head c.rx (record d { status = 0 }) (omega arith)
        h.head (let r = h.head in omega (arith, r, m)) in
    let long = filled-length buffer d k (current-HasBuffer c h) in
    let later =
      polls-Polled n b (handed_back c) (handed_back-IsReceiving c h) long (omega (arith, m))
        (subst (All IsDone) (sym same) done.1) in
    rw (e1000_receive_packet-taken c buffer h k done.0) (
      Ensures-bind later (λ q p. ensures _ (
        ap₂ (λ x l. x ∷ l) cut (p.0 ∙ ap packets same),
        (let e = p.1 in let r = h.head in omega (arith, e, r)),
        p.2,
        λ i j. GivenBack-suc n c q.1 i h (omega (arith, m)) j p.3,
      )))

-- While the card has finished the next `n` descriptors, `n` calls of `e1000_receive_packet` bring their
-- packets in the order of the ring, each cut off at 2048 bytes. Of the 32 descriptors, the `i`-th from
-- the old place of the driver has its status reset if `i` is below `n`, and is untouched otherwise;
-- the place and the register of the ring's tail follow, and nothing is copied outside the buffer.
pub e1000_receive_packet-in_order :
    (n : ℕ) (buffer : List ℕ) (c : Card) (i : ℕ)
    → IsReceiving c
    → length buffer ≡ 2048
    → n ≤ 32
    → All IsDone (around n c.rx_head c.rx)
    → i < 32
    → Ensures
        (λ q.
          (q.0 ≡ packets (around n c.rx_head c.rx))
          × (q.1.rx_head ≡ (c.rx_head + n) % 32)
          × IsReceiving q.1
          × (get_or q.1.rx ((c.rx_head + i) % 32) blank_rx
              ≡ given_back (ltb i n) (get_or c.rx ((c.rx_head + i) % 32) blank_rx)))
        (polls n buffer c)
e1000_receive_packet-in_order n buffer c i h k m done j =
    Ensures-weaken (λ q p. (p.0, p.1, p.2, p.3 i j)) (polls-Polled n buffer c h k m done)
