-- ===== src/Net/Card/Ring.antt =====
-- The receive ring: what it keeps, and what one poll does to it.
use cllm.Common.{
  ℕ, ◌+◌, ◌%◌, ◌≤◌, ◌<◌, ◌≡◌, refl, ◌∙◌, true, Option, some, none, List, [], ◌∷◌, ◌++◌, arith,
  Bool-cases, inl, inr, ltb, ltb→le, length, length-set, take, drop, All, All-set, All-get_or,
  length-replicate, length-append, length-take, length-drop,
}
use cllm.Common.Maybe.{Ensures, ensures}
use cllm.CString.Copy.{memcpy_lem}
use cllm.Net.Wire.{bit_set}
use cllm.Net.Card.{
  Card, RxDescriptor, blank_rx, rx_current, received_length, handed_back, e1000_receive_packet,
}

abbrev pub HasBuffer : RxDescriptor → Type 0
HasBuffer d = length d.buffer ≡ 2048

-- The receive ring is whole, the card is up and may fill all descriptors but the one in front of
-- `rx_head`.
pub record IsReceiving (c : Card) : Type 0 where
  pub ready : c.ready ≡ true
  pub ring : length c.rx ≡ 32
  pub head : c.rx_head < 32
  pub buffers : All HasBuffer c.rx
  pub register : c.rx_tail_register ≡ (c.rx_head + 31) % 32

pub received_length-le : (d : RxDescriptor) → received_length d ≤ 2048
received_length-le d = elim (Bool-cases (ltb 2048 d.length)) [
  | inl e ↦ rw e (omega arith)
  | inr e ↦ rw e (ltb→le _ _ e)
]

pub current-HasBuffer : (c : Card) → IsReceiving c → HasBuffer (rx_current c)
current-HasBuffer c h =
    All-get_or HasBuffer c.rx c.rx_head blank_rx h.buffers (length-replicate {A = ℕ} 2048 0)

pub handed_back-IsReceiving : (c : Card) → IsReceiving c → IsReceiving (handed_back c)
handed_back-IsReceiving c h = record {
  ready = h.ready;
  ring = length-set c.rx c.rx_head _ ∙ h.ring;
  head = omega arith;
  buffers = All-set HasBuffer c.rx c.rx_head _ h.buffers (current-HasBuffer c h);
  register = refl;
}

-- The bytes of a descriptor's packet, as many as its buffer has at most.
abbrev pub packet_of : RxDescriptor → List ℕ
packet_of d = take (received_length d) d.buffer

pub e1000_receive_packet-taken :
    (c : Card) (buffer : List ℕ)
    → IsReceiving c
    → length buffer ≡ 2048
    → bit_set (rx_current c).status 0 ≡ true
    → e1000_receive_packet buffer c
      ≡ some (
        some (
          packet_of (rx_current c) ++ drop (received_length (rx_current c)) buffer,
          received_length (rx_current c),
        ),
        handed_back c,
      )
unfolding e1000_receive_packet
e1000_receive_packet-taken c buffer h k done =
    let d = rx_current c in
    let most = received_length-le d in
    let whole : length d.buffer ≡ 2048 = current-HasBuffer c h in
    rw
      (
        h.ready,
        done,
        memcpy_lem buffer d.buffer (received_length d) (omega (arith, most, k))
            (omega (arith, most, whole)),
      )
      refl

-- What a call of the driver brings, and where: `network_loop` has one buffer.
abbrev pub brought : Option (List ℕ × ℕ) → List (List ℕ)
brought none = []
brought (some (b, n)) = take n b ∷ []

abbrev pub buffer_then : List ℕ → Option (List ℕ × ℕ) → List ℕ
buffer_then b none = b
buffer_then b (some (b', n)) = b'

-- The buffer behind a packet.
pub filled-length :
    (buffer : List ℕ) (d : RxDescriptor)
    → length buffer ≡ 2048
    → HasBuffer d
    → length (packet_of d ++ drop (received_length d) buffer) ≡ 2048
filled-length buffer d k h =
    let n = received_length d in
    omega (
      arith,
      length-append (packet_of d) (drop n buffer),
      length-take n d.buffer,
      length-drop n buffer,
      k,
      h,
      received_length-le d,
    )

-- A poll, whatever it brings, keeps the ring and the size of the buffer.
pub e1000_receive_packet-IsReceiving :
    (c : Card) (buffer : List ℕ)
    → IsReceiving c
    → length buffer ≡ 2048
    → Ensures
        (λ r. IsReceiving r.1 × (length (buffer_then buffer r.0) ≡ 2048))
        (e1000_receive_packet buffer c)
unfolding e1000_receive_packet
e1000_receive_packet-IsReceiving c buffer h k =
    elim (Bool-cases (bit_set (rx_current c).status 0)) [
      | inl f ↦ rw (e1000_receive_packet-taken c buffer h k f) (
          ensures _ (
            handed_back-IsReceiving c h,
            filled-length buffer (rx_current c) k (current-HasBuffer c h),
          ))
      | inr f ↦
          let nothing : e1000_receive_packet buffer c ≡ some (none, c) = rw (h.ready, f) refl in
          rw nothing (ensures _ (h, k))
    ]
