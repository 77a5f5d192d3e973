-- ===== src/Net/Card/Tests.antt =====
-- Two packets around the end of the ring, and a frame that is sent.
use cllm.Common.{
  ℕ, ◌+◌, ◌%◌, ◌≡◌, ◌≢◌, ◌⊎◌, refl, arith, true, false, some, List, [], ◌∷◌, ◌++◌, set, get_or, ltb,
  All-set, All-replicate, length-replicate, replicate, length,
}
use cllm.Common.Maybe.{Ensures}
use cllm.Net.Arp.{Sent, our_mac}
use cllm.Net.Ip.{net_send_eth}
use cllm.Net.Card.{Card, RxDescriptor, blank_rx, blank_tx, e1000_rings, e1000_send_packet}
use cllm.Net.Card.Ring.{IsReceiving, HasBuffer}
use cllm.Net.Card.Receive.{given_back, packets, around, polls, e1000_receive_packet-in_order}
use cllm.Net.Card.Transmit
use cllm.Net.Card.Transmit.{IsSending, Queued, e1000_send_packet-Queued}

abbrev arrived : ℕ → RxDescriptor
arrived b = record { length = 3; status = 3; buffer = replicate 2048 b }

abbrev two_arrived : Card
two_arrived = record e1000_rings {
  rx = set (set (replicate 32 blank_rx) 31 (arrived 7)) 0 (arrived 8);
  rx_head = 31;
  rx_tail_register = 30;
}

-- The first packet is that at the end of the ring.
in_ring_order : packets (around 2 31 two_arrived.rx) ≡ (7 ∷ 7 ∷ 7 ∷ []) ∷ (8 ∷ 8 ∷ 8 ∷ []) ∷ []
in_ring_order = refl

two_arrived-IsReceiving : IsReceiving two_arrived
two_arrived-IsReceiving = record {
  ready = refl;
  ring = refl;
  head = omega arith;
  buffers =
      All-set HasBuffer (set (replicate 32 blank_rx) 31 (arrived 7)) 0 (arrived 8)
        (All-set HasBuffer (replicate 32 blank_rx) 31 (arrived 7)
          (All-replicate HasBuffer 32 blank_rx (length-replicate {A = ℕ} 2048 0))
          (length-replicate {A = ℕ} 2048 7))
        (length-replicate {A = ℕ} 2048 8);
  register = refl;
}

-- The descriptor that wraps around is given back.
e1000_receive_packet-in_order_example :
    Ensures
      (λ q.
        (q.0 ≡ packets (around 2 31 two_arrived.rx))
        × (q.1.rx_head ≡ (31 + 2) % 32)
        × IsReceiving q.1
        × (get_or q.1.rx ((31 + 1) % 32) blank_rx
            ≡ given_back (ltb 1 2) (get_or two_arrived.rx ((31 + 1) % 32) blank_rx)))
      (polls 2 (replicate 2048 0) two_arrived)
e1000_receive_packet-in_order_example =
    e1000_receive_packet-in_order 2 (replicate 2048 0) two_arrived 1 two_arrived-IsReceiving refl
      (omega arith) (refl, (refl, tt)) (omega arith)

abbrev hello : Sent
hello = record { ethertype = 0x0800; dst_mac = our_mac; payload = 1 ∷ 2 ∷ 3 ∷ [] }

abbrev hello_frame : List ℕ
hello_frame = our_mac ++ our_mac ++ (8 ∷ 0 ∷ 1 ∷ 2 ∷ 3 ∷ [])

e1000_rings-IsSending : IsSending e1000_rings
e1000_rings-IsSending = record {
  ready = refl;
  ring = refl;
  tail = omega arith;
  buffers = All-replicate Transmit.HasBuffer 32 blank_tx (length-replicate {A = ℕ} 2048 0);
}

hello-framed : net_send_eth hello ≡ some hello_frame
unfolding net_send_eth
hello-framed = refl

e1000_send_packet-Queued_example :
    Ensures
      (λ r.
        (((0 + 1) % 32 ≡ 0) × (r ≡ (false, e1000_rings)))
        ⊎ (((0 + 1) % 32 ≢ 0) × (r.0 ≡ true) × Queued hello_frame e1000_rings r.1))
      (e1000_send_packet hello_frame (length hello_frame) 0 true e1000_rings)
e1000_send_packet-Queued_example =
    e1000_send_packet-Queued hello hello_frame 0 true e1000_rings refl hello-framed
      e1000_rings-IsSending
