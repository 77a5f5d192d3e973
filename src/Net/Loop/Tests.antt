-- ===== src/Net/Loop/Tests.antt =====
-- A round with an arrived packet, and an acknowledgement that Ethernet fills up.
use cllm.Common.{
  ℕ, ◌%◌, ◌/◌, ◌^◌, ◌≡◌, refl, arith, true, none, Option, List, [], ◌∷◌, ◌++◌, set, All-set,
  length-set, length-replicate, ◌∙◌, replicate, length,
}
use cllm.Common.Maybe.{◌>>=◌, Ensures}
use cllm.Net.Tcp.{Segment, net_ip_addr, add32}
use cllm.Net.Tcp.Invariant.{IsTable}
use cllm.Net.Arp.{our_mac}
use cllm.Net.Ip.{ip_packet, tcp_segment, net_send_eth}
use cllm.Net.Card.{Card, e1000_rings}
use cllm.Net.Card.Ring.{IsReceiving, HasBuffer}
use cllm.Net.Loop.{Node, network_init, network_loop, tcp_arrives, frame_arrives}
use cllm.Net.Loop.Rounds.{Keeps, IsFresh, network_loop-Runs}
use cllm.Net.Loop.Delivered.{frame_arrives-net_send_eth}

abbrev no_answer : List ℕ → Option (List ℕ)
no_answer request = none

-- A frame of 60 bytes.
abbrev arrival : Card → Card
arrival c = record c {
  rx = set c.rx c.rx_head (record { length = 60; status = 3; buffer = replicate 2048 8 });
}

arrival-Keeps : Keeps arrival
arrival-Keeps c h = record {
  ready = h.ready;
  ring = length-set c.rx c.rx_head _ ∙ h.ring;
  head = h.head;
  buffers = All-set HasBuffer c.rx c.rx_head _ h.buffers (length-replicate {A = ℕ} 2048 8);
  register = h.register;
}

abbrev at_power_on : Node
at_power_on = record {
  card = e1000_rings;
  stack = record { table = []; ip_id = 1; reply_id = 1 };
  tcp = record { sockets = []; now = 0 };
  buffer = replicate 2048 0;
  last_tcp_tick = 0;
  packet_counter = 0;
}

at_power_on-IsFresh : IsFresh at_power_on
at_power_on-IsFresh = record { buffer = length-replicate {A = ℕ} 2048 0; timer = refl; now = refl }

network_loop-Runs_example :
    Ensures
      (λ r.
        IsReceiving r.0.card
        × (length r.0.buffer ≡ 2048)
        × IsTable r.0.tcp.sockets
        × (r.0.last_tcp_tick ≡ 2 % 100000)
        × (r.0.tcp.now ≡ 2 / 100000 % 2 ^ 32))
      (network_init true at_power_on >>= λ m. network_loop no_answer (arrival ∷ arrival ∷ []) m)
network_loop-Runs_example =
    network_loop-Runs no_answer (arrival ∷ arrival ∷ []) at_power_on
      (arrival-Keeps, (arrival-Keeps, tt)) at_power_on-IsFresh

abbrev acknowledgement : Segment
acknowledgement = record {
  src_port = 4000;
  dst_port = 8080;
  dst_ip = net_ip_addr;
  seq = 8;
  ack = 9;
  flags = 16;
  payload = [];
}

-- 54 bytes are filled up to the 60 that Ethernet carries at least.
frame_arrives-net_send_eth_example :
    Ensures
      (λ frame.
        frame_arrives no_answer (frame ++ replicate 6 0) at_power_on
        ≡ tcp_arrives no_answer net_ip_addr
            (tcp_segment acknowledgement ++ replicate 6 0)
            (record at_power_on { packet_counter = add32 0 1 }))
      (net_send_eth (record {
        ethertype = 0x0800;
        dst_mac = our_mac;
        payload = ip_packet 6 1 net_ip_addr (tcp_segment acknowledgement);
      }))
frame_arrives-net_send_eth_example =
    frame_arrives-net_send_eth no_answer acknowledgement 1 (replicate 6 0) at_power_on (omega arith)
