-- ===== src/Net/Loop.antt =====
-- src/network.c: the start of the stack and the polling loop, on the models of the card, ARP, IP and TCP.
-- `respond` is the HTTP server that `tcp_receive` calls. What the card does to its rings before a round
-- is an input; the frames that `e1000_send_packet` is called with are the output, in place of what they do
-- to the transmit ring. The debug line of the first ten packets is not modelled.
use cllm.Common.{
  ℕ, ◌%◌, ◌^◌, Bool, Option, some, none, List, [], ◌∷◌, ◌++◌, ltb, ◌==◌, if◌then◌else◌, length,
  take, drop,
}
use cllm.Common.Maybe.{◌>>=◌}
use cllm.Net.Wire.{be16_at}
use cllm.Net.Tcp.{Tcp, Segment, tcp_init, tcp_receive, tcp_periodic, add32}
use cllm.Net.Arp.{arp_init, arp_receive}
use cllm.Net.Ip.{
  Stack, Delivery, dropped, echo, to_tcp, ip_receive, icmp_reply, net_send_tcp, transmit_all,
}
use cllm.Net.Card.{Card, Received, e1000_rings, e1000_receive_packet, e1000_send_packet}
pub mod Rounds
pub mod Delivered
pub mod Tests

-- The static data of the driver and the stack, and the variables of `network_loop`.
pub record Node : Type 0 where
  pub card : Card
  pub stack : Stack
  pub tcp : Tcp
  pub buffer : List ℕ
  pub last_tcp_tick : ℕ
  pub packet_counter : ℕ

-- `found` is whether `e1000_init` succeeds; `none` is the result -1.
pub network_init : Bool → Node → Option Node
network_init found n =
    if found
    then some (record n {
      card = e1000_rings;
      stack = record n.stack { table = arp_init };
      tcp = tcp_init n.tcp;
    })
    else none

abbrev pub network_receive_packet : List ℕ → Card → Option Received
network_receive_packet buffer c = e1000_receive_packet buffer c

abbrev pub network_send_packet : List ℕ → ℕ → ℕ → Bool → Card → Option (Bool × Card)
network_send_packet bytes length tx_head reported c =
    e1000_send_packet bytes (length % 2 ^ 16) tx_head reported c

-- A state and the frames that are sent.
abbrev pub Outcome : Type 0
Outcome = Node × List (List ℕ)

-- The calls of `net_send_tcp`, in order.
pub send_segments : List Segment → Stack → Stack × List (List ℕ)
send_segments [] st = (st, [])
send_segments (s ∷ l) st =
    let (mid, frames) = net_send_tcp s st in
    let (last, later) = send_segments l mid in (last, frames ++ later)

abbrev pub arp_arrives : List ℕ → Node → Outcome
arp_arrives payload n =
    let (table, sent) = arp_receive payload n.stack.table in
    (record n { stack = record n.stack { table = table } }, transmit_all sent)

module _ (respond : List ℕ → Option (List ℕ)) where
  pub tcp_arrives : ℕ → List ℕ → Node → Outcome
  tcp_arrives src payload n =
      let (tcp, segments) = tcp_receive respond src payload n.tcp in
      let (stack, frames) = send_segments segments n.stack in
      (record n { tcp = tcp; stack = stack }, frames)

  abbrev pub ip_arrives : Delivery → Node → Outcome
  ip_arrives dropped n = (n, [])
  ip_arrives (echo src payload) n =
      let (stack, frames) = icmp_reply src payload n.stack in (record n { stack = stack }, frames)
  ip_arrives (to_tcp src payload) n = tcp_arrives src payload n

  abbrev pub by_ethertype : ℕ → List ℕ → Node → Outcome
  by_ethertype et payload n =
      if et == 0x0806
      then arp_arrives payload n
      else if et == 0x0800
      then ip_arrives (ip_receive payload) n
      else (n, [])

  -- The frame, as long as `length`.
  pub frame_arrives : List ℕ → Node → Outcome
  frame_arrives frame n =
      if ltb (length frame) 14
      then (n, [])
      else by_ethertype (be16_at frame 12) (drop 14 frame)
          (record n { packet_counter = add32 n.packet_counter 1 })

  abbrev pub polled : Received → Node → Outcome
  polled (none, c) n = (record n { card = c }, [])
  polled (some (buffer, length), c) n =
      frame_arrives (take length buffer) (record n { card = c; buffer = buffer })

  -- The end of a round.
  pub drive_timer : Outcome → Outcome
  drive_timer (n, frames) =
      let tick = add32 n.last_tcp_tick 1 in
      let (tcp, segments) = tcp_periodic n.tcp in
      let (stack, later) = send_segments segments n.stack in
      if ltb tick 100000
      then (record n { last_tcp_tick = tick }, frames)
      else (record n { tcp = tcp; stack = stack; last_tcp_tick = 0 }, frames ++ later)

  pub round : Node → Option Outcome
  round n = network_receive_packet n.buffer n.card >>= λ r. some (drive_timer (polled r n))

  -- One round behind each step of the card.
  pub network_loop : List (Card → Card) → Node → Option Outcome
  network_loop [] n = some (n, [])
  network_loop (step ∷ steps) n = round (record n { card = step n.card }) >>= λ r.
      network_loop steps r.0 >>= λ q. some (q.0, r.1 ++ q.1)
