-- ===== src/Net/Loop/Delivered.antt =====
-- The way of a TCP segment from the functions that send to `tcp_receive`.
use cllm.Common.{ℕ, ◌≡◌, refl, ◌≤◌, ap, ◌∙◌, Option, List, ◌++◌, arith, le→ltb, length}
use cllm.Common.Maybe.{Ensures, ensures}
use cllm.Net.Wire.{be16_bytes}
use cllm.Net.Tcp.{Segment, net_ip_addr, add32}
use cllm.Net.Arp.{our_mac}
use cllm.Net.Ip.{ip_packet, tcp_segment, net_send_eth, ip_receive}
use cllm.Net.Ip.Framing.{ip_receive-ip_packet_padded, length-ip_packet, length-tcp_segment}
use cllm.Net.Loop.{Node, tcp_arrives, ip_arrives, frame_arrives}

-- An Ethernet frame with an IP packet.
ip_frame : List ℕ → List ℕ
ip_frame packet = our_mac ++ our_mac ++ be16_bytes 0x0800 ++ packet

frame_arrives-ip_frame :
    (respond : List ℕ → Option (List ℕ)) (packet padding : List ℕ) (n : Node)
    → frame_arrives respond (ip_frame packet ++ padding) n
      ≡ ip_arrives respond
          (ip_receive (packet ++ padding))
          (record n { packet_counter = add32 n.packet_counter 1 })
unfolding frame_arrives ip_frame
frame_arrives-ip_frame respond packet padding n =
    rw (le→ltb (length (ip_frame packet ++ padding)) 14 (omega arith)) refl

-- A segment for the stack's own address that `net_send_tcp` takes is put into a frame, and that frame,
-- with the bytes that Ethernet fills it up with, comes to `tcp_receive` as the segment with these
-- bytes behind its payload.
pub frame_arrives-net_send_eth :
    (respond : List ℕ → Option (List ℕ)) (s : Segment) (id : ℕ) (padding : List ℕ) (n : Node)
    → length s.payload ≤ 1994
    → Ensures
        (λ frame.
          frame_arrives respond (frame ++ padding) n
          ≡ tcp_arrives respond net_ip_addr
              (tcp_segment s ++ padding)
              (record n { packet_counter = add32 n.packet_counter 1 }))
        (net_send_eth (record {
          ethertype = 0x0800;
          dst_mac = our_mac;
          payload = ip_packet 6 id net_ip_addr (tcp_segment s);
        }))
unfolding net_send_eth ip_frame
frame_arrives-net_send_eth respond s id padding n h =
    let packet = ip_packet 6 id net_ip_addr (tcp_segment s) in
    let short =
      le→ltb 2034 (length packet) (
        omega
          (arith, h, length-ip_packet 6 id net_ip_addr (tcp_segment s), length-tcp_segment s)) in
    rw short (
      ensures _ (
        frame_arrives-ip_frame respond packet padding n
        ∙ ap (λ d. ip_arrives respond d (record n { packet_counter = add32 n.packet_counter 1 }))
            (ip_receive-ip_packet_padded 6 id (tcp_segment s) padding)))
