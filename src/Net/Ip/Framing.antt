-- ===== src/Net/Ip/Framing.antt =====
-- What `net_send_tcp` and `net_send_ip` frame, `tcp_receive` and `ip_receive` take apart again.
use cllm.Common.{ℕ, ◌+◌, ◌*◌, ◌/◌, ◌%◌, ◌^◌, ◌<◌, ◌≡◌, refl, List, ◌++◌, arith, length, le→ltb}
use cllm.Net.Tcp.{net_ip_addr, Segment, parse_packet}
use cllm.Net.Ip.{ip_packet, tcp_segment, ip_receive, by_protocol}

-- Every field fits the width that the header has for it.
pub record InRange (s : Segment) : Type 0 where
  pub src_port : s.src_port < 2 ^ 16
  pub dst_port : s.dst_port < 2 ^ 16
  pub seq : s.seq < 2 ^ 32
  pub ack : s.ack < 2 ^ 32
  pub flags : s.flags < 2 ^ 8

be16-read : (x : ℕ) → x < 2 ^ 16 → x / 256 % 256 * 256 + x % 256 ≡ x
be16-read x h = omega arith

be32-read :
    (x : ℕ)
    → x < 2 ^ 32
    → (x / 2 ^ 24 % 256 * 256 + x / 2 ^ 16 % 256) * 65536 + (x / 256 % 256 * 256 + x % 256) ≡ x
be32-read x h = omega arith

-- The header of a segment, parsed at the other end, gives the arguments of `net_send_tcp` back: the
-- ports, both sequence numbers, the flags and the payload. Each fits the width of its field.
pub parse_packet-tcp_segment :
    (ip : ℕ) (s : Segment)
    → InRange s
    → parse_packet ip (tcp_segment s) ≡ record {
      remote_ip = ip;
      src_port = s.src_port;
      dst_port = s.dst_port;
      seq = s.seq;
      ack = s.ack;
      flags = s.flags;
      payload = s.payload;
    }
unfolding tcp_segment
parse_packet-tcp_segment ip s h =
    rw
      (
        be16-read s.src_port h.src_port,
        be16-read s.dst_port h.dst_port,
        be32-read s.seq h.seq,
        be32-read s.ack h.ack,
      )
      refl

-- A packet that `net_send_ip` makes for the stack's own address goes to the protocol that it was
-- made for, with the address it came from and the whole payload.
ip_receive-ip_packet :
    (proto id : ℕ) (payload : List ℕ)
    → ip_receive (ip_packet proto id net_ip_addr payload) ≡ by_protocol proto net_ip_addr payload
unfolding ip_receive ip_packet
ip_receive-ip_packet proto id payload =
    let packet = ip_packet proto id net_ip_addr payload in
    rw (le→ltb (length packet) 20 (omega arith)) refl

-- The bytes behind the packet, which an Ethernet frame is filled up with, come along.
pub ip_receive-ip_packet_padded :
    (proto id : ℕ) (payload padding : List ℕ)
    → ip_receive (ip_packet proto id net_ip_addr payload ++ padding)
      ≡ by_protocol proto net_ip_addr (payload ++ padding)
unfolding ip_receive ip_packet
ip_receive-ip_packet_padded proto id payload padding =
    let packet = ip_packet proto id net_ip_addr payload ++ padding in
    rw (le→ltb (length packet) 20 (omega arith)) refl

pub length-ip_packet :
    (proto id ip : ℕ) (payload : List ℕ)
    → length (ip_packet proto id ip payload) ≡ 20 + length payload
unfolding ip_packet
length-ip_packet proto id ip payload = omega arith

pub length-tcp_segment : (s : Segment) → length (tcp_segment s) ≡ 20 + length s.payload
unfolding tcp_segment
length-tcp_segment s = omega arith
