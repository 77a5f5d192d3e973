-- ===== src/Net/Ip/Tests.antt =====
-- A TCP segment in an IP packet.
use cllm.Common.{◌≡◌, arith, codes, take}
use cllm.Net.Tcp.{Segment, parse_packet}
use cllm.Net.Ip.{ip_checksum, ip_packet, tcp_segment}
use cllm.Net.Ip.Checksum.{ip_packet-verifies}
use cllm.Net.Ip.Framing.{InRange, parse_packet-tcp_segment}

abbrev segment : Segment
segment = record {
  src_port = 8080;
  dst_port = 4000;
  dst_ip = 167772674;
  seq = 1101;
  ack = 70000;
  flags = 24;
  payload = codes "ok";
}

segment-InRange : InRange segment
segment-InRange = record {
  src_port = omega arith;
  dst_port = omega arith;
  seq = omega arith;
  ack = omega arith;
  flags = omega arith;
}

ip_packet-verifies_example : ip_checksum (take 20 (ip_packet 6 1 167772674 (codes "ok"))) ≡ 0
ip_packet-verifies_example = ip_packet-verifies 6 1 167772674 (codes "ok") (omega arith)

parse_packet-tcp_segment_example : parse_packet 5 (tcp_segment segment) ≡ record {
  remote_ip = 5;
  src_port = 8080;
  dst_port = 4000;
  seq = 1101;
  ack = 70000;
  flags = 24;
  payload = codes "ok";
}
parse_packet-tcp_segment_example = parse_packet-tcp_segment 5 segment segment-InRange
