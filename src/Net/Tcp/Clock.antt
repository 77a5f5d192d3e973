-- ===== src/Net/Tcp/Clock.antt =====
-- The clock of the TCP code is moved by its timer only.
use cllm.Common.{ℕ, ◌≡◌, refl, Option, some, none, List, ltb, if_both, length}
use cllm.Net.Tcp.{
  Tcp, Socket, Segment, Packet, tcp_init, tcp_receive, tcp_periodic, parse_packet, segment_arrives,
  unmatched, accept, deliver, refuse, find_socket, listens, socket_alloc, has_syn, has_rst, add32,
}

-- The clock is that of `t`.
abbrev pub Timed : Tcp → Tcp × List Segment → Type 0
Timed t r = r.0.now ≡ t.now

refuse-Timed : (p : Packet) (t : Tcp) → Timed t (refuse p t)
refuse-Timed p t = if_both (Timed t) (has_rst p) refl refl

module _ (respond : List ℕ → Option (List ℕ)) where
  unmatched-Timed : (p : Packet) (t : Tcp) (o : Option ℕ) → Timed t (unmatched respond p t o)
  unfolding unmatched accept deliver
  unmatched-Timed p t none = refuse-Timed p t
  unmatched-Timed p t (some j) = go (socket_alloc t.sockets)
    where
      go : (o : Option (ℕ × List Socket)) → Timed t (accept respond p t o)
      go none = refuse-Timed p t
      go (some (i, l)) = refl

  segment_arrives-Timed :
      (p : Packet) (t : Tcp) (o : Option ℕ) → Timed t (segment_arrives respond p t o)
  unfolding segment_arrives deliver
  segment_arrives-Timed p t (some i) = refl
  segment_arrives-Timed p t none =
      if_both (Timed t) (has_syn p)
        (unmatched-Timed p t (find_socket (listens p.dst_port) t.sockets)) (refuse-Timed p t)

  pub tcp_receive-Timed :
      (ip : ℕ) (bytes : List ℕ) (t : Tcp) → Timed t (tcp_receive respond ip bytes t)
  unfolding tcp_receive
  tcp_receive-Timed ip bytes t =
      if_both (Timed t) (ltb (length bytes) 20) refl
        (segment_arrives-Timed (parse_packet ip bytes) t _)

pub tcp_periodic-now : (t : Tcp) → (tcp_periodic t).0.now ≡ add32 t.now 1
unfolding tcp_periodic
tcp_periodic-now t = refl

pub tcp_init-now : (t : Tcp) → (tcp_init t).now ≡ t.now
unfolding tcp_init
tcp_init-now t = refl
