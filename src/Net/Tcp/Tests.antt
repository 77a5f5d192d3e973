-- ===== src/Net/Tcp/Tests.antt =====
-- The stack on a SYN to the HTTP port.
use cllm.Common.{ℕ, ◌≡◌, refl, List, [], ◌∷◌, Option, some, codes, replicate}
use cllm.Net.Tcp.{
  Tcp, time_wait, zeroed, parse_packet, tcp_init, tcp_receive, tcp_periodic, socket_alloc,
  find_socket, segment_arrives, unmatched, accept, deliver, handle,
}
use cllm.Net.Tcp.Table.{done, packet, tick, Steps-IsTable}
use cllm.Net.Tcp.Invariant.{IsTable}
use cllm.Net.Tcp.Answers.{Answers, tcp_receive-Answers}
use cllm.Net.Tcp.Release.{Waits, Steps-Waits}

abbrev respond : List ℕ → Option (List ℕ)
respond request = some (codes "HTTP/1.0 200 OK")

abbrev off : Tcp
off = record { sockets = []; now = 0 }

-- From port 4000 to port 8080, sequence number 5.
abbrev syn : List ℕ
syn = 15 ∷ 160 ∷ 31 ∷ 144 ∷ 0 ∷ 0 ∷ 0 ∷ 5 ∷ 0 ∷ 0 ∷ 0 ∷ 0 ∷ 0x50 ∷ 2 ∷ replicate 6 0

syn_answer :
    (tcp_receive respond 167772674 syn (tcp_init off)).1
    ≡ record {
      src_port = 8080;
      dst_port = 4000;
      dst_ip = 167772674;
      seq = 1100;
      ack = 6;
      flags = 18;
      payload = [];
    }
      ∷ []
unfolding tcp_receive tcp_init socket_alloc find_socket segment_arrives unmatched accept deliver
    handle
syn_answer = refl

abbrev opening : Tcp
opening = (tcp_receive respond 167772674 syn (tcp_init off)).0

Steps-IsTable_example : IsTable (tcp_periodic opening).0.sockets
Steps-IsTable_example =
    Steps-IsTable respond off (tcp_periodic opening).0
      (tick opening (packet 167772674 syn (tcp_init off) done))

tcp_receive-Answers_example :
    Answers (parse_packet 167772674 syn) (tcp_receive respond 167772674 syn (tcp_init off)).1
tcp_receive-Answers_example = tcp_receive-Answers respond 167772674 syn (tcp_init off)

-- A connection whose end is awaited.
abbrev ending : Tcp
ending = record {
  sockets =
      zeroed ∷ record zeroed { state = time_wait; local_port = 8080; remote_port = 4000 } ∷ [];
  now = 9;
}

ending-Waits : Waits 1 ending.sockets
ending-Waits = refl

Steps-Waits_example : Waits 1 (tcp_periodic (tcp_receive respond 167772674 syn ending).0).0.sockets
Steps-Waits_example =
    Steps-Waits respond 1 ending (tcp_periodic (tcp_receive respond 167772674 syn ending).0).0
      (tick _ (packet 167772674 syn ending done)) ending-Waits
