-- ===== src/Net/Tcp.antt =====
-- src/network/tcp.c: the socket table and the handling of one segment.
-- What `net_send_tcp` is called with is the list of the segments sent. `respond` is the HTTP server:
-- the response that `http_parse_request`, `route_request` and `http_generate_response` make of the
-- bytes up to the end of the headers, `none` where the response does not fit its buffer.
use cllm.Common.{
  ℕ, zero, suc, ◌+◌, ◌-◌, ◌*◌, ◌/◌, ◌%◌, ◌^◌, Bool, true, false, not, ◌&&◌, ◌||◌, Option, none,
  some, List, [], ◌∷◌, ◌++◌, ltb, leb, ◌==◌, if◌then◌else◌, length, take, drop, set, get_or,
  replicate,
}
use cllm.Net.Wire.{byte_at, be16_at, be32_at, bit_set}
pub mod Invariant
pub mod Clock
pub mod Table
pub mod Answers
pub mod Release
pub mod Header
pub mod Tests

-- `tcp_state_t`.
pub data State : Type 0 where
  closed listen syn_sent syn_received established fin_wait_1 : State
  fin_wait_2 close_wait closing last_ack time_wait : State

-- `tcp_socket_t`; `rx` is the first `rx_len` bytes of `rx_buf`. `tx_buf` is never used.
pub record Socket : Type 0 where
  pub state : State
  pub local_ip : ℕ
  pub local_port : ℕ
  pub remote_ip : ℕ
  pub remote_port : ℕ
  pub seq : ℕ
  pub ack : ℕ
  pub rx : List ℕ
  pub tx_len : ℕ
  pub last_activity : ℕ

-- `memset(s, 0, sizeof(tcp_socket_t))`.
abbrev pub zeroed : Socket
zeroed = record {
  state = closed;
  local_ip = 0;
  local_port = 0;
  remote_ip = 0;
  remote_port = 0;
  seq = 0;
  ack = 0;
  rx = [];
  tx_len = 0;
  last_activity = 0;
}

-- `sockets` and `tcp_now`.
pub record Tcp : Type 0 where
  pub sockets : List Socket
  pub now : ℕ

-- The arguments of one call of `net_send_tcp`.
pub record Segment : Type 0 where
  pub src_port : ℕ
  pub dst_port : ℕ
  pub dst_ip : ℕ
  pub seq : ℕ
  pub ack : ℕ
  pub flags : ℕ
  pub payload : List ℕ

-- The fields that `tcp_receive` reads from a packet, and the sender's address.
pub record Packet : Type 0 where
  pub remote_ip : ℕ
  pub src_port : ℕ
  pub dst_port : ℕ
  pub seq : ℕ
  pub ack : ℕ
  pub flags : ℕ
  pub payload : List ℕ

abbrev pub parse_packet : ℕ → List ℕ → Packet
parse_packet remote_ip packet = record {
  remote_ip = remote_ip;
  src_port = be16_at packet 0;
  dst_port = be16_at packet 2;
  seq = be32_at packet 4;
  ack = be32_at packet 8;
  flags = byte_at packet 13;
  payload = drop (byte_at packet 12 / 16 * 4) packet;
}

abbrev pub has_fin : Packet → Bool
has_fin p = bit_set p.flags 0

abbrev pub has_syn : Packet → Bool
has_syn p = bit_set p.flags 1

abbrev pub has_rst : Packet → Bool
has_rst p = bit_set p.flags 2

abbrev pub has_ack : Packet → Bool
has_ack p = bit_set p.flags 4

abbrev pub fin_flag : ℕ
fin_flag = 1

abbrev pub syn_flag : ℕ
syn_flag = 2

abbrev pub rst_flag : ℕ
rst_flag = 4

abbrev pub psh_flag : ℕ
psh_flag = 8

abbrev pub ack_flag : ℕ
ack_flag = 16

abbrev pub add32 : ℕ → ℕ → ℕ
add32 a b = (a + b) % 2 ^ 32

abbrev pub is_closed : State → Bool
is_closed closed = true
is_closed _ = false

abbrev pub is_syn_received : State → Bool
is_syn_received syn_received = true
is_syn_received _ = false

abbrev pub is_listen : State → Bool
is_listen listen = true
is_listen _ = false

-- The index and the table, its entry zeroed.
pub socket_alloc : List Socket → Option (ℕ × List Socket)
socket_alloc [] = none
socket_alloc (s ∷ l) =
    let later = socket_alloc l in
    if is_closed s.state
    then some (0, zeroed ∷ l)
    else elim later [ none ↦ none | some (i, m) ↦ some (suc i, s ∷ m) ]

-- The tests of `socket_lookup`, which `tcp_receive` calls with `allow_any_remote_ip` 0.
abbrev pub fits : Packet → Socket → Bool
fits p s =
    not (is_closed s.state)
    && s.local_port == p.dst_port
    && s.remote_port == p.src_port
    && not (not (s.remote_ip == 0) && not (s.remote_ip == p.remote_ip))

abbrev pub listens : ℕ → Socket → Bool
listens port s = is_listen s.state && s.local_port == port

-- The index of the first socket that passes a test.
pub find_socket : (Socket → Bool) → List Socket → Option ℕ
find_socket test [] = none
find_socket test (s ∷ l) =
    let later = find_socket test l in
    if test s then some 0 else elim later [ none ↦ none | some i ↦ some (suc i) ]

abbrev pub socket_close : Socket → Socket
socket_close s = record s { state = closed; rx = []; tx_len = 0 }

abbrev pub net_ip_addr : ℕ
net_ip_addr = 0x0A00020F

abbrev pub http_port : ℕ
http_port = 8080

-- The listener that `tcp_init` makes of the socket it allocates.
abbrev pub listener : ℕ → Socket → Socket
listener ip s = record s { state = listen; local_port = http_port; local_ip = ip }

abbrev pub listen_at : ℕ → List Socket → Option (ℕ × List Socket) → List Socket
listen_at ip table none = table
listen_at ip table (some (i, l)) = set l i (listener ip (get_or l i zeroed))

-- `TCP_MAX_SOCKETS` sockets; the address is `NET_IP_ADDR`.
pub tcp_init : Tcp → Tcp
tcp_init t =
    let table = replicate 4 zeroed in
    record t { sockets = listen_at net_ip_addr table (socket_alloc table) }

-- `tcp_send_ctrl`.
abbrev pub control : Socket → ℕ → Segment
control s flags = record {
  src_port = s.local_port;
  dst_port = s.remote_port;
  dst_ip = s.remote_ip;
  seq = s.seq;
  ack = s.ack;
  flags = flags;
  payload = [];
}

-- `tcp_send_data`, and the socket after it.
abbrev pub data_segment : Socket → List ℕ → Segment
data_segment s payload = record (control s (ack_flag + psh_flag)) { payload = payload }

-- The number of bytes up to and with the first CR LF CR LF.
unfoldable pub headers_end : List ℕ → Option ℕ
headers_end (a ∷ b ∷ c ∷ d ∷ l) =
    let later = headers_end (b ∷ c ∷ d ∷ l) in
    if a == 13 && b == 10 && c == 13 && d == 10
    then some 4
    else elim later [ none ↦ none | some n ↦ some (suc n) ]
headers_end _ = none

abbrev pub rx_buf_size : ℕ
rx_buf_size = 2048

-- The payload is stored if there is room for it.
abbrev pub store_payload : List ℕ → Socket → Socket
store_payload payload s =
    if ltb 0 (length payload) && ltb (length s.rx + length payload) rx_buf_size
    then record s { rx = s.rx ++ payload }
    else s

abbrev pub Reply : Type 0
Reply = Socket × List Segment

-- What is sent for a complete request, and the socket behind it.
abbrev pub send_response : Option (List ℕ) → Socket → Reply
send_response none s =
    let t = record s { rx = []; state = fin_wait_1 } in (t, control t (fin_flag + ack_flag) ∷ [])
send_response (some body) s =
    let t = record s { rx = []; state = fin_wait_1; seq = add32 s.seq (length body) } in
    (t, data_segment s body ∷ control t (fin_flag + ack_flag) ∷ [])

-- The state after a FIN in `TCP_ESTABLISHED`, or in `TCP_CLOSE_WAIT`.
abbrev pub on_fin : State → Socket → Socket
on_fin established t = record t { state = close_wait }
on_fin _ t = socket_close t

-- From the bound address on: `s->remote_ip`, `s->last_activity` and the switch.
abbrev pub touched : ℕ → Packet → Socket → Socket
touched now p s = record s {
  remote_ip = if s.remote_ip == 0 then p.remote_ip else s.remote_ip;
  last_activity = now;
}

-- The socket that a SYN for a listener gets.
abbrev pub opened : Packet → ℕ → ℕ → Socket
opened p i now = record zeroed {
  state = syn_received;
  local_port = p.dst_port;
  remote_port = p.src_port;
  remote_ip = p.remote_ip;
  seq = add32 (add32 1000 (i * 100)) (now % 2 ^ 16);
}

-- The RST for an unknown connection.
abbrev pub reset : Packet → Segment
reset p = record {
  src_port = p.dst_port;
  dst_port = p.src_port;
  dst_ip = p.remote_ip;
  seq = 0;
  ack = add32 (add32 p.seq 1) (if has_syn p then 1 else 0);
  flags = rst_flag;
  payload = [];
}

abbrev pub refuse : Packet → Tcp → Tcp × List Segment
refuse p t = if has_rst p then (t, []) else (t, reset p ∷ [])

module _ (respond : List ℕ → Option (List ℕ)) where
  -- The block under `if (s->rx_len > 0)`, and its `else`.
  unfoldable pub serve : Socket → Option ℕ → Reply
  serve s none = if length s.rx == 0 then (s, control s ack_flag ∷ []) else (s, [])
  serve s (some n) = send_response (respond (take n s.rx)) s

  -- `case TCP_ESTABLISHED: case TCP_CLOSE_WAIT:`
  unfoldable pub on_open : Packet → Socket → Reply
  on_open p s =
      let acked = record s { ack = add32 p.seq (length p.payload) } in
      let finished = record s { ack = add32 (add32 p.seq (length p.payload)) 1 } in
      let stored = store_payload p.payload acked in
      let (t, sent) = serve stored (headers_end stored.rx) in
      if has_syn p
      then (s, [])
      else if has_fin p
      then (on_fin s.state finished, control finished ack_flag ∷ [])
      else if not (has_ack p)
      then (acked, [])
      else (t, (if ltb 0 (length p.payload) then control stored ack_flag ∷ sent else sent))

  -- `switch (s->state)`.
  pub handle : State → Packet → Socket → Reply
  handle syn_received p s =
      let t = record s { ack = add32 p.seq 1 } in
      let u = record t { state = established; seq = p.ack } in
      if has_ack p then (u, control u ack_flag ∷ []) else (t, control t (syn_flag + ack_flag) ∷ [])
  handle established p s = on_open p s
  handle close_wait p s = on_open p s
  handle fin_wait_1 p s =
      if has_fin p
      then (record s { ack = add32 s.ack 1; state = time_wait }, [])
      else if has_ack p
      then (record s { state = fin_wait_2 }, [])
      else (s, [])
  handle fin_wait_2 p s =
      let t = record s { ack = add32 s.ack 1 } in
      if has_fin p then (socket_close t, control t ack_flag ∷ []) else (s, [])
  handle last_ack p s = if has_ack p then (socket_close s, []) else (s, [])
  handle _ p s = (s, [])

  pub deliver : Packet → ℕ → Tcp → Tcp × List Segment
  deliver p i t =
      let s = touched t.now p (get_or t.sockets i zeroed) in
      let (u, sent) = handle s.state p s in (record t { sockets = set t.sockets i u }, sent)

  -- `socket_alloc` for a SYN to a listener.
  pub accept : Packet → Tcp → Option (ℕ × List Socket) → Tcp × List Segment
  accept p t none = refuse p t
  accept p t (some (i, l)) = deliver p i (record t { sockets = set l i (opened p i t.now) })

  pub unmatched : Packet → Tcp → Option ℕ → Tcp × List Segment
  unmatched p t none = refuse p t
  unmatched p t (some j) = accept p t (socket_alloc t.sockets)

  pub segment_arrives : Packet → Tcp → Option ℕ → Tcp × List Segment
  segment_arrives p t (some i) = deliver p i t
  segment_arrives p t none =
      if has_syn p then unmatched p t (find_socket (listens p.dst_port) t.sockets) else refuse p t

  -- The packet's bytes, and `tcp_current_remote_ip`.
  pub tcp_receive : ℕ → List ℕ → Tcp → Tcp × List Segment
  tcp_receive remote_ip packet t =
      let p = parse_packet remote_ip packet in
      if ltb (length packet) 20
      then (t, [])
      else segment_arrives p t (find_socket (fits p) t.sockets)

-- The body of the loop in `tcp_periodic`.
pub retransmit : ℕ → Socket → Reply
retransmit now s =
    if is_syn_received s.state && ltb 1 ((now + 2 ^ 32 - s.last_activity) % 2 ^ 32)
    then (record s { last_activity = now }, control s (syn_flag + ack_flag) ∷ [])
    else (s, [])

pub retransmit_all : ℕ → List Socket → List Socket × List Segment
retransmit_all now [] = ([], [])
retransmit_all now (s ∷ l) =
    let (u, sent) = retransmit now s in
    let (m, later) = retransmit_all now l in (u ∷ m, sent ++ later)

pub tcp_periodic : Tcp → Tcp × List Segment
tcp_periodic t =
    let now = add32 t.now 1 in
    let (l, sent) = retransmit_all now t.sockets in (record { sockets = l; now = now }, sent)
