-- ===== src/Net/Tcp/Answers.antt =====
-- Where the segments go that answer a packet.
use cllm.Common.{
  ℕ, suc, ◌+◌, ◌<◌, ◌≡◌, refl, List, [], ◌∷◌, arith, Bool, true, false, Option, none, some, ltb,
  length, All, set, get_or, if_both, if◌then◌else◌, sym, subst, ◌==◌, not, ◌&&◌, take, ◌++◌,
  get_or-set,
}
use cllm.Net.Tcp.{
  State, syn_received, established, close_wait, fin_wait_1, fin_wait_2, last_ack, Socket, Tcp,
  Packet, Segment, Reply, zeroed, socket_alloc, deliver, accept, unmatched, handle, segment_arrives,
  tcp_receive, find_socket, is_closed, opened, refuse, fits, parse_packet, has_syn, has_rst,
  has_fin, has_ack, touched, serve, on_open, listens, send_response, store_payload, headers_end,
  control, add32, ack_flag, rx_buf_size,
}

-- The segment goes back to the sender of the packet, its ports exchanged.
pub record IsAnswer (p : Packet) (s : Segment) : Type 0 where
  pub to : s.dst_ip ≡ p.remote_ip
  pub port : s.dst_port ≡ p.src_port
  pub back : s.src_port ≡ p.dst_port

-- The socket is the packet's end of its connection.
record Peer (p : Packet) (s : Socket) : Type 0 where
  ip : s.remote_ip ≡ p.remote_ip
  theirs : s.remote_port ≡ p.src_port
  ours : s.local_port ≡ p.dst_port

control-IsAnswer : (p : Packet) (s : Socket) (flags : ℕ) → Peer p s → IsAnswer p (control s flags)
control-IsAnswer p s flags h = record { to = h.ip; port = h.theirs; back = h.ours }

pub Answers : Packet → List Segment → Type 0
Answers p l = All (IsAnswer p) l

module _ (respond : List ℕ → Option (List ℕ)) (p : Packet) where
  serve-Answers : (s : Socket) (o : Option ℕ) → Peer p s → All (IsAnswer p) (serve respond s o).1
  unfolding serve
  serve-Answers s none h =
      if_both (λ (r : Reply). All (IsAnswer p) r.1) (length s.rx == 0)
        (control-IsAnswer p s ack_flag h, tt) tt
  serve-Answers s (some n) h = go (respond (take n s.rx))
    where
      go : (o : Option (List ℕ)) → All (IsAnswer p) (send_response o s).1
      go none = (record { to = h.ip; port = h.theirs; back = h.ours }, tt)
      go (some body) = (
        record { to = h.ip; port = h.theirs; back = h.ours },
        (record { to = h.ip; port = h.theirs; back = h.ours }, tt),
      )

  store_payload-Peer : (payload : List ℕ) (s : Socket) → Peer p s → Peer p (store_payload payload s)
  store_payload-Peer payload s h =
      if_both (Peer p) (ltb 0 (length payload) && ltb (length s.rx + length payload) rx_buf_size)
        {x = record s { rx = s.rx ++ payload }}
        (record { ip = h.ip; theirs = h.theirs; ours = h.ours }) h

  on_open-Answers : (s : Socket) → Peer p s → All (IsAnswer p) (on_open respond p s).1
  unfolding on_open
  on_open-Answers s h = if_both Q (has_syn p) tt (
      if_both Q (has_fin p) (record { to = h.ip; port = h.theirs; back = h.ours }, tt)
        (if_both Q (not (has_ack p)) tt (
          if_both (All (IsAnswer p)) (ltb 0 (length p.payload))
            (control-IsAnswer p stored ack_flag peer, served) served)))
    where
      Q : Reply → Type 0
      Q r = All (IsAnswer p) r.1

      stored : Socket
      stored = store_payload p.payload (record s { ack = add32 p.seq (length p.payload) })

      peer : Peer p stored
      peer = store_payload-Peer p.payload _ (record { ip = h.ip; theirs = h.theirs; ours = h.ours })

      served : All (IsAnswer p) (serve respond stored (headers_end stored.rx)).1
      served = serve-Answers stored (headers_end stored.rx) peer

  handle-Answers : (st : State) (s : Socket) → Peer p s → All (IsAnswer p) (handle respond st p s).1
  unfolding handle
  handle-Answers syn_received s h =
      if_both (λ (r : Reply). All (IsAnswer p) r.1) (has_ack p)
        (record { to = h.ip; port = h.theirs; back = h.ours }, tt)
        (record { to = h.ip; port = h.theirs; back = h.ours }, tt)
  handle-Answers established s h = on_open-Answers s h
  handle-Answers close_wait s h = on_open-Answers s h
  handle-Answers fin_wait_1 s h =
      if_both (λ (r : Reply). All (IsAnswer p) r.1) (has_fin p) tt
        (if_both (λ (r : Reply). All (IsAnswer p) r.1) (has_ack p) tt tt)
  handle-Answers fin_wait_2 s h =
      if_both (λ (r : Reply). All (IsAnswer p) r.1) (has_fin p)
        (record { to = h.ip; port = h.theirs; back = h.ours }, tt) tt
  handle-Answers last_ack s h = if_both (λ (r : Reply). All (IsAnswer p) r.1) (has_ack p) tt tt
  handle-Answers _ s h = tt

  deliver-Answers :
      (i : ℕ) (t : Tcp)
      → Peer p (touched t.now p (get_or t.sockets i zeroed))
      → All (IsAnswer p) (deliver respond p i t).1
  unfolding deliver
  deliver-Answers i t h = handle-Answers _ _ h

-- The test holds of the entry that the search finds.
pub Found : (Socket → Bool) → List Socket → Option ℕ → Type 0
Found test l none = Unit
Found test l (some i) = (test (get_or l i zeroed) ≡ true) × (i < length l)

pub find_socket-Found : (test : Socket → Bool) (l : List Socket) → Found test l (find_socket test l)
unfolding find_socket Found
find_socket-Found test [] = tt
find_socket-Found test (s ∷ l) = go (test s) refl (find_socket test l) (find_socket-Found test l)
  where
    go :
        (b : Bool)
        → test s ≡ b
        → (o : Option ℕ) → Found test l o
        → Found test (s ∷ l) (if b then some 0 else elim o [ none ↦ none | some i ↦ some (suc i) ])
    go true e o k = (e, omega arith)
    go false e none k = tt
    go false e (some i) k = (k.0, omega (arith, k.1))

fits-Peer : (now : ℕ) (p : Packet) (s : Socket) → fits p s ≡ true → Peer p (touched now p s)
fits-Peer now p s h = record { ip = ground arith; theirs = ground arith; ours = ground arith }

-- The index of an allocated socket is one of the table.
Placed : Option (ℕ × List Socket) → Type 0
Placed none = Unit
Placed (some (i, m)) = i < length m

alloc-Placed : (l : List Socket) → Placed (socket_alloc l)
unfolding socket_alloc Placed
alloc-Placed [] = tt
alloc-Placed (s ∷ l) = go (is_closed s.state) (socket_alloc l) (alloc-Placed l)
  where
    go :
        (t : Bool) (o : Option (ℕ × List Socket))
        → Placed o
        → Placed (
            if t
            then some (0, zeroed ∷ l)
            else elim o [ none ↦ none | some (i, m) ↦ some (suc i, s ∷ m) ])
    go true o k = omega arith
    go false none k = tt
    go false (some (i, m)) k = omega (arith, k)

refuse-Answers : (p : Packet) (t : Tcp) → Answers p (refuse p t).1
unfolding Answers
refuse-Answers p t =
    if_both (λ (r : Tcp × List Segment). Answers p r.1) (has_rst p) tt
      (record { to = refl; port = refl; back = refl }, tt)

module _ (respond : List ℕ → Option (List ℕ)) (p : Packet) where
  opened-Peer : (i now : ℕ) → Peer p (touched now p (opened p i now))
  opened-Peer i now = record { ip = ground arith; theirs = refl; ours = refl }

  accept-Answers :
      (t : Tcp) (o : Option (ℕ × List Socket)) → Placed o → Answers p (accept respond p t o).1
  unfolding Answers accept Placed
  accept-Answers t none k = refuse-Answers p t
  accept-Answers t (some (i, l)) k =
      deliver-Answers respond p i (record t { sockets = set l i (opened p i t.now) })
        (subst (λ s. Peer p (touched t.now p s)) (sym (get_or-set l i (opened p i t.now) zeroed k))
          (opened-Peer i t.now))

  segment_arrives-Answers :
      (t : Tcp) (o : Option ℕ)
      → Found (fits p) t.sockets o
      → Answers p (segment_arrives respond p t o).1
  unfolding Answers segment_arrives unmatched Found
  segment_arrives-Answers t (some i) k =
      deliver-Answers respond p i t (fits-Peer t.now p (get_or t.sockets i zeroed) k.0)
  segment_arrives-Answers t none k =
      if_both (λ (r : Tcp × List Segment). Answers p r.1) (has_syn p)
        (go (find_socket (listens p.dst_port) t.sockets)) (refuse-Answers p t)
    where
      go : (o : Option ℕ) → Answers p (unmatched respond p t o).1
      go none = refuse-Answers p t
      go (some j) = accept-Answers t (socket_alloc t.sockets) (alloc-Placed t.sockets)

-- Every segment that is sent for a received packet goes to the packet's source address, to its
-- source port, from the port that the packet was sent to.
pub tcp_receive-Answers :
    (respond : List ℕ → Option (List ℕ)) (ip : ℕ) (packet : List ℕ) (t : Tcp)
    → Answers (parse_packet ip packet) (tcp_receive respond ip packet t).1
unfolding Answers tcp_receive
tcp_receive-Answers respond ip packet t =
    let p = parse_packet ip packet in
    if_both (λ (r : Tcp × List Segment). Answers p r.1) (ltb (length packet) 20) tt
      (segment_arrives-Answers respond p t (find_socket (fits p) t.sockets)
        (find_socket-Found (fits p) t.sockets))
