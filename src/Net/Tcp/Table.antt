-- ===== src/Net/Tcp/Table.antt =====
-- The socket table over any sequence of packets and timer ticks.
use cllm.Common.{
  ℕ, zero, suc, ◌<◌, ◌≡◌, refl, List, [], ◌∷◌, arith, Bool, true, false, Option, none, some, ltb,
  length, length-set, All, All-set, set, if_both, if◌then◌else◌, ap, ◌∙◌,
}
use cllm.Net.Tcp.{
  Socket, Tcp, Packet, Segment, Reply, zeroed, socket_alloc, tcp_init, accept, unmatched,
  segment_arrives, tcp_receive, retransmit, retransmit_all, tcp_periodic, find_socket, is_closed,
  is_syn_received, opened, refuse, parse_packet, has_syn, has_rst, listens,
}
use cllm.Net.Tcp.Invariant.{IsSocket, IsTable, deliver-IsTable}

abbrev Kept : List Socket → Option (ℕ × List Socket) → Type 0
Kept l none = Unit
Kept l (some (i, m)) = All IsSocket m × (length m ≡ length l)

zeroed-IsSocket : IsSocket zeroed
zeroed-IsSocket = record { room = omega arith; used = tt }

alloc-Kept : (l : List Socket) → All IsSocket l → Kept l (socket_alloc l)
unfolding socket_alloc
alloc-Kept [] h = tt
alloc-Kept (s ∷ l) h = go (is_closed s.state) (socket_alloc l) (alloc-Kept l h.1)
  where
    go :
        (t : Bool) (o : Option (ℕ × List Socket))
        → Kept l o
        → Kept (s ∷ l) (
            if t
            then some (0, zeroed ∷ l)
            else elim o [ none ↦ none | some (i, m) ↦ some (suc i, s ∷ m) ])
    go true o k = ((zeroed-IsSocket, h.1), refl)
    go false none k = tt
    go false (some (i, m)) k = ((h.0, k.0), ap suc k.1)

-- The listener is not the socket that is allocated.
abbrev Spared : Option (ℕ × List Socket) → Type 0
Spared none = Unit
Spared (some (i, m)) = (0 < i) × IsTable m

alloc-Spared : (l : List Socket) → IsTable l → Spared (socket_alloc l)
unfolding socket_alloc
alloc-Spared [] h = elim h [ ]
alloc-Spared (s ∷ l) h = rw (ap is_closed h.0) (go (socket_alloc l) (alloc-Kept l h.3))
  where
    go :
        (o : Option (ℕ × List Socket))
        → Kept l o
        → Spared (elim o [ none ↦ none | some (i, m) ↦ some (suc i, s ∷ m) ])
    go none k = tt
    go (some (i, m)) k = (omega arith, (h.0, h.1, h.2, k.0, k.1 ∙ h.4))

set-IsTable :
    (l : List Socket) (i : ℕ) (s : Socket) → 0 < i → IsTable l → IsSocket s → IsTable (set l i s)
set-IsTable [] i s p h k = elim h [ ]
set-IsTable (u ∷ l) zero s p h k = absurd (omega arith)
set-IsTable (u ∷ l) (suc i) s p h k =
    (h.0, h.1, h.2, All-set IsSocket l i s h.3 k, length-set l i s ∙ h.4)

Sound : Tcp × List Segment → Type 0
Sound r = IsTable r.0.sockets

refuse-Sound : (p : Packet) (t : Tcp) → IsTable t.sockets → Sound (refuse p t)
unfolding Sound
refuse-Sound p t h = if_both Sound (has_rst p) h h

module _ (respond : List ℕ → Option (List ℕ)) where
  accept-Sound :
      (p : Packet) (t : Tcp) (o : Option (ℕ × List Socket))
      → IsTable t.sockets
      → Spared o
      → Sound (accept respond p t o)
  unfolding Sound accept
  accept-Sound p t none h k = refuse-Sound p t h
  accept-Sound p t (some (i, l)) h k =
      deliver-IsTable respond p i _
        (set-IsTable l i (opened p i t.now) k.0 k.1 (record { room = omega arith; used = tt }))

  segment_arrives-Sound :
      (p : Packet) (t : Tcp) (o : Option ℕ)
      → IsTable t.sockets
      → Sound (segment_arrives respond p t o)
  unfolding Sound segment_arrives unmatched
  segment_arrives-Sound p t (some i) h = deliver-IsTable respond p i t h
  segment_arrives-Sound p t none h =
      if_both Sound (has_syn p) (go (find_socket (listens p.dst_port) t.sockets))
        (refuse-Sound p t h)
    where
      go : (o : Option ℕ) → Sound (unmatched respond p t o)
      go none = refuse-Sound p t h
      go (some j) = accept-Sound p t (socket_alloc t.sockets) h (alloc-Spared t.sockets h)

  tcp_receive-Sound :
      (ip : ℕ) (packet : List ℕ) (t : Tcp)
      → IsTable t.sockets
      → Sound (tcp_receive respond ip packet t)
  unfolding Sound tcp_receive
  tcp_receive-Sound ip packet t h =
      if_both Sound (ltb (length packet) 20) h
        (segment_arrives-Sound (parse_packet ip packet) t _ h)

retransmit-IsSocket : (now : ℕ) (s : Socket) → IsSocket s → IsSocket (retransmit now s).0
unfolding retransmit
retransmit-IsSocket now s h =
    if_both (λ (r : Reply). IsSocket r.0) _ (record { room = h.room; used = h.used }) h

retransmit_all-All :
    (now : ℕ) (l : List Socket)
    → All IsSocket l
    → All IsSocket (retransmit_all now l).0 × (length (retransmit_all now l).0 ≡ length l)
unfolding retransmit_all
retransmit_all-All now [] h = (tt, refl)
retransmit_all-All now (s ∷ l) h =
    let r = retransmit_all-All now l h.1 in ((retransmit-IsSocket now s h.0, r.0), ap suc r.1)

retransmit_all-IsTable : (now : ℕ) (l : List Socket) → IsTable l → IsTable (retransmit_all now l).0
unfolding retransmit_all retransmit
retransmit_all-IsTable now [] h = elim h [ ]
retransmit_all-IsTable now (s ∷ l) h =
    let r = retransmit_all-All now l h.3 in
    rw (ap is_syn_received h.0) (h.0, h.1, h.2, r.0, r.1 ∙ h.4)

-- Sequences of received packets and of calls of the timer.
pub data Steps (respond : List ℕ → Option (List ℕ)) (t : Tcp) : Tcp → Type 0 where
  done : Steps respond t t
  packet :
      (ip : ℕ) (bytes : List ℕ) (u : Tcp)
      → Steps respond t u
      → Steps respond t (tcp_receive respond ip bytes u).0
  tick : (u : Tcp) → Steps respond t u → Steps respond t (tcp_periodic u).0

tcp_init-IsTable : (t : Tcp) → IsTable (tcp_init t).sockets
unfolding tcp_init socket_alloc
tcp_init-IsTable t = (
  refl,
  refl,
  record { room = omega arith; used = tt },
  (zeroed-IsSocket, (zeroed-IsSocket, (zeroed-IsSocket, tt))),
  refl,
)

tcp_periodic-IsTable : (t : Tcp) → IsTable t.sockets → IsTable (tcp_periodic t).0.sockets
unfolding tcp_periodic
tcp_periodic-IsTable t h = retransmit_all-IsTable _ t.sockets h

-- In every state that packets and timer ticks lead to from `tcp_init`, whatever the HTTP server
-- answers, there are four sockets, the first is the listener on port 8080, the received bytes of
-- each leave room in its buffer, and none is in SYN_SENT, CLOSING or LAST_ACK.
pub Steps-IsTable :
    (respond : List ℕ → Option (List ℕ)) (t u : Tcp)
    → Steps respond (tcp_init t) u
    → IsTable u.sockets
unfolding Sound
Steps-IsTable respond t _ done = tcp_init-IsTable t
Steps-IsTable respond t _ (packet ip bytes u r) =
    tcp_receive-Sound respond ip bytes u (Steps-IsTable respond t u r)
Steps-IsTable respond t _ (tick u r) = tcp_periodic-IsTable u (Steps-IsTable respond t u r)
