-- ===== src/Net/Loop/Rounds.antt =====
-- What the rounds of `network_loop` keep, and when its timer runs.
use cllm.Common.{
  ℕ, ◌+◌, ◌/◌, ◌%◌, ◌^◌, ◌<◌, ◌≡◌, refl, sym, subst, ap, ◌∙◌, true, Option, some, none, List, [],
  ◌∷◌, arith, inl, inr, Bool-cases, ltb, ltb→lt, ltb→le, ◌==◌, if_both, length, take, drop, All,
  All-replicate, length-replicate,
}
use cllm.Common.Maybe.{◌>>=◌, Ensures, ensures, Ensures-bind, Ensures-weaken}
use cllm.Net.Tcp.{Tcp, tcp_init, add32}
use cllm.Net.Tcp.Clock.{tcp_receive-Timed, tcp_periodic-now, tcp_init-now}
use cllm.Net.Tcp.Table.{Steps, done, packet, tick, Steps-IsTable}
use cllm.Net.Tcp.Invariant.{IsTable}
use cllm.Net.Wire.{be16_at}
use cllm.Net.Arp.{arp_init}
use cllm.Net.Ip.{Delivery, dropped, echo, to_tcp, ip_receive}
use cllm.Net.Card.{Card, Received, blank_rx, e1000_rings}
use cllm.Net.Card.Ring.{IsReceiving, HasBuffer, buffer_then, e1000_receive_packet-IsReceiving}
use cllm.Net.Loop.{
  Node, Outcome, tcp_arrives, ip_arrives, by_ethertype, frame_arrives, polled, drive_timer, round,
  network_loop, network_init,
}

-- The card may do to its rings what keeps them whole and leaves the driver's place alone.
abbrev pub Keeps : (Card → Card) → Type 0
Keeps step = (c : Card) → IsReceiving c → IsReceiving (step c)

module _ (respond : List ℕ → Option (List ℕ)) where
  -- A frame leaves the card, the buffer and the timer of the loop alone.
  record Kept (start : Tcp) (n : Node) (r : Outcome) : Type 0 where
    card : r.0.card ≡ n.card
    buffer : r.0.buffer ≡ n.buffer
    timer : r.0.last_tcp_tick ≡ n.last_tcp_tick
    now : r.0.tcp.now ≡ n.tcp.now
    reached : Steps respond start r.0.tcp

  unmoved : (start : Tcp) (n : Node) → Steps respond start n.tcp → Kept start n (n, [])
  unmoved start n h = record { card = refl; buffer = refl; timer = refl; now = refl; reached = h }

  ip_arrives-Kept :
      (start : Tcp) (d : Delivery) (n : Node)
      → Steps respond start n.tcp
      → Kept start n (ip_arrives respond d n)
  unfolding tcp_arrives
  ip_arrives-Kept start dropped n h = unmoved start n h
  ip_arrives-Kept start (echo src payload) n h = record {
    card = refl;
    buffer = refl;
    timer = refl;
    now = refl;
    reached = h;
  }
  ip_arrives-Kept start (to_tcp src payload) n h = record {
    card = refl;
    buffer = refl;
    timer = refl;
    now = tcp_receive-Timed respond src payload n.tcp;
    reached = packet src payload n.tcp h;
  }

  by_ethertype-Kept :
      (start : Tcp) (et : ℕ) (payload : List ℕ) (n : Node)
      → Steps respond start n.tcp
      → Kept start n (by_ethertype respond et payload n)
  by_ethertype-Kept start et payload n h =
      if_both (Kept start n) (et == 0x0806)
        (record { card = refl; buffer = refl; timer = refl; now = refl; reached = h })
        (if_both (Kept start n) (et == 0x0800) (ip_arrives-Kept start (ip_receive payload) n h)
          (unmoved start n h))

  frame_arrives-Kept :
      (start : Tcp) (frame : List ℕ) (n : Node)
      → Steps respond start n.tcp
      → Kept start n (frame_arrives respond frame n)
  unfolding frame_arrives
  frame_arrives-Kept start frame n h =
      let m = record n { packet_counter = add32 n.packet_counter 1 } in
      let k = by_ethertype-Kept start (be16_at frame 12) (drop 14 frame) m h in
      if_both (Kept start n) (ltb (length frame) 14) (unmoved start n h) (record {
        card = k.card;
        buffer = k.buffer;
        timer = k.timer;
        now = k.now;
        reached = k.reached;
      })

  -- What `count` rounds do to the timer, and what they keep.
  pub record Ran (start : Tcp) (count : ℕ) (n : Node) (r : Outcome) : Type 0 where
    pub receiving : IsReceiving r.0.card
    pub buffer : length r.0.buffer ≡ 2048
    pub reached : Steps respond start r.0.tcp
    pub timer : r.0.last_tcp_tick ≡ (n.last_tcp_tick + count) % 100000
    pub now : r.0.tcp.now ≡ (n.tcp.now + (n.last_tcp_tick + count) / 100000) % 2 ^ 32

  -- Between two rounds.
  pub record IsRunning (start : Tcp) (n : Node) : Type 0 where
    pub receiving : IsReceiving n.card
    pub buffer : length n.buffer ≡ 2048
    pub reached : Steps respond start n.tcp
    pub timer : n.last_tcp_tick < 100000
    pub now : n.tcp.now < 2 ^ 32

  polled-Kept :
      (start : Tcp) (r : Received) (n : Node)
      → Steps respond start n.tcp
      → Kept start (record n { card = r.1; buffer = buffer_then n.buffer r.0 }) (polled respond r n)
  polled-Kept start (none, c) n h = unmoved start (record n { card = c }) h
  polled-Kept start (some (buffer, length), c) n h =
      frame_arrives-Kept start (take length buffer) (record n { card = c; buffer = buffer }) h

  drive_timer-Ran :
      (start : Tcp) (n : Node) (r : Outcome)
      → IsRunning start n
      → IsReceiving r.0.card
      → length r.0.buffer ≡ 2048
      → Steps respond start r.0.tcp
      → r.0.last_tcp_tick ≡ n.last_tcp_tick
      → r.0.tcp.now ≡ n.tcp.now
      → Ran start 1 n (drive_timer respond r)
  unfolding drive_timer
  drive_timer-Ran start n (m, frames) h c b s t w =
      let low = h.timer in
      let few = h.now in
      elim (Bool-cases (ltb (add32 m.last_tcp_tick 1) 100000)) [
        | inl f ↦
            let f1 = ltb→lt _ _ f in
            rw f (record {
              receiving = c;
              buffer = b;
              reached = s;
              timer = omega (arith, f1, t, low);
              now = omega (arith, f1, t, low, w, few);
            })
        | inr f ↦
            let f1 = ltb→le _ _ f in
            let clock = tcp_periodic-now m.tcp in
            rw f (record {
              receiving = c;
              buffer = b;
              reached = tick m.tcp s;
              timer = omega (arith, f1, t, low);
              now = omega (arith, f1, t, low, w, few, clock);
            })
      ]

  round-Ran :
      (start : Tcp) (n : Node) → IsRunning start n → Ensures (Ran start 1 n) (round respond n)
  unfolding round
  round-Ran start n h =
      Ensures-bind (e1000_receive_packet-IsReceiving n.card n.buffer h.receiving h.buffer) (λ r q.
        let k = polled-Kept start r n h.reached in
        ensures _ (
          drive_timer-Ran start n (polled respond r n) h (subst IsReceiving (sym k.card) q.0)
            (ap length k.buffer ∙ q.1) k.reached k.timer k.now))

  Ran-IsRunning :
      (start : Tcp) (count : ℕ) (n : Node) (r : Outcome) → Ran start count n r → IsRunning start r.0
  Ran-IsRunning start count n r k = record {
    receiving = k.receiving;
    buffer = k.buffer;
    reached = k.reached;
    timer = (let t = k.timer in omega (arith, t));
    now = (let w = k.now in omega (arith, w));
  }

  network_loop-Ran :
      (start : Tcp) (steps : List (Card → Card)) (n : Node)
      → All Keeps steps
      → IsRunning start n
      → Ensures (Ran start (length steps) n) (network_loop respond steps n)
  unfolding network_loop
  network_loop-Ran start [] n k h =
      let low = h.timer in
      let few = h.now in
      ensures _ (record {
        receiving = h.receiving;
        buffer = h.buffer;
        reached = h.reached;
        timer = omega (arith, low);
        now = omega (arith, low, few);
      })
  network_loop-Ran start (step ∷ steps) n k h =
      let stepped : IsRunning start (record n { card = step n.card }) = record {
        receiving = k.0 n.card h.receiving;
        buffer = h.buffer;
        reached = h.reached;
        timer = h.timer;
        now = h.now;
      } in
      Ensures-bind (round-Ran start (record n { card = step n.card }) stepped) (λ r p.
        Ensures-bind (network_loop-Ran start steps r.0 k.1 (Ran-IsRunning start 1 _ r p)) (λ q l.
          let t = p.timer in
          let w = p.now in
          let t1 = l.timer in
          let w1 = l.now in
          ensures _ (record {
            receiving = l.receiving;
            buffer = l.buffer;
            reached = l.reached;
            timer = omega (arith, t, t1);
            now = omega (arith, t, t1, w, w1);
          })))

-- As `network_init` finds the static data.
pub record IsFresh (n : Node) : Type 0 where
  pub buffer : length n.buffer ≡ 2048
  pub timer : n.last_tcp_tick ≡ 0
  pub now : n.tcp.now ≡ 0

e1000_rings-IsReceiving : IsReceiving e1000_rings
e1000_rings-IsReceiving = record {
  ready = refl;
  ring = length-replicate 32 blank_rx;
  head = omega arith;
  buffers = All-replicate HasBuffer 32 blank_rx (length-replicate {A = ℕ} 2048 0);
  register = refl;
}

-- From `network_init` with a card on, whatever arrives and whatever the HTTP server answers, every
-- round of `network_loop` ends, the receive ring stays whole and nothing is copied outside the
-- buffer; the sockets are a sound table with the listener; and the clock of the TCP code has been
-- moved once in 100000 rounds. Between rounds the card may do to the rings what keeps them whole.
pub network_loop-Runs :
    (respond : List ℕ → Option (List ℕ)) (steps : List (Card → Card)) (n : Node)
    → All Keeps steps
    → IsFresh n
    → Ensures
        (λ r.
          IsReceiving r.0.card
          × (length r.0.buffer ≡ 2048)
          × IsTable r.0.tcp.sockets
          × (r.0.last_tcp_tick ≡ length steps % 100000)
          × (r.0.tcp.now ≡ length steps / 100000 % 2 ^ 32))
        (network_init true n >>= λ m. network_loop respond steps m)
unfolding network_init
network_loop-Runs respond steps n k h =
    let m = record n {
      card = e1000_rings;
      stack = record n.stack { table = arp_init };
      tcp = tcp_init n.tcp;
    } in
    let clock = tcp_init-now n.tcp in
    let zero_now = h.now in
    let zero_timer = h.timer in
    let running : IsRunning respond (tcp_init n.tcp) m = record {
      receiving = e1000_rings-IsReceiving;
      buffer = h.buffer;
      reached = done;
      timer = omega (arith, zero_timer);
      now = omega (arith, clock, zero_now);
    } in
    Ensures-weaken
      (λ r l.
        let t = l.timer in
        let w = l.now in
        (
          l.receiving,
          l.buffer,
          Steps-IsTable respond n.tcp r.0.tcp l.reached,
          omega (arith, t, zero_timer),
          omega (arith, w, zero_timer, zero_now, clock),
        ))
      (network_loop-Ran respond (tcp_init n.tcp) steps m k running)
