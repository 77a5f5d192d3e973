-- ===== src/Net/Tcp/Release.antt =====
-- A socket that waits for the end of a connection: nothing releases it.
use cllm.Common.{
  ℕ, zero, suc, ◌≡◌, refl, List, [], ◌∷◌, Bool, true, false, Option, none, some, ltb, length, set,
  get_or, if_both, if◌then◌else◌, ap, sym, subst, ◌≢◌, arith,
}
use cllm.Net.Tcp.{
  time_wait, Socket, Tcp, Packet, Segment, zeroed, socket_alloc, deliver, accept, unmatched, handle,
  segment_arrives, tcp_receive, find_socket, is_closed, opened, parse_packet, has_syn, has_rst,
  touched, listens, retransmit, retransmit_all, tcp_periodic, is_syn_received,
}
use cllm.Net.Tcp.Table.{Steps, done, packet, tick}

abbrev pub Waits : ℕ → List Socket → Type 0
Waits i l = (get_or l i zeroed).state ≡ time_wait

-- A write of a socket that waits, or at another index.
set-Waits :
    (l : List Socket) (i j : ℕ) (s : Socket)
    → Waits i l
    → (j ≡ i → s.state ≡ time_wait)
    → Waits i (set l j s)
set-Waits [] i j s h k = h
set-Waits (u ∷ l) zero zero s h k = k refl
set-Waits (u ∷ l) zero (suc j) s h k = h
set-Waits (u ∷ l) (suc i) zero s h k = h
set-Waits (u ∷ l) (suc i) (suc j) s h k = set-Waits l i j s h (λ e. k (ap suc e))

-- The socket that is allocated is not one that waits.
Passed : List Socket → Option (ℕ × List Socket) → Type 0
Passed l none = Unit
Passed l (some (j, m)) = (i : ℕ) → Waits i l → Waits i m × (j ≢ i)

time_wait_ne_closed : (s : Socket) → s.state ≡ time_wait → is_closed s.state ≡ true → ⊥
time_wait_ne_closed s h k = cc

alloc-Passed : (l : List Socket) → Passed l (socket_alloc l)
unfolding socket_alloc Passed
alloc-Passed [] = tt
alloc-Passed (s ∷ l) = go (is_closed s.state) refl (socket_alloc l) (alloc-Passed l)
  where
    zeroed_first :
        is_closed s.state ≡ true → (i : ℕ) → Waits i (s ∷ l) → Waits i (zeroed ∷ l) × (0 ≢ i)
    zeroed_first e zero h = absurd (time_wait_ne_closed s h e)
    zeroed_first e (suc i) h = (h, λ eq. absurd (omega (arith, eq)))

    later :
        (j : ℕ) (m : List Socket)
        → Passed l (some (j, m))
        → (i : ℕ) → Waits i (s ∷ l)
        → Waits i (s ∷ m) × (suc j ≢ i)
    later j m k zero h = (h, λ eq. absurd (omega (arith, eq)))
    later j m k (suc i) h = ((k i h).0, λ eq. (k i h).1 (omega (arith, eq)))

    go :
        (t : Bool)
        → is_closed s.state ≡ t
        → (o : Option (ℕ × List Socket)) → Passed l o
        → Passed (s ∷ l) (
            if t
            then some (0, zeroed ∷ l)
            else elim o [ none ↦ none | some (i, m) ↦ some (suc i, s ∷ m) ])
    go true e o k = zeroed_first e
    go false e none k = tt
    go false e (some (j, m)) k = later j m k

module _ (respond : List ℕ → Option (List ℕ)) (i : ℕ) where
  deliver-Waits :
      (p : Packet) (j : ℕ) (t : Tcp) → Waits i t.sockets → Waits i (deliver respond p j t).0.sockets
  unfolding deliver handle
  deliver-Waits p j t h = set-Waits t.sockets i j _ h same
    where
      step : Socket → Socket
      step s = (handle respond (touched t.now p s).state p (touched t.now p s)).0

      stays : (s : Socket) → s.state ≡ time_wait → (step s).state ≡ time_wait
      stays s k =
          subst (λ st. (handle respond st p (touched t.now p s)).0.state ≡ time_wait) (sym k) k

      same : j ≡ i → (step (get_or t.sockets j zeroed)).state ≡ time_wait
      same e = stays (get_or t.sockets j zeroed) (subst (λ n. Waits n t.sockets) (sym e) h)

  accept-Waits :
      (p : Packet) (t : Tcp) (o : Option (ℕ × List Socket))
      → Waits i t.sockets
      → Passed t.sockets o
      → Waits i (accept respond p t o).0.sockets
  unfolding accept Passed
  accept-Waits p t none h k =
      if_both (λ (r : Tcp × List Segment). Waits i r.0.sockets) (has_rst p) h h
  accept-Waits p t (some (j, l)) h k =
      deliver-Waits p j _ (set-Waits l i j (opened p j t.now) (k i h).0 (λ e. absurd ((k i h).1 e)))

  segment_arrives-Waits :
      (p : Packet) (t : Tcp) (o : Option ℕ)
      → Waits i t.sockets
      → Waits i (segment_arrives respond p t o).0.sockets
  unfolding segment_arrives unmatched
  segment_arrives-Waits p t (some j) h = deliver-Waits p j t h
  segment_arrives-Waits p t none h =
      if_both Q (has_syn p) (go (find_socket (listens p.dst_port) t.sockets))
        (if_both Q (has_rst p) h h)
    where
      Q : Tcp × List Segment → Type 0
      Q r = Waits i r.0.sockets

      go : (o : Option ℕ) → Q (unmatched respond p t o)
      go none = if_both Q (has_rst p) h h
      go (some j) = accept-Waits p t (socket_alloc t.sockets) h (alloc-Passed t.sockets)

retransmit_all-Waits : (now i : ℕ) (l : List Socket) → Waits i l → Waits i (retransmit_all now l).0
unfolding retransmit_all retransmit
retransmit_all-Waits now i [] h = h
retransmit_all-Waits now zero (s ∷ l) h = rw (ap is_syn_received h) h
retransmit_all-Waits now (suc i) (s ∷ l) h = retransmit_all-Waits now i l h

-- A socket in TIME_WAIT stays there: no sequence of packets and timer ticks releases it.
pub Steps-Waits :
    (respond : List ℕ → Option (List ℕ)) (i : ℕ) (t u : Tcp)
    → Steps respond t u
    → Waits i t.sockets
    → Waits i u.sockets
unfolding tcp_receive tcp_periodic
Steps-Waits respond i t _ done h = h
Steps-Waits respond i t _ (packet ip bytes u r) h =
    let k = Steps-Waits respond i t u r h in
    if_both (λ (r : Tcp × List Segment). Waits i r.0.sockets) (ltb (length bytes) 20) k
      (segment_arrives-Waits respond i (parse_packet ip bytes) u _ k)
Steps-Waits respond i t _ (tick u r) h =
    retransmit_all-Waits _ i u.sockets (Steps-Waits respond i t u r h)
