-- ===== src/Net/Tcp/Invariant.antt =====
-- The invariant of the socket table, and that handling a segment keeps it.
use cllm.Common.{
  ℕ, zero, suc, ◌<◌, ◌≡◌, refl, List, [], ◌∷◌, arith, Option, none, some, length, length-append,
  length-set, All, All-set, All-get_or, set, get_or, not, ◌==◌, if_both, ap, subst, sym, ◌∙◌, take,
}
use cllm.Net.Tcp.{
  State, listen, syn_sent, syn_received, established, fin_wait_1, fin_wait_2, close_wait, closing,
  last_ack, Socket, Tcp, Packet, Reply, zeroed, http_port, rx_buf_size, store_payload, headers_end,
  serve, send_response, on_open, handle, touched, deliver, on_fin, has_syn, has_fin, has_ack, add32,
}

-- The states that the code ever enters.
abbrev pub IsUsed : State → Type 0
IsUsed syn_sent = ⊥
IsUsed closing = ⊥
IsUsed last_ack = ⊥
IsUsed _ = Unit

pub record IsSocket (s : Socket) : Type 0 where
  pub room : length s.rx < rx_buf_size
  pub used : IsUsed s.state

-- Four sockets, the first of them the HTTP listener.
abbrev pub IsTable : List Socket → Type 0
IsTable [] = ⊥
IsTable (s ∷ l) =
    (s.state ≡ listen) × (s.local_port ≡ http_port) × IsSocket s × All IsSocket l × (length l ≡ 3)

store_payload-room :
    (payload : List ℕ) (s : Socket)
    → length s.rx < rx_buf_size
    → length (store_payload payload s).rx < rx_buf_size
store_payload-room payload s h = ground (arith, length-append s.rx payload)

store_payload-state : (payload : List ℕ) (s : Socket) → (store_payload payload s).state ≡ s.state
store_payload-state payload s = ground arith

on_fin-IsSocket : (st : State) (s : Socket) → length s.rx < rx_buf_size → IsSocket (on_fin st s)
on_fin-IsSocket established s h = record { room = h; used = tt }
on_fin-IsSocket _ s h = record { room = omega arith; used = tt }

module _ (respond : List ℕ → Option (List ℕ)) where
  send_response-IsSocket : (o : Option (List ℕ)) (s : Socket) → IsSocket (send_response o s).0
  send_response-IsSocket none s = record { room = omega arith; used = tt }
  send_response-IsSocket (some body) s = record { room = omega arith; used = tt }

  serve-IsSocket : (s : Socket) (o : Option ℕ) → IsSocket s → IsSocket (serve respond s o).0
  unfolding serve
  serve-IsSocket s none h = if_both (λ (r : Reply). IsSocket r.0) (length s.rx == 0) h h
  serve-IsSocket s (some n) h = send_response-IsSocket (respond (take n s.rx)) s

  on_open-IsSocket : (p : Packet) (s : Socket) → IsSocket s → IsSocket (on_open respond p s).0
  unfolding on_open
  on_open-IsSocket p s h = if_both Keeps (has_syn p) h (
      if_both Keeps (has_fin p) (on_fin-IsSocket s.state _ h.room) (
        if_both Keeps (not (has_ack p)) acked (serve-IsSocket stored (headers_end stored.rx) fits)))
    where
      Keeps : Reply → Type 0
      Keeps r = IsSocket r.0

      acked : IsSocket (record s { ack = add32 p.seq (length p.payload) })
      acked = record { room = h.room; used = h.used }

      stored : Socket
      stored = store_payload p.payload (record s { ack = add32 p.seq (length p.payload) })

      fits : IsSocket stored
      fits = record {
        room =
            store_payload-room p.payload (record s { ack = add32 p.seq (length p.payload) }) h.room;
        used =
            rw (store_payload-state p.payload (record s { ack = add32 p.seq (length p.payload) }))
              h.used;
      }

  handle-IsSocket :
      (st : State) (p : Packet) (s : Socket)
      → s.state ≡ st
      → IsSocket s
      → IsSocket (handle respond st p s).0
  unfolding handle
  handle-IsSocket syn_received p s e h =
      if_both (λ (r : Reply). IsSocket r.0) (has_ack p) (record { room = h.room; used = tt })
        (record { room = h.room; used = h.used })
  handle-IsSocket established p s e h = on_open-IsSocket p s h
  handle-IsSocket close_wait p s e h = on_open-IsSocket p s h
  handle-IsSocket fin_wait_1 p s e h =
      if_both (λ (r : Reply). IsSocket r.0) (has_fin p) (record { room = h.room; used = tt })
        (if_both (λ (r : Reply). IsSocket r.0) (has_ack p) (record { room = h.room; used = tt }) h)
  handle-IsSocket fin_wait_2 p s e h =
      if_both (λ (r : Reply). IsSocket r.0) (has_fin p) (record { room = omega arith; used = tt }) h
  handle-IsSocket last_ack p s e h =
      if_both (λ (r : Reply). IsSocket r.0) (has_ack p) (record { room = omega arith; used = tt }) h
  handle-IsSocket _ p s e h = h

  pub deliver-IsTable :
      (p : Packet) (i : ℕ) (t : Tcp) → IsTable t.sockets → IsTable (deliver respond p i t).0.sockets
  unfolding deliver handle
  deliver-IsTable p i t h = go t.sockets i h
    where
      step : Socket → Socket
      step s = (handle respond (touched t.now p s).state p (touched t.now p s)).0

      step-IsSocket : (s : Socket) → IsSocket s → IsSocket (step s)
      step-IsSocket s k =
          handle-IsSocket s.state p (touched t.now p s) refl
            (record { room = k.room; used = k.used })

      go : (l : List Socket) (i : ℕ) → IsTable l → IsTable (set l i (step (get_or l i zeroed)))
      go [] i h = h
      go (s ∷ l) zero h =
          let same : step s ≡ touched t.now p s =
            ap (λ st. (handle respond st p (touched t.now p s)).0) h.0 in
          subst (λ u. IsTable (u ∷ l)) (sym same)
            (h.0, h.1, record { room = h.2.room; used = h.2.used }, h.3, h.4)
      go (s ∷ l) (suc i) h = (
        h.0,
        h.1,
        h.2,
        All-set IsSocket l i _ h.3 (
            step-IsSocket _
              (All-get_or IsSocket l i zeroed h.3 (record { room = omega arith; used = tt }))),
        length-set l i _ ∙ h.4,
      )
