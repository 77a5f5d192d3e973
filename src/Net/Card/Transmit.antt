-- ===== src/Net/Card/Transmit.antt =====
-- Every frame that the stack makes fits a transmit buffer.
use cllm.Common.{
  ℕ, ◌+◌, ◌%◌, ◌≤◌, ◌<◌, ◌≡◌, ◌≢◌, ◌⊎◌, inl, inr, refl, ap, ◌∙◌, Bool, true, false, some, List,
  ◌++◌, arith, Bool-cases, ltb, ltb→le, ◌==◌, ==→eq, ==→ne, get_or, get_or-set, length, length-set,
  take, drop, take-all, All, All-set, All-get_or, length-replicate, length-append, length-take,
  length-drop, take-append_length,
}
use cllm.Common.Maybe.{Ensures, ensures, some_inj}
use cllm.CString.Copy.{memcpy_lem}
use cllm.Net.Wire.{be16_bytes}
use cllm.Net.Arp.{Sent, our_mac}
use cllm.Net.Ip.{net_send_eth}
use cllm.Net.Card.{Card, TxDescriptor, blank_tx, queued, e1000_send_packet}

abbrev pub HasBuffer : TxDescriptor → Type 0
HasBuffer d = length d.buffer ≡ 2048

-- The transmit ring is whole, and the card is up.
pub record IsSending (c : Card) : Type 0 where
  pub ready : c.ready ≡ true
  pub ring : length c.tx ≡ 32
  pub tail : c.tx_tail < 32
  pub buffers : All HasBuffer c.tx

-- The descriptor at the old tail holds the frame, and the card is told so.
pub record Queued (frame : List ℕ) (c d : Card) : Type 0 where
  pub bytes : take (length frame) (get_or d.tx c.tx_tail blank_tx).buffer ≡ frame
  pub size : (get_or d.tx c.tx_tail blank_tx).length ≡ length frame
  pub register : d.tx_tail_register ≡ (c.tx_tail + 1) % 32
  pub whole : IsSending d

length-net_send_eth :
    (s : Sent) (frame : List ℕ)
    → length s.dst_mac ≡ 6
    → net_send_eth s ≡ some frame
    → length frame ≤ 2048
unfolding net_send_eth
length-net_send_eth s frame h e = elim (Bool-cases (ltb 2034 (length s.payload))) [
  | inl f ↦ let no = (rw f at e) in cc
  | inr f ↦
      let addresses = s.dst_mac ++ our_mac in
      let header = addresses ++ be16_bytes s.ethertype in
      let same : header ++ s.payload ≡ frame = some_inj (rw f at e) in
      omega (
        arith,
        ltb→le _ _ f,
        h,
        ap length same,
        length-append s.dst_mac our_mac,
        length-append addresses (be16_bytes s.ethertype),
        length-append header s.payload,
      )
]

-- A frame of `net_send_eth` is refused, with nothing changed, exactly if the ring is full up to the head
-- that the card reports; otherwise it is put whole into the descriptor at the tail, inside that
-- descriptor's buffer, and the card is told the new tail.
pub e1000_send_packet-Queued :
    (s : Sent) (frame : List ℕ) (tx_head : ℕ) (reported : Bool) (c : Card)
    → length s.dst_mac ≡ 6
    → net_send_eth s ≡ some frame
    → IsSending c
    → Ensures
        (λ r.
          (((c.tx_tail + 1) % 32 ≡ tx_head) × (r ≡ (false, c)))
          ⊎ (((c.tx_tail + 1) % 32 ≢ tx_head) × (r.0 ≡ reported) × Queued frame c r.1))
        (e1000_send_packet frame (length frame) tx_head reported c)
unfolding e1000_send_packet
e1000_send_packet-Queued s frame tx_head reported c h e k =
    elim (Bool-cases ((c.tx_tail + 1) % 32 == tx_head)) [
      | inl f ↦
          let full : e1000_send_packet frame (length frame) tx_head reported c ≡ some (false, c) =
            rw (k.ready, f) refl in
          rw full (ensures _ (inl (==→eq _ _ f, refl)))
      | inr f ↦
          let n = length frame in
          let most = length-net_send_eth s frame h e in
          let old = get_or c.tx c.tx_tail blank_tx in
          let size : length old.buffer ≡ 2048 =
            All-get_or HasBuffer c.tx c.tx_tail blank_tx k.buffers
              (length-replicate {A = ℕ} 2048 0) in
          let b = take n frame ++ drop n old.buffer in
          let copied = memcpy_lem old.buffer frame n (omega (arith, most, size)) (omega arith) in
          let all : take n frame ≡ frame = take-all n frame (omega arith) in
          let long : length b ≡ 2048 = omega (
            arith,
            length-append (take n frame) (drop n old.buffer),
            length-take n frame,
            length-drop n old.buffer,
            size,
            most,
          ) in
          let place =
            get_or-set c.tx c.tx_tail
              (record { length = n; command = 0x0B; status = 0; buffer = b }) blank_tx
              (let t = k.tail in let r = k.ring in omega (arith, t, r)) in
          let sent : e1000_send_packet frame n tx_head reported c ≡ some (reported, queued b n c) =
            rw (k.ready, f, copied) refl in
          rw sent (
            ensures _ (
              inr (
                ==→ne _ _ f,
                refl,
                record {
                  bytes =
                      ap (λ (d : TxDescriptor). take n d.buffer) place
                      ∙ ap (λ l. take n (l ++ drop n old.buffer)) all
                      ∙ take-append_length frame (drop n old.buffer);
                  size = ap (λ (d : TxDescriptor). d.length) place;
                  register = refl;
                  whole = record {
                    ready = k.ready;
                    ring = length-set c.tx c.tx_tail _ ∙ k.ring;
                    tail = omega arith;
                    buffers = All-set HasBuffer c.tx c.tx_tail _ k.buffers long;
                  };
                },
              )))
    ]
