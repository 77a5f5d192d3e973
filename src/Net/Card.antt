-- ===== src/Net/Card.antt =====
-- The descriptor rings of src/network/e1000.c: sending and receiving one packet.
-- What the card does to a ring in between is not modelled; the head of the transmit ring, as it is read
-- from the register, and whether the card reports the descriptor within the thousand polls are inputs.
-- `none` is a copy outside a buffer.
use cllm.Common.{
  ℕ, ◌+◌, ◌%◌, Bool, true, false, not, Option, some, none, List, [], ltb, ◌==◌, if◌then◌else◌, set,
  get_or, length, replicate,
}
use cllm.Common.Maybe.{◌>>=◌}
use cllm.CString.{memcpy}
use cllm.Net.Wire.{bit_set}
pub mod Ring
pub mod Receive
pub mod Transmit
pub mod Tests

abbrev pub ring_size : ℕ
ring_size = 32

abbrev pub card_buffer_size : ℕ
card_buffer_size = 2048

-- `e1000_rx_desc_t` with its buffer.
pub record RxDescriptor : Type 0 where
  pub length : ℕ
  pub status : ℕ
  pub buffer : List ℕ

-- `e1000_tx_desc_t` with its buffer.
pub record TxDescriptor : Type 0 where
  pub length : ℕ
  pub command : ℕ
  pub status : ℕ
  pub buffer : List ℕ

abbrev pub blank_rx : RxDescriptor
blank_rx = record { length = 0; status = 0; buffer = replicate card_buffer_size 0 }

abbrev pub blank_tx : TxDescriptor
blank_tx = record { length = 0; command = 0; status = 0; buffer = replicate card_buffer_size 0 }

-- `e1000_base` is set (`ready`), the rings, the places in them, and the last value that was written to
-- each tail register.
pub record Card : Type 0 where
  pub ready : Bool
  pub rx : List RxDescriptor
  pub rx_head : ℕ
  pub rx_tail_register : ℕ
  pub tx : List TxDescriptor
  pub tx_tail : ℕ
  pub tx_tail_register : ℕ

-- The rings as `e1000_init` leaves them at boot; `tx_tail` and the buffers are static data that are still 0.
abbrev pub e1000_rings : Card
e1000_rings = record {
  ready = true;
  rx = replicate ring_size blank_rx;
  rx_head = 0;
  rx_tail_register = 31;
  tx = replicate ring_size blank_tx;
  tx_tail = 0;
  tx_tail_register = 0;
}

abbrev pub rx_current : Card → RxDescriptor
rx_current c = get_or c.rx c.rx_head blank_rx

abbrev pub received_length : RxDescriptor → ℕ
received_length d = if ltb card_buffer_size d.length then card_buffer_size else d.length

-- The descriptor goes back to the card.
abbrev pub handed_back : Card → Card
handed_back c = record c {
  rx = set c.rx c.rx_head (record (rx_current c) { status = 0 });
  rx_head = (c.rx_head + 1) % ring_size;
  rx_tail_register = ((c.rx_head + 1) % ring_size + 31) % ring_size;
}

-- The buffer and `*length` for the result 0, `none` for -1; and the card.
abbrev pub Received : Type 0
Received = Option (List ℕ × ℕ) × Card

pub e1000_receive_packet : List ℕ → Card → Option Received
e1000_receive_packet buffer c =
    let d = rx_current c in
    if not c.ready
    then some (none, c)
    else if not (bit_set d.status 0)
    then some (none, c)
    else (memcpy buffer d.buffer (received_length d) >>= λ b.
        some (some (b, received_length d), handed_back c))

-- The descriptor behind `tx_tail`, filled.
abbrev pub queued : List ℕ → ℕ → Card → Card
queued buffer length c = record c {
  tx = set c.tx c.tx_tail (record { length = length; command = 0x0B; status = 0; buffer = buffer });
  tx_tail = (c.tx_tail + 1) % ring_size;
  tx_tail_register = (c.tx_tail + 1) % ring_size;
}

-- The result 0 is `true`.
pub e1000_send_packet : List ℕ → ℕ → ℕ → Bool → Card → Option (Bool × Card)
e1000_send_packet bytes length tx_head reported c =
    if not c.ready
    then some (false, c)
    else if (c.tx_tail + 1) % ring_size == tx_head
    then some (false, c)
    else (memcpy (get_or c.tx c.tx_tail blank_tx).buffer bytes length >>= λ b.
        some (reported, queued b length c))
