-- ===== src/Net/Arp.antt =====
-- src/network/arp.c: the table of hardware addresses.
-- A frame is the list of its bytes; what `net_send_eth` is called with is returned.
use cllm.Common.{
  ℕ, zero, suc, ◌+◌, ◌-◌, ◌≡◌, Bool, true, false, not, ◌&&◌, ◌||◌, Option, none, some, List, [],
  ◌∷◌, ◌++◌, ltb, ◌==◌, if◌then◌else◌, length, take, drop, set, get_or, replicate,
}
use cllm.Net.Wire.{be16_at, be32_at, be16_bytes, be32_bytes}
use cllm.Net.Tcp.{net_ip_addr}
pub mod Cache
pub mod Tests

-- `arp_entry_t`.
pub record Entry : Type 0 where
  pub ip : ℕ
  pub mac : List ℕ
  pub valid : Bool

abbrev pub blank_entry : Entry
blank_entry = record { ip = 0; mac = replicate 6 0; valid = false }

pub arp_init : List Entry
arp_init = replicate 4 blank_entry

-- The index of the first entry that passes a test.
pub find_entry : (Entry → Bool) → List Entry → Option ℕ
find_entry test [] = none
find_entry test (e ∷ l) =
    let later = find_entry test l in
    if test e then some 0 else elim later [ none ↦ none | some i ↦ some (suc i) ]

abbrev pub holds_ip : ℕ → Entry → Bool
holds_ip ip e = e.valid && e.ip == ip

abbrev pub arp_lookup : ℕ → List Entry → Option ℕ
arp_lookup ip table = find_entry (holds_ip ip) table

abbrev pub free_or_first : Option ℕ → ℕ
free_or_first none = 0
free_or_first (some i) = i

-- The entry that `arp_store` writes: the address's own, else a free one, else the first.
abbrev pub slot : List Entry → Option ℕ → ℕ
slot table (some i) = i
slot table none = free_or_first (find_entry (λ e. not e.valid) table)

pub arp_store : ℕ → List ℕ → List Entry → List Entry
arp_store ip mac table =
    set table (slot table (arp_lookup ip table)) (record { ip = ip; mac = mac; valid = true })

abbrev pub our_mac : List ℕ
our_mac = 0x52 ∷ 0x54 ∷ 0x00 ∷ 0x12 ∷ 0x34 ∷ 0x56 ∷ []

abbrev pub broadcast_mac : List ℕ
broadcast_mac = replicate 6 0xFF

-- One call of `net_send_eth`.
pub record Sent : Type 0 where
  pub ethertype : ℕ
  pub dst_mac : List ℕ
  pub payload : List ℕ

-- `arp_packet_t` with the operation, the target's hardware address and its IP address.
abbrev pub arp_packet : ℕ → List ℕ → ℕ → List ℕ
arp_packet oper tha tpa =
    be16_bytes 1
    ++ be16_bytes 0x0800
    ++ (6 ∷ 4 ∷ [])
    ++ be16_bytes oper
    ++ our_mac
    ++ be32_bytes net_ip_addr
    ++ tha
    ++ be32_bytes tpa

abbrev pub resolved : ℕ → List Entry → Option ℕ → Option (List ℕ) × List Sent
resolved ip table (some i) = (some (get_or table i blank_entry).mac, [])
resolved ip table none =
    let request = arp_packet 1 broadcast_mac ip in
    (none, record { ethertype = 0x0806; dst_mac = broadcast_mac; payload = request } ∷ [])

-- `none` stands for the result -1.
pub arp_resolve : ℕ → List Entry → Option (List ℕ) × List Sent
arp_resolve ip table = resolved ip table (arp_lookup ip table)

abbrev pub arp_reply : List ℕ → ℕ → Sent
arp_reply sha sender = record {
  ethertype = 0x0806;
  dst_mac = sha;
  payload = arp_packet 2 sha sender;
}

pub arp_receive : List ℕ → List Entry → List Entry × List Sent
arp_receive frame table =
    let sha = take 6 (drop 8 frame) in
    let sender = be32_at frame 14 in
    let learnt = arp_store sender sha table in
    if ltb (length frame) 28 || not (be16_at frame 0 == 1) || not (be16_at frame 2 == 0x0800)
    then (table, [])
    else if be16_at frame 6 == 1 && be32_at frame 24 == net_ip_addr
    then (learnt, arp_reply sha sender ∷ [])
    else (learnt, [])
