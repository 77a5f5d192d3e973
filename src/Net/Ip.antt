-- ===== src/Net/Ip.antt =====
-- src/network/ip.c: Ethernet, IP and TCP framing, and the dispatch of a received packet.
-- What `e1000_send_packet` is called with is the list of the frames. The 16-bit fields that the code
-- reads and writes in the host's order have their low byte first.
use cllm.Common.{
  ℕ, zero, suc, ◌+◌, ◌-◌, ◌*◌, ◌/◌, ◌%◌, ◌^◌, Bool, true, false, not, ◌&&◌, ◌||◌, Option, none,
  some, List, [], ◌∷◌, ◌++◌, ltb, ◌==◌, if◌then◌else◌, length, take, drop,
}
use cllm.Net.Wire.{byte_at, be16_at, be32_at, be16_bytes, be32_bytes}
use cllm.Net.Tcp.{net_ip_addr, add32, Segment}
use cllm.Net.Arp.{Entry, Sent, our_mac, arp_resolve}
pub mod Checksum
pub mod Framing
pub mod Tests

-- The loop over 16-bit words, in a 32-bit sum, and the odd byte.
pub sum_words : ℕ → List ℕ → ℕ
sum_words sum [] = sum
sum_words sum (a ∷ []) = add32 sum a
sum_words sum (a ∷ b ∷ l) = sum_words (add32 sum (a + b * 256)) l

-- `while (sum >> 16)`; three rounds are enough for 32 bits.
pub fold : ℕ → ℕ → ℕ
fold zero sum = sum
fold (suc n) sum =
    let rest = fold n (sum % 2 ^ 16 + sum / 2 ^ 16) in if sum / 2 ^ 16 == 0 then sum else rest

-- `(uint16_t)~sum` behind the folding.
abbrev pub complement : ℕ → ℕ
complement sum = 2 ^ 16 - 1 - fold 3 sum

pub ip_checksum : List ℕ → ℕ
ip_checksum bytes = complement (sum_words 0 bytes)

-- A 16-bit field in the host's order.
abbrev pub le16_bytes : ℕ → List ℕ
le16_bytes x = x % 256 ∷ x / 256 % 256 ∷ []

abbrev pub net_buf_size : ℕ
net_buf_size = 2048

-- The frame handed to the card; `none` for the result -1.
unfoldable pub net_send_eth : Sent → Option (List ℕ)
net_send_eth s =
    if ltb (net_buf_size - 14) (length s.payload)
    then none
    else some (s.dst_mac ++ our_mac ++ be16_bytes s.ethertype ++ s.payload)

-- The header with a given checksum field.
abbrev pub ip_header : List ℕ → ℕ → ℕ → ℕ → ℕ → List ℕ
ip_header checksum proto id dst_ip payload_len =
    (0x45 ∷ 0 ∷ [])
    ++ be16_bytes (20 + payload_len)
    ++ be16_bytes id
    ++ (0 ∷ 0 ∷ 64 ∷ proto ∷ [])
    ++ checksum
    ++ be32_bytes net_ip_addr
    ++ be32_bytes dst_ip

-- `net_send_ip`'s packet.
pub ip_packet : ℕ → ℕ → ℕ → List ℕ → List ℕ
ip_packet proto id dst_ip payload =
    let blank = ip_header (0 ∷ 0 ∷ []) proto id dst_ip (length payload) in
    ip_header (le16_bytes (ip_checksum blank)) proto id dst_ip (length payload) ++ payload

-- The tables and counters that sending uses.
pub record Stack : Type 0 where
  pub table : List Entry
  pub ip_id : ℕ
  pub reply_id : ℕ

-- What the card is given for a call of `net_send_eth`.
abbrev pub transmitted : Option (List ℕ) → List (List ℕ)
transmitted none = []
transmitted (some frame) = frame ∷ []

abbrev pub transmit_all : List Sent → List (List ℕ)
transmit_all [] = []
transmit_all (s ∷ l) = transmitted (net_send_eth s) ++ transmit_all l

-- The end of `net_send_ip`, on the result of `arp_resolve`: the frames.
abbrev pub send_resolved : List ℕ → Option (List ℕ) × List Sent → List (List ℕ)
send_resolved packet (none, requests) = transmit_all requests
send_resolved packet (some mac, requests) =
    transmit_all (requests ++ record { ethertype = 0x0800; dst_mac = mac; payload = packet } ∷ [])

pub net_send_ip : ℕ → ℕ → List ℕ → Stack → Stack × List (List ℕ)
net_send_ip proto dst_ip payload st =
    let packet = ip_packet proto st.ip_id dst_ip payload in
    if ltb (net_buf_size - 14 - 20) (length payload) then (st, []) else (
      record st { ip_id = (st.ip_id + 1) % 2 ^ 16 },
      send_resolved packet (arp_resolve dst_ip st.table),
    )

abbrev pub pseudo_header : ℕ → ℕ → ℕ → List ℕ
pseudo_header src_ip dst_ip seg_len =
    be32_bytes src_ip ++ be32_bytes dst_ip ++ (0 ∷ 6 ∷ []) ++ be16_bytes seg_len

pub tcp_checksum : ℕ → ℕ → List ℕ → ℕ
tcp_checksum src_ip dst_ip seg =
    complement (sum_words (sum_words 0 (pseudo_header src_ip dst_ip (length seg))) seg)

abbrev pub tcp_header : List ℕ → Segment → List ℕ
tcp_header checksum s =
    be16_bytes s.src_port
    ++ be16_bytes s.dst_port
    ++ be32_bytes s.seq
    ++ be32_bytes s.ack
    ++ (0x50 ∷ s.flags ∷ [])
    ++ be16_bytes 4096
    ++ checksum
    ++ (0 ∷ 0 ∷ [])

pub tcp_segment : Segment → List ℕ
tcp_segment s =
    let blank = tcp_header (0 ∷ 0 ∷ []) s ++ s.payload in
    tcp_header (le16_bytes (tcp_checksum net_ip_addr s.dst_ip blank)) s ++ s.payload

pub net_send_tcp : Segment → Stack → Stack × List (List ℕ)
net_send_tcp s st =
    if ltb (net_buf_size - 14 - 20 - 20) (length s.payload)
    then (st, [])
    else net_send_ip 6 s.dst_ip (tcp_segment s) st

-- The echo reply to a request, its own checksum at bytes 2 and 3.
abbrev pub echo_payload : ℕ → List ℕ → List ℕ
echo_payload csum payload = (0 ∷ take 1 (drop 1 payload)) ++ le16_bytes csum ++ drop 4 payload

-- The frames of the reply to an echo request.
pub icmp_reply : ℕ → List ℕ → Stack → Stack × List (List ℕ)
icmp_reply src payload st =
    let body = echo_payload (ip_checksum (echo_payload 0 payload)) payload in
    (
      record st { reply_id = (st.reply_id + 1) % 2 ^ 16 },
      send_resolved (ip_packet 1 st.reply_id src body) (arp_resolve src st.table),
    )

-- What `ip_receive` does with a packet: nothing, `icmp_reply` to an echo request, or the call of
-- `tcp_receive` with `tcp_current_remote_ip` and the payload.
pub data Delivery : Type 0 where
  dropped : Delivery
  echo : ℕ → List ℕ → Delivery
  to_tcp : ℕ → List ℕ → Delivery

abbrev pub by_protocol : ℕ → ℕ → List ℕ → Delivery
by_protocol proto src payload =
    if proto == 1
    then (if not (ltb (length payload) 8) && byte_at payload 0 == 8
        then echo src payload
        else dropped)
    else if proto == 6
    then to_tcp src payload
    else dropped

pub ip_receive : List ℕ → Delivery
ip_receive packet =
    let ihl = byte_at packet 0 % 16 * 4 in
    if ltb (length packet) 20 || not (byte_at packet 0 / 16 == 4)
    then dropped
    else if ltb ihl 20 || ltb (length packet) ihl
    then dropped
    else if not (be32_at packet 16 == net_ip_addr)
    then dropped
    else by_protocol (byte_at packet 9) (be32_at packet 12) (drop ihl packet)
