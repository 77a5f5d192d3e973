-- ===== src/Net.antt =====
-- src/network: the TCP/IP stack.
pub mod Wire
pub mod Tcp
pub mod Arp
pub mod Ip
pub mod Card
pub mod Loop
