-- ===== src/Net.antt =====
-- kernel/net: Ethernet, ARP, IPv4 and ICMP over a network card that is a parameter here: what is
-- handed to `e1000_send` is recorded in `sent`, the latest frame first.
-- A received buffer is a function from an offset to a byte, since the handlers read behind `len`
-- too. Fields are read as the processor does, low byte first, and swapped by `__builtin_bswap`.
pub mod Words
pub mod Checksum
pub mod Arp
pub mod Ip
pub mod Icmp
pub mod Receive
pub mod Exchange
pub mod Headers
pub mod Echo
mod Tests
