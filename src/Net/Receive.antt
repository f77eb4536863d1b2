-- ===== src/Net/Receive.antt =====
-- `ip_handle` of kernel/net/ip.c and kernel/net/net.c: the way of a received frame.
use gecko_os.Prelude.{
  ℕ, ◌+◌, ◌-◌, ◌*◌, ◌/◌, ◌%◌, ◌^◌, Bool, ◌&&◌, ◌||◌, not, Option, some, ltb, ◌==◌, if◌then◌else◌,
}
use gecko_os.Net.Words.{
  Buffer, from, u16_at, u32_at, bswap16, bswap32, Mac, Net, ether_type_arp, ether_type_ipv4,
}
use gecko_os.Net.Arp.{arp_handle}
use gecko_os.Net.Ip.{ip_proto_icmp}
use gecko_os.Net.Icmp.{icmp_handle}

-- `total_len - hdr_len` in a `uint16_t`.
abbrev pub ip_payload_length : Buffer → ℕ
ip_payload_length d = (bswap16 (u16_at d 2) + 2 ^ 16 - d 0 % 16 * 4) % 2 ^ 16

-- `len` is not looked at, and the payload is taken behind 20 bytes whatever `ihl` says.
unfoldable pub ip_handle : Buffer → (len : ℕ) → Net → Option Net
ip_handle d len n =
    if not (d 0 / 16 % 16 == 4)
    then some n
    else if not (bswap32 (u32_at d 16) == n.net_ip)
    then some n
    else if d 9 == ip_proto_icmp
    then icmp_handle (bswap32 (u32_at d 12)) (from d 20) (ip_payload_length d) n
    else some n

-- The loop over the destination address.
unfoldable pub for_us : Buffer → Mac → Bool
for_us d m =
    (d 0 == m.m0 || d 0 == 0xff)
    && (d 1 == m.m1 || d 1 == 0xff)
    && (d 2 == m.m2 || d 2 == 0xff)
    && (d 3 == m.m3 || d 3 == 0xff)
    && (d 4 == m.m4 || d 4 == 0xff)
    && (d 5 == m.m5 || d 5 == 0xff)

unfoldable pub net_handle_packet : Buffer → (len : ℕ) → Net → Option Net
net_handle_packet d len n =
    if ltb len 14
    then some n
    else if not (for_us d n.net_mac)
    then some n
    else if bswap16 (u16_at d 12) == ether_type_arp
    then some (arp_handle (from d 14) (len - 14) n)
    else if bswap16 (u16_at d 12) == ether_type_ipv4
    then ip_handle (from d 14) (len - 14) n
    else some n

-- `IP(10, 0, 2, 15)`; the address is the card's.
unfoldable pub net_init : (card_mac : Mac) → Net → Net
net_init card_mac n = record n {
  net_ip = 10 * 2 ^ 24 + 0 * 2 ^ 16 + 2 * 2 ^ 8 + 15;
  net_mac = card_mac;
}
