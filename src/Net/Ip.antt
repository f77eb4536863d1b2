-- ===== src/Net/Ip.antt =====
-- kernel/net/ip.c: IPv4 sending. Where a static buffer would be written past its end the result is
-- `none`.
use gecko_os.Prelude.{ℕ, ◌+◌, List, ◌∷◌, ◌++◌, Option, none, some, length, ltb, if◌then◌else◌}
use gecko_os.Net.Words.{le16, le32, bswap16, bswap32, Net, ether_type_ipv4, net_send_frame}
use gecko_os.Net.Checksum.{checksum}
use gecko_os.Net.Arp.{arp_request, arp_resolve}

abbrev pub ip_proto_icmp : ℕ
ip_proto_icmp = 1

abbrev pub ip_df : ℕ
ip_df = 0x4000

-- `ip_header_t` as `ip_send` fills it; `id` is the local that starts at 0 in each call.
unfoldable pub ip_header : (total_length protocol sum src_ip dst_ip : ℕ) → List ℕ
ip_header total_length protocol sum src_ip dst_ip =
    0x45 ∷ 0 ∷ le16 (bswap16 total_length)
    ++ le16 (bswap16 0)
    ++ le16 (bswap16 ip_df)
    ++ 64 ∷ protocol ∷ le16 sum
    ++ le32 (bswap32 src_ip)
    ++ le32 (bswap32 dst_ip)

-- The header with its checksum filled in.
unfoldable pub ip_packet : (protocol src_ip dst_ip : ℕ) (payload : List ℕ) → List ℕ
ip_packet protocol src_ip dst_ip payload =
    let blank = ip_header (20 + length payload) protocol 0 src_ip dst_ip in
    ip_header (20 + length payload) protocol (checksum blank) src_ip dst_ip ++ payload

-- The frame of `tx_buf[1514]`; a payload beyond it is an overrun.
unfoldable pub ip_send : (dst_ip protocol : ℕ) (payload : List ℕ) → Net → Option Net
ip_send dst_ip protocol payload n =
    if ltb 1514 (20 + length payload)
    then none
    else some (elim (arp_resolve dst_ip n) [
      | some dst_mac ↦
          net_send_frame dst_mac ether_type_ipv4 (ip_packet protocol n.net_ip dst_ip payload) n
      | none ↦ arp_request dst_ip n
    ])
