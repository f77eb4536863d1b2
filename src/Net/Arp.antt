-- ===== src/Net/Arp.antt =====
-- kernel/net/arp.c: the ARP cache, requests and replies.
pub mod Cache
use gecko_os.Prelude.{
  ℕ, zero, suc, ◌+◌, ◌/◌, ◌%◌, ◌*◌, Bool, true, false, not, ◌&&◌, ◌||◌, Option, none, some, List,
  [], ◌∷◌, ◌++◌, ◌==◌, if◌then◌else◌, map, replicate,
}
use gecko_os.Net.Words.{
  Buffer, u16_at, u32_at, le16, le32, bswap16, bswap32, Mac, mac_at, mac_bytes, ArpEntry, Net,
  ether_type_arp, net_send_frame,
}

abbrev pub arp_cache_size : ℕ
arp_cache_size = 16

abbrev pub hwtype_ether : ℕ
hwtype_ether = 1

abbrev pub protype_ipv4 : ℕ
protype_ipv4 = 0x0800

abbrev pub op_request : ℕ
op_request = 1

abbrev pub op_reply : ℕ
op_reply = 2

abbrev pub mac_broadcast : Mac
mac_broadcast = record { m0 = 0xff; m1 = 0xff; m2 = 0xff; m3 = 0xff; m4 = 0xff; m5 = 0xff }

abbrev pub mac_zero : Mac
mac_zero = record { m0 = 0; m1 = 0; m2 = 0; m3 = 0; m4 = 0; m5 = 0 }

-- `arp_packet_t`, the fields that `arp_handle` reads, in network byte order.
abbrev pub packet_op : Buffer → ℕ
packet_op d = bswap16 (u16_at d 6)

abbrev pub packet_sender_mac : Buffer → Mac
packet_sender_mac d = mac_at d 8

abbrev pub packet_sender_ip : Buffer → ℕ
packet_sender_ip d = bswap32 (u32_at d 14)

abbrev pub packet_target_ip : Buffer → ℕ
packet_target_ip d = bswap32 (u32_at d 24)

-- An `arp_packet_t` with the constant fields of this driver.
unfoldable pub arp_packet :
    (op : ℕ) (sender_mac : Mac) (sender_ip : ℕ) (target_mac : Mac) (target_ip : ℕ) → List ℕ
arp_packet op sender_mac sender_ip target_mac target_ip =
    le16 (bswap16 hwtype_ether)
    ++ le16 (bswap16 protype_ipv4)
    ++ 6 ∷ 4 ∷ le16 (bswap16 op)
    ++ mac_bytes sender_mac
    ++ le32 (bswap32 sender_ip)
    ++ mac_bytes target_mac
    ++ le32 (bswap32 target_ip)

abbrev pub invalidate : ArpEntry → ArpEntry
invalidate e = record e { valid = false }

-- `valid` is all that the source resets.
unfoldable pub arp_init : Net → Net
arp_init n = record n { arp_cache = map invalidate n.arp_cache }

abbrev pub holds : ℕ → ArpEntry → Bool
holds ip e = e.valid && e.ip == ip

-- The loop that updates the entry of `ip`; `none` where there is none.
unfoldable pub refresh : (ip : ℕ) → Mac → List ArpEntry → Option (List ArpEntry)
refresh ip mac [] = none
refresh ip mac (e ∷ es) =
    let rest : Option (List ArpEntry) = elim (refresh ip mac es) [
      | none ↦ none
      | some es' ↦ some (e ∷ es')
    ] in
    if holds ip e then some (record e { mac = mac } ∷ es) else rest

-- The loop that fills the first free entry; with none the cache stays as it is.
unfoldable pub fill : (ip : ℕ) → Mac → List ArpEntry → List ArpEntry
fill ip mac [] = []
fill ip mac (e ∷ es) =
    if not e.valid then record { ip = ip; mac = mac; valid = true } ∷ es else e ∷ fill ip mac es

unfoldable pub update_cache : (ip : ℕ) → Mac → List ArpEntry → List ArpEntry
update_cache ip mac cache = elim (refresh ip mac cache) [ some c ↦ c | none ↦ fill ip mac cache ]

-- `target_ip` is stored as the swapped field of the request, which was in network order already.
unfoldable pub arp_reply : Buffer → Net → Net
arp_reply d n =
    net_send_frame (packet_sender_mac d) ether_type_arp
      (arp_packet op_reply n.net_mac n.net_ip (packet_sender_mac d) (u32_at d 14)) n

unfoldable pub arp_handle : Buffer → (len : ℕ) → Net → Net
arp_handle d len n =
    let op = packet_op d in
    let n' = if op == op_request && packet_target_ip d == n.net_ip then arp_reply d n else n in
    if op == op_request || op == op_reply
    then record n' {
      arp_cache = update_cache (packet_sender_ip d) (packet_sender_mac d) n'.arp_cache;
    }
    else n'

unfoldable pub arp_request : (target_ip : ℕ) → Net → Net
arp_request target_ip n =
    net_send_frame mac_broadcast ether_type_arp
      (arp_packet op_request n.net_mac n.net_ip mac_zero target_ip) n

-- The address that is found goes through `out_mac`; `none` is the result 0.
unfoldable pub find_mac : (ip : ℕ) → List ArpEntry → Option Mac
find_mac ip [] = none
find_mac ip (e ∷ es) = if holds ip e then some e.mac else find_mac ip es

unfoldable pub arp_resolve : (ip : ℕ) → Net → Option Mac
arp_resolve ip n = find_mac ip n.arp_cache
