-- ===== src/Net/Tests.antt =====
-- Runs of the network code and the theorems at concrete machines.
use gecko_os.Prelude.{
  take, drop, ◌≡◌, refl, ◌||◌, ◌&&◌, true, false, inr, none, some, [], ◌∷◌, arith, ◌==◌,
  if◌then◌else◌, length,
}
use gecko_os.Net.Words.{Mac, ArpEntry, Net, buffer_of}
use gecko_os.Net.Checksum.{checksum}
use gecko_os.Net.Arp.{find_mac, update_cache, arp_request, arp_resolve}
use gecko_os.Net.Arp.Cache.{knows, has_free, IsUnique, find_mac-update_cache, update_cache-IsUnique}
use gecko_os.Net.Exchange.{deliver, last_frame, arp_exchange}
use gecko_os.Net.Headers.{checksum-ip_packet, checksum-icmp_packet, icmp_handle_overrun}
use gecko_os.Net.Echo.{echo_exchange}
use gecko_os.Net.Ip.{ip_packet}
use gecko_os.Net.Icmp.{icmp_packet, icmp_handle, icmp_got_reply, icmp_send_echo_request}

abbrev mac_a : Mac
mac_a = record { m0 = 2; m1 = 0; m2 = 0; m3 = 0; m4 = 0; m5 = 1 }

abbrev mac_b : Mac
mac_b = record { m0 = 2; m1 = 0; m2 = 0; m3 = 0; m4 = 0; m5 = 2 }

abbrev free_entry : ArpEntry
free_entry = record { ip = 0; mac = mac_a; valid = false }

abbrev entry_a : ArpEntry
entry_a = record { ip = 167772675; mac = mac_a; valid = true }

abbrev entry_b : ArpEntry
entry_b = record { ip = 167772687; mac = mac_b; valid = true }

abbrev machine_a : Net
machine_a = record {
  net_ip = 167772675;
  net_mac = mac_a;
  arp_cache = free_entry ∷ [];
  reply_received = false;
  sent = [];
}

abbrev machine_b : Net
machine_b = record {
  net_ip = 167772687;
  net_mac = mac_b;
  arp_cache = free_entry ∷ [];
  reply_received = false;
  sent = [];
}

find_mac-update_cache_example :
    find_mac 167772687 (update_cache 167772687 mac_b (entry_a ∷ free_entry ∷ [])) ≡ (
      if 167772687 == 167772687
        && (knows 167772687 (entry_a ∷ free_entry ∷ []) || has_free (entry_a ∷ free_entry ∷ []))
      then some mac_b
      else find_mac 167772687 (entry_a ∷ free_entry ∷ []))
find_mac-update_cache_example =
    find_mac-update_cache 167772687 mac_b (entry_a ∷ free_entry ∷ []) 167772687

update_cache-IsUnique_example :
    IsUnique (update_cache 167772675 mac_b (entry_a ∷ entry_b ∷ []))
    × (length (update_cache 167772675 mac_b (entry_a ∷ entry_b ∷ [])) ≡ 2)
update_cache-IsUnique_example =
    update_cache-IsUnique 167772675 mac_b (entry_a ∷ entry_b ∷ []) (λ v. refl, (λ v. refl, tt))

arp_exchange_example :
    (a' : Net) × (b' : Net) × (deliver (last_frame (arp_request 167772687 machine_a)) machine_b
      ≡ some b')
    × (deliver (last_frame b') (arp_request 167772687 machine_a) ≡ some a')
    × (arp_resolve 167772687 a' ≡ some mac_b)
    × (arp_resolve 167772675 b' ≡ some mac_a)
    × (b'.sent ≡ last_frame b' ∷ [])
    × (a'.sent ≡ last_frame (arp_request 167772687 machine_a) ∷ [])
arp_exchange_example = arp_exchange machine_a machine_b (omega arith) (omega arith) refl refl

abbrev knowing_a : Net
knowing_a = record machine_a { arp_cache = entry_b ∷ [] }

abbrev knowing_b : Net
knowing_b = record machine_b { arp_cache = entry_a ∷ [] }

resolved_b : arp_resolve 167772687 knowing_a ≡ some mac_b
unfolding arp_resolve find_mac
resolved_b = refl

resolved_a : arp_resolve 167772675 knowing_b ≡ some mac_a
unfolding arp_resolve find_mac
resolved_a = refl

echo_exchange_example :
    (a' : Net) × (b' : Net) × (a'' : Net) × (icmp_send_echo_request 167772687 7 1 knowing_a
      ≡ some a')
    × (deliver (last_frame a') knowing_b ≡ some b')
    × (b'.sent ≡ last_frame b' ∷ [])
    × (deliver (last_frame b') a' ≡ some a'')
    × (icmp_got_reply a'' ≡ true)
echo_exchange_example =
    echo_exchange knowing_a knowing_b 7 1 (omega arith) (omega arith) resolved_b resolved_a

checksum-ip_packet_example :
    (checksum (take 20 (ip_packet 1 167772675 167772687 (8 ∷ 0 ∷ 7 ∷ []))) ≡ 0)
    × (drop 20 (ip_packet 1 167772675 167772687 (8 ∷ 0 ∷ 7 ∷ [])) ≡ 8 ∷ 0 ∷ 7 ∷ [])
checksum-ip_packet_example = checksum-ip_packet 1 167772675 167772687 (8 ∷ 0 ∷ 7 ∷ []) (omega arith)

checksum-icmp_packet_example : checksum (icmp_packet 8 7 1 (1 ∷ 2 ∷ 3 ∷ [])) ≡ 0
checksum-icmp_packet_example =
    checksum-icmp_packet 8 7 1 (1 ∷ 2 ∷ 3 ∷ []) (omega arith)
      (omega arith, (omega arith, (omega arith, tt))) (omega arith)

icmp_handle_overrun_test : icmp_handle 167772675 (buffer_of (8 ∷ [])) 1100 machine_b ≡ none
icmp_handle_overrun_test =
    icmp_handle_overrun 167772675 (buffer_of (8 ∷ [])) 1100 machine_b refl (omega arith)
      (inr (omega arith))
