-- ===== src/Net/Echo.antt =====
-- An echo exchange between two machines, frame by frame.
use gecko_os.Prelude.{
  ℕ, ◌+◌, ◌*◌, ◌/◌, ◌%◌, ◌^◌, ◌≤◌, ◌<◌, ◌≡◌, refl, ◌∙◌, ap, true, none, some, List, ◌∷◌, arith,
  length, le→ltb_false, ==-refl,
}
use gecko_os.Net.Words.{
  from, bswap16, bswap32, bswap16-lt, bytes_of, buffer_of, Mac, Net, ether_type_ipv4,
  ethernet_frame, net_send_frame, u32_at-le32, bswap32-lt,
}
use gecko_os.Net.Arp.{arp_resolve, arp_request}
use gecko_os.Net.Ip.{ip_header, ip_packet, ip_send, ip_proto_icmp}
use gecko_os.Net.Icmp.{
  icmp_message, icmp_packet, icmp_handle, icmp_echo_reply, icmp_echo_request,
  icmp_send_echo_request, icmp_got_reply, ping_message,
}
use gecko_os.Net.Receive.{for_us, ip_handle, net_handle_packet}
use gecko_os.Net.Exchange.{deliver, last_frame, stored_ip}

-- The frame of an echo message of this driver.
abbrev echo_frame : (dst src : Mac) (src_ip dst_ip type id seq : ℕ) → List ℕ
echo_frame dst src src_ip dst_ip type id seq =
    ethernet_frame dst src ether_type_ipv4
      (ip_packet ip_proto_icmp src_ip dst_ip (icmp_packet type id seq ping_message))

-- It reaches the ICMP code of the machine that has its addresses.
deliver_echo :
    (src : Mac) (src_ip type id seq : ℕ) (n : Net)
    → src_ip < 2 ^ 32
    → n.net_ip < 2 ^ 32
    → deliver (echo_frame n.net_mac src src_ip n.net_ip type id seq) n
      ≡ icmp_handle src_ip
          (from (from (buffer_of (echo_frame n.net_mac src src_ip n.net_ip type id seq)) 14) 20)
          20
          n
unfolding ethernet_frame ip_packet ip_header icmp_packet icmp_message net_handle_packet for_us
    ip_handle
deliver_echo src src_ip type id seq n h h' =
    let m = n.net_mac in
    let to : bswap32 _ ≡ n.net_ip =
      stored_ip n.net_ip h' _ (u32_at-le32 (bswap32 n.net_ip) (bswap32-lt n.net_ip)) in
    let source : bswap32 _ ≡ src_ip =
      stored_ip src_ip h _ (u32_at-le32 (bswap32 src_ip) (bswap32-lt src_ip)) in
    rw (==-refl m.m0, ==-refl m.m1, ==-refl m.m2, ==-refl m.m3, ==-refl m.m4, ==-refl m.m5)
      (rw (to, source, ==-refl n.net_ip) refl)

ip_send_resolved :
    (dst_ip protocol : ℕ) (payload : List ℕ) (n : Net) (m : Mac)
    → 20 + length payload ≤ 1514
    → arp_resolve dst_ip n ≡ some m
    → ip_send dst_ip protocol payload n
      ≡ some (record n {
        sent =
            ethernet_frame m n.net_mac ether_type_ipv4 (ip_packet protocol n.net_ip dst_ip payload)
            ∷ n.sent;
      })
unfolding ip_send net_send_frame
ip_send_resolved dst_ip protocol payload n m h found =
    rw (le→ltb_false (20 + length payload) 1514 h) (
      ap
        (λ r. some (elim r [
          | some dst_mac ↦
              net_send_frame dst_mac ether_type_ipv4 (ip_packet protocol n.net_ip dst_ip payload) n
          | none ↦ arp_request dst_ip n
        ]))
        found)

length-icmp_packet : (type id seq : ℕ) → length (icmp_packet type id seq ping_message) ≡ 20
unfolding icmp_packet icmp_message
length-icmp_packet type id seq = refl

le16-u16 : (x : ℕ) → x < 2 ^ 16 → x % 256 + 256 * (x / 256 % 256) ≡ x
le16-u16 x h = omega arith

icmp_handle_request :
    (dst src : Mac) (src_ip dst_ip id seq : ℕ) (n : Net) (m : Mac)
    → id < 2 ^ 16
    → seq < 2 ^ 16
    → arp_resolve src_ip n ≡ some m
    → icmp_handle src_ip
        (from (from (buffer_of (echo_frame dst src src_ip dst_ip icmp_echo_request id seq)) 14) 20)
        20
        n
      ≡ some (record n {
        sent = echo_frame m n.net_mac n.net_ip src_ip icmp_echo_reply id seq ∷ n.sent;
      })
unfolding ethernet_frame ip_packet ip_header icmp_packet icmp_message icmp_handle bytes_of
icmp_handle_request dst src src_ip dst_ip id seq n m hi hs found =
    rw (le16-u16 id hi, le16-u16 seq hs)
      (ip_send_resolved src_ip ip_proto_icmp (icmp_packet icmp_echo_reply id seq ping_message) n m
        (omega (arith, length-icmp_packet icmp_echo_reply id seq)) found)

icmp_handle_reply :
    (dst src : Mac) (src_ip dst_ip id seq : ℕ) (n : Net)
    → icmp_handle src_ip
        (from (from (buffer_of (echo_frame dst src src_ip dst_ip icmp_echo_reply id seq)) 14) 20)
        20
        n
      ≡ some (record n { reply_received = true })
unfolding ethernet_frame ip_packet ip_header icmp_packet icmp_message icmp_handle
icmp_handle_reply dst src src_ip dst_ip id seq n = refl

-- For two machines with addresses below 2^32 that resolve each other's address: the echo request of
-- the first is sent, the second answers it with one frame, and that frame makes the first note the
-- reply. No buffer is overrun.
pub echo_exchange :
    (a b : Net) (id seq : ℕ)
    → a.net_ip < 2 ^ 32
    → b.net_ip < 2 ^ 32
    → arp_resolve b.net_ip a ≡ some b.net_mac
    → arp_resolve a.net_ip b ≡ some a.net_mac
    → (a' : Net) × (b' : Net) × (a'' : Net) × (icmp_send_echo_request b.net_ip id seq a ≡ some a')
      × (deliver (last_frame a') b ≡ some b')
      × (b'.sent ≡ last_frame b' ∷ b.sent)
      × (deliver (last_frame b') a' ≡ some a'')
      × (icmp_got_reply a'' ≡ true)
unfolding icmp_send_echo_request icmp_got_reply
echo_exchange a b id seq ha hb ab ba =
    let i = bswap16 id in
    let s = bswap16 seq in
    let a' = record a {
      sent = echo_frame b.net_mac a.net_mac a.net_ip b.net_ip icmp_echo_request i s ∷ a.sent;
    } in
    (
      a',
      _,
      _,
      ip_send_resolved b.net_ip ip_proto_icmp (icmp_packet icmp_echo_request i s ping_message) a
          b.net_mac (omega (arith, length-icmp_packet icmp_echo_request i s)) ab,
      deliver_echo a.net_mac a.net_ip icmp_echo_request i s b ha hb
          ∙ icmp_handle_request b.net_mac a.net_mac a.net_ip b.net_ip i s b a.net_mac
              (bswap16-lt id) (bswap16-lt seq) ba,
      refl,
      deliver_echo b.net_mac b.net_ip icmp_echo_reply i s a' hb ha
          ∙ icmp_handle_reply a.net_mac b.net_mac b.net_ip a.net_ip i s a',
      refl,
    )
