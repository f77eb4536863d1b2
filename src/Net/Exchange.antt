-- ===== src/Net/Exchange.antt =====
-- An ARP exchange between two machines, frame by frame.
use gecko_os.Prelude.{
  ℕ, ◌-◌, ◌^◌, ◌<◌, ◌≡◌, refl, ◌∙◌, ap, true, ◌||◌, Option, some, List, [], ◌∷◌, arith, length,
  ==-refl,
}
use gecko_os.Net.Words.{
  Buffer, from, u16_at, u32_at, bswap16, bswap32, buffer_of, u32_at-le32, bswap32-bswap32,
  bswap32-lt, Mac, Net, ether_type_arp, ethernet_frame, net_send_frame,
}
use gecko_os.Net.Arp.{
  arp_packet, arp_reply, arp_handle, arp_request, arp_resolve, update_cache, op_request, op_reply,
  mac_broadcast, mac_zero, packet_op, packet_sender_ip, packet_sender_mac, packet_target_ip,
}
use gecko_os.Net.Arp.Cache.{knows, has_free, find_mac-update_cache}
use gecko_os.Net.Receive.{net_handle_packet, for_us}

-- The frame of an ARP packet as the receiver's buffer.
abbrev received :
    (dst : Mac) (op : ℕ) (src : Mac) (src_ip : ℕ) (target : Mac) (target_ip : ℕ) → Buffer
received dst op src src_ip target target_ip =
    buffer_of (ethernet_frame dst src ether_type_arp (arp_packet op src src_ip target target_ip))

pub stored_ip : (ip : ℕ) → ip < 2 ^ 32 → (w : ℕ) → w ≡ bswap32 ip → bswap32 w ≡ ip
stored_ip ip h w e = ap (λ v. bswap32 v) e ∙ bswap32-bswap32 ip h

module _ (dst : Mac) (op : ℕ) (src : Mac) (src_ip : ℕ) (target : Mac) (target_ip : ℕ) where
  received-packet_sender_ip :
      src_ip < 2 ^ 32
      → packet_sender_ip (from (received dst op src src_ip target target_ip) 14) ≡ src_ip
  unfolding ethernet_frame arp_packet
  received-packet_sender_ip h =
      stored_ip src_ip h _ (u32_at-le32 (bswap32 src_ip) (bswap32-lt src_ip))

  received-sender_field :
      u32_at (from (received dst op src src_ip target target_ip) 14) 14 ≡ bswap32 src_ip
  unfolding ethernet_frame arp_packet
  received-sender_field = u32_at-le32 (bswap32 src_ip) (bswap32-lt src_ip)

  received-packet_target_ip :
      target_ip < 2 ^ 32
      → packet_target_ip (from (received dst op src src_ip target target_ip) 14) ≡ target_ip
  unfolding ethernet_frame arp_packet
  received-packet_target_ip h =
      stored_ip target_ip h _ (u32_at-le32 (bswap32 target_ip) (bswap32-lt target_ip))

  received-packet_sender_mac :
      packet_sender_mac (from (received dst op src src_ip target target_ip) 14) ≡ src
  unfolding ethernet_frame arp_packet
  received-packet_sender_mac = refl

  received-packet_op :
      op < 2 ^ 16 → packet_op (from (received dst op src src_ip target target_ip) 14) ≡ op
  unfolding ethernet_frame arp_packet
  received-packet_op h = omega arith

  received-type : bswap16 (u16_at (received dst op src src_ip target target_ip) 12) ≡ ether_type_arp
  unfolding ethernet_frame
  received-type = refl

  received-length :
      length (ethernet_frame dst src ether_type_arp (arp_packet op src src_ip target target_ip))
      ≡ 42
  unfolding ethernet_frame arp_packet
  received-length = refl

received-for_us :
    (op : ℕ) (src : Mac) (src_ip : ℕ) (target : Mac) (target_ip : ℕ) (m : Mac)
    → (for_us (received m op src src_ip target target_ip) m ≡ true)
      × (for_us (received mac_broadcast op src src_ip target target_ip) m ≡ true)
unfolding ethernet_frame for_us
received-for_us op src src_ip target target_ip m = (
  rw (==-refl m.m0, ==-refl m.m1, ==-refl m.m2, ==-refl m.m3, ==-refl m.m4, ==-refl m.m5) refl,
  ground arith,
)

arp_handle_request :
    (d : Buffer) (len : ℕ) (n : Net)
    → packet_op d ≡ op_request
    → packet_target_ip d ≡ n.net_ip
    → arp_handle d len n ≡ record (arp_reply d n) {
      arp_cache = update_cache (packet_sender_ip d) (packet_sender_mac d) n.arp_cache;
    }
unfolding arp_handle arp_reply net_send_frame
arp_handle_request d len n op to = ground (arith, op, to)

arp_handle_answer :
    (d : Buffer) (len : ℕ) (n : Net)
    → packet_op d ≡ op_reply
    → arp_handle d len n
      ≡ record n { arp_cache = update_cache (packet_sender_ip d) (packet_sender_mac d) n.arp_cache }
unfolding arp_handle
arp_handle_answer d len n op = ground (arith, op)

net_handle_packet_arp :
    (d : Buffer) (len : ℕ) (n : Net)
    → 14 < len
    → for_us d n.net_mac ≡ true
    → bswap16 (u16_at d 12) ≡ ether_type_arp
    → net_handle_packet d len n ≡ some (arp_handle (from d 14) (len - 14) n)
unfolding net_handle_packet
net_handle_packet_arp d len n long us ty = ground (arith, long, us, ty)

-- The frame sent last.
abbrev pub last_frame : Net → List ℕ
last_frame n = elim n.sent [ [] ↦ [] | f ∷ fs ↦ f ]

-- The frame handed to a machine by its card.
abbrev pub deliver : List ℕ → Net → Option Net
deliver f n = net_handle_packet (buffer_of f) (length f) n

-- An ARP packet of this driver, broadcast or sent to the receiver, reaches the ARP code.
deliver_arp :
    (dst : Mac) (op : ℕ) (src : Mac) (src_ip : ℕ) (target : Mac) (target_ip : ℕ) (n : Net)
    → for_us (received dst op src src_ip target target_ip) n.net_mac ≡ true
    → deliver (ethernet_frame dst src ether_type_arp (arp_packet op src src_ip target target_ip)) n
      ≡ some (arp_handle (from (received dst op src src_ip target target_ip) 14) 28 n)
deliver_arp dst op src src_ip target target_ip n us =
    rw (received-length dst op src src_ip target target_ip) (
      net_handle_packet_arp (received dst op src src_ip target target_ip) 42 n (omega arith) us
        (received-type dst op src src_ip target target_ip))

-- What the asked machine does with a request.
deliver_request :
    (src : Mac) (src_ip : ℕ) (n : Net)
    → src_ip < 2 ^ 32
    → n.net_ip < 2 ^ 32
    → deliver
        (ethernet_frame mac_broadcast src ether_type_arp
          (arp_packet op_request src src_ip mac_zero n.net_ip))
        n
      ≡ some (record n {
        sent =
            ethernet_frame src n.net_mac ether_type_arp
              (arp_packet op_reply n.net_mac n.net_ip src (bswap32 src_ip))
            ∷ n.sent;
        arp_cache = update_cache src_ip src n.arp_cache;
      })
unfolding arp_reply net_send_frame
deliver_request src src_ip n h h' =
    let d = from (received mac_broadcast op_request src src_ip mac_zero n.net_ip) 14 in
    let sender : packet_sender_ip d ≡ src_ip =
      received-packet_sender_ip mac_broadcast op_request src src_ip mac_zero n.net_ip h in
    let after : ℕ → ℕ → Mac → Net = λ w i m. record n {
      sent =
          ethernet_frame m n.net_mac ether_type_arp (arp_packet op_reply n.net_mac n.net_ip m w)
          ∷ n.sent;
      arp_cache = update_cache i m n.arp_cache;
    } in
    let raw : u32_at d 14 ≡ bswap32 src_ip =
      received-sender_field mac_broadcast op_request src src_ip mac_zero n.net_ip in
    let mac : packet_sender_mac d ≡ src =
      received-packet_sender_mac mac_broadcast op_request src src_ip mac_zero n.net_ip in
    deliver_arp mac_broadcast op_request src src_ip mac_zero n.net_ip n
      (received-for_us op_request src src_ip mac_zero n.net_ip n.net_mac).1
    ∙ ap some (
        arp_handle_request d 28 n
          (received-packet_op mac_broadcast op_request src src_ip mac_zero n.net_ip (omega arith))
          (received-packet_target_ip mac_broadcast op_request src src_ip mac_zero n.net_ip h')
        ∙ ap (λ w. after w (packet_sender_ip d) (packet_sender_mac d)) raw
        ∙ ap (λ i. after (bswap32 src_ip) i (packet_sender_mac d)) sender
        ∙ ap (λ m. after (bswap32 src_ip) src_ip m) mac)

-- What the asking machine does with a reply.
deliver_reply :
    (src : Mac) (src_ip : ℕ) (target_ip : ℕ) (n : Net)
    → src_ip < 2 ^ 32
    → deliver
        (ethernet_frame n.net_mac src ether_type_arp
          (arp_packet op_reply src src_ip n.net_mac target_ip))
        n
      ≡ some (record n { arp_cache = update_cache src_ip src n.arp_cache })
deliver_reply src src_ip target_ip n h =
    let d = from (received n.net_mac op_reply src src_ip n.net_mac target_ip) 14 in
    deliver_arp n.net_mac op_reply src src_ip n.net_mac target_ip n
      (received-for_us op_reply src src_ip n.net_mac target_ip n.net_mac).0
    ∙ ap some (
        arp_handle_answer d 28 n
          (received-packet_op n.net_mac op_reply src src_ip n.net_mac target_ip (omega arith))
        ∙ ap (λ m. record n { arp_cache = update_cache (packet_sender_ip d) m n.arp_cache })
            (received-packet_sender_mac n.net_mac op_reply src src_ip n.net_mac target_ip)
        ∙ ap (λ i. record n { arp_cache = update_cache i src n.arp_cache })
            (received-packet_sender_ip n.net_mac op_reply src src_ip n.net_mac target_ip h))

-- For two machines with addresses below 2^32, each with the other's address in its cache or an entry
-- free: the request that the first broadcasts makes the second answer it with one frame, that frame
-- makes the first resolve the second's address to its hardware address, and the second resolves the
-- first's. Neither sends anything more.
pub arp_exchange :
    (a b : Net)
    → a.net_ip < 2 ^ 32
    → b.net_ip < 2 ^ 32
    → (knows b.net_ip a.arp_cache || has_free a.arp_cache) ≡ true
    → (knows a.net_ip b.arp_cache || has_free b.arp_cache) ≡ true
    → (a' : Net) × (b' : Net) × (deliver (last_frame (arp_request b.net_ip a)) b ≡ some b')
      × (deliver (last_frame b') (arp_request b.net_ip a) ≡ some a')
      × (arp_resolve b.net_ip a' ≡ some b.net_mac)
      × (arp_resolve a.net_ip b' ≡ some a.net_mac)
      × (b'.sent ≡ last_frame b' ∷ b.sent)
      × (a'.sent ≡ last_frame (arp_request b.net_ip a) ∷ a.sent)
unfolding arp_request net_send_frame arp_resolve
arp_exchange a b ha hb room room' = (
  _,
  _,
  deliver_request a.net_mac a.net_ip b ha hb,
  deliver_reply b.net_mac b.net_ip (bswap32 a.net_ip) (arp_request b.net_ip a) hb,
  find_mac-update_cache b.net_ip b.net_mac a.arp_cache b.net_ip ∙ rw (==-refl b.net_ip, room) refl,
  find_mac-update_cache a.net_ip a.net_mac b.arp_cache a.net_ip ∙ rw (==-refl a.net_ip, room') refl,
  refl,
  refl,
)
