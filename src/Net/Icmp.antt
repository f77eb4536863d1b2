-- ===== src/Net/Icmp.antt =====
-- kernel/net/icmp.c: echo requests and replies.
use gecko_os.Prelude.{
  ℕ, ◌+◌, ◌-◌, ◌%◌, ◌^◌, Bool, true, false, List, [], ◌∷◌, ◌++◌, Option, none, some, ltb, ◌==◌,
  if◌then◌else◌,
}
use gecko_os.Net.Words.{Buffer, from, u16_at, le16, bswap16, bytes_of, Net}
use gecko_os.Net.Checksum.{checksum}
use gecko_os.Net.Ip.{ip_proto_icmp, ip_send}

abbrev pub icmp_echo_request : ℕ
icmp_echo_request = 8

abbrev pub icmp_echo_reply : ℕ
icmp_echo_reply = 0

unfoldable pub icmp_got_reply : Net → Bool
icmp_got_reply n = n.reply_received

unfoldable pub icmp_clear_reply : Net → Net
icmp_clear_reply n = record n { reply_received = false }

-- `icmp_header_t` with its payload; the identifier and the sequence number as they lie in memory.
unfoldable pub icmp_message : (type sum identifier sequence : ℕ) (payload : List ℕ) → List ℕ
icmp_message type sum identifier sequence payload =
    type ∷ 0 ∷ le16 sum ++ le16 identifier ++ le16 sequence ++ payload

unfoldable pub icmp_packet : (type identifier sequence : ℕ) (payload : List ℕ) → List ℕ
icmp_packet type identifier sequence payload =
    let blank = icmp_message type 0 identifier sequence payload in
    icmp_message type (checksum blank) identifier sequence payload

-- `uint16_t payload_len = len - sizeof(icmp_header_t)`, which wraps for a short packet.
abbrev pub echo_length : (len : ℕ) → ℕ
echo_length len = (len + 2 ^ 16 - 8) % 2 ^ 16

-- The reply is built in `reply_buf[1024]`; a payload beyond it is an overrun.
unfoldable pub icmp_handle : (src_ip : ℕ) → Buffer → (len : ℕ) → Net → Option Net
icmp_handle src_ip d len n =
    if d 0 == icmp_echo_request
    then (if ltb 1024 (8 + echo_length len)
        then none
        else ip_send src_ip ip_proto_icmp
            (icmp_packet icmp_echo_reply (u16_at d 4) (u16_at d 6)
              (bytes_of (from d 8) (echo_length len)))
            n)
    else if d 0 == icmp_echo_reply
    then some (record n { reply_received = true })
    else some n

-- "GeckoOS ping"
abbrev pub ping_message : List ℕ
ping_message =
    0x47 ∷ 0x65 ∷ 0x63 ∷ 0x6b ∷ 0x6f ∷ 0x4f ∷ 0x53 ∷ 0x20 ∷ 0x70 ∷ 0x69 ∷ 0x6e ∷ 0x67 ∷ []

unfoldable pub icmp_send_echo_request : (dst_ip id seq : ℕ) → Net → Option Net
icmp_send_echo_request dst_ip id seq n =
    ip_send dst_ip ip_proto_icmp
      (icmp_packet icmp_echo_request (bswap16 id) (bswap16 seq) ping_message) n
