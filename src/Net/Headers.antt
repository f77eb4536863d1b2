-- ===== src/Net/Headers.antt =====
-- The checksums of what is sent, and the answer to an echo request.
use gecko_os.Prelude.{
  ℕ, ◌+◌, ◌*◌, ◌/◌, ◌%◌, ◌^◌, ◌≤◌, ◌<◌, ◌≡◌, ◌⊎◌, inl, inr, none, List, arith, length, take, drop,
  refl, ap, ◌∙◌,
}
use gecko_os.Net.Words.{Buffer, Net}
use gecko_os.Net.Checksum.{word_sum, checksum, AllBytes, checksum_verifies, checksum-lt}
use gecko_os.Net.Ip.{ip_header, ip_packet}
use gecko_os.Net.Icmp.{icmp_message, icmp_packet, icmp_handle, icmp_echo_request, echo_length}

byte : (x : ℕ) → x % 256 < 256
byte x = omega arith

le16-sum : (x : ℕ) → x < 2 ^ 16 → x % 256 + 256 * (x / 256 % 256) ≡ x
le16-sum x h = omega arith

-- The header's bytes are bytes, and its words add up to those of the header with a zero checksum and
-- the checksum.
ip_header-AllBytes :
    (total protocol sum src dst : ℕ)
    → protocol < 256
    → AllBytes (ip_header total protocol sum src dst)
unfolding ip_header
ip_header-AllBytes total protocol sum src dst p = (
  omega arith,
  (
    omega arith,
    (
      byte _,
      (
        byte _,
        (
          omega arith,
          (
            omega arith,
            (
              omega arith,
              (
                omega arith,
                (
                  omega arith,
                  (
                    p,
                    (
                      byte _,
                      (
                        byte _,
                        (
                          byte _,
                          (byte _, (byte _, (byte _, (byte _, (byte _, (byte _, (byte _, tt))))))),
                        ),
                      ),
                    ),
                  ),
                ),
              ),
            ),
          ),
        ),
      ),
    ),
  ),
)

length-ip_header :
    (total protocol sum src dst : ℕ) → length (ip_header total protocol sum src dst) ≤ 65535
unfolding ip_header
length-ip_header total protocol sum src dst = omega arith

word_sum-ip_header :
    (total protocol sum src dst : ℕ)
    → sum < 2 ^ 16
    → word_sum (ip_header total protocol sum src dst)
      ≡ word_sum (ip_header total protocol 0 src dst) + sum
unfolding ip_header word_sum
word_sum-ip_header total protocol sum src dst h = rw (le16-sum sum h) (omega arith)

-- The header and the payload of a packet.
ip_packet_parts :
    (protocol src dst : ℕ) (payload : List ℕ)
    → (take 20 (ip_packet protocol src dst payload)
        ≡ ip_header
            (20 + length payload)
            protocol
            (checksum (ip_header (20 + length payload) protocol 0 src dst))
            src
            dst)
      × (drop 20 (ip_packet protocol src dst payload) ≡ payload)
unfolding ip_packet ip_header
ip_packet_parts protocol src dst payload = (refl, refl)

-- A header with the checksum that is computed over its blank form.
checksum-ip_header :
    (total protocol src dst : ℕ)
    → protocol < 256
    → checksum (ip_header total protocol (checksum (ip_header total protocol 0 src dst)) src dst)
      ≡ 0
checksum-ip_header total protocol src dst h =
    let blank = ip_header total protocol 0 src dst in
    checksum_verifies blank (ip_header total protocol (checksum blank) src dst)
      (ip_header-AllBytes total protocol 0 src dst h)
      (ip_header-AllBytes total protocol (checksum blank) src dst h)
      (length-ip_header total protocol 0 src dst)
      (length-ip_header total protocol (checksum blank) src dst)
      (word_sum-ip_header total protocol (checksum blank) src dst (checksum-lt blank))

-- For a protocol number below 256, the packet that `ip_send` puts into a frame has a header of 20 bytes
-- that verifies: its checksum is 0, as a receiver computes it, and behind it stands the payload.
pub checksum-ip_packet :
    (protocol src dst : ℕ) (payload : List ℕ)
    → protocol < 256
    → (checksum (take 20 (ip_packet protocol src dst payload)) ≡ 0)
      × (drop 20 (ip_packet protocol src dst payload) ≡ payload)
checksum-ip_packet protocol src dst payload h =
    let (head, rest) = ip_packet_parts protocol src dst payload in
    (ap checksum head ∙ checksum-ip_header (20 + length payload) protocol src dst h, rest)

word_sum-icmp_message :
    (type sum id seq : ℕ) (payload : List ℕ)
    → sum < 2 ^ 16
    → word_sum (icmp_message type sum id seq payload)
      ≡ word_sum (icmp_message type 0 id seq payload) + sum
unfolding icmp_message word_sum
word_sum-icmp_message type sum id seq payload h = rw (le16-sum sum h) (omega arith)

icmp_message-AllBytes :
    (type sum id seq : ℕ) (payload : List ℕ)
    → type < 256
    → AllBytes payload
    → AllBytes (icmp_message type sum id seq payload)
unfolding icmp_message
icmp_message-AllBytes type sum id seq payload t ok =
    (t, (omega arith, (byte _, (byte _, (byte _, (byte _, (byte _, (byte _, ok))))))))

length-icmp_message :
    (type sum id seq : ℕ) (payload : List ℕ)
    → length (icmp_message type sum id seq payload) ≡ 8 + length payload
unfolding icmp_message
length-icmp_message type sum id seq payload = omega arith

-- For a type below 256 and a payload of at most 65527 bytes, the ICMP message that is sent verifies:
-- its checksum is 0, as a receiver computes it.
pub checksum-icmp_packet :
    (type id seq : ℕ) (payload : List ℕ)
    → type < 256
    → AllBytes payload
    → length payload ≤ 65527
    → checksum (icmp_packet type id seq payload) ≡ 0
unfolding icmp_packet
checksum-icmp_packet type id seq payload t ok h =
    let blank = icmp_message type 0 id seq payload in
    checksum_verifies blank (icmp_message type (checksum blank) id seq payload)
      (icmp_message-AllBytes type 0 id seq payload t ok)
      (icmp_message-AllBytes type (checksum blank) id seq payload t ok)
      (omega (arith, length-icmp_message type 0 id seq payload))
      (omega (arith, length-icmp_message type (checksum blank) id seq payload))
      (word_sum-icmp_message type (checksum blank) id seq payload (checksum-lt blank))

-- For an echo request whose length field leaves more than 1016 bytes of payload, or fewer than 8
-- bytes of message: the reply overruns `reply_buf`, whatever the state.
pub icmp_handle_overrun :
    (src_ip : ℕ) (d : Buffer) (len : ℕ) (n : Net)
    → d 0 ≡ icmp_echo_request
    → len < 2 ^ 16
    → (len < 8) ⊎ (1024 < len)
    → icmp_handle src_ip d len n ≡ none
unfolding icmp_handle
icmp_handle_overrun src_ip d len n request fits bad =
    let long : 1024 < 8 + echo_length len = elim bad [
      | inl h ↦ omega arith
      | inr h ↦ omega arith
    ] in
    ground (arith, request, long)
