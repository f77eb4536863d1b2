-- ===== src/Net/Words.antt =====
-- Bytes, words in memory order and the state that the network files share.
use gecko_os.Prelude.{
  ℕ, zero, suc, ◌+◌, ◌*◌, ◌/◌, ◌%◌, ◌^◌, ◌<◌, ◌≡◌, Bool, List, [], ◌∷◌, ◌++◌, arith, get_or,
}

abbrev pub Buffer : Type 0
Buffer = ℕ → ℕ

-- `buffer + offset`
abbrev pub from : Buffer → ℕ → Buffer
from d offset i = d (offset + i)

abbrev pub u16_at : Buffer → ℕ → ℕ
u16_at d i = d i + 256 * d (i + 1)

abbrev pub u32_at : Buffer → ℕ → ℕ
u32_at d i = d i + 256 * d (i + 1) + 65536 * d (i + 2) + 16777216 * d (i + 3)

abbrev pub le16 : ℕ → List ℕ
le16 x = (x % 256) ∷ (x / 256 % 256) ∷ []

abbrev pub le32 : ℕ → List ℕ
le32 x = (x % 256) ∷ (x / 256 % 256) ∷ (x / 65536 % 256) ∷ (x / 16777216 % 256) ∷ []

abbrev pub bswap16 : ℕ → ℕ
bswap16 x = x % 256 * 256 + x / 256 % 256

abbrev pub bswap32 : ℕ → ℕ
bswap32 x = x % 256 * 16777216 + x / 256 % 256 * 65536 + x / 65536 % 256 * 256 + x / 16777216 % 256

-- `uint8_t mac[6]`
pub record Mac : Type 0 where
  pub m0 : ℕ
  pub m1 : ℕ
  pub m2 : ℕ
  pub m3 : ℕ
  pub m4 : ℕ
  pub m5 : ℕ

abbrev pub mac_at : Buffer → ℕ → Mac
mac_at d i = record {
  m0 = d i;
  m1 = d (i + 1);
  m2 = d (i + 2);
  m3 = d (i + 3);
  m4 = d (i + 4);
  m5 = d (i + 5);
}

abbrev pub mac_bytes : Mac → List ℕ
mac_bytes m = m.m0 ∷ m.m1 ∷ m.m2 ∷ m.m3 ∷ m.m4 ∷ m.m5 ∷ []

-- The buffer that holds some bytes, with zeros behind them.
abbrev pub buffer_of : List ℕ → Buffer
buffer_of bytes i = get_or bytes i 0

-- The first `n` bytes of a buffer, as `memcpy` copies them.
unfoldable pub bytes_of : Buffer → ℕ → List ℕ
bytes_of d zero = []
bytes_of d (suc n) = d 0 ∷ bytes_of (from d 1) n

-- `arp_entry_t`
pub record ArpEntry : Type 0 where
  pub ip : ℕ
  pub mac : Mac
  pub valid : Bool

pub record Net : Type 0 where
  pub net_ip : ℕ
  pub net_mac : Mac
  pub arp_cache : List ArpEntry
  pub reply_received : Bool
  pub sent : List (List ℕ)

abbrev pub ether_type_arp : ℕ
ether_type_arp = 0x0806

abbrev pub ether_type_ipv4 : ℕ
ether_type_ipv4 = 0x0800

-- `eth_frame_t`: destination, source, type, payload.
unfoldable pub ethernet_frame : Mac → Mac → (ether_type : ℕ) → (payload : List ℕ) → List ℕ
ethernet_frame dst src ether_type payload =
    mac_bytes dst ++ mac_bytes src ++ le16 (bswap16 ether_type) ++ payload

-- `net_send_frame`, down to the call of `e1000_send`.
unfoldable pub net_send_frame : Mac → (ether_type : ℕ) → (payload : List ℕ) → Net → Net
net_send_frame dst ether_type payload n = record n {
  sent = ethernet_frame dst n.net_mac ether_type payload ∷ n.sent;
}

-- Every byte is below 256.
pub record IsMac (m : Mac) : Type 0 where
  pub b0 : m.m0 < 256
  pub b1 : m.m1 < 256
  pub b2 : m.m2 < 256
  pub b3 : m.m3 < 256
  pub b4 : m.m4 < 256
  pub b5 : m.m5 < 256

-- A word stored low byte first is read back.
pub u32_at-le32 :
    (x : ℕ)
    → x < 2 ^ 32
    → x % 256 + 256 * (x / 256 % 256) + 65536 * (x / 65536 % 256) + 16777216 * (x / 16777216 % 256)
      ≡ x
u32_at-le32 x h = omega arith

pub bswap32-bswap32 : (x : ℕ) → x < 2 ^ 32 → bswap32 (bswap32 x) ≡ x
bswap32-bswap32 x h = omega arith

pub bswap32-lt : (x : ℕ) → bswap32 x < 2 ^ 32
bswap32-lt x = omega arith

pub bswap16-lt : (x : ℕ) → bswap16 x < 2 ^ 16
bswap16-lt x = omega arith

pub bswap16-bswap16 : (x : ℕ) → x < 2 ^ 16 → bswap16 (bswap16 x) ≡ x
bswap16-bswap16 x h = omega arith
