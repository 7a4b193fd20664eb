-- ===== src/Rtp.antt =====
-- 013/main.c: the part of an RTP header that the program sends. The struct has bit fields, laid out
-- by the two branches of the #if; a compiler fills a byte from its low bits on a little-endian
-- machine, and from its high bits on a big-endian one.
pub mod Wire
mod Tests
use auxiliary_tool.Common.{
  ℕ, ◌+◌, ◌-◌, ◌*◌, ◌/◌, ◌%◌, ◌^◌, Bool, true, false, not, List, [], ◌∷◌, ◌++◌, Bytes, codes, ℤ,
  pos, minus_one, Option, none, some, if◌then◌else◌, length,
}
use auxiliary_tool.Resources.{Heap, socket_fd, and_release}

-- The values of the fields; a field keeps the low bits of what is assigned to it.
pub record RtpProtocol : Type 0 where
  pub version : ℕ  -- 2 bits
  pub padding : ℕ  -- 1
  pub extension : ℕ  -- 1
  pub csrc_ct : ℕ  -- 4
  pub marker : ℕ  -- 1
  pub payload : ℕ  -- 7
  pub sequence_num : ℕ  -- 16

pub data ByteOrder : Type 0 where
  little_endian big_endian : ByteOrder

-- Bit fields as their widths and values, in the order of their declaration.
abbrev Fields : Type 0
Fields = List (ℕ × ℕ)

-- From the low bits of a byte up, or from the high bits down.
unfoldable pub from_low : Fields → ℕ
from_low [] = 0
from_low ((width, value) ∷ fields) = value % 2 ^ width + 2 ^ width * from_low fields

unfoldable pub from_high : ℕ → Fields → ℕ
from_high bits [] = 0
from_high bits ((width, value) ∷ fields) =
    value % 2 ^ width * 2 ^ (bits - width) + from_high (bits - width) fields

-- The first and the second byte, by the order of the fields in each branch.
unfoldable pub first_byte : ByteOrder → RtpProtocol → ℕ
first_byte little_endian r =
    from_low ((4, r.csrc_ct) ∷ (1, r.extension) ∷ (1, r.padding) ∷ (2, r.version) ∷ [])
first_byte big_endian r =
    from_high 8 ((2, r.version) ∷ (1, r.padding) ∷ (1, r.extension) ∷ (4, r.csrc_ct) ∷ [])

unfoldable pub second_byte : ByteOrder → RtpProtocol → ℕ
second_byte little_endian r = from_low ((7, r.payload) ∷ (1, r.marker) ∷ [])
second_byte big_endian r = from_high 8 ((1, r.marker) ∷ (7, r.payload) ∷ [])

-- A uint16_t in memory.
unfoldable pub stored16 : ByteOrder → ℕ → Bytes
stored16 little_endian n = n % 256 ∷ n / 256 % 256 ∷ []
stored16 big_endian n = n / 256 % 256 ∷ n % 256 ∷ []

-- htons swaps the bytes where the machine is little-endian.
unfoldable pub htons : ByteOrder → ℕ → ℕ
htons little_endian n = n % 256 * 256 + n / 256 % 256
htons big_endian n = n % 2 ^ 16

-- The struct in memory.
unfoldable pub rtp_bytes : ByteOrder → RtpProtocol → Bytes
rtp_bytes order r = first_byte order r ∷ second_byte order r ∷ stored16 order r.sequence_num

-- A datagram: the address that inet_aton reads, the port as it is stored, and the data.
pub record Datagram : Type 0 where
  pub address : Bytes
  pub port : Bytes
  pub payload : Bytes

-- `sent` is what sendto returns, `none` for -1.
unfoldable pub send_udp_data : ByteOrder → Bytes → ℕ → Bytes → Option ℕ → ℤ × Datagram
send_udp_data order addr port content sent = (
  elim sent [ none ↦ minus_one | some n ↦ pos n ],
  record { address = addr; port = stored16 order (htons order port); payload = content },
)

abbrev pub test_header : ByteOrder → RtpProtocol
test_header order = record {
  version = 2;
  padding = 0;
  extension = 0;
  csrc_ct = 0;
  marker = 0;
  payload = 96;
  sequence_num = htons order 30241;
}

-- main: what it returns, the datagram it sends, and what it holds at the end.
unfoldable pub main : ByteOrder → Bool → Option ℕ → Heap → ℤ × Option Datagram × Option Heap
main order socket_ok sent h =
    let (_, datagram) =
      send_udp_data order (codes "127.0.0.1") 980 (rtp_bytes order (test_header order)) sent in
    if not socket_ok
    then (minus_one, none, some h)
    else (pos 0, some datagram, and_release socket_fd (some (socket_fd ∷ h)))
