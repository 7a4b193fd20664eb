-- ===== src/Rtp/Wire.antt =====
-- The header on the wire, whatever the byte order of the machine.
use auxiliary_tool.Common.{
  ℕ, ◌+◌, ◌*◌, ◌/◌, ◌%◌, ◌<◌, ◌≡◌, refl, Option, none, some, [], ◌∷◌, Bytes, codes, true, pos,
  arith,
}
use auxiliary_tool.Resources.{Heap, release, and_release}
use auxiliary_tool.Rtp.{
  RtpProtocol, ByteOrder, little_endian, big_endian, from_low, from_high, first_byte, second_byte,
  stored16, htons, rtp_bytes, send_udp_data, main,
}

-- Each field has a value of its width.
pub record IsSmall (r : RtpProtocol) : Type 0 where
  pub version : r.version < 4
  pub padding : r.padding < 2
  pub extension : r.extension < 2
  pub csrc_ct : r.csrc_ct < 16
  pub marker : r.marker < 2
  pub payload : r.payload < 128
  pub sequence_num : r.sequence_num < 65536

-- RFC 3550: the fields from the highest bit down, the sequence number with its high byte first.
unfoldable pub wire : RtpProtocol → Bytes
wire r =
    (r.version * 64 + r.padding * 32 + r.extension * 16 + r.csrc_ct)
    ∷ (r.marker * 128 + r.payload)
    ∷ r.sequence_num / 256
    ∷ r.sequence_num % 256
    ∷ []

-- The two branches of the #if agree: on either machine a header of small fields, whose sequence
-- number has gone through htons, is stored as the bytes of RFC 3550.
pub rtp_bytes-wire :
    (order : ByteOrder) (r : RtpProtocol)
    → IsSmall r
    → rtp_bytes order (record r { sequence_num = htons order r.sequence_num }) ≡ wire r
unfolding rtp_bytes first_byte second_byte stored16 htons from_low from_high wire
rtp_bytes-wire little_endian r h = ground arith
rtp_bytes-wire big_endian r h = ground arith

-- What a receiver makes of four bytes.
unfoldable pub read_header : Bytes → Option RtpProtocol
read_header (a ∷ b ∷ c ∷ d ∷ []) = some record {
  version = a / 64;
  padding = a / 32 % 2;
  extension = a / 16 % 2;
  csrc_ct = a % 16;
  marker = b / 128;
  payload = b % 128;
  sequence_num = c * 256 + d;
}
read_header _ = none

-- A receiver that takes the bytes of RFC 3550 apart gets back the fields of a header of small
-- fields, from a machine of either byte order.
pub read_header-rtp_bytes :
    (order : ByteOrder) (r : RtpProtocol)
    → IsSmall r
    → read_header (rtp_bytes order (record r { sequence_num = htons order r.sequence_num }))
      ≡ some r
unfolding read_header wire
read_header-rtp_bytes order r h = rw (rtp_bytes-wire order r h) (ground arith)

-- When there is a socket, main sends the four bytes of version 2, payload 96 and sequence number
-- 30241 to port 980, on a machine of either byte order, returns 0 whatever sendto returns, and
-- gives the socket back.
pub main-wire :
    (order : ByteOrder) (sent : Option ℕ) (h : Heap)
    → main order true sent h ≡ (
      pos 0,
      some record {
        address = codes "127.0.0.1";
        port = 3 ∷ 212 ∷ [];
        payload = 0x80 ∷ 0x60 ∷ 0x76 ∷ 0x21 ∷ [];
      },
      some h,
    )
unfolding main send_udp_data rtp_bytes first_byte second_byte stored16 htons from_low from_high
    and_release release
main-wire little_endian sent h = refl
main-wire big_endian sent h = refl
