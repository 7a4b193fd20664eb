-- ===== src/Rtp/Tests.antt =====
-- A header with every field in use.
use auxiliary_tool.Common.{◌≡◌, [], ◌∷◌, arith}
use auxiliary_tool.Rtp.{RtpProtocol, little_endian, htons, rtp_bytes}
use auxiliary_tool.Rtp.Wire.{IsSmall, wire, rtp_bytes-wire}

abbrev full : RtpProtocol
full = record {
  version = 2;
  padding = 1;
  extension = 0;
  csrc_ct = 5;
  marker = 1;
  payload = 96;
  sequence_num = 30241;
}

full-IsSmall : IsSmall full
full-IsSmall = record {
  version = omega arith;
  padding = omega arith;
  extension = omega arith;
  csrc_ct = omega arith;
  marker = omega arith;
  payload = omega arith;
  sequence_num = omega arith;
}

rtp_bytes-wire_example :
    rtp_bytes little_endian (record full { sequence_num = htons little_endian 30241 })
    ≡ 0xa5 ∷ 0xe0 ∷ 0x76 ∷ 0x21 ∷ []
unfolding wire
rtp_bytes-wire_example = rtp_bytes-wire little_endian full full-IsSmall
