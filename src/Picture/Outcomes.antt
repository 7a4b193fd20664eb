-- ===== src/Picture/Outcomes.antt =====
-- The results of the FFmpeg calls of 006/pic_op.c.
use auxiliary_tool.Common.{Bool, true, false, ℤ, pos, negsuc}

abbrev pub is_negative : ℤ → Bool
is_negative (pos n) = false
is_negative (negsuc n) = true

-- What the calls of one run return. A pointer is a Boolean that says whether it is not NULL, and so
-- are the tests of the pixel format and of nb_streams.
pub record Calls : Type 0 where
  pub format_alloc : Bool
  pub avio_malloc : Bool
  pub avio_alloc : Bool
  pub open_input : ℤ
  pub find_stream_info : ℤ
  pub has_streams : Bool
  pub has_format : Bool
  pub read_frame : ℤ
  pub frame_alloc : Bool
  pub find_decoder : Bool
  pub alloc_context3 : Bool
  pub open2 : ℤ
  pub send_packet : ℤ
  pub receive_frame : ℤ
  pub malloc : Bool
  pub image_alloc : ℤ
  pub get_context : Bool
  pub copy_to_buffer : ℤ

-- AVERROR(ENOMEM)
abbrev pub enomem : ℤ
enomem = negsuc 11
