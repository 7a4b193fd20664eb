-- ===== src/Picture.antt =====
-- 006/pic_op.c and 006/main.c: a picture is demuxed, decoded and converted with FFmpeg. A run is the results of its calls, with what it holds on the heap; each label of a goto
-- is a function of the variables that it tests. A heap `none` is a fault.
pub mod Outcomes
pub mod Data
pub mod Batch
pub mod Packets
pub mod Release
mod Tests
use auxiliary_tool.Common.{
  Bool, true, false, not, Option, none, some, ◌∷◌, ℤ, pos, minus_one, if◌then◌else◌,
}
use auxiliary_tool.Resources.{
  Heap, format_ctx, sws_image, sws_ctx, packet, frame, codec_ctx, pixels, avio_buffer, avio_ctx,
  content, file, and_release, release_if,
}
use auxiliary_tool.Picture.Outcomes.{Calls, is_negative, enomem}

-- What is returned, and whether *fmt_ctx is not NULL. `given` says that the caller has allocated the
-- context, which avformat_open_input frees when it fails.
unfoldable pub pic_demux : Calls → Bool → Heap → ℤ × Bool × Option Heap
pic_demux c given h =
    let opened = if given then h else format_ctx ∷ h in
    if is_negative c.open_input
    then (c.open_input, false, release_if given format_ctx (some h))
    else if is_negative c.find_stream_info
    then (c.find_stream_info, false, and_release format_ctx (some opened))
    else if not c.has_streams
    then (minus_one, false, and_release format_ctx (some opened))
    else (pos 0, true, some opened)

unfoldable pub pix_convert : Calls → Heap → ℤ × Option Heap
pix_convert c h =
    if is_negative c.image_alloc
    then (c.image_alloc, some h)
    else if not c.get_context
    then (minus_one, and_release sws_image (some (sws_image ∷ h)))
    else let freed = and_release sws_ctx (some (sws_ctx ∷ sws_image ∷ h)) in
      if is_negative c.copy_to_buffer
      then (c.copy_to_buffer, and_release sws_image freed)
      else (pos 0, and_release sws_image freed)

-- The labels of pic_open_path. Its variables ifmt_ctx and packet are set wherever they are used.
unfoldable pub ending1 : ℤ → Option Heap → ℤ × Option Heap
ending1 ret h = (ret, release_if true format_ctx h)

unfoldable pub ending2 : ℤ → Bool → Option Heap → ℤ × Option Heap
ending2 ret has_frame h = ending1 ret (release_if has_frame frame (and_release packet h))

unfoldable pub ending3 : ℤ → Bool → Option Heap → ℤ × Option Heap
ending3 ret has_codec h = ending2 ret true (release_if has_codec codec_ctx h)

unfoldable pub ending4 : ℤ → Option Heap → ℤ × Option Heap
ending4 ret h = ending3 ret true (and_release pixels h)

-- pic_open_path from malloc on, and from avcodec_find_decoder on.
unfoldable pub convert_path : Calls → Heap → ℤ × Option Heap
convert_path c h =
    if not c.malloc
    then ending3 minus_one true (some h)
    else let (ret, h') = pix_convert c (pixels ∷ h) in ending4 ret h'

unfoldable pub decode_path : Calls → Heap → ℤ × Option Heap
decode_path c h =
    if not c.find_decoder
    then ending3 minus_one false (some h)
    else if not c.alloc_context3
    then ending3 minus_one false (some h)
    else let opened = codec_ctx ∷ h in
      if is_negative c.open2
      then ending3 c.open2 true (some opened)
      else if is_negative c.send_packet
      then ending3 c.send_packet true (some opened)
      else if is_negative c.receive_frame
      then ending3 c.receive_frame true (some opened)
      else convert_path c opened

-- pic_open_path behind pic_demux.
unfoldable pub read_path : Calls → Heap → ℤ × Option Heap
read_path c h =
    if not c.has_format
    then ending1 minus_one (some h)
    else if is_negative c.read_frame
    then ending1 c.read_frame (some h)
    else if not c.frame_alloc
    then ending2 minus_one false (some (packet ∷ h))
    else decode_path c (frame ∷ packet ∷ h)

unfoldable pub pic_open_path : Calls → Heap → ℤ × Option Heap
pic_open_path c h =
    let (ret, _, h') = pic_demux c false h in
    if is_negative ret
    then (ret, h')
    else elim h' [ none ↦ (ret, none) | some held ↦ read_path c held ]
