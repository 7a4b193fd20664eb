-- ===== src/Picture/Data.antt =====
-- pic_open_data of 006/pic_op.c, which decodes from memory, and pic_open_data_wrap of 006/main.c.
pub mod Release
use auxiliary_tool.Common.{
  Bytes, codes, bytes_eq, ℕ, length, drop, ltb, ◌-◌, ◌||◌, Bool, true, false, not, Option, none,
  some, ◌∷◌, ℤ, pos, minus_one, if◌then◌else◌,
}
use auxiliary_tool.Resources.{
  Heap, format_ctx, packet, frame, codec_ctx, pixels, avio_buffer, avio_ctx, content, file,
  and_release, release_if,
}
use auxiliary_tool.Picture.Outcomes.{Calls, is_negative, enomem}
use auxiliary_tool.Picture.{pic_open_path, pic_demux, pix_convert}

-- `buffer`, which is declared behind the first jumps to ending3.
pub data Pointer : Type 0 where
  unset null held : Pointer

-- free(buffer): of a pointer that was never set it is a fault.
unfoldable pub free_buffer : Pointer → Option Heap → Option Heap
free_buffer unset h = none
free_buffer null h = h
free_buffer held h = and_release pixels h

-- The labels of pic_open_data, over the variables that they test.
unfoldable pub data_ending1 : ℤ → Bool → Bool → Option Heap → ℤ × Option Heap
data_ending1 ret has_ctx has_avio h =
    let closed = release_if has_avio avio_buffer (release_if has_ctx format_ctx h) in
    (if is_negative ret then ret else pos 0, release_if has_avio avio_ctx closed)

unfoldable pub data_ending2 : ℤ → Bool → Option Heap → ℤ × Option Heap
data_ending2 ret has_frame h =
    data_ending1 ret true true (release_if has_frame frame (and_release packet h))

unfoldable pub data_ending3 : ℤ → Pointer → Bool → Option Heap → ℤ × Option Heap
data_ending3 ret buffer has_codec h =
    data_ending2 ret true (release_if has_codec codec_ctx (free_buffer buffer h))

-- pic_open_data from malloc on, and from avcodec_find_decoder on.
unfoldable pub convert_data : Calls → Heap → ℤ × Option Heap
convert_data c h =
    if not c.malloc
    then data_ending3 minus_one null true (some h)
    else let (ret, h') = pix_convert c (pixels ∷ h) in
      data_ending3 (if is_negative ret then minus_one else ret) held true h'

unfoldable pub decode_data : Calls → Heap → ℤ × Option Heap
decode_data c h =
    if not c.find_decoder
    then data_ending3 minus_one unset false (some h)
    else if not c.alloc_context3
    then data_ending3 minus_one unset false (some h)
    else let opened = codec_ctx ∷ h in
      if is_negative c.open2
      then data_ending3 c.open2 unset true (some opened)
      else if is_negative c.send_packet
      then data_ending3 c.send_packet unset true (some opened)
      else if is_negative c.receive_frame
      then data_ending3 c.receive_frame unset true (some opened)
      else convert_data c opened

-- pic_open_data behind pic_demux.
unfoldable pub read_data : Calls → Heap → ℤ × Option Heap
read_data c h =
    if not c.has_format
    then data_ending1 minus_one true true (some h)
    else if is_negative c.read_frame
    then data_ending1 c.read_frame true true (some h)
    else if not c.frame_alloc
    then data_ending2 minus_one false (some (packet ∷ h))
    else decode_data c (frame ∷ packet ∷ h)

unfoldable pub demux_data : Calls → Heap → ℤ × Option Heap
demux_data c h =
    let (ret, has_ctx, h') = pic_demux c true h in
    if is_negative ret
    then data_ending1 ret has_ctx true h'
    else elim h' [ none ↦ (ret, none) | some opened ↦ read_data c opened ]

unfoldable pub pic_open_data : Calls → Heap → ℤ × Option Heap
pic_open_data c h =
    if not c.format_alloc
    then data_ending1 enomem false false (some h)
    else if not c.avio_malloc
    then data_ending1 enomem true false (some (format_ctx ∷ h))
    else if not c.avio_alloc
    then data_ending1 enomem true false (some (avio_buffer ∷ format_ctx ∷ h))
    else demux_data c (avio_ctx ∷ avio_buffer ∷ format_ctx ∷ h)

-- The calls of pic_open_data_wrap. `read_whole` says that read returns the size of the file.
pub record FileCalls : Type 0 where
  pub stat_ok : Bool
  pub malloc_ok : Bool
  pub open_ok : Bool
  pub read_whole : Bool

-- What is returned is `none` where the function ends without a return statement.
unfoldable pub pic_open_data_wrap : FileCalls → Calls → Heap → Option ℤ × Option Heap
pic_open_data_wrap f c h =
    let allocated = if f.malloc_ok then content ∷ h else h in
    let opened = file ∷ allocated in
    if not f.stat_ok
    then (some minus_one, some h)
    else if not f.open_ok
    then (some minus_one, release_if f.malloc_ok content (some allocated))
    else if not f.read_whole
    then (some minus_one, and_release file (release_if f.malloc_ok content (some opened)))
    else (none, and_release file (release_if f.malloc_ok content (pic_open_data c opened).1))

-- The last bytes of a name, `none` where the pointer lies before its start.
unfoldable pub last_bytes : ℕ → Bytes → Option Bytes
last_bytes n s = if ltb (length s) n then none else some (drop (length s - n) s)

-- filterpictype of 006/main.c.
unfoldable pub filterpictype : Bytes → Option ℕ
filterpictype d_name = elim (last_bytes 4 d_name) [
  | none ↦ none
  | some four ↦ elim (last_bytes 5 d_name) [
    | none ↦ if bytes_eq four (codes ".jpg") then some 1 else none
    | some five ↦
        some (if bytes_eq four (codes ".jpg") || bytes_eq five (codes ".jpeg") then 1 else 0)
  ]
]

-- main of 006/main.c, whose loop over a directory stands behind a return.
unfoldable pub main : Calls → FileCalls → Calls → Heap → ℤ × Option Heap
main by_path f by_data h = (
  pos 0,
  elim (pic_open_path by_path h).1 [ none ↦ none | some h' ↦ (pic_open_data_wrap f by_data h').1 ],
)
