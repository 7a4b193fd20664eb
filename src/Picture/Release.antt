-- ===== src/Picture/Release.antt =====
-- pic_open_path gives back all that it holds, on every path, and returns the first failure.
use auxiliary_tool.Common.{
  ◌≡◌, Bool, some, List, [], ◌∷◌, ◌++◌, ℤ, pos, minus_one, if◌then◌else◌, arith,
}
use auxiliary_tool.Resources.{
  Heap, format_ctx, packet, frame, codec_ctx, pixels, release, and_release, release_if,
}
use auxiliary_tool.Picture.Outcomes.{Calls, is_negative}
use auxiliary_tool.Picture.{
  pic_demux, pix_convert, ending1, ending2, ending3, ending4, convert_path, decode_path, read_path,
  pic_open_path,
}

-- The first negative result of a sequence of calls, or 0.
unfoldable pub first_failure : List ℤ → ℤ
first_failure [] = pos 0
first_failure (r ∷ rs) = let rest = first_failure rs in if is_negative r then r else rest

-- A null pointer or a failed test counts as -1.
abbrev pub flag : Bool → ℤ
flag b = if b then pos 0 else minus_one

abbrev pub convert_checks : Calls → List ℤ
convert_checks c = c.image_alloc ∷ flag c.get_context ∷ c.copy_to_buffer ∷ []

abbrev pub decode_checks : Calls → List ℤ
decode_checks c =
    flag c.find_decoder ∷ flag c.alloc_context3 ∷ c.open2 ∷ c.send_packet ∷ c.receive_frame ∷ []

abbrev pub demux_checks : Calls → List ℤ
demux_checks c = c.open_input ∷ c.find_stream_info ∷ flag c.has_streams ∷ []

abbrev pub read_checks : Calls → List ℤ
read_checks c = flag c.has_format ∷ c.read_frame ∷ flag c.frame_alloc ∷ []

pub pix_convert-Releases :
    (c : Calls) (h : Heap) → pix_convert c h ≡ (first_failure (convert_checks c), some h)
unfolding pix_convert first_failure and_release release
pix_convert-Releases c h = ground arith

pub convert_path-Releases :
    (c : Calls) (h : Heap)
    → convert_path c (codec_ctx ∷ frame ∷ packet ∷ format_ctx ∷ h)
      ≡ (first_failure (flag c.malloc ∷ convert_checks c), some h)
unfolding convert_path first_failure ending4 ending3 ending2 ending1 release_if and_release release
convert_path-Releases c h =
    rw (pix_convert-Releases c (pixels ∷ codec_ctx ∷ frame ∷ packet ∷ format_ctx ∷ h))
      (ground arith)

pub decode_path-Releases :
    (c : Calls) (h : Heap)
    → decode_path c (frame ∷ packet ∷ format_ctx ∷ h)
      ≡ (first_failure (decode_checks c ++ (flag c.malloc ∷ convert_checks c)), some h)
unfolding decode_path first_failure ending3 ending2 ending1 release_if and_release release
decode_path-Releases c h = rw (convert_path-Releases c h) (ground arith)

pub read_path-Releases :
    (c : Calls) (h : Heap)
    → read_path c (format_ctx ∷ h) ≡ (
      first_failure (read_checks c ++ (decode_checks c ++ (flag c.malloc ∷ convert_checks c))),
      some h,
    )
unfolding read_path first_failure ending2 ending1 release_if and_release release
read_path-Releases c h = rw (decode_path-Releases c h) (ground arith)

-- The checks of pic_open_path, in order.
abbrev pub path_checks : Calls → List ℤ
path_checks c =
    demux_checks c ++ (read_checks c ++ (decode_checks c ++ (flag c.malloc ∷ convert_checks c)))

-- Whichever of its calls fail, pic_open_path gives back all that it has acquired, each once, and
-- returns the first failure, or 0.
pub pic_open_path-Releases :
    (c : Calls) (h : Heap) → pic_open_path c h ≡ (first_failure (path_checks c), some h)
unfolding pic_open_path pic_demux first_failure release_if and_release release
pic_open_path-Releases c h = ground (arith, read_path-Releases c h)
