-- ===== src/Picture/Data/Release.antt =====
-- What pic_open_data, pic_open_data_wrap and main give back, and where they go wrong.
use auxiliary_tool.Common.{
  ◌≡◌, refl, ◌⊎◌, true, false, not, ◌&&◌, none, some, List, [], ◌∷◌, ◌++◌, ℤ, pos, minus_one,
  if◌then◌else◌, arith, inl, inr,
}
use auxiliary_tool.Resources.{
  Heap, format_ctx, packet, frame, codec_ctx, pixels, release, avio_buffer, avio_ctx, content, file,
  and_release, release_if,
}
use auxiliary_tool.Picture.Outcomes.{Calls, is_negative, enomem}
use auxiliary_tool.Picture.{pic_demux}
use auxiliary_tool.Picture.Release.{
  first_failure, flag, convert_checks, decode_checks, demux_checks, read_checks,
  pix_convert-Releases, pic_open_path-Releases,
}
use auxiliary_tool.Picture.Data.{
  data_ending1, data_ending2, data_ending3, free_buffer, convert_data, decode_data, read_data,
  demux_data, pic_open_data, FileCalls, pic_open_data_wrap, main,
}

-- A failure of pix_convert is returned as -1.
abbrev pub data_checks : Calls → List ℤ
data_checks c = flag c.malloc ∷ flag (not (is_negative (first_failure (convert_checks c)))) ∷ []

convert_data-Releases :
    (c : Calls) (h : Heap)
    → convert_data c (codec_ctx ∷ frame ∷ packet ∷ avio_ctx ∷ avio_buffer ∷ format_ctx ∷ h)
      ≡ (first_failure (data_checks c), some h)
unfolding convert_data first_failure data_ending3 data_ending2 data_ending1 free_buffer release_if
    and_release release
convert_data-Releases c h =
    rw
      (pix_convert-Releases c
        (pixels ∷ codec_ctx ∷ frame ∷ packet ∷ avio_ctx ∷ avio_buffer ∷ format_ctx ∷ h))
      (ground arith)

decode_data-Releases :
    (c : Calls) (h : Heap)
    → is_negative (first_failure (decode_checks c)) ≡ false
    → decode_data c (frame ∷ packet ∷ avio_ctx ∷ avio_buffer ∷ format_ctx ∷ h)
      ≡ (first_failure (data_checks c), some h)
unfolding decode_data first_failure
decode_data-Releases c h ok = ground (arith, convert_data-Releases c h)

decode_data-unset :
    (c : Calls) (h : Heap)
    → is_negative (first_failure (decode_checks c)) ≡ true
    → (decode_data c h).1 ≡ none
unfolding decode_data first_failure data_ending3 data_ending2 data_ending1 free_buffer release_if
    and_release
decode_data-unset c h bad = ground arith

-- The checks of pic_open_data before the first jump to ending3, where avio_alloc_context succeeds.
abbrev pub front_checks : Calls → List ℤ
front_checks c =
    (if c.format_alloc then pos 0 else enomem)
    ∷ (if c.avio_malloc then pos 0 else enomem)
    ∷ (demux_checks c ++ read_checks c)

-- No jump to ending3 passes over the declaration of `buffer`.
abbrev pub SetsBuffer : Calls → Type 0
SetsBuffer c =
    (is_negative (first_failure (front_checks c)) ≡ true)
    ⊎ (is_negative (first_failure (decode_checks c)) ≡ false)

read_data-Releases :
    (c : Calls) (h : Heap)
    → (is_negative (first_failure (read_checks c)) ≡ true)
      ⊎ (is_negative (first_failure (decode_checks c)) ≡ false)
    → read_data c (avio_ctx ∷ avio_buffer ∷ format_ctx ∷ h)
      ≡ (first_failure (read_checks c ++ data_checks c), some h)
unfolding read_data first_failure data_ending2 data_ending1 release_if and_release release
read_data-Releases c h (inl bad) = ground arith
read_data-Releases c h (inr ok) = ground (arith, decode_data-Releases c h ok)

-- If avio_alloc_context succeeds and no jump passes over the declaration of `buffer`, pic_open_data
-- gives back all that it has acquired, each once, and returns the first failure, or 0.
pub pic_open_data-Releases :
    (c : Calls) (h : Heap)
    → c.avio_alloc ≡ true
    → SetsBuffer c
    → pic_open_data c h ≡ (first_failure (front_checks c ++ data_checks c), some h)
unfolding pic_open_data demux_data pic_demux first_failure data_ending1 release_if and_release
    release
pic_open_data-Releases c h avio (inl bad) = ground (arith, read_data-Releases c h)
pic_open_data-Releases c h avio (inr ok) = ground (arith, read_data-Releases c h (inr ok))

-- If all succeeds up to avcodec_find_decoder, and that or one of the next four calls fails,
-- pic_open_data frees a pointer that was never set.
pub pic_open_data-unset :
    (c : Calls) (h : Heap)
    → c.avio_alloc ≡ true
    → is_negative (first_failure (front_checks c)) ≡ false
    → is_negative (first_failure (decode_checks c)) ≡ true
    → (pic_open_data c h).1 ≡ none
unfolding pic_open_data demux_data pic_demux read_data first_failure
pic_open_data-unset c h avio front bad =
    ground
      (arith, decode_data-unset c (frame ∷ packet ∷ avio_ctx ∷ avio_buffer ∷ format_ctx ∷ h) bad)

-- If pic_open_data does not free a pointer that was never set and its avio_alloc_context does not
-- fail, pic_open_data_wrap gives back what it and pic_open_data have acquired, whichever other
-- calls fail. It returns -1 if one of its own calls fails, and otherwise nothing.
pub pic_open_data_wrap-Releases :
    (f : FileCalls) (c : Calls) (h : Heap)
    → c.avio_alloc ≡ true
    → SetsBuffer c
    → pic_open_data_wrap f c h
      ≡ (if f.stat_ok && (f.open_ok && f.read_whole) then none else some minus_one, some h)
unfolding pic_open_data_wrap release_if and_release release
pic_open_data_wrap-Releases f c h avio sets = ground (
  arith,
  pic_open_data-Releases c (file ∷ content ∷ h) avio sets,
  pic_open_data-Releases c (file ∷ h) avio sets,
)

-- If in the second part pic_open_data frees no pointer that was never set and its
-- avio_alloc_context does not fail, main returns 0 and gives back all that both parts have
-- acquired, whichever other calls fail.
pub main-Releases :
    (by_path : Calls) (f : FileCalls) (by_data : Calls) (h : Heap)
    → by_data.avio_alloc ≡ true
    → SetsBuffer by_data
    → main by_path f by_data h ≡ (pos 0, some h)
unfolding main
main-Releases by_path f by_data h avio sets =
    rw (pic_open_path-Releases by_path h, pic_open_data_wrap-Releases f by_data h avio sets) refl
