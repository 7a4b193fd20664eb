-- ===== src/Picture/Tests.antt =====
-- Runs of 006 where all calls succeed, and where one fails.
use auxiliary_tool.Common.{
  ◌≡◌, refl, true, false, none, some, [], ◌∷◌, Bytes, codes, pos, negsuc, minus_one, inr,
}
use auxiliary_tool.Resources.{content, release, and_release}
use auxiliary_tool.Picture.Outcomes.{Calls, is_negative}
use auxiliary_tool.Picture.{pic_open_path}
use auxiliary_tool.Picture.Release.{first_failure, pic_open_path-Releases}
use auxiliary_tool.Picture.Data.{FileCalls, pic_open_data, pic_open_data_wrap}
use auxiliary_tool.Printf.{digit, fixed, width_of, padded}
use auxiliary_tool.Picture.Batch.{Round, file_path, round_line, decode_database}
use auxiliary_tool.Picture.Batch.Release.{rounds_from, decode_database-Releases}
use auxiliary_tool.Picture.Data.Release.{
  SetsBuffer, pic_open_data-Releases, pic_open_data-unset, pic_open_data_wrap-Releases,
}
use auxiliary_tool.Picture.Packets.{
  read_packet, deliver, bytes_of, total, deliver_lem, write_raw_data,
}

abbrev smooth : Calls
smooth = record {
  format_alloc = true;
  avio_malloc = true;
  avio_alloc = true;
  open_input = pos 0;
  find_stream_info = pos 0;
  has_streams = true;
  has_format = true;
  read_frame = pos 0;
  frame_alloc = true;
  find_decoder = true;
  alloc_context3 = true;
  open2 = pos 0;
  send_packet = pos 0;
  receive_frame = pos 0;
  malloc = true;
  image_alloc = pos 4;
  get_context = true;
  copy_to_buffer = pos 4;
}

-- The decoder takes no packet, with AVERROR(EINVAL).
abbrev invalid : Calls
invalid = record smooth { send_packet = negsuc 21 }

-- The conversion fails.
abbrev unconverted : Calls
unconverted = record smooth { copy_to_buffer = negsuc 21 }

abbrev readable : FileCalls
readable = record { stat_ok = true; malloc_ok = true; open_ok = true; read_whole = true }

path_opens : pic_open_path smooth [] ≡ (pos 0, some [])
unfolding first_failure
path_opens = pic_open_path-Releases smooth []

writes : write_raw_data true 3 (codes "abc") [] ≡ (pos 0, codes "abc", some [])
unfolding write_raw_data and_release release
writes = refl

packets : deliver (2 ∷ 4 ∷ 4 ∷ []) (codes "abc") ≡ (codes "abc", [])
unfolding deliver read_packet bytes_of
packets = refl

pic_open_path-Releases_example :
    pic_open_path invalid (content ∷ []) ≡ (negsuc 21, some (content ∷ []))
unfolding first_failure
pic_open_path-Releases_example = pic_open_path-Releases invalid (content ∷ [])

decodes : is_negative (first_failure (pos 0 ∷ pos 0 ∷ pos 0 ∷ pos 0 ∷ pos 0 ∷ [])) ≡ false
unfolding first_failure
decodes = refl

pic_open_data-Releases_example :
    pic_open_data unconverted (content ∷ []) ≡ (minus_one, some (content ∷ []))
unfolding first_failure
pic_open_data-Releases_example =
    pic_open_data-Releases unconverted (content ∷ []) refl (inr decodes)

pic_open_data-unset_example : (pic_open_data invalid (content ∷ [])).1 ≡ none
unfolding first_failure
pic_open_data-unset_example = pic_open_data-unset invalid (content ∷ []) refl refl refl

unconverted_from_file : pic_open_data_wrap readable unconverted [] ≡ (none, some [])
unconverted_from_file = pic_open_data_wrap-Releases readable unconverted [] refl (inr decodes)

two_reads : deliver (2 ∷ 4 ∷ []) (codes "abcde") ≡ (codes "abcde", [])
unfolding total
two_reads = deliver_lem (2 ∷ 4 ∷ []) (codes "abcde")

abbrev named : Bytes → Round
named name = record { d_name = name; file_calls = readable; calls = smooth }

all_sound : SetsBuffer smooth
unfolding first_failure
all_sound = inr refl

-- Both rounds open the same file, whatever their entries are.
batch_of_two : decode_database (some (named (codes "a.jpg") ∷ named (codes "b.jpg") ∷ [])) [] ≡ (
  pos 0,
  (codes "realjpg.jpg", codes "-------------------0:database_raw/b.jpg-----------------\n")
      ∷ (codes "realjpg.jpg", codes "-------------------1:database_raw/a.jpg-----------------\n")
      ∷ [],
  some [],
)
unfolding rounds_from round_line file_path padded width_of fixed digit
batch_of_two =
    decode_database-Releases (named (codes "a.jpg") ∷ named (codes "b.jpg") ∷ []) []
      ((refl, all_sound), ((refl, all_sound), tt))
