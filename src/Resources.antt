-- ===== src/Resources.antt =====
-- What the programs 006, 010, 011 and 013 acquire and give back: memory, descriptors and the objects of
-- libraries, as a heap of what is held.
use auxiliary_tool.Common.{
  ℕ, ◌+◌, Bool, true, false, Option, none, some, List, [], ◌∷◌, ◌==◌, if◌then◌else◌,
}

pub data Resource : Type 0 where
  format_ctx sws_image sws_ctx packet frame codec_ctx pixels avio_buffer avio_ctx file content :
      Resource
  inotify_fd watch_fd epoll_fd log_fd socket_fd address_list name_list : Resource
  dir_entry : ℕ → Resource

abbrev number : Resource → ℕ
number format_ctx = 0
number sws_image = 1
number sws_ctx = 2
number packet = 3
number frame = 4
number codec_ctx = 5
number pixels = 6
number avio_buffer = 7
number avio_ctx = 8
number file = 9
number content = 10
number inotify_fd = 11
number watch_fd = 12
number epoll_fd = 13
number log_fd = 14
number socket_fd = 15
number address_list = 16
number name_list = 17
number (dir_entry n) = 18 + n

abbrev pub Heap : Type 0
Heap = List Resource

-- A release of what is not held is a fault.
unfoldable pub release : Resource → Heap → Option Heap
release r [] = none
release r (held ∷ h) =
    let rest = release r h in
    if number r == number held
    then some h
    else elim rest [ none ↦ none | some h' ↦ some (held ∷ h') ]

unfoldable pub and_release : Resource → Option Heap → Option Heap
and_release r none = none
and_release r (some h) = release r h

-- A release under a test of the pointer against NULL.
unfoldable pub release_if : Bool → Resource → Option Heap → Option Heap
release_if true r h = and_release r h
release_if false r h = h
