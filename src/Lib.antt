-- ===== src/Lib.antt =====
-- A model of the tools of this repository, in antt, with the theorems that make them correct.
-- Each numbered folder of the repository is a program of its own. Two of them call another's
-- code: 004 uses dirname and basename of 005, and 009 holds its own copy of the logger of 002.
--
-- Common: shared names, Boolean tests, lists over the native numbers, byte strings, the result
--   type ℤ of a C int, size_t arithmetic modulo 2^64. A text is a list of bytes.
-- StdString: find_last_of and substr of std::string, as 005 calls them.
-- PathName: 005/parse_pathname.cpp, dirname and basename. `none` is an exception of substr.
--   Inner, Trailing and Total have the theorems, Cases the branches. Reference has dirname(3) and
--   basename(3), to compare with.
-- FileSystem: the system calls of 004 and 008 as a record over an unknown state, and Shows, which
--   says which tree a state shows at a path. Keys has paths as lists of names, Laws what is
--   assumed of the calls (no links, no ".." in a path, nobody else at work, and unlink and rmdir
--   do what they are called for, so that EACCES, EBUSY or EINVAL for "." do not come), and Memory
--   a file system in memory that meets the laws. Memory/Limited makes of any file system one whose
--   listings hold names only, and Link one that has a symbolic link to a directory more.
-- NodeSize: 008/main.cpp, get_node_size. The listing of a directory comes in the order of
--   alphasort. Total has the result on a tree, whose entries and paths it describes apart from the
--   code, Printed the relation between the result and the
--   printed lines.
-- Rmrf: 004/rmrf.cpp, rmrf. Names and Step have the loop and one call, Frame what stays as it
--   was, Tree the removal of a tree, Star the form "dir/*", Confined what is left alone
--   whatever there is, and Link what happens on a symbolic link. A listing is read whole when the
--   directory is opened.
-- ConfigFile: 001/read_cfg.c, read_cfg_file, with fgets and the conversions of its sscanf format.
--   Scanner has sscanf, Reader the loop, Bounds the buffers.
-- Log: 002/log.cpp and 009/log/log.cpp, which are the same but for when __log checks the size.
--   The globals and static locals are a record. A message is its formatted bytes. How each system
--   call of check_file_size ends is an argument, and so is how much of its buffer stdio writes
--   out. A call of __log is one step here. Signed overflow of the limit wraps around. Rotate, Loss,
--   Limit and Write have the theorems on one call, Settle and Once what a message leaves, and
--   History sequences of messages in either copy.
-- Printf: the digits of %d, %u and %x. Log/Macro has the macros of log.h.
-- Threads: 002/main.cpp, two threads on one log. A step is one call of __log; Reach has the
--   states that some order of the steps leads to, and Merge what the log then holds. Rotated has
--   the same where the size of the file matters. Mutex takes __log apart: the test of the level and
--   the time stamp before the mutex, and each use of stdio and the check of the size behind it.
--   There Owner has who is behind the mutex, Behind, Follows and Steps how the small steps follow
--   whole calls, Atomic what that gives, and Ends that the threads come to their end.
-- Curl: 003/curl_builder.cpp, a client of libcurl. What the network answers to a request, by
--   the number of the transfer, is a parameter. Session compares a sequence of calls with its
--   requests, Dump has the hex dump.
-- Echo: 009/main.cpp, the callbacks of the server as steps over the events that libuv reports.
--   uv_run does not return. Output has what is queued for the clients, Counts what the server
--   holds.
-- Quit: debug/debug.cpp of 010, 011 and 012, and the loop of their mains that waits for the flag.
-- Solicit: 012/main.cpp, over the results of its calls and the options of a new socket. Its packet
--   and its filter are bytes; Filter has what the ICMPv6 filter lets through.
-- Rtp: 013/main.c. Bit fields are laid out for machines of either byte order.
-- Resources: a heap of what a run holds, where a release of what is not held is a fault.
-- Picture: 006/pic_op.c and 006/main.c. A run is given by the results of its FFmpeg calls
--   (Outcomes), and its state is a heap of what it holds. The labels of the gotos are functions.
--   Release has pic_open_path, Data pic_open_data, Packets read_packet, Batch the loop behind the
--   return of main. Pixels are left out.
-- Tail: 011/main.cpp. A run is given how its waits and its reads from the watch return, or that
--   such a read blocks, and what other programs append meanwhile; its printed lines are
--   constructors. Reads and Rounds have the loops, Follow what a run prints and loses.
-- NetInterface: 010/net_interface/net_interface.cpp, over the results of the resolver and
--   sockets. Resolver has the lookups of names, Release what is printed and freed.
-- Split: 007/main.c, split and split_with_empty. What lies behind the copy in memory is an
--   argument.
--
-- Fuel bounds the depth of a recursion or the rounds of a loop, and `none` says that it ran out;
-- the theorems say how much is enough: the depth of a tree, or the length of a text.
--
-- Not modelled: libuv, whose headers 009 keeps as a copy and whose functions it only calls; most
-- messages on stderr; and the pixels and sockets themselves, which are behind calls of other
-- libraries.
pub mod Common
pub mod StdString
pub mod Resources
pub mod PathName
pub mod FileSystem
pub mod NodeSize
pub mod Rmrf
pub mod ConfigFile
pub mod Log
pub mod Picture
pub mod Split
pub mod Tail
pub mod NetInterface
pub mod Curl
pub mod Echo
pub mod Printf
pub mod Quit
pub mod Rtp
pub mod Solicit
pub mod Threads
