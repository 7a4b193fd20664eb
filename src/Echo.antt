-- ===== src/Echo.antt =====
-- 009/main.cpp: the server that greets a client and sends back what it reads, as the callbacks that
-- libuv makes. A write queues its bytes for the client in the order of the calls; whether they arrive
-- is the network's, and the status that on_write is given is only printed. Clients have the numbers
-- in which they are accepted. Memory is given whenever the size is not negative.
pub mod Output
pub mod Counts
mod Tests
use auxiliary_tool.Common.{
  ℕ, zero, suc, ◌+◌, ◌-◌, Bool, true, false, not, Option, ℤ, pos, minus_one, none, some, List, [],
  ◌∷◌, ◌++◌, Bytes, codes, ◌==◌, if◌then◌else◌, length, drop,
}

abbrev pub home_page : Bytes
home_page =
    codes
      "\nWelcome to interactable log system\n\n * Documentation:  https://github.com/yinghao-liu/auxiliary_tool/tree/master/009\n\n"

-- `in_flight` counts the write requests that on_write has not freed, `lost` those that uv_write has
-- refused, `buffers` the blocks of `write_buf`, and `abandoned` the client handles that are not
-- accepted.
pub record Server : Type 0 where
  pub clients : ℕ
  pub queued : ℕ → Bytes
  pub in_flight : ℕ
  pub lost : ℕ
  pub buffers : ℕ
  pub abandoned : ℕ

abbrev pub started : Server
started = record {
  clients = 0;
  queued = λ id. [];
  in_flight = 0;
  lost = 0;
  buffers = 0;
  abandoned = 0;
}

unfoldable pub zeros : ℕ → Bytes
zeros zero = []
zeros (suc n) = 0 ∷ zeros n

-- strncpy: what it stores, filled up with zero bytes.
unfoldable pub strncpy : ℕ → Bytes → Bytes
strncpy zero s = []
strncpy (suc n) [] = zeros (suc n)
strncpy (suc n) (c ∷ s) = let rest = strncpy n s in if c == 0 then zeros (suc n) else c ∷ rest

-- The buffer that libuv reads into, which is freed after the callback.
unfoldable pub alloc_buffer : ℕ → Bytes
alloc_buffer suggested_size = zeros suggested_size

-- uv_write with a fresh request and a fresh buffer. A call that it refuses has no callback.
unfoldable pub write : Bool → ℕ → Bytes → Server → Server
write true id text s = record s {
  queued = λ other. if id == other then s.queued other ++ text else s.queued other;
  in_flight = suc s.in_flight;
  buffers = suc s.buffers;
}
write false id text s = record s { lost = suc s.lost; buffers = suc s.buffers }

-- `taken` says whether uv_write takes the request.
unfoldable pub on_new_connection : Bool → Bool → Server → Server
on_new_connection true taken s =
    write taken s.clients (strncpy (length home_page) home_page)
      (record s { clients = suc s.clients })
on_new_connection false taken s = record s { abandoned = suc s.abandoned }

-- process_request, with nread not negative: the buffer holds `text`, and zero bytes behind it.
unfoldable pub process_request : Bool → ℕ → ℕ → Bytes → Server → Server
process_request taken id suggested_size text s =
    let base = text ++ drop (length text) (alloc_buffer suggested_size) in
    write taken id (strncpy (length text) base) s

-- on_write, for a request in flight, whatever has become of the write.
unfoldable pub on_write : ℤ → Server → Option Server
on_write status s = if s.in_flight == 0 then none else some record s { in_flight = s.in_flight - 1 }

-- The callbacks that libuv makes. `ended` is a read with a negative nread, at the end of the stream
-- or after an error.
pub data Event : Type 0 where
  connected : Bool → Bool → Event
  received : Bool → ℕ → ℕ → Bytes → Event
  ended : ℕ → Event
  written : ℤ → Event

-- With a negative nread, malloc is given a size above PTRDIFF_MAX and returns NULL, to which
-- strncpy then copies: a fault.
unfoldable pub step : Event → Server → Option Server
step (connected accepted taken) s = some (on_new_connection accepted taken s)
step (received taken id size text) s = some (process_request taken id size text s)
step (ended id) s = none
step (written status) s = on_write status s

unfoldable pub run : List Event → Server → Option Server
run [] s = some s
run (e ∷ es) s = elim (step e s) [ none ↦ none | some s' ↦ run es s' ]

-- main has returned, or is in uv_run.
pub data Outcome : Type 0 where
  returned : ℤ → Outcome
  serving : Server → Outcome

-- main: only a failure of uv_listen ends it before the loop. A failure to bind is printed. The
-- listening handle is never closed and the loop never stopped, so that uv_run does not return,
-- whatever events have come.
unfoldable pub main : Bool → List Event → Option Outcome
main listening es =
    if not listening
    then some (returned minus_one)
    else elim (run es started) [ none ↦ none | some s ↦ some (serving s) ]
