-- ===== src/Socks/Flow.antt =====
-- project4/socks_server.cpp: one direction of a relay in `socks_bridge` and `socks_bind`. A flow has
-- the array that the direction reads into and sends from, its operations in flight, and the bytes
-- that have come in and gone out so far.
use network_programming_demo.Prelude.{ℕ, ◌+◌, ◌-◌, [], ◌++◌, take, drop, length}
use network_programming_demo.Text.Bytes.{Bytes}

-- `length` is what the handler of the write in flight has captured.
pub record Flow : Type 0 where
  pub reads : ℕ
  pub writes : ℕ
  pub pending : ℕ
  pub buffer : Bytes
  pub received : Bytes
  pub sent : Bytes

abbrev pub fresh : Bytes → Flow
fresh array = record {
  reads = 0;
  writes = 0;
  pending = 0;
  buffer = array;
  received = [];
  sent = [];
}

-- `async_read_some` is called, and completes with these bytes or with an error.
abbrev pub read_started : Flow → Flow
read_started f = record f { reads = f.reads + 1 }

abbrev pub read_failed : Flow → Flow
read_failed f = record f { reads = f.reads - 1 }

abbrev pub read_done : Bytes → Flow → Flow
read_done bytes f = record f {
  reads = f.reads - 1;
  buffer = bytes ++ drop (length bytes) f.buffer;
  received = f.received ++ bytes;
}

-- `async_send` is called for the first `n` bytes of the array, and completes.
abbrev pub write_started : ℕ → Flow → Flow
write_started n f = record f { writes = f.writes + 1; pending = n }

abbrev pub write_failed : Flow → Flow
write_failed f = record f { writes = f.writes - 1 }

abbrev pub write_done : ℕ → Flow → Flow
write_done n f = record f { writes = f.writes - 1; sent = f.sent ++ take n f.buffer }

abbrev pub max_length : ℕ
max_length = 1024

-- FROM_CLIENT and FROM_SERVER; TO_SERVER goes with the former, TO_CLIENT with the latter.
pub data Side : Type 0 where
  from_client from_server : Side
