-- ===== src/Socks/Bind/Laws.antt =====
-- The order of a bind's operations, and how many bytes it relays.
use network_programming_demo.Prelude.{ℕ, ◌+◌, ◌≤◌, none, some, true, false, ◌≡◌, arith}
use network_programming_demo.Text.Bytes.{Bytes}
use network_programming_demo.Socks.Flow.{from_client, from_server}
use network_programming_demo.Socks.Bind.{
  Binding, start, Event, reply_sent, accepted, read, sent, step, Reach, here, next,
}

abbrev pub setup : Binding → ℕ
setup b = b.first_replies + b.accepts + b.last_replies

-- Never two operations on one array, and none of the relay before the second reply is through.
pub record IsSerial (b : Binding) : Type 0 where
  pub client_alone : setup b + b.client.reads + b.client.writes ≤ 1
  pub server_alone : setup b + b.server.reads + b.server.writes ≤ 1

pub step-IsSerial : (b c : Binding) (e : Event) → step b e ≡ some c → IsSerial b → IsSerial c
unfolding step
step-IsSerial b c (reply_sent true none) h v = ground arith
step-IsSerial b c (reply_sent true (some n)) h v = ground arith
step-IsSerial b c (reply_sent false none) h v = ground arith
step-IsSerial b c (reply_sent false (some n)) h v = ground arith
step-IsSerial b c (accepted ok) h v = ground arith
step-IsSerial b c (read from_client none) h v = ground arith
step-IsSerial b c (read from_client (some bytes)) h v = ground arith
step-IsSerial b c (read from_server none) h v = ground arith
step-IsSerial b c (read from_server (some bytes)) h v = ground arith
step-IsSerial b c (sent from_client none) h v = ground arith
step-IsSerial b c (sent from_client (some n)) h v = ground arith
step-IsSerial b c (sent from_server none) h v = ground arith
step-IsSerial b c (sent from_server (some n)) h v = ground arith

pub start-IsSerial : (reply up down : Bytes) (port : ℕ) → IsSerial (start reply up down port)
unfolding start
start-IsSerial reply up down port = record {
  client_alone = omega arith;
  server_alone = omega arith;
}

-- Whatever the network does, a bind that was started never has two operations on one array in flight,
-- and none of the relay while it still replies or accepts.
Reach-IsSerial :
    (reply up down : Bytes) (port : ℕ) {b : Binding}
    → Reach (start reply up down port) b
    → IsSerial b
Reach-IsSerial reply up down port here = start-IsSerial reply up down port
Reach-IsSerial reply up down port (next {c} {d} e r h) =
    step-IsSerial c d e h (Reach-IsSerial reply up down port r)
