-- ===== src/Socks/Bridge/Order.antt =====
-- The order of a bridge's operations: one at a time before the relay, and one for each direction in it.
use network_programming_demo.Prelude.{ℕ, ◌+◌, ◌≤◌, ◌<◌, none, some, [], ◌≡◌, refl, arith}
use network_programming_demo.Text.Bytes.{Bytes}
use network_programming_demo.Socks.Flow.{from_client, from_server}
use network_programming_demo.Socks.Bridge.{
  Bridge, start, Event, resolved, connected, reply_sent, read, sent, step, Reach, here, next,
}

abbrev pub setup : Bridge → ℕ
setup b = b.resolves + b.connects + b.replies

-- Never two operations at once on one array, none of the relay before the reply is through.
pub record IsOrdered (b : Bridge) : Type 0 where
  pub client_alone : setup b + b.client.reads + b.client.writes ≤ 1
  pub server_alone : setup b + b.server.reads + b.server.writes ≤ 1
  pub nothing_yet :
      0 < setup b
      → (b.client.received ≡ [])
        × (b.server.received ≡ [])
        × (b.client.sent ≡ [])
        × (b.server.sent ≡ [])

pub start-IsOrdered : (reply up down : Bytes) → IsOrdered (start reply up down)
unfolding start
start-IsOrdered reply up down = record {
  client_alone = omega arith;
  server_alone = omega arith;
  nothing_yet = λ h. (refl, refl, refl, refl);
}

pub step-IsOrdered : (b c : Bridge) (e : Event) → step b e ≡ some c → IsOrdered b → IsOrdered c
unfolding step
step-IsOrdered b c (resolved ok) h v = ground arith
step-IsOrdered b c (connected ok) h v = ground arith
step-IsOrdered b c (reply_sent none) h v = ground arith
step-IsOrdered b c (reply_sent (some n)) h v = ground arith
step-IsOrdered b c (read from_client none) h v = ground arith
step-IsOrdered b c (read from_client (some bytes)) h v = ground arith
step-IsOrdered b c (read from_server none) h v = ground arith
step-IsOrdered b c (read from_server (some bytes)) h v = ground arith
step-IsOrdered b c (sent from_client none) h v = ground arith
step-IsOrdered b c (sent from_client (some n)) h v = ground arith
step-IsOrdered b c (sent from_server none) h v = ground arith
step-IsOrdered b c (sent from_server (some n)) h v = ground arith

-- Whatever the network does, a bridge that was started never has two operations on one array in
-- flight, and has read and relayed nothing while it still resolves, connects or replies.
pub Reach-IsOrdered :
    (reply up down : Bytes) {b : Bridge} → Reach (start reply up down) b → IsOrdered b
Reach-IsOrdered reply up down here = start-IsOrdered reply up down
Reach-IsOrdered reply up down (next {c} {d} e r h) =
    step-IsOrdered c d e h (Reach-IsOrdered reply up down r)
