-- ===== src/Socks/Bridge.antt =====
-- project4/socks_server.cpp, `socks_bridge`: the relay of CONNECT, as the state that its completion
-- handlers change. `upstream` is the client's socket, `downstream` the server's.
pub mod Order
pub mod Relay
use network_programming_demo.Prelude.{
  ℕ, ◌+◌, ◌-◌, Option, none, some, Bool, true, false, ◌&&◌, [], ◌++◌, ltb, leb, if◌then◌else◌, take,
  length, ◌≡◌, refl, arith,
}
use network_programming_demo.Text.Bytes.{Bytes}
use network_programming_demo.Socks.Flow.{
  Flow, fresh, read_started, read_failed, read_done, write_started, write_failed, write_done,
  max_length, Side, from_client, from_server,
}

-- Operations in flight are counted. `replied` is what of the reply has reached the client.
pub record Bridge : Type 0 where
  pub upstream_open : Bool
  pub downstream_open : Bool
  pub resolves : ℕ
  pub connects : ℕ
  pub replies : ℕ
  pub reply : Bytes
  pub replied : Bytes
  pub client : Flow
  pub server : Flow

do_read : Side → Bridge → Bridge
do_read from_client b = record b { client = read_started b.client }
do_read from_server b = record b { server = read_started b.server }

-- `do_write(TO_SERVER, length)` for the client's bytes, `do_write(TO_CLIENT, length)` for the server's.
do_write : Side → ℕ → Bridge → Bridge
do_write from_client length b = record b { client = write_started length b.client }
do_write from_server length b = record b { server = write_started length b.server }

do_reply : Bridge → Bridge
do_reply b = record b { replies = b.replies + 1 }

do_connect : Bridge → Bridge
do_connect b = record b { connects = b.connects + 1 }

do_resolve : Bridge → Bridge
do_resolve b = record b { resolves = b.resolves + 1 }

close_both : Bridge → Bridge
close_both b = record b { upstream_open = false; downstream_open = false }

-- `socks_bridge(...)->start()`, over arrays whose first content is arbitrary.
unfoldable pub start : Bytes → Bytes → Bytes → Bridge
unfolding do_resolve
start reply up down = do_resolve (record {
  upstream_open = true;
  downstream_open = true;
  resolves = 0;
  connects = 0;
  replies = 0;
  reply = reply;
  replied = [];
  client = fresh up;
  server = fresh down;
})

-- The completion of one operation: `none` or `false` is an error code.
pub data Event : Type 0 where
  resolved connected : Bool → Event
  reply_sent : Option ℕ → Event
  read : Side → Option Bytes → Event
  sent : Side → Option ℕ → Event

on_resolved : Bool → Bridge → Bridge
unfolding do_connect
on_resolved true b = do_connect b
on_resolved false b = b

on_connected : Bool → Bridge → Bridge
unfolding do_reply
on_connected true b = do_reply b
on_connected false b = b

on_reply_sent : Option ℕ → Bridge → Bridge
unfolding do_read
on_reply_sent (some n) b =
    do_read from_server (do_read from_client (record b { replied = b.replied ++ take n b.reply }))
on_reply_sent none b = b

on_read : Side → Option Bytes → Bridge → Bridge
unfolding do_write close_both
on_read from_client (some bytes) b =
    do_write from_client (length bytes) (record b { client = read_done bytes b.client })
on_read from_client none b = close_both (record b { client = read_failed b.client })
on_read from_server (some bytes) b =
    do_write from_server (length bytes) (record b { server = read_done bytes b.server })
on_read from_server none b = close_both (record b { server = read_failed b.server })

-- The handlers of `async_send` do not look at the count of bytes sent.
on_sent : Side → Option ℕ → Bridge → Bridge
unfolding do_read
on_sent from_client (some n) b = do_read from_client (record b { client = write_done n b.client })
on_sent from_client none b = record b { client = write_failed b.client }
on_sent from_server (some n) b = do_read from_server (record b { server = write_done n b.server })
on_sent from_server none b = record b { server = write_failed b.server }

abbrev pub when : Bool → Bridge → Option Bridge
when test b = if test then some b else none

pub when-eq-some :
    (test : Bool) (b : Bridge) {c : Bridge} → when test b ≡ some c → (test ≡ true) × (b ≡ c)
when-eq-some true b h = (refl, ground arith)
when-eq-some false b h = cc

-- The event loop runs the handler of an operation in flight; a success wants open sockets, reads at
-- most `max_length` bytes, and sends no more than it was given.
unfoldable pub step : Bridge → Event → Option Bridge
unfolding on_resolved on_connected on_reply_sent on_read on_sent
step b (resolved ok) =
    when (ltb 0 b.resolves) (on_resolved ok (record b { resolves = b.resolves - 1 }))
step b (connected ok) =
    when (ltb 0 b.connects) (on_connected ok (record b { connects = b.connects - 1 }))
step b (reply_sent none) =
    when (ltb 0 b.replies) (on_reply_sent none (record b { replies = b.replies - 1 }))
step b (reply_sent (some n)) =
    when (ltb 0 b.replies && b.upstream_open && leb n (length b.reply))
      (on_reply_sent (some n) (record b { replies = b.replies - 1 }))
step b (read from_client none) = when (ltb 0 b.client.reads) (on_read from_client none b)
step b (read from_client (some bytes)) =
    when (ltb 0 b.client.reads && b.upstream_open && leb (length bytes) max_length)
      (on_read from_client (some bytes) b)
step b (read from_server none) = when (ltb 0 b.server.reads) (on_read from_server none b)
step b (read from_server (some bytes)) =
    when (ltb 0 b.server.reads && b.downstream_open && leb (length bytes) max_length)
      (on_read from_server (some bytes) b)
step b (sent from_client none) = when (ltb 0 b.client.writes) (on_sent from_client none b)
step b (sent from_client (some n)) =
    when (ltb 0 b.client.writes && b.downstream_open && leb n b.client.pending)
      (on_sent from_client (some n) b)
step b (sent from_server none) = when (ltb 0 b.server.writes) (on_sent from_server none b)
step b (sent from_server (some n)) =
    when (ltb 0 b.server.writes && b.upstream_open && leb n b.server.pending)
      (on_sent from_server (some n) b)

-- What the event loop can lead to.
pub data Reach (b : Bridge) : Bridge → Type 0 where
  here : Reach b b
  next : {c d : Bridge} (e : Event) → Reach b c → step c e ≡ some d → Reach b d
