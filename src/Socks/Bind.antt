-- ===== src/Socks/Bind.antt =====
-- project4/socks_server.cpp, `socks_bind`: the relay of BIND. `upstream` is the FTP client's socket,
-- `downstream` the one that the acceptor fills.
pub mod Laws
pub mod Counts
use network_programming_demo.Prelude.{
  ℕ, ◌+◌, ◌-◌, ◌/◌, ◌%◌, Option, none, some, Bool, true, false, ◌&&◌, [], ◌++◌, ltb, leb, ◌==◌,
  if◌then◌else◌, take, set, length, ◌≡◌,
}
use network_programming_demo.Text.Bytes.{Bytes}
use network_programming_demo.Socks.Flow.{
  Flow, fresh, read_started, read_failed, read_done, write_started, write_failed, write_done,
  max_length, Side, from_client, from_server,
}

-- `first_replies` and `last_replies` count the sends of the reply in flight by `isFirstReply`.
pub record Binding : Type 0 where
  pub upstream_open : Bool
  pub downstream_open : Bool
  pub first_replies : ℕ
  pub accepts : ℕ
  pub last_replies : ℕ
  pub reply : Bytes
  pub replied : Bytes
  pub client : Flow
  pub server : Flow

do_read : Side → Binding → Binding
do_read from_client b = record b { client = read_started b.client }
do_read from_server b = record b { server = read_started b.server }

do_write : Side → ℕ → Binding → Binding
do_write from_client length b = record b { client = write_started length b.client }
do_write from_server length b = record b { server = write_started length b.server }

do_accept : Binding → Binding
do_accept b = record b { accepts = b.accepts + 1 }

do_reply : Bool → Binding → Binding
do_reply true b = record b { first_replies = b.first_replies + 1 }
do_reply false b = record b { last_replies = b.last_replies + 1 }

close_both : Binding → Binding
close_both b = record b { upstream_open = false; downstream_open = false }

-- The acceptor listens on the port that the system gave.
do_bind : ℕ → Binding → Binding
unfolding do_reply
do_bind bind_port b =
    do_reply true (record b { reply = set (set b.reply 2 (bind_port / 256)) 3 (bind_port % 256) })

-- `socks_bind(...)->start()`, over arrays whose first content is arbitrary.
unfoldable pub start : Bytes → Bytes → Bytes → ℕ → Binding
unfolding do_bind
start reply up down bind_port = do_bind bind_port (record {
  upstream_open = true;
  downstream_open = false;
  first_replies = 0;
  accepts = 0;
  last_replies = 0;
  reply = reply;
  replied = [];
  client = fresh up;
  server = fresh down;
})

-- The completion of one operation: `none` or `false` is an error code.
pub data Event : Type 0 where
  reply_sent : Bool → Option ℕ → Event
  accepted : Bool → Event
  read : Side → Option Bytes → Event
  sent : Side → Option ℕ → Event

on_reply_sent : Bool → Option ℕ → Binding → Binding
unfolding do_accept do_read close_both
on_reply_sent true (some n) b = do_accept (record b { replied = b.replied ++ take n b.reply })
on_reply_sent false (some n) b =
    do_read from_server (do_read from_client (record b { replied = b.replied ++ take n b.reply }))
on_reply_sent _ none b = close_both b

on_accepted : Bool → Binding → Binding
unfolding do_reply
on_accepted true b = do_reply false (record b { downstream_open = true })
on_accepted false b = b

on_read : Side → Option Bytes → Binding → Binding
unfolding do_write close_both
on_read from_client (some bytes) b =
    do_write from_client (length bytes) (record b { client = read_done bytes b.client })
on_read from_client none b = close_both (record b { client = read_failed b.client })
on_read from_server (some bytes) b =
    do_write from_server (length bytes) (record b { server = read_done bytes b.server })
on_read from_server none b = close_both (record b { server = read_failed b.server })

-- A send of fewer bytes is followed by one of the missing count, again from the array's start.
on_sent : Side → Option ℕ → Binding → Binding
unfolding do_read do_write close_both
on_sent from_client (some n) b =
    if n == b.client.pending
    then do_read from_client (record b { client = write_done n b.client })
    else do_write from_client (b.client.pending - n) (record b { client = write_done n b.client })
on_sent from_client none b = close_both (record b { client = write_failed b.client })
on_sent from_server (some n) b =
    if n == b.server.pending
    then do_read from_server (record b { server = write_done n b.server })
    else do_write from_server (b.server.pending - n) (record b { server = write_done n b.server })
on_sent from_server none b = close_both (record b { server = write_failed b.server })

abbrev pub when : Bool → Binding → Option Binding
when test b = if test then some b else none

-- The event loop, as for a bridge. The client's socket is open when a reply is sent to it, the other
-- one once a connection is accepted.
unfoldable pub step : Binding → Event → Option Binding
unfolding on_reply_sent on_accepted on_read on_sent
step b (reply_sent true none) =
    when (ltb 0 b.first_replies)
      (on_reply_sent true none (record b { first_replies = b.first_replies - 1 }))
step b (reply_sent true (some n)) =
    when (ltb 0 b.first_replies && b.upstream_open && leb n (length b.reply))
      (on_reply_sent true (some n) (record b { first_replies = b.first_replies - 1 }))
step b (reply_sent false none) =
    when (ltb 0 b.last_replies)
      (on_reply_sent false none (record b { last_replies = b.last_replies - 1 }))
step b (reply_sent false (some n)) =
    when (ltb 0 b.last_replies && b.upstream_open && leb n (length b.reply))
      (on_reply_sent false (some n) (record b { last_replies = b.last_replies - 1 }))
step b (accepted ok) =
    when (ltb 0 b.accepts) (on_accepted ok (record b { accepts = b.accepts - 1 }))
step b (read from_client none) = when (ltb 0 b.client.reads) (on_read from_client none b)
step b (read from_client (some bytes)) =
    when (ltb 0 b.client.reads && b.upstream_open && leb (length bytes) max_length)
      (on_read from_client (some bytes) b)
step b (read from_server none) = when (ltb 0 b.server.reads) (on_read from_server none b)
step b (read from_server (some bytes)) =
    when (ltb 0 b.server.reads && b.downstream_open && leb (length bytes) max_length)
      (on_read from_server (some bytes) b)
step b (sent from_client none) = when (ltb 0 b.client.writes) (on_sent from_client none b)
step b (sent from_client (some n)) =
    when (ltb 0 b.client.writes && b.downstream_open && leb n b.client.pending)
      (on_sent from_client (some n) b)
step b (sent from_server none) = when (ltb 0 b.server.writes) (on_sent from_server none b)
step b (sent from_server (some n)) =
    when (ltb 0 b.server.writes && b.upstream_open && leb n b.server.pending)
      (on_sent from_server (some n) b)

-- What the event loop can lead to.
pub data Reach (b : Binding) : Binding → Type 0 where
  here : Reach b b
  next : {c d : Binding} (e : Event) → Reach b c → step c e ≡ some d → Reach b d
