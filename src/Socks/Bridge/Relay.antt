-- ===== src/Socks/Bridge/Relay.antt =====
-- What a bridge relays: the bytes of each direction, unchanged and in order, as long as `async_send`
-- takes all that it is given.
use network_programming_demo.Prelude.{
  ℕ, ◌+◌, ◌-◌, ◌≤◌, ◌<◌, none, some, Bool, true, false, [], ◌++◌, ◌≡◌, refl, sym, subst, ◌∙◌, ap,
  arith, length, take, drop, take-append, append-nil, length-append, length-take,
}
use network_programming_demo.Text.Bytes.{Bytes}
use network_programming_demo.Socks.Flow.{
  Flow, fresh, from_client, from_server, read_done, read_started, write_started, write_done,
}
use network_programming_demo.Socks.Bridge.{
  Bridge, start, Event, resolved, connected, reply_sent, read, sent, step, when, when-eq-some,
}
use network_programming_demo.Socks.Bridge.Order.{IsOrdered, setup, step-IsOrdered, start-IsOrdered}

-- The event is no short send.
abbrev IsFull : Bridge → Event → Type 0
IsFull b (reply_sent (some n)) = n ≡ length b.reply
IsFull b (sent from_client (some n)) = n ≡ b.client.pending
IsFull b (sent from_server (some n)) = n ≡ b.server.pending
IsFull b _ = Unit

pub data FullReach (b : Bridge) : Bridge → Type 0 where
  start_here : FullReach b b
  and_then :
      {c d : Bridge} (e : Event) → FullReach b c → IsFull c e → step c e ≡ some d → FullReach b d

-- What has come in is what has gone out, and behind it what is still to go.
pub record IsFaithful (f : Flow) : Type 0 where
  pub reading : 0 < f.reads → f.received ≡ f.sent
  pub writing : 0 < f.writes → f.received ≡ f.sent ++ take f.pending f.buffer
  pub rest : Bytes
  pub whole : f.received ≡ f.sent ++ rest

read_done-IsFaithful :
    (f : Flow) (bytes : Bytes)
    → IsFaithful f
    → 0 < f.reads
    → f.reads + f.writes ≤ 1
    → IsFaithful (write_started (length bytes) (read_done bytes f))
read_done-IsFaithful f bytes v r o = record {
  reading = λ h. absurd (omega arith);
  writing = λ _. rw (take-append bytes (drop (length bytes) f.buffer), v.reading r);
  rest = bytes;
  whole = rw (v.reading r);
}

write_done-IsFaithful :
    (f : Flow)
    → IsFaithful f
    → 0 < f.writes
    → f.reads + f.writes ≤ 1
    → IsFaithful (read_started (write_done f.pending f))
write_done-IsFaithful f v w o = record {
  reading = λ _. v.writing w;
  writing = λ h. absurd (omega arith);
  rest = [];
  whole = v.writing w ∙ sym (append-nil _);
}

failed-IsFaithful :
    (f g : Flow)
    → IsFaithful f
    → g.reads ≤ f.reads
    → g.writes ≤ f.writes
    → (g.received ≡ f.received)
      × (g.sent ≡ f.sent)
      × (g.buffer ≡ f.buffer)
      × (g.pending ≡ f.pending)
    → IsFaithful g
failed-IsFaithful f g v r w (e1, e2, e3, e4) = record {
  reading = λ h. rw (e1, e2) (v.reading (omega arith));
  writing = λ h. rw (e1, e2, e3, e4) (v.writing (omega arith));
  rest = v.rest;
  whole = rw (e1, e2) v.whole;
}

abbrev pub BothFaithful : Bridge → Type 0
BothFaithful b = IsFaithful b.client × IsFaithful b.server

-- The step's test passed, and its result is the state.
after_when :
    (test : Bool) (b : Bridge) {c : Bridge}
    → when test b ≡ some c
    → (test ≡ true → BothFaithful b)
    → BothFaithful c
after_when test b h f = let (t, e) = when-eq-some test b h in subst BothFaithful e (f t)

fresh-IsFaithful : (array : Bytes) → IsFaithful (fresh array)
fresh-IsFaithful array = record {
  reading = λ _. refl;
  writing = λ h. absurd (omega arith);
  rest = [];
  whole = refl;
}

started-IsFaithful :
    (f : Flow) → (f.received ≡ []) × (f.sent ≡ []) → f.writes ≡ 0 → IsFaithful (read_started f)
started-IsFaithful f (r, s) w = record {
  reading = λ h. rw (r, s);
  writing = λ h. absurd (omega arith);
  rest = [];
  whole = rw (r, s);
}

pub step-BothFaithful :
    (b c : Bridge) (e : Event)
    → step b e ≡ some c
    → IsFull b e
    → IsOrdered b
    → BothFaithful b
    → BothFaithful c
unfolding step
step-BothFaithful b c (resolved true) h full o v = after_when _ _ h (λ _. v)
step-BothFaithful b c (resolved false) h full o v = after_when _ _ h (λ _. v)
step-BothFaithful b c (connected true) h full o v = after_when _ _ h (λ _. v)
step-BothFaithful b c (connected false) h full o v = after_when _ _ h (λ _. v)
step-BothFaithful b c (reply_sent none) h full o v = after_when _ _ h (λ _. v)
step-BothFaithful b c (reply_sent (some n)) h full o v = after_when _ _ h (λ t.
    let p : 0 < setup b = ground arith in
    let q = o.nothing_yet p in
    (
      started-IsFaithful b.client (q.0, q.2) (ground arith),
      started-IsFaithful b.server (q.1, q.3) (ground arith),
    ))
step-BothFaithful b c (read from_client none) h full o v = after_when _ _ h (λ t.
    (failed-IsFaithful b.client _ v.0 (omega arith) (omega arith) (refl, refl, refl, refl), v.1))
step-BothFaithful b c (read from_client (some bytes)) h full o v = after_when _ _ h (λ t.
    (read_done-IsFaithful b.client bytes v.0 (ground arith) (omega (arith, o.client_alone)), v.1))
step-BothFaithful b c (read from_server none) h full o v = after_when _ _ h (λ t.
    (v.0, failed-IsFaithful b.server _ v.1 (omega arith) (omega arith) (refl, refl, refl, refl)))
step-BothFaithful b c (read from_server (some bytes)) h full o v = after_when _ _ h (λ t.
    (v.0, read_done-IsFaithful b.server bytes v.1 (ground arith) (omega (arith, o.server_alone))))
step-BothFaithful b c (sent from_client none) h full o v = after_when _ _ h (λ t.
    (failed-IsFaithful b.client _ v.0 (omega arith) (omega arith) (refl, refl, refl, refl), v.1))
step-BothFaithful b c (sent from_client (some n)) h full o v = after_when _ _ h (λ t. (
  rw full (write_done-IsFaithful b.client v.0 (ground arith) (omega (arith, o.client_alone))),
  v.1,
))
step-BothFaithful b c (sent from_server none) h full o v = after_when _ _ h (λ t.
    (v.0, failed-IsFaithful b.server _ v.1 (omega arith) (omega arith) (refl, refl, refl, refl)))
step-BothFaithful b c (sent from_server (some n)) h full o v = after_when _ _ h (λ t. (
  v.0,
  rw full (write_done-IsFaithful b.server v.1 (ground arith) (omega (arith, o.server_alone))),
))

FullReach-invariants :
    (reply up down : Bytes) {b : Bridge}
    → FullReach (start reply up down) b
    → IsOrdered b × BothFaithful b
unfolding start
FullReach-invariants reply up down start_here =
    (start-IsOrdered reply up down, (fresh-IsFaithful up, fresh-IsFaithful down))
FullReach-invariants reply up down (and_then {c} {d} e r full h) =
    let (o, v) = FullReach-invariants reply up down r in
    (step-IsOrdered c d e h o, step-BothFaithful c d e h full o v)

-- While no send is cut short, what a started bridge has sent on to the server is a prefix of what it
-- has read from the client, and the other way likewise, after any events and also after errors.
pub FullReach-IsFaithful :
    (reply up down : Bytes) {b : Bridge} → FullReach (start reply up down) b → BothFaithful b
FullReach-IsFaithful reply up down r = (FullReach-invariants reply up down r).1

-- After a send to the server that was cut short, the handler goes on to the next read, though less
-- has gone out than has come in: the tail of the block is lost.
pub short_send_loses :
    (b c : Bridge) (n : ℕ)
    → step b (sent from_client (some n)) ≡ some c
    → IsFaithful b.client
    → n < b.client.pending
    → b.client.pending ≤ length b.client.buffer
    → (0 < c.client.reads)
      × (c.client.writes + 1 ≡ b.client.writes)
      × (length c.client.sent + (b.client.pending - n) ≡ length c.client.received)
unfolding step
short_send_loses b c n h v short fits = ground (
  arith,
  ap length (v.writing (ground arith)),
  length-append b.client.sent (take b.client.pending b.client.buffer),
  length-append b.client.sent (take n b.client.buffer),
  length-take b.client.pending b.client.buffer,
  length-take n b.client.buffer,
)
