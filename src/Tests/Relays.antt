-- ===== src/Tests/Relays.antt =====
-- The relays of project4/socks_server.cpp run on concrete events.
use network_programming_demo.Prelude.{
  ◌+◌, ◌-◌, ◌<◌, [], ◌∷◌, ◌++◌, none, some, true, false, ◌≡◌, refl, arith, length, take, replicate,
}
use network_programming_demo.Text.Bytes.{Bytes, codes}
use network_programming_demo.Socks.Flow.{from_client}
use network_programming_demo.Socks.Bridge.{Bridge}
use network_programming_demo.Socks.Bridge
use network_programming_demo.Socks.Bridge.Order.{IsOrdered, Reach-IsOrdered}
use network_programming_demo.Socks.Bridge.Relay.{
  IsFaithful, BothFaithful, start_here, and_then, FullReach-IsFaithful, short_send_loses,
}
use network_programming_demo.Socks.Bind.{Binding}
use network_programming_demo.Socks.Bind
use network_programming_demo.Socks.Bind.Counts.{AreCounted, Reach-AreCounted, short_send_repeats}

abbrev reply_bytes : Bytes
reply_bytes = 0 ∷ 90 ∷ 0 ∷ 80 ∷ 0 ∷ 0 ∷ 0 ∷ 0 ∷ []

-- The state after an event that the loop can deliver.
abbrev to : Bridge → Bridge.Event → Bridge
to b e = elim (Bridge.step b e) [ none ↦ b | some c ↦ c ]

abbrev b0 : Bridge
b0 = Bridge.start reply_bytes (codes "........") (codes "........")

abbrev b1 : Bridge
b1 = to b0 (Bridge.resolved true)

abbrev b2 : Bridge
b2 = to b1 (Bridge.connected true)

abbrev b3 : Bridge
b3 = to b2 (Bridge.reply_sent (some 8))

abbrev b4 : Bridge
b4 = to b3 (Bridge.read from_client (some (codes "hello")))

abbrev b5 : Bridge
b5 = to b4 (Bridge.sent from_client (some 5))

relayed : (b5.client.sent ≡ codes "hello") × (b5.replied ≡ reply_bytes)
unfolding Bridge.step Bridge.start
relayed = (refl, refl)

Reach-IsOrdered_example : IsOrdered b5
unfolding Bridge.step Bridge.start
Reach-IsOrdered_example = Reach-IsOrdered reply_bytes (codes "........") (codes "........") (
    Bridge.next {c = b4} {d = b5} (Bridge.sent from_client (some 5))
      (Bridge.next {c = b3} {d = b4} (Bridge.read from_client (some (codes "hello")))
        (Bridge.next {c = b2} {d = b3} (Bridge.reply_sent (some 8))
          (Bridge.next {c = b1} {d = b2} (Bridge.connected true)
            (Bridge.next {c = b0} {d = b1} (Bridge.resolved true) Bridge.here refl) refl)
          refl)
        refl)
      refl)

FullReach-IsFaithful_example : BothFaithful b5
unfolding Bridge.step Bridge.start
FullReach-IsFaithful_example =
    FullReach-IsFaithful reply_bytes (codes "........") (codes "........") (
      and_then {c = b4} {d = b5} (Bridge.sent from_client (some 5))
        (and_then {c = b3} {d = b4} (Bridge.read from_client (some (codes "hello")))
          (and_then {c = b2} {d = b3} (Bridge.reply_sent (some 8))
            (and_then {c = b1} {d = b2} (Bridge.connected true)
              (and_then {c = b0} {d = b1} (Bridge.resolved true) start_here tt refl) tt refl)
            refl refl)
          tt refl)
        refl refl)

b4-IsFaithful : IsFaithful b4.client
unfolding Bridge.step Bridge.start
b4-IsFaithful = record {
  reading = λ h. absurd (omega arith);
  writing = λ _. refl;
  rest = codes "hello";
  whole = refl;
}

-- "hello" is read, and a send takes two of its bytes.
short_send_loses_example :
    let c = to b4 (Bridge.sent from_client (some 2)) in
    (0 < c.client.reads)
    × (c.client.writes + 1 ≡ b4.client.writes)
    × (length c.client.sent + (b4.client.pending - 2) ≡ length c.client.received)
unfolding Bridge.step Bridge.start
short_send_loses_example =
    short_send_loses b4 (to b4 (Bridge.sent from_client (some 2))) 2 refl b4-IsFaithful
      (omega arith) (omega arith)

abbrev to' : Binding → Bind.Event → Binding
to' b e = elim (Bind.step b e) [ none ↦ b | some c ↦ c ]

abbrev array : Bytes
array = replicate 1024 0

abbrev c0 : Binding
c0 = Bind.start reply_bytes array array 4660

abbrev c1 : Binding
c1 = to' c0 (Bind.reply_sent true (some 8))

abbrev c2 : Binding
c2 = to' c1 (Bind.accepted true)

abbrev c3 : Binding
c3 = to' c2 (Bind.reply_sent false (some 8))

abbrev c4 : Binding
c4 = to' c3 (Bind.read from_client (some (codes "hello")))

abbrev c5 : Binding
c5 = to' c4 (Bind.sent from_client (some 2))

abbrev c6 : Binding
c6 = to' c5 (Bind.sent from_client (some 3))

repeated : c6.client.sent ≡ codes "hehel"
unfolding Bind.step Bind.start
repeated = refl

bind-Reach : Bind.Reach c0 c3
unfolding Bind.step Bind.start
bind-Reach =
    Bind.next {c = c2} {d = c3} (Bind.reply_sent false (some 8))
      (Bind.next {c = c1} {d = c2} (Bind.accepted true)
        (Bind.next {c = c0} {d = c1} (Bind.reply_sent true (some 8)) Bind.here refl) refl)
      refl

Reach-AreCounted_example : AreCounted c3
Reach-AreCounted_example = Reach-AreCounted reply_bytes array array 4660 refl refl bind-Reach

short_send_repeats_example :
    (c6.client.sent
      ≡ c4.client.sent
        ++ (take 2 c4.client.buffer ++ take (c4.client.pending - 2) c4.client.buffer))
    × (c6.client.received ≡ c4.client.received)
    × (0 < c6.client.reads)
unfolding Bind.step Bind.start
short_send_repeats_example = short_send_repeats c4 c5 c6 2 refl refl (omega arith)
