-- ===== src/Socks/Bind/Counts.antt =====
-- The reply of a bind, and how many bytes it relays.
use network_programming_demo.Prelude.{
  ℕ, ◌+◌, ◌-◌, ◌/◌, ◌%◌, ◌≤◌, ◌<◌, none, some, true, false, [], ◌∷◌, ◌++◌, ◌≡◌, refl, arith, length,
  take, drop, length-append, length-take, length-drop, ◌∙◌, append_assoc,
}
use network_programming_demo.Text.Bytes.{Bytes}
use network_programming_demo.Socks.Flow.{Flow, from_client, from_server, max_length}
use network_programming_demo.Socks.Bind.{
  Binding, start, Event, reply_sent, accepted, read, sent, step, Reach, here, next,
}
use network_programming_demo.Socks.Bind.Laws.{IsSerial, step-IsSerial, start-IsSerial}

-- A send in flight is within the array, which keeps its size, and the bytes that have gone out with
-- those of the send are as many as have come in.
pub record IsCounted (f : Flow) : Type 0 where
  pub sized : length f.buffer ≡ max_length
  pub reading : 0 < f.reads → length f.sent ≡ length f.received
  pub writing :
      0 < f.writes → (f.pending ≤ max_length) × (length f.sent + f.pending ≡ length f.received)

pub record AreCounted (b : Binding) : Type 0 where
  pub ordered : IsSerial b
  pub client : IsCounted b.client
  pub server : IsCounted b.server
  pub not_yet :
      0 < b.first_replies + b.accepts + b.last_replies
      → (b.client.received ≡ [])
        × (b.client.sent ≡ [])
        × (b.server.received ≡ [])
        × (b.server.sent ≡ [])

length-fill :
    (bytes buffer : Bytes)
    → length buffer ≡ max_length
    → length bytes ≤ max_length
    → length (bytes ++ drop (length bytes) buffer) ≡ max_length
length-fill bytes buffer h k =
    omega
      (arith, length-append bytes (drop (length bytes) buffer), length-drop (length bytes) buffer)

length-send :
    (s buffer : Bytes) (n : ℕ) → n ≤ length buffer → length (s ++ take n buffer) ≡ length s + n
length-send s buffer n h = omega (arith, length-append s (take n buffer), length-take n buffer)

step-AreCounted : (b c : Binding) (e : Event) → step b e ≡ some c → AreCounted b → AreCounted c
unfolding step
step-AreCounted b c (reply_sent true none) h v =
    ground (arith, step-IsSerial b c (reply_sent true none) h v.ordered)
step-AreCounted b c (reply_sent true (some n)) h v =
    ground (arith, step-IsSerial b c (reply_sent true (some n)) h v.ordered)
step-AreCounted b c (reply_sent false none) h v =
    ground (arith, step-IsSerial b c (reply_sent false none) h v.ordered)
step-AreCounted b c (reply_sent false (some n)) h v =
    ground (arith, step-IsSerial b c (reply_sent false (some n)) h v.ordered)
step-AreCounted b c (accepted ok) h v = ground (arith, step-IsSerial b c (accepted ok) h v.ordered)
step-AreCounted b c (read from_client none) h v =
    ground (arith, step-IsSerial b c (read from_client none) h v.ordered)
step-AreCounted b c (read from_client (some bytes)) h v = ground (
  arith,
  step-IsSerial b c (read from_client (some bytes)) h v.ordered,
  length-fill bytes b.client.buffer,
  length-append b.client.received bytes,
)
step-AreCounted b c (read from_server none) h v =
    ground (arith, step-IsSerial b c (read from_server none) h v.ordered)
step-AreCounted b c (read from_server (some bytes)) h v = ground (
  arith,
  step-IsSerial b c (read from_server (some bytes)) h v.ordered,
  length-fill bytes b.server.buffer,
  length-append b.server.received bytes,
)
step-AreCounted b c (sent from_client none) h v =
    ground (arith, step-IsSerial b c (sent from_client none) h v.ordered)
step-AreCounted b c (sent from_client (some n)) h v = ground (
  arith,
  step-IsSerial b c (sent from_client (some n)) h v.ordered,
  length-send b.client.sent b.client.buffer n,
)
step-AreCounted b c (sent from_server none) h v =
    ground (arith, step-IsSerial b c (sent from_server none) h v.ordered)
step-AreCounted b c (sent from_server (some n)) h v = ground (
  arith,
  step-IsSerial b c (sent from_server (some n)) h v.ordered,
  length-send b.server.sent b.server.buffer n,
)

start-AreCounted :
    (reply up down : Bytes) (port : ℕ)
    → length up ≡ max_length
    → length down ≡ max_length
    → AreCounted (start reply up down port)
unfolding start
start-AreCounted reply up down port hu hd = record {
  ordered = start-IsSerial reply up down port;
  client = record { sized = hu; reading = λ _. refl; writing = λ h. absurd (omega arith) };
  server = record { sized = hd; reading = λ _. refl; writing = λ h. absurd (omega arith) };
  not_yet = λ _. (refl, refl, refl, refl);
}

-- Whatever the network does, short sends included, a bind that was started with arrays of full size
-- has sent as many bytes as it has read whenever it reads on, and sends within the array exactly as
-- many as are missing.
pub Reach-AreCounted :
    (reply up down : Bytes) (port : ℕ) {b : Binding}
    → length up ≡ max_length
    → length down ≡ max_length
    → Reach (start reply up down port) b
    → AreCounted b
Reach-AreCounted reply up down port hu hd here = start-AreCounted reply up down port hu hd
Reach-AreCounted reply up down port hu hd (next {c} {d} e r h) =
    step-AreCounted c d e h (Reach-AreCounted reply up down port hu hd r)

-- But not the bytes that were read: after a send to the server that was cut short at `n` bytes and a
-- full second one, the block's front has gone out twice, and its bytes from `n` on only in so far as
-- they lie in the front.
pub short_send_repeats :
    (b c d : Binding) (n : ℕ)
    → step b (sent from_client (some n)) ≡ some c
    → step c (sent from_client (some (b.client.pending - n))) ≡ some d
    → n < b.client.pending
    → (d.client.sent
        ≡ b.client.sent ++ (take n b.client.buffer ++ take (b.client.pending - n) b.client.buffer))
      × (d.client.received ≡ b.client.received)
      × (0 < d.client.reads)
unfolding step
short_send_repeats b c d n h k short = ground (
  arith,
  append_assoc b.client.sent (take n b.client.buffer) (take (b.client.pending - n) b.client.buffer),
)

step-reply : (b c : Binding) (e : Event) → step b e ≡ some c → c.reply ≡ b.reply
unfolding step
step-reply b c (reply_sent true none) h = ground arith
step-reply b c (reply_sent true (some n)) h = ground arith
step-reply b c (reply_sent false none) h = ground arith
step-reply b c (reply_sent false (some n)) h = ground arith
step-reply b c (accepted ok) h = ground arith
step-reply b c (read from_client none) h = ground arith
step-reply b c (read from_client (some bytes)) h = ground arith
step-reply b c (read from_server none) h = ground arith
step-reply b c (read from_server (some bytes)) h = ground arith
step-reply b c (sent from_client none) h = ground arith
step-reply b c (sent from_client (some n)) h = ground arith
step-reply b c (sent from_server none) h = ground arith
step-reply b c (sent from_server (some n)) h = ground arith

start-reply :
    (v s p q : ℕ) (rest up down : Bytes) (port : ℕ)
    → (start (v ∷ s ∷ p ∷ q ∷ rest) up down port).reply ≡ v ∷ s ∷ port / 256 ∷ port % 256 ∷ rest
unfolding start
start-reply v s p q rest up down port = refl

-- Both replies of a bind carry the port that the acceptor listens on in place of the request's, and
-- otherwise the bytes that the session made.
Reach-reply :
    (v s p q : ℕ) (rest up down : Bytes) (port : ℕ) {b : Binding}
    → Reach (start (v ∷ s ∷ p ∷ q ∷ rest) up down port) b
    → b.reply ≡ v ∷ s ∷ port / 256 ∷ port % 256 ∷ rest
Reach-reply v s p q rest up down port here = start-reply v s p q rest up down port
Reach-reply v s p q rest up down port (next {c} {d} e r h) =
    step-reply c d e h ∙ Reach-reply v s p q rest up down port r
