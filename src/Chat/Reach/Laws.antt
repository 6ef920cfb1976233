-- ===== src/Chat/Reach/Laws.antt =====
-- Every state that the server can come to satisfies its invariant.
use network_programming_demo.Prelude.{
  ℕ, zero, suc, some, ◌==◌, get_elem?, replicate, ◌≡◌, refl, sym, subst, ◌≢◌, inl, inr, arith, ap,
  Bool-cases,
}
use network_programming_demo.Chat.State.{Client, Server, no_client, initial}
use network_programming_demo.Chat.Env.Laws.{IsEnv}
use network_programming_demo.Chat.Invariant.{IsServer}
use network_programming_demo.Chat.Reach.{
  Event, arrive, leave, rename, assign, check, store_pipe, give_up, socket, run, Reach, empty, next,
}
use network_programming_demo.Chat.Reach.Users.{
  assign-IsServer, arrive-IsServer, leave-IsServer, rename-IsServer,
}
use network_programming_demo.Chat.Reach.Pipes.{
  store_pipe-IsServer, give_up-IsServer, check-IsServer,
}

place_free : (n k : ℕ) (d : Client) → get_elem? (replicate n no_client) k ≡ some d → d ≡ no_client
place_free zero k d p = cc
place_free (suc n) zero d p = ground arith
place_free (suc n) (suc k) d p = place_free n k d p

initial-IsServer : IsServer initial
initial-IsServer = record {
  table = record {
    sized = refl;
    bounded = omega arith;
    live_below = λ i c p n. absurd (n (ap (λ (x : Client). x.fd) (place_free 60 i c p)));
    distinct = λ i j c d p q e n. absurd (n (ap (λ (x : Client). x.fd) (place_free 60 i c p)));
  };
  names = record {
    unique = λ i j c d p q v w n s. absurd (v (ap (λ (x : Client). x.fd) (place_free 60 i c p)));
  };
  pipes = record { sender = λ s r n. absurd (n refl); receiver = λ s r n. absurd (n refl) };
  envs = λ i c p.
      subst (λ (x : Client). IsEnv x.env) (sym (place_free 60 i c p))
        (record { keys = refl; values = refl });
}

run-IsServer :
    (e : Event) (m m' : Server) → socket e ≢ 0 → IsServer m → run e m ≡ some m' → IsServer m'
run-IsServer (arrive fd ip port) m m' n v h = arrive-IsServer m m' fd port ip n v h
run-IsServer (leave fd) m m' n v h = leave-IsServer m m' fd n v h
run-IsServer (rename fd ops) m m' n v h = rename-IsServer m m' fd ops n v h
run-IsServer (assign fd env_str) m m' n v h = assign-IsServer m m' fd env_str n v h
run-IsServer (check fd line) m m' n v h = check-IsServer m m' fd line n v h
run-IsServer (store_pipe fd number read_end) m m' n v h =
    store_pipe-IsServer m m' fd number read_end n v h
run-IsServer (give_up fd number) m m' n v h = give_up-IsServer m m' fd number v h

-- Whatever users do and in whatever order the server serves them, as long as no service faults: no
-- socket is in two places and all users sit below the size, two users with one name are both still
-- without a name of their own, a pipe is in use only between users who are there, and the arrays of
-- the environments keep their size.
pub Reach-IsServer : {m : Server} → Reach m → IsServer m
Reach-IsServer empty = initial-IsServer
Reach-IsServer (next {m} {m'} e r h) = elim (Bool-cases (socket e == 0)) [
  | inl z ↦ absurd (ground arith)
  | inr n ↦ run-IsServer e m m' (ground arith) (Reach-IsServer r) (ground arith)
]
