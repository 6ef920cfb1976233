-- ===== src/Tests/Hall.antt =====
-- A server of project2/np_single_proc.cpp with two users, and its invariant.
use network_programming_demo.Prelude.{
  ℕ, zero, suc, [], ◌∷◌, some, get_elem?, replicate, ◌≡◌, refl, ◌≢◌, ◌⊎◌, arith, inl, inr, subst,
  sym,
}
use network_programming_demo.Text.Bytes.{codes}
use network_programming_demo.Chat.State.{EnvMap, Client, Server, no_client}
use network_programming_demo.Chat.State.Table.{IsTable}
use network_programming_demo.Chat.State.Pipes.{HasLivePipes}
use network_programming_demo.Chat.Env.Laws.{IsEnv}
use network_programming_demo.Chat.Talk.Names.{HasUniqueNames}
use network_programming_demo.Chat.Invariant.{IsServer}

abbrev pub path_env : EnvMap
path_env = record {
  env_num = 1;
  key = codes "PATH" ∷ replicate 99 [];
  value = codes "bin:." ∷ replicate 99 [];
}

abbrev pub alice : Client
alice = record {
  fd = 4;
  nickname = codes "alice";
  env = path_env;
  ip = codes "10.0.0.1";
  port = 1001;
}

abbrev pub bob : Client
bob = record {
  fd = 5;
  nickname = codes "(no name)";
  env = path_env;
  ip = codes "10.0.0.2";
  port = 1002;
}

abbrev pub hall : Server
hall = record {
  size = 2;
  clients = alice ∷ bob ∷ replicate 58 no_client;
  user_pipe = λ s r. record { pipe_fd = 0; flag = 0 };
}

place_free : (n k : ℕ) (d : Client) → get_elem? (replicate n no_client) k ≡ some d → d ≡ no_client
place_free zero k d p = cc
place_free (suc n) zero d p = ground arith
place_free (suc n) (suc k) d p = place_free n k d p

hall_places :
    (k : ℕ) (d : Client)
    → get_elem? hall.clients k ≡ some d
    → ((k ≡ 0) × (d ≡ alice)) ⊎ (((k ≡ 1) × (d ≡ bob)) ⊎ (d ≡ no_client))
hall_places zero d p = inl (refl, ground arith)
hall_places (suc zero) d p = inr (inl (refl, ground arith))
hall_places (suc (suc k)) d p = inr (inr (place_free 58 k d p))

pub hall-IsTable : IsTable hall
hall-IsTable = record {
  sized = refl;
  bounded = omega arith;
  live_below = λ i c p n. ground (arith, hall_places i c p);
  distinct = λ i j c d p q e n. ground (arith, hall_places i c p, hall_places j d q);
}

pub hall-HasUniqueNames : HasUniqueNames hall
hall-HasUniqueNames = record {
  unique = λ i j c d p q v w n s. ground (arith, hall_places i c p, hall_places j d q);
}

pub hall-HasLivePipes : HasLivePipes hall
hall-HasLivePipes = record {
  sender = λ s r n. absurd (n refl);
  receiver = λ s r n. absurd (n refl);
}

pub hall-IsServer : IsServer hall
hall-IsServer = record {
  table = hall-IsTable;
  names = hall-HasUniqueNames;
  pipes = hall-HasLivePipes;
  envs = λ i c p. elim (hall_places i c p) [
    | inl (_, e) ↦
        subst (λ (x : Client). IsEnv x.env) (sym e) (record { keys = refl; values = refl })
    | inr (inl (_, e)) ↦
        subst (λ (x : Client). IsEnv x.env) (sym e) (record { keys = refl; values = refl })
    | inr (inr e) ↦
        subst (λ (x : Client). IsEnv x.env) (sym e) (record { keys = refl; values = refl })
  ];
}

pub hall_absent : (k : ℕ) (d : Client) → get_elem? hall.clients k ≡ some d → d.fd ≢ 7
hall_absent k d p e = ground (arith, hall_places k d p)
