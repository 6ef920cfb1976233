-- ===== src/Chat/Reach/Users.antt =====
-- Users who come, go, take names and set variables keep the server's invariant.
use network_programming_demo.Prelude.{
  ℕ, zero, suc, ◌+◌, ◌<◌, List, [], ◌∷◌, Option, none, some, true, leb, ltb, length, get_elem?, ◌≡◌,
  refl, sym, subst, ◌≢◌, inl, inr, arith, ap, ◌∙◌, Option-cases, Bool-cases, ==_iff,
  get_elem?-set_self,
}
use network_programming_demo.Text.Bytes.{Bytes, codes}
use network_programming_demo.Chat.State.{
  Client, Server, first_where, has_fd, client_index, sockets, to_all, update,
}
use network_programming_demo.Chat.State.Table.{Absent}
use network_programming_demo.Chat.State.Search.{first_where-BreaksAt, lt_of_get_elem?}
use network_programming_demo.Chat.Env.{load_env}
use network_programming_demo.Chat.Env.Laws.{Changes, load_env-Changes}
use network_programming_demo.Chat.Invariant.{
  IsServer, update-IsServer, update-HasLivePipes, update-IsEnv,
}
use network_programming_demo.Chat.Login.{login, logout, seat, free_index, broadcast_logout}
use network_programming_demo.Chat.Login.Laws.{newcomer}
use network_programming_demo.Chat.Login.Arrival.{seat-IsServer, seat-clients}
use network_programming_demo.Chat.Login.Departure.{departed, logout-IsServer}
use network_programming_demo.Chat.Talk.{execute_name, is_taken, last_place, named}
use network_programming_demo.Chat.Talk.Names.{last_place-some, execute_name-HasUniqueNames}
use network_programming_demo.Chat.Reach.{arrive, leave, rename, is_new, run}

is_new-Absent :
    (fd : ℕ) (cs : List Client) (k : ℕ) (d : Client)
    → is_new fd cs ≡ true
    → get_elem? cs k ≡ some d
    → d.fd ≢ fd
is_new-Absent fd [] k d h p = cc
is_new-Absent fd (c ∷ cs) zero d h p = ground arith
is_new-Absent fd (c ∷ cs) (suc k) d h p = is_new-Absent fd cs k d (ground arith) p

-- The user whose socket the search has found.
pub client_index-some :
    (m : Server) (fd i : ℕ)
    → client_index fd m ≡ some i
    → (c : Client) × (get_elem? m.clients i ≡ some c) × (c.fd ≡ fd)
unfolding client_index
client_index-some m fd i h =
    let b = first_where-BreaksAt (has_fd fd) m.size m.clients i h in
    (b.client, b.here, (==_iff b.client.fd fd).0 b.passes)

Changes-IsServer :
    (m m' : Server) (i : ℕ) (c : Client) (o : Option Server)
    → IsServer m
    → get_elem? m.clients i ≡ some c
    → Changes m i c o
    → o ≡ some m'
    → IsServer m'
Changes-IsServer m m' i c none v p h e = cc
Changes-IsServer m m' i c (some m'') v p (env, g, k) e =
    let same : update m i (record c { env = env }) ≡ m' = cc in
    subst IsServer same (update-IsServer m i c (record c { env = env }) p refl refl v k)

assigned :
    (m m' : Server) (i fd : ℕ) (c : Client) (env_str : Bytes)
    → IsServer m
    → get_elem? m.clients i ≡ some c
    → c.fd ≡ fd
    → fd ≢ 0
    → load_env fd env_str m ≡ some m'
    → IsServer m'
assigned m m' i fd c env_str v p e n h =
    Changes-IsServer m m' i c (load_env c.fd env_str m) v p
      (load_env-Changes m i c env_str v.table p (λ z. n (sym e ∙ z)) (v.envs i c p))
      (ap (λ x. load_env x env_str m) e ∙ h)

pub assign-IsServer :
    (m m' : Server) (fd : ℕ) (env_str : Bytes)
    → fd ≢ 0
    → IsServer m
    → load_env fd env_str m ≡ some m'
    → IsServer m'
assign-IsServer m m' fd env_str n v h = elim (Option-cases (client_index fd m)) [
  | inl e ↦ absurd (unfold load_env in ground arith)
  | inr (i, e) ↦
      let (c, p, f) = client_index-some m fd i e in assigned m m' i fd c env_str v p f n h
]

pub arrive-IsServer :
    (m m' : Server) (fd port : ℕ) (ip : Bytes)
    → fd ≢ 0
    → IsServer m
    → run (arrive fd ip port) m ≡ some m'
    → IsServer m'
unfolding login
arrive-IsServer m m' fd port ip n v h = elim (Option-cases (free_index m)) [
  | inl e ↦ absurd (ground arith)
  | inr (i, e) ↦ elim (Option-cases (get_elem? m.clients i)) [
    | inl f ↦ absurd (ground arith)
    | inr (old, f) ↦
        let a : Absent fd m = λ k d p. is_new-Absent fd m.clients k d (ground arith) p in
        let s = seat fd ip port i old m in
        let new = newcomer m fd ip port i old in
        let at : get_elem? s.clients i ≡ some new =
          ap (λ cs. get_elem? cs i) (seat-clients fd ip port i old m)
          ∙ get_elem?-set_self m.clients i new (lt_of_get_elem? m.clients i old f) in
        assigned s m' i fd new (codes "PATH=bin:.") (seat-IsServer m fd ip port i old v e f a) at
          refl n (ground arith)
  ]
]

pub leave-IsServer :
    (m m' : Server) (fd : ℕ) → fd ≢ 0 → IsServer m → run (leave fd) m ≡ some m' → IsServer m'
leave-IsServer m m' fd n v h =
    elim (Option-cases (first_where (has_fd fd) (suc m.size) m.clients)) [
      | inl e ↦ let same : m ≡ m' = unfold logout in ground arith in subst IsServer same v
      | inr (i, e) ↦
          let b = first_where-BreaksAt (has_fd fd) (suc m.size) m.clients i e in
          let own : b.client.fd ≡ fd = (==_iff b.client.fd fd).0 b.passes in
          let live : b.client.fd ≢ 0 = λ z. n (sym own ∙ z) in
          elim (Bool-cases (leb (i + 1) 30)) [
            | inr over ↦ absurd (unfold logout broadcast_logout in ground (arith, b.here))
            | inl under ↦
                let row : i < 30 = ground arith in
                let (gone, kept) = logout-IsServer m i b.client v b.here live row in
                let same : departed m i b.client v b.here live row ≡ m' =
                  ground (arith, ap (λ x. logout x m) own, gone) in
                subst IsServer same kept
          ]
    ]

pub rename-IsServer :
    (m m' : Server) (fd : ℕ) (ops : List Bytes)
    → fd ≢ 0
    → IsServer m
    → run (rename fd ops) m ≡ some m'
    → IsServer m'
unfolding execute_name
rename-IsServer m m' fd ops n v h = elim (Option-cases (get_elem? ops 1)) [
  | inl e ↦ absurd (ground arith)
  | inr (name, e) ↦ elim (Bool-cases (ltb (length name) 100)) [
    | inr long ↦ absurd (ground arith)
    | inl fits ↦ elim (Bool-cases (is_taken fd name m.size m.clients)) [
      | inl taken ↦ let same : m ≡ m' = ground arith in subst IsServer same v
      | inr free ↦ elim (Option-cases (last_place fd m.size m.clients)) [
        | inl nowhere ↦ absurd (ground arith)
        | inr (i, q) ↦
            let (c, p, own, _) = last_place-some fd m.size m.clients i q in
            let c' = record c { nickname = name } in
            let out = to_all (sockets m) (named c.ip c.port name) in
            let k : execute_name fd ops m ≡ some (out, update m i c') = ground arith in
            let same : update m i c' ≡ m' = ground arith in
            let (t, u) =
              execute_name-HasUniqueNames m i fd c v.table p own n ops name out (update m i c') e
                (ground arith) v.names k in
            subst IsServer same (record {
              table = t;
              names = u;
              pipes = update-HasLivePipes m i c c' p refl v.pipes;
              envs = update-IsEnv m i c c' p refl v.envs (v.envs i c p);
            })
      ]
    ]
  ]
]
