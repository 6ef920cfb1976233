-- ===== src/Chat/Login/Arrival.antt =====
-- A user comes: the server keeps its invariant, where the user sits, and who is told.
use network_programming_demo.Prelude.{
  ℕ, ◌+◌, ◌<◌, List, [], ◌∷◌, some, get_elem?, set, ◌≡◌, refl, sym, subst, ◌≢◌, arith, ◌∙◌, inl,
  inr, get_elem?-set_self, get_elem?-set_ne,
}
use network_programming_demo.Text.Bytes.{Bytes, codes}
use network_programming_demo.Text.Tokens.{tokens}
use network_programming_demo.Chat.State.{EnvMap, Client, Server, sockets, update}
use network_programming_demo.Chat.State.Search.{lt_of_get_elem?}
use network_programming_demo.Chat.State.Table.{Absent, IsTable, get_elem?-set_cases}
use network_programming_demo.Chat.State.Inbox.{inbox, inbox-to_all, count, count-sockets}
use network_programming_demo.Chat.Env.{store, key_and_value}
use network_programming_demo.Chat.Env.Laws.{IsEnv, load_env_lem, store_total}
use network_programming_demo.Chat.Invariant.{IsServer, update-IsServer}
use network_programming_demo.Chat.Login.{banner, entered, others, welcome, free_index, seat, login}
use network_programming_demo.Chat.Login.Laws.{
  newcomer, seat-IsTable, seat-HasUniqueNames, seat-HasLivePipes,
}

path_tokens : key_and_value (tokens b'=' (codes "PATH=bin:.")) ≡ some (codes "PATH", codes "bin:.")
unfolding tokens
path_tokens = refl

pub seat-clients :
    (fd : ℕ) (ip : Bytes) (port i : ℕ) (old : Client) (m : Server)
    → (seat fd ip port i old m).clients ≡ set m.clients i (newcomer m fd ip port i old)
unfolding seat
seat-clients fd ip port i old m = refl

module _ (m : Server) (fd : ℕ) (ip : Bytes) (port i : ℕ) (old : Client) (v : IsServer m)
    (f : free_index m ≡ some i) (p : get_elem? m.clients i ≡ some old) (a : Absent fd m) where
  pub seat-IsServer : IsServer (seat fd ip port i old m)
  seat-IsServer = record {
    table = seat-IsTable m fd ip port i old v.table f p a;
    names = seat-HasUniqueNames m fd ip port i old v.names;
    pipes = seat-HasLivePipes m fd ip port i old f p v.pipes;
    envs = λ j d q.
        elim (get_elem?-set_cases m.clients i j (newcomer m fd ip port i old) d
          (rw seat-clients at q)) [
            | inl (_, e) ↦ subst (λ (x : Client). IsEnv x.env) (sym e) (v.envs i old p)
            | inr (_, r) ↦ v.envs j d r
          ];
  }

  -- A user whose socket is new gets the first free place below the last, with the name "(no name)" and
  -- the environment that its last user left, with PATH stored in it: over a PATH among its variables, or
  -- else, with one more variable counted, at the index that is the count of the following place, which is
  -- taken to be below 100. The server keeps its invariant.
  pub login_lem :
      (d : Client)
      → fd ≢ 0
      → get_elem? m.clients (i + 1) ≡ some d
      → d.env.env_num < 100
      → (e : EnvMap) × (store old.env d.env.env_num (codes "PATH") (codes "bin:.") ≡ some e)
        × (login fd ip port m
            ≡ some (
              welcome fd ip port m,
              update (seat fd ip port i old m) i (record (newcomer m fd ip port i old) { env = e }),
            ))
        × IsServer
            (update (seat fd ip port i old m) i (record (newcomer m fd ip port i old) { env = e }))
  unfolding login
  login_lem d n q k =
      let new = newcomer m fd ip port i old in
      let s = seat fd ip port i old m in
      let at : get_elem? s.clients i ≡ some new =
        rw seat-clients (get_elem?-set_self m.clients i new (lt_of_get_elem? m.clients i old p)) in
      let next : get_elem? s.clients (i + 1) ≡ some d =
        rw seat-clients
          (get_elem?-set_ne m.clients i (i + 1) new (λ (z : i ≡ i + 1). omega arith) ∙ q) in
      let (e, stored, sized) =
        store_total old.env d.env.env_num (codes "PATH") (codes "bin:.") (v.envs i old p) k
          (omega arith) (omega arith) in
      let loaded =
        load_env_lem s i new d seat-IsServer.table at n (codes "PATH=bin:.") (codes "PATH")
          (codes "bin:.") path_tokens next in
      (
        e,
        stored,
        rw (f, p, loaded, stored),
        update-IsServer s i new (record new { env = e }) at refl refl seat-IsServer sized,
      )

count-others_self : (fd : ℕ) (gs : List ℕ) → count fd (others fd gs) ≡ 0
count-others_self fd [] = refl
count-others_self fd (h ∷ gs) = ground (arith, count-others_self fd gs)

count-others_ne : (fd g : ℕ) (gs : List ℕ) → g ≢ fd → count g (others fd gs) ≡ count g gs
count-others_ne fd g [] n = refl
count-others_ne fd g (h ∷ gs) n = ground (arith, count-others_ne fd g gs n)

-- On arrival the newcomer gets banner, announcement and prompt in this order, and every user who is
-- there gets the announcement, once.
welcome-inbox :
    (m : Server) (fd : ℕ) (ip : Bytes) (port j : ℕ) (d : Client)
    → IsTable m
    → get_elem? m.clients j ≡ some d
    → d.fd ≢ 0
    → d.fd ≢ fd
    → (inbox fd (welcome fd ip port m) ≡ banner ∷ entered ip port ∷ codes "% " ∷ [])
      × (inbox d.fd (welcome fd ip port m) ≡ entered ip port ∷ [])
unfolding welcome
welcome-inbox m fd ip port j d t p n o = (
  ground (
    arith,
    inbox-to_all fd (others fd (sockets m)) (entered ip port),
    count-others_self fd (sockets m),
  ),
  ground (
    arith,
    inbox-to_all d.fd (others fd (sockets m)) (entered ip port),
    count-others_ne fd d.fd (sockets m) o,
    count-sockets m j d t p n,
  ),
)
