-- ===== src/Chat/Invariant.antt =====
-- The invariant of the server between commands, and a change of a user that keeps it.
use network_programming_demo.Prelude.{
  ℕ, suc, some, get_elem?, ◌≡◌, refl, sym, subst, ◌≢◌, ◌⊎◌, arith, ap, ◌∙◌, inl, inr,
  get_elem?-set_self, get_elem?-set_ne,
}
use network_programming_demo.Chat.State.{Client, Server, update}
use network_programming_demo.Chat.State.Search.{lt_of_get_elem?}
use network_programming_demo.Chat.State.Table.{IsTable, update-IsTable, get_elem?-set_cases}
use network_programming_demo.Chat.State.Pipes.{IsUser, HasLivePipes}
use network_programming_demo.Chat.Env.Laws.{IsEnv}
use network_programming_demo.Chat.Talk.Names.{HasUniqueNames}

pub record IsServer (m : Server) : Type 0 where
  pub table : IsTable m
  pub names : HasUniqueNames m
  pub pipes : HasLivePipes m
  pub envs : (i : ℕ) (c : Client) → get_elem? m.clients i ≡ some c → IsEnv c.env

-- The user keeps the socket.
module _ (m : Server) (i : ℕ) (c c' : Client) (here : get_elem? m.clients i ≡ some c)
    (fds : c'.fd ≡ c.fd) where
  update-IsUser : (s : ℕ) → IsUser m s → IsUser (update m i c') s
  update-IsUser s u = elim (decide_place s u) [
    | inl e ↦ record {
      place = i;
      client = c';
      numbered = u.numbered ∙ ap suc e;
      within = omega (arith, u.within);
      here = get_elem?-set_self m.clients i c' (lt_of_get_elem? m.clients i c here);
      live = λ z. u.live (ap (λ (x : Client). x.fd) (owner e) ∙ sym fds ∙ z);
    }
    | inr n ↦ record {
      place = u.place;
      client = u.client;
      numbered = u.numbered;
      within = u.within;
      here = get_elem?-set_ne m.clients i u.place c' (λ z. n (sym z)) ∙ u.here;
      live = u.live;
    }
  ]
    where
      decide_place : (s : ℕ) (u : IsUser m s) → (u.place ≡ i) ⊎ (u.place ≢ i)
      decide_place s u = ground arith

      owner : u.place ≡ i → u.client ≡ c
      owner e = cc (u.here, ap (get_elem? m.clients) e, here)

  pub update-HasLivePipes : HasLivePipes m → HasLivePipes (update m i c')
  update-HasLivePipes l = record {
    sender = λ s r n. update-IsUser s (l.sender s r n);
    receiver = λ s r n. update-IsUser r (l.receiver s r n);
  }

  pub update-IsEnv :
      ((j : ℕ) (d : Client) → get_elem? m.clients j ≡ some d → IsEnv d.env)
      → IsEnv c'.env
      → (j : ℕ) (d : Client) → get_elem? (update m i c').clients j ≡ some d
      → IsEnv d.env
  update-IsEnv all k j d p = elim (get_elem?-set_cases m.clients i j c' d p) [
    | inl (_, f) ↦ subst (λ (x : Client). IsEnv x.env) (sym f) k
    | inr (_, q) ↦ all j d q
  ]

-- The user keeps socket and name.
module _ (m : Server) (i : ℕ) (c c' : Client) (here : get_elem? m.clients i ≡ some c)
    (fds : c'.fd ≡ c.fd) (nicks : c'.nickname ≡ c.nickname) where
  same_user :
      (j : ℕ) (d : Client)
      → get_elem? (update m i c').clients j ≡ some d
      → (e : Client) × (get_elem? m.clients j ≡ some e) × (d.fd ≡ e.fd) × (d.nickname ≡ e.nickname)
  same_user j d p = elim (get_elem?-set_cases m.clients i j c' d p) [
    | inl (e, f) ↦ (
      c,
      ap (get_elem? m.clients) e ∙ here,
      ap (λ (x : Client). x.fd) f ∙ fds,
      ap (λ (x : Client). x.nickname) f ∙ nicks,
    )
    | inr (_, q) ↦ (d, q, refl, refl)
  ]

  update-HasUniqueNames : HasUniqueNames m → HasUniqueNames (update m i c')
  update-HasUniqueNames u = record {
    unique = λ j k d e p q v w n s.
        let (d', p', fd, nd) = same_user j d p in
        let (e', q', fe, ne) = same_user k e q in
        nd ∙ u.unique j k d' e' p' q' (λ z. v (fd ∙ z)) (λ z. w (fe ∙ z)) n (sym nd ∙ s ∙ ne);
  }

  pub update-IsServer : IsServer m → IsEnv c'.env → IsServer (update m i c')
  update-IsServer v k = record {
    table = update-IsTable m i c c' v.table here (inl fds);
    names = update-HasUniqueNames v.names;
    pipes = update-HasLivePipes m i c c' here fds v.pipes;
    envs = update-IsEnv m i c c' here fds v.envs k;
  }
