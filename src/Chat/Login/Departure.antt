-- ===== src/Chat/Login/Departure.antt =====
-- A user goes: the place is freed with the user's pipes, and who is told.
use network_programming_demo.Prelude.{
  ℕ, zero, suc, ◌+◌, ◌-◌, ◌≤◌, ◌<◌, List, [], ◌∷◌, some, false, get_elem?, set, ◌≡◌, refl, sym,
  subst, ◌≢◌, ◌⊎◌, arith, ap, ◌∙◌, inl, inr, get_elem?-set_self, get_elem?-set_ne, Bool-cases,
}
use network_programming_demo.Text.Bytes.{codes}
use network_programming_demo.Chat.State.{
  Client, Server, Out, sockets, sockets_from, to_all, first_where, has_fd,
}
use network_programming_demo.Chat.State.Search.{first_where_of, lt_of_get_elem?}
use network_programming_demo.Chat.State.Table.{IsTable, get_elem?-set_cases, update-IsTable}
use network_programming_demo.Chat.State.Inbox.{inbox, inbox-to_all, count-sockets}
use network_programming_demo.Chat.State.Pipes.{IsUser, HasLivePipes}
use network_programming_demo.Chat.Talk.Names.{HasUniqueNames}
use network_programming_demo.Chat.Env.Laws.{IsEnv}
use network_programming_demo.Chat.Invariant.{IsServer}
use network_programming_demo.Chat.Login.{left, clear_pipes, sockets_but, broadcast_logout, logout}

sockets_but_from :
    (skip i n : ℕ) (cs : List Client)
    → ((k : ℕ) (d : Client) → get_elem? cs k ≡ some d → i + k ≡ skip → d.fd ≡ 0)
    → sockets_but skip i n cs ≡ sockets_from n cs
unfolding sockets_but sockets_from
sockets_but_from skip i zero cs h = refl
sockets_but_from skip i (suc n) [] h = refl
sockets_but_from skip i (suc n) (c ∷ cs) h = ground (
  arith,
  (λ (e : i ≡ skip). h 0 c refl (omega arith)),
  sockets_but_from skip (i + 1) n cs (λ k d p e. h (suc k) d p (omega arith)),
)

sockets_but-sockets :
    (m : Server) (skip : ℕ)
    → ((k : ℕ) (d : Client) → get_elem? m.clients k ≡ some d → k ≡ skip → d.fd ≡ 0)
    → sockets_but skip 0 m.size m.clients ≡ sockets m
unfolding sockets
sockets_but-sockets m skip h =
    sockets_but_from skip 0 m.size m.clients (λ k d p e. h k d p (omega arith))

module _ (m : Server) (i : ℕ) (c : Client) (v : IsServer m) (here : get_elem? m.clients i ≡ some c)
    (live : c.fd ≢ 0) (row : i < 30) where
  abbrev gone : Client
  gone = record c { fd = 0 }

  -- The state that `logout` leaves.
  abbrev pub departed : Server
  departed = record m {
    clients = set m.clients i gone;
    user_pipe = clear_pipes (i + 1) m.user_pipe;
  }

  abbrev pub farewell : Out
  farewell = to_all (sockets_but i 0 m.size (set m.clients i gone)) (left c.nickname)

  found : first_where (has_fd c.fd) (suc m.size) m.clients ≡ some i
  found =
      first_where_of (has_fd c.fd) (suc m.size) m.clients i c here (ground arith)
        (omega (arith, v.table.live_below i c here live)) λ k d l p. miss k d l p
    where
      miss : (k : ℕ) (d : Client) → k < i → get_elem? m.clients k ≡ some d → has_fd c.fd d ≡ false
      miss k d l p = elim (Bool-cases (has_fd c.fd d)) [
        | inr e ↦ e
        | inl e ↦
            let g : c.fd ≡ d.fd = ground arith in
            absurd (omega (arith, v.table.distinct i k c d here p g live))
      ]

  logout-departed : logout c.fd m ≡ some (farewell, departed)
  unfolding logout broadcast_logout
  logout-departed =
      let back : i + 1 - 1 ≡ i = omega arith in
      ground (
        arith,
        found,
        back,
        get_elem?-set_self m.clients i gone (lt_of_get_elem? m.clients i c here),
      )

  flag_kept :
      (s r : ℕ)
      → (clear_pipes (i + 1) m.user_pipe s r).flag ≢ 0
      → ((m.user_pipe s r).flag ≢ 0) × (0 < s → s ≤ 30 → 0 < r → r ≤ 30 → (s ≢ i + 1) × (r ≢ i + 1))
  unfolding clear_pipes
  flag_kept s r n = ground arith

  departed-IsUser : (s : ℕ) → IsUser m s → s ≢ i + 1 → IsUser departed s
  departed-IsUser s u n = record {
    place = u.place;
    client = u.client;
    numbered = u.numbered;
    within = u.within;
    here =
        get_elem?-set_ne m.clients i u.place gone
          (λ (z : i ≡ u.place). n (omega (arith, u.numbered)))
        ∙ u.here;
    live = u.live;
  }

  departed-HasLivePipes : HasLivePipes departed
  departed-HasLivePipes = record {
    sender = λ s r n. (both s r n).0;
    receiver = λ s r n. (both s r n).1;
  }
    where
      both :
          (s r : ℕ)
          → (clear_pipes (i + 1) m.user_pipe s r).flag ≢ 0
          → IsUser departed s × IsUser departed r
      both s r n =
          let (old, apart) = flag_kept s r n in
          let us = v.pipes.sender s r old in
          let ur = v.pipes.receiver s r old in
          let (ns, nr) =
            apart (omega (arith, us.numbered)) (omega (arith, us.numbered, us.within))
              (omega (arith, ur.numbered)) (omega (arith, ur.numbered, ur.within)) in
          (departed-IsUser s us ns, departed-IsUser r ur nr)

  departed-HasUniqueNames : HasUniqueNames departed
  departed-HasUniqueNames = record {
    unique = λ j k d e p q w x n s.
        go j k d e w x n s (get_elem?-set_cases m.clients i j gone d p)
          (get_elem?-set_cases m.clients i k gone e q);
  }
    where
      go :
          (j k : ℕ) (d e : Client)
          → d.fd ≢ 0
          → e.fd ≢ 0
          → j ≢ k
          → d.nickname ≡ e.nickname
          → ((j ≡ i) × (d ≡ gone)) ⊎ ((j ≢ i) × (get_elem? m.clients j ≡ some d))
          → ((k ≡ i) × (e ≡ gone)) ⊎ ((k ≢ i) × (get_elem? m.clients k ≡ some e))
          → d.nickname ≡ codes "(no name)"
      go j k d e w x n s (inl (_, f)) _ = absurd (w (ap (λ (z : Client). z.fd) f))
      go j k d e w x n s (inr _) (inl (_, f)) = absurd (x (ap (λ (z : Client). z.fd) f))
      go j k d e w x n s (inr (_, p)) (inr (_, q)) = v.names.unique j k d e p q w x n s

  departed-IsTable : IsTable departed
  departed-IsTable =
      let t = update-IsTable m i c gone v.table here (inr refl) in
      record {
        sized = t.sized;
        bounded = t.bounded;
        live_below = t.live_below;
        distinct = t.distinct;
      }

  pub logout-IsServer : (logout c.fd m ≡ some (farewell, departed)) × IsServer departed
  logout-IsServer = (
    logout-departed,
    record {
      table = departed-IsTable;
      names = departed-HasUniqueNames;
      pipes = departed-HasLivePipes;
      envs = λ j d p. elim (get_elem?-set_cases m.clients i j gone d p) [
        | inl (_, f) ↦ subst (λ (x : Client). IsEnv x.env) (sym f) (v.envs i c here)
        | inr (_, q) ↦ v.envs j d q
      ];
    },
  )

  -- When one of the first 30 users goes, only the user's socket and the flags of the user's pipes
  -- change, and the server keeps its invariant: no pipe that leads from the user or to the user is
  -- left. Every other user is told, once.
  pub logout_lem :
      (j : ℕ) (d : Client)
      → get_elem? departed.clients j ≡ some d
      → d.fd ≢ 0
      → (logout c.fd m ≡ some (farewell, departed))
        × IsServer departed
        × (inbox d.fd farewell ≡ left c.nickname ∷ [])
  logout_lem j d p n = (
    logout-IsServer.0,
    logout-IsServer.1,
    (inbox-to_all d.fd (sockets_but i 0 m.size (set m.clients i gone)) (left c.nickname)
        ∙ rw (
          sockets_but-sockets departed i (gone_free),
          count-sockets departed j d departed-IsTable p n,
        )),
  )
    where
      gone_free : (k : ℕ) (d : Client) → get_elem? departed.clients k ≡ some d → k ≡ i → d.fd ≡ 0
      gone_free k d p e = elim (get_elem?-set_cases m.clients i k gone d p) [
        | inl (_, f) ↦ ap (λ (x : Client). x.fd) f
        | inr (n, _) ↦ absurd (n e)
      ]
