-- ===== src/Chat/UserPipe/Laws.antt =====
-- A pipe between users: it is stored for one reading, refused otherwise, and leads from a user to a
-- user.
use network_programming_demo.Prelude.{
  ℕ, zero, suc, ◌+◌, ◌-◌, ◌<◌, [], ◌∷◌, some, ◌&&◌, get_elem?, ◌==◌, ◌≡◌, refl, sym, subst, ◌≢◌,
  ◌⊎◌, arith, ap, ◌∙◌, inl, inr, Option-cases, Bool-cases,
}
use network_programming_demo.Prelude.Int.{ℤ, pos, negsuc}
use network_programming_demo.Text.Bytes.{Bytes}
use network_programming_demo.Chat.State.{
  Client, UserPipe, Server, sockets, to_all, client_index, int_text,
}
use network_programming_demo.Chat.State.Table.{IsTable, client_index_of}
use network_programming_demo.Chat.State.Pipes.{IsUser, HasLivePipes}
use network_programming_demo.Chat.Talk.{no_user}
use network_programming_demo.Chat.UserPipe.{
  Gate, refused, passed, gate_state, partner, set_pipe, received_text, no_pipe, receive, keep_pipe,
}

pub partner_user :
    (m : Server) (j : ℕ) (d : Client)
    → get_elem? m.clients j ≡ some d
    → d.fd ≢ 0
    → j < 30
    → partner (pos (suc j)) m ≡ some (j + 1)
unfolding partner
partner_user m j d p n h = ground arith

pub partner-IsUser : (number : ℤ) (m : Server) (s : ℕ) → partner number m ≡ some s → IsUser m s
unfolding partner
partner-IsUser (pos zero) m s h = cc
partner-IsUser (negsuc k) m s h = cc
partner-IsUser (pos (suc n)) m s h = elim (Option-cases (get_elem? m.clients n)) [
  | inl e ↦ absurd (unfold partner in ground arith)
  | inr (c, e) ↦ record {
    place = n;
    client = c;
    numbered = ground arith;
    within = ground arith;
    here = e;
    live = ground arith;
  }
]

module _ (m : Server) (i : ℕ) (c : Client) (t : IsTable m) (here : get_elem? m.clients i ≡ some c)
    (live : c.fd ≢ 0) (row : i < 30) where
  pub own : client_index c.fd m ≡ some i
  own = client_index_of m i c.fd c t here refl live

  pub own-IsUser : IsUser m (i + 1)
  own-IsUser = record {
    place = i;
    client = c;
    numbered = omega arith;
    within = row;
    here = here;
    live = live;
  }

  -- What `keep_pipe` may do to the state: nothing, or store the pipe for a user who has none.
  pub keep_pipe_cases :
      (number : ℤ) (read_end : ℕ)
      → (keep_pipe c.fd number read_end m ≡ some m)
        ⊎ ((r : ℕ) × (partner number m ≡ some r)
            × ((m.user_pipe (i + 1) r).flag ≡ 0)
            × (keep_pipe c.fd number read_end m
                ≡ some (set_pipe (i + 1) r (record { pipe_fd = read_end; flag = 1 }) m)))
  unfolding keep_pipe
  keep_pipe_cases number read_end = elim (Option-cases (partner number m)) [
    | inl e ↦ inl (ground (arith, own))
    | inr (r, e) ↦
        let u = partner-IsUser number m r e in
        elim (Bool-cases ((m.user_pipe (i + 1) r).flag == 0)) [
          | inl f ↦ inr (r, e, ground arith, ground (arith, own, u.numbered, u.within))
          | inr f ↦ inl (ground (arith, own, u.numbered, u.within))
        ]
  ]

  -- The check of `<n`: the caller alone learns that there is no such user or pipe; else all users are
  -- told, the pipe is emptied, and its read end is the command's input.
  pub receive_cases :
      (number : ℤ) (line : Bytes)
      → (receive c.fd number line m ≡ some (refused ((c.fd, no_user (int_text number)) ∷ []) m))
        ⊎ ((s : ℕ) × (partner number m ≡ some s)
            × ((((m.user_pipe s (i + 1)).flag ≡ 0)
                  × (receive c.fd number line m
                      ≡ some (refused ((c.fd, no_pipe s (i + 1)) ∷ []) m)))
                ⊎ ((sender : Client) × (get_elem? m.clients (s - 1) ≡ some sender)
                    × (receive c.fd number line m
                        ≡ some (
                            passed
                              (to_all
                                (sockets m)
                                (received_text c.nickname (i + 1) sender.nickname s line))
                              (set_pipe s (i + 1) (record (m.user_pipe s (i + 1)) { flag = 0 }) m)
                              (m.user_pipe s (i + 1)).pipe_fd)))))
  unfolding receive
  receive_cases number line = elim (Option-cases (partner number m)) [
    | inl e ↦ inl (ground (arith, own))
    | inr (s, e) ↦
        let u = partner-IsUser number m s e in
        let back : i + 1 - 1 ≡ i = omega arith in
        let place : s - 1 ≡ u.place = omega (arith, u.numbered) in
        inr (
          s,
          e,
          (elim (Bool-cases ((m.user_pipe s (i + 1)).flag == 0)) [
            | inl f ↦ inl (ground arith, ground (arith, own, u.numbered, u.within))
            | inr f ↦ inr (
              u.client,
              ap (get_elem? m.clients) place ∙ u.here,
              ground (
                arith,
                own,
                u.numbered,
                u.within,
                back,
                ap (get_elem? m.clients) place ∙ u.here,
                ap (get_elem? m.clients) back ∙ here,
              ),
            )
          ]),
        )
  ]

pub set_pipe_at : (s r : ℕ) (p : UserPipe) (m : Server) → (set_pipe s r p m).user_pipe s r ≡ p
set_pipe_at s r p m = ground arith

set_pipe-IsUser :
    (s r : ℕ) (p : UserPipe) (m : Server) (a : ℕ) → IsUser m a → IsUser (set_pipe s r p m) a
set_pipe-IsUser s r p m a u = record {
  place = u.place;
  client = u.client;
  numbered = u.numbered;
  within = u.within;
  here = u.here;
  live = u.live;
}

pub set_pipe-IsTable :
    (s r : ℕ) (p : UserPipe) (m : Server) → IsTable m → IsTable (set_pipe s r p m)
set_pipe-IsTable s r p m t = record {
  sized = t.sized;
  bounded = t.bounded;
  live_below = t.live_below;
  distinct = t.distinct;
}

-- A pipe that is put in use is one between users.
pub set_pipe-HasLivePipes :
    (s r : ℕ) (p : UserPipe) (m : Server)
    → (p.flag ≢ 0 → IsUser m s × IsUser m r)
    → HasLivePipes m
    → HasLivePipes (set_pipe s r p m)
set_pipe-HasLivePipes s r p m u l = record {
  sender = λ a b n. set_pipe-IsUser s r p m a (both a b n).0;
  receiver = λ a b n. set_pipe-IsUser s r p m b (both a b n).1;
}
  where
    both : (a b : ℕ) → ((set_pipe s r p m).user_pipe a b).flag ≢ 0 → IsUser m a × IsUser m b
    both a b n = elim (Bool-cases (a == s && b == r)) [
      | inl e ↦
          let (x, y) = u (λ z. n (rw e z)) in
          let f : a ≡ s = ground arith in
          let g : b ≡ r = ground arith in (subst (IsUser m) (sym f) x, subst (IsUser m) (sym g) y)
      | inr e ↦
          let k : (m.user_pipe a b).flag ≢ 0 = λ z. n (rw e z) in (l.sender a b k, l.receiver a b k)
    ]

module _ (m : Server) (i : ℕ) (c : Client) (t : IsTable m) (here : get_elem? m.clients i ≡ some c)
    (live : c.fd ≢ 0) (row : i < 30) (l : HasLivePipes m) where
  -- Storing and handing over a pipe, by a user who has a row, does not fault, and leaves only pipes
  -- between users.
  pub pipes-HasLivePipes :
      (number : ℤ) (read_end : ℕ) (line : Bytes)
      → ((m' : Server) × (keep_pipe c.fd number read_end m ≡ some m') × HasLivePipes m')
        × ((g : Gate) × (receive c.fd number line m ≡ some g) × HasLivePipes (gate_state g))
  pipes-HasLivePipes number read_end line = (
    elim (keep_pipe_cases m i c t here live row number read_end) [
      | inl e ↦ (m, e, l)
      | inr (r, u, _, e) ↦ (
        _,
        e,
        set_pipe-HasLivePipes (i + 1) r (record { pipe_fd = read_end; flag = 1 }) m
            (λ _. (own-IsUser m i c t here live row, partner-IsUser number m r u)) l,
      )
    ],
    elim (receive_cases m i c t here live row number line) [
      | inl e ↦ (_, e, l)
      | inr (s, u, inl (_, e)) ↦ (_, e, l)
      | inr (s, u, inr (sender, _, e)) ↦ (
        _,
        e,
        set_pipe-HasLivePipes s (i + 1) (record (m.user_pipe s (i + 1)) { flag = 0 }) m
            (λ z. absurd (z refl)) l,
      )
    ],
  )
