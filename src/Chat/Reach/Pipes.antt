-- ===== src/Chat/Reach/Pipes.antt =====
-- Pipes between users keep the server's invariant.
use network_programming_demo.Prelude.{
  ℕ, ◌+◌, some, ◌==◌, ◌&&◌, leb, ◌≡◌, refl, sym, subst, ◌≢◌, inl, inr, arith, ap, ◌∙◌, Option-cases,
  Bool-cases,
}
use network_programming_demo.Prelude.Int.{ℤ}
use network_programming_demo.Text.Bytes.{Bytes}
use network_programming_demo.Text.Find.{find}
use network_programming_demo.Chat.State.{UserPipe, Server, Out, client_index}
use network_programming_demo.Chat.State.Pipes.{IsUser}
use network_programming_demo.Chat.Invariant.{IsServer}
use network_programming_demo.Chat.UserPipe.{
  Gate, refused, passed, gate_state, partner, set_pipe, receive, offer, keep_pipe, drop_pipe,
  sending, receiving, sends_to_user, pipe_number, gates,
}
use network_programming_demo.Chat.UserPipe.Laws.{
  receive_cases, own-IsUser, partner-IsUser, set_pipe-IsTable, set_pipe-HasLivePipes,
}
use network_programming_demo.Chat.Reach.{check, run}
use network_programming_demo.Chat.Reach.Users.{client_index-some}

-- A pipe that changes keeps the invariant, where it is put in use between users only.
set_pipe-IsServer :
    (s r : ℕ) (p : UserPipe) (m : Server)
    → (p.flag ≢ 0 → IsUser m s × IsUser m r)
    → IsServer m
    → IsServer (set_pipe s r p m)
set_pipe-IsServer s r p m u v = record {
  table = set_pipe-IsTable s r p m v.table;
  names = record { unique = v.names.unique };
  pipes = set_pipe-HasLivePipes s r p m u v.pipes;
  envs = v.envs;
}

pub store_pipe-IsServer :
    (m m' : Server) (fd : ℕ) (number : ℤ) (read_end : ℕ)
    → fd ≢ 0
    → IsServer m
    → keep_pipe fd number read_end m ≡ some m'
    → IsServer m'
unfolding keep_pipe
store_pipe-IsServer m m' fd number read_end n v h = elim (Option-cases (client_index fd m)) [
  | inl e ↦ absurd (ground arith)
  | inr (i, e) ↦ elim (Option-cases (partner number m)) [
    | inl f ↦ let same : m ≡ m' = ground arith in subst IsServer same v
    | inr (r, f) ↦ elim (Bool-cases (leb (i + 1) 30)) [
      | inr over ↦ absurd (ground arith)
      | inl under ↦
          let (c, p, own) = client_index-some m fd i e in
          let u = partner-IsUser number m r f in
          let me : IsUser m (i + 1) =
            own-IsUser m i c v.table p (λ z. n (sym own ∙ z)) (ground arith) in
          elim (Bool-cases ((m.user_pipe (i + 1) r).flag == 0)) [
            | inr used ↦
                let same : m ≡ m' = ground (arith, u.numbered, u.within) in subst IsServer same v
            | inl unused ↦
                let same : set_pipe (i + 1) r (record { pipe_fd = read_end; flag = 1 }) m ≡ m' =
                  ground (arith, u.numbered, u.within) in
                subst IsServer same (
                  set_pipe-IsServer (i + 1) r (record { pipe_fd = read_end; flag = 1 }) m
                    (λ _. (me, u)) v)
          ]
    ]
  ]
]

receive-IsServer :
    (m : Server) (g : Gate) (fd : ℕ) (number : ℤ) (line : Bytes)
    → fd ≢ 0
    → IsServer m
    → receive fd number line m ≡ some g
    → IsServer (gate_state g)
receive-IsServer m g fd number line n v h = elim (Option-cases (client_index fd m)) [
  | inl e ↦ absurd (unfold receive in ground arith)
  | inr (i, e) ↦
      let (c, p, own) = client_index-some m fd i e in
      elim (Bool-cases (leb (i + 1) 30)) [
        | inr over ↦ elim (Option-cases (partner number m)) [
          | inl f ↦
              let same : m ≡ gate_state g = unfold receive in ground arith in subst IsServer same v
          | inr (s, f) ↦ absurd (unfold receive in ground arith)
        ]
        | inl under ↦
            let at : receive c.fd number line m ≡ some g =
              ap (λ x. receive x number line m) own ∙ h in
            elim (receive_cases m i c v.table p (λ z. n (sym own ∙ z)) (ground arith) number line) [
              | inl k ↦ let same : m ≡ gate_state g = ground (arith, at, k) in subst IsServer same v
              | inr (s, _, inl (_, k)) ↦
                  let same : m ≡ gate_state g = ground (arith, at, k) in subst IsServer same v
              | inr (s, _, inr (_, _, k)) ↦
                  let taken = record (m.user_pipe s (i + 1)) { flag = 0 } in
                  let same : set_pipe s (i + 1) taken m ≡ gate_state g = ground (arith, at, k) in
                  subst IsServer same (set_pipe-IsServer s (i + 1) taken m (λ z. absurd (z refl)) v)
            ]
      ]
]

offer-state :
    (m : Server) (g : Gate) (fd : ℕ) (number : ℤ) (line : Bytes)
    → offer fd number line m ≡ some g
    → gate_state g ≡ m
unfolding offer
offer-state m g fd number line h = elim (Option-cases (client_index fd m)) [
  | inl e ↦ absurd (ground arith)
  | inr (i, e) ↦ elim (Option-cases (partner number m)) [
    | inl f ↦ ground arith
    | inr (r, f) ↦ ground arith
  ]
]

sending-IsServer :
    (m : Server) (g : Gate) (fd : ℕ) (line : Bytes) (out : Out) (fd_in : ℕ)
    → IsServer m
    → sending fd line out fd_in m ≡ some g
    → IsServer (gate_state g)
unfolding sending
sending-IsServer m g fd line out fd_in v h = elim (Bool-cases (sends_to_user line)) [
  | inr e ↦ let same : m ≡ gate_state g = ground arith in subst IsServer same v
  | inl s ↦ elim (Option-cases (pipe_number b'>' line)) [
    | inl e ↦ absurd (ground arith)
    | inr (number, e) ↦ elim (Option-cases (offer fd number line m)) [
      | inl f ↦ absurd (ground arith)
      | inr (refused more m', f) ↦
          let same : m ≡ gate_state g =
            ground (arith, offer-state m (refused more m') fd number line f) in
          subst IsServer same v
      | inr (passed more m' k, f) ↦
          let same : m ≡ gate_state g =
            ground (arith, offer-state m (passed more m' k) fd number line f) in
          subst IsServer same v
    ]
  ]
]

receiving-IsServer :
    (m : Server) (g : Gate) (fd : ℕ) (line : Bytes)
    → fd ≢ 0
    → IsServer m
    → receiving fd line m ≡ some g
    → IsServer (gate_state g)
unfolding receiving
receiving-IsServer m g fd line n v h = elim (Option-cases (find b'<' line)) [
  | inl e ↦ let same : m ≡ gate_state g = ground arith in subst IsServer same v
  | inr (k, e) ↦ elim (Option-cases (pipe_number b'<' line)) [
    | inl f ↦ absurd (ground arith)
    | inr (number, f) ↦ receive-IsServer m g fd number line n v (ground arith)
  ]
]

pub check-IsServer :
    (m m' : Server) (fd : ℕ) (line : Bytes)
    → fd ≢ 0
    → IsServer m
    → run (check fd line) m ≡ some m'
    → IsServer m'
unfolding gates
check-IsServer m m' fd line n v h = elim (Option-cases (receiving fd line m)) [
  | inl e ↦ absurd (ground arith)
  | inr (refused out m'', e) ↦
      let same : m'' ≡ m' = ground arith in
      subst IsServer same (receiving-IsServer m (refused out m'') fd line n v e)
  | inr (passed out m'' fd_in, e) ↦ elim (Option-cases (sending fd line out fd_in m'')) [
    | inl f ↦ absurd (ground arith)
    | inr (g, f) ↦
        let same : gate_state g ≡ m' = ground arith in
        subst IsServer same (
          sending-IsServer m'' g fd line out fd_in
            (receiving-IsServer m (passed out m'' fd_in) fd line n v e) f)
  ]
]

pub give_up-IsServer :
    (m m' : Server) (fd : ℕ) (number : ℤ)
    → IsServer m
    → drop_pipe fd number m ≡ some m'
    → IsServer m'
unfolding drop_pipe
give_up-IsServer m m' fd number v h = elim (Option-cases (client_index fd m)) [
  | inl e ↦ absurd (ground arith)
  | inr (i, e) ↦ elim (Option-cases (partner number m)) [
    | inl f ↦ let same : m ≡ m' = ground arith in subst IsServer same v
    | inr (s, f) ↦ elim (Bool-cases (leb s 30 && leb (i + 1) 30)) [
      | inr over ↦ absurd (ground arith)
      | inl under ↦ elim (Bool-cases ((m.user_pipe s (i + 1)).flag == 1)) [
        | inr unused ↦ let same : m ≡ m' = ground arith in subst IsServer same v
        | inl used ↦
            let taken = record (m.user_pipe s (i + 1)) { flag = 0 } in
            let same : set_pipe s (i + 1) taken m ≡ m' = ground arith in
            subst IsServer same (set_pipe-IsServer s (i + 1) taken m (λ z. absurd (z refl)) v)
      ]
    ]
  ]
]
