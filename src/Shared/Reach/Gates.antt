-- ===== src/Shared/Reach/Gates.antt =====
-- The checks of pipes between users, and the handler that opens FIFOs, keep the invariant.
use network_programming_demo.Prelude.{
  ℕ, zero, suc, List, [], ◌∷◌, some, >>=-eq-some, ◌==◌, ◌||◌, ltb, length, length-set, get_elem?,
  set, ◌≡◌, refl, subst, ◌∙◌, inl, inr, arith, Option-cases, Bool-cases,
}
use network_programming_demo.Prelude.Int.{ℤ, pos, negsuc}
use network_programming_demo.Text.Bytes.{Bytes}
use network_programming_demo.Text.Find.{find}
use network_programming_demo.Chat.UserPipe.{pipe_number, sends_to_user}
use network_programming_demo.Shared.State.{Fifo, Client, Shm, Effect, Outcome, cut, fit, no_fifo}
use network_programming_demo.Shared.Fifo.{
  Os, Gate, refused, passed, after, receive_from, offer_to, receive, receiving, offer, sending,
  gates, finish, sig_usr2, open_fifos, name_fifo, hand_over, fifo_name, received_text, piped_text,
}
use network_programming_demo.Shared.Reach.{gate_state}
use network_programming_demo.Shared.Reach.Invariant.{
  IsClient, IsShm, broadcast-IsShm, set-IsShm, client_at,
}
use network_programming_demo.Shared.Reach.Texts.{
  cut-IsMsg, fit-IsMsg, received_text-ne-nil, piped_text-ne-nil,
}

length-open_fifos : (os : Os) (fs : List Fifo) → length (open_fifos os fs).0 ≡ length fs
unfolding open_fifos
length-open_fifos os [] = refl
length-open_fifos os (f ∷ fs) = ground (arith, length-open_fifos os fs)

rows-IsClient :
    (i : ℕ) (c : Client) (fs : List Fifo)
    → length fs ≡ length c.fifo
    → IsClient i c
    → IsClient i (record c { fifo = fs })
rows-IsClient i c fs l p = record {
  numbered = p.numbered;
  named = p.named;
  boxes = p.boxes;
  senders = p.senders;
  pipes = l ∙ p.pipes;
}

pub sig_usr2-IsClient : (os : Os) (i : ℕ) (c : Client) → IsClient i c → IsClient i (sig_usr2 os c).0
unfolding sig_usr2
sig_usr2-IsClient os i c p =
    rows-IsClient i c (open_fifos os c.fifo).0 (length-open_fifos os c.fifo) p

name_fifo-IsClient :
    (os : Os) (me r : ℕ) (name : Bytes) (d : Client)
    → IsClient r d
    → IsClient r (name_fifo os me r name d).0
unfolding name_fifo
name_fifo-IsClient os me r name d p =
    let f : Fifo = record { fd = 0; filename = name } in
    let d' = record d { fifo = set d.fifo me f } in
    let q = rows-IsClient r d (set d.fifo me f) (length-set d.fifo me f) p in
    elim (Bool-cases (r == me)) [
      | inl e ↦ rw (name_fifo, e) (sig_usr2-IsClient os r d' q)
      | inr e ↦ rw (name_fifo, e) q
    ]

hand_over-IsShm :
    (os : Os) (me : ℕ) (c : Client) (r : ℕ) (d : Client) (line : Bytes) (shm : Shm)
    → IsShm shm
    → get_elem? shm r ≡ some d
    → IsShm (hand_over os me c r d line shm).0
unfolding hand_over
hand_over-IsShm os me c r d line shm h e =
    let d' = (name_fifo os me r (fifo_name c.id (suc r)) d).0 in
    broadcast-IsShm me (cut (piped_text c line d (suc r))) (set shm r d')
      (cut-IsMsg _ (piped_text-ne-nil c line d (suc r)))
      (set-IsShm r shm d' h
        (name_fifo-IsClient os me r (fifo_name c.id (suc r)) d (client_at r shm d h e)))

gate : {g g' : Gate} → some g ≡ some g' → IsShm (gate_state g) → IsShm (gate_state g')
gate {g = g} {g' = g'} e h = subst IsShm {x = gate_state g} {y = gate_state g'} (cc) h

receive_from-IsShm :
    (me s : ℕ) (d c : Client) (f : Fifo) (line : Bytes) (shm : Shm) (g : Gate)
    → IsShm shm
    → receive_from me s d c f line shm ≡ some g
    → IsShm (gate_state g)
unfolding receive_from
receive_from-IsShm me s d c f line shm g h e = elim (Bool-cases (d.id == 0)) [
  | inl gone ↦ gate (rw (receive_from, gone) at e) h
  | inr there ↦ elim (Bool-cases (f.fd == 0)) [
    | inl shut ↦ gate (rw (receive_from, there, shut) at e) h
    | inr ready ↦
        let (msg, t, k) =
          >>=-eq-some (fit (received_text c d line)) _ (rw (receive_from, there, ready) at e) in
        gate k (broadcast-IsShm me msg shm (fit-IsMsg _ msg (received_text-ne-nil c d line) t) h)
  ]
]

receive-IsShm :
    (me : ℕ) (n : ℤ) (line : Bytes) (shm : Shm) (g : Gate)
    → IsShm shm
    → receive me n line shm ≡ some g
    → IsShm (gate_state g)
unfolding receive
receive-IsShm me (negsuc n) line shm g h e = gate e h
receive-IsShm me (pos zero) line shm g h e = cc
receive-IsShm me (pos (suc s)) line shm g h e = elim (Bool-cases (ltb 29 s)) [
  | inl far ↦ gate (rw (receive, far) at e) h
  | inr near ↦
      let (d, _, e1) = >>=-eq-some (get_elem? shm s) _ (rw (receive, near) at e) in
      let (c, _, e2) = >>=-eq-some (get_elem? shm me) _ e1 in
      let (f, _, e3) = >>=-eq-some (get_elem? c.fifo s) _ e2 in
      receive_from-IsShm me s d c f line shm g h e3
]

offer_to-IsShm :
    (os : Os) (me r : ℕ) (d c : Client) (f : Fifo) (line : Bytes) (fd_in : ℕ) (shm : Shm) (g : Gate)
    → IsShm shm
    → get_elem? shm r ≡ some d
    → offer_to os me r d c f line fd_in shm ≡ some g
    → IsShm (gate_state g)
unfolding offer_to
offer_to-IsShm os me r d c f line fd_in shm g h p e = elim (Bool-cases (d.id == 0)) [
  | inl gone ↦ gate (rw (offer_to, gone) at e) h
  | inr there ↦ elim (Bool-cases (f.fd == 0)) [
    | inr taken ↦ gate (rw (offer_to, there, taken) at e) h
    | inl clear ↦ elim (Bool-cases (os.mkfifo (fifo_name c.id (suc r)))) [
      | inl can ↦
          gate (rw (offer_to, there, clear, can) at e) (hand_over-IsShm os me c r d line shm h p)
      | inr failed ↦ gate (rw (offer_to, there, clear, failed) at e) h
    ]
  ]
]

offer-IsShm :
    (os : Os) (me : ℕ) (n : ℤ) (line : Bytes) (fd_in : ℕ) (shm : Shm) (g : Gate)
    → IsShm shm
    → offer os me n line fd_in shm ≡ some g
    → IsShm (gate_state g)
unfolding offer
offer-IsShm os me (negsuc n) line fd_in shm g h e = gate e h
offer-IsShm os me (pos zero) line fd_in shm g h e = gate e h
offer-IsShm os me (pos (suc r)) line fd_in shm g h e = elim (Bool-cases (ltb 29 r)) [
  | inl far ↦ gate (rw (offer, far) at e) h
  | inr near ↦
      let (d, p, e1) = >>=-eq-some (get_elem? shm r) _ (rw (offer, near) at e) in
      let (c, _, e2) = >>=-eq-some (get_elem? shm me) _ e1 in
      let (f, _, e3) = >>=-eq-some (get_elem? d.fifo me) _ e2 in
      offer_to-IsShm os me r d c f line fd_in shm g h p e3
]

after-IsShm : (es : List Effect) (g : Gate) → IsShm (gate_state g) → IsShm (gate_state (after es g))
after-IsShm es (refused (shm, more)) h = h
after-IsShm es (passed (shm, more) fd_in fd_out) h = h

sending-IsShm :
    (os : Os) (me : ℕ) (line : Bytes) (out : Outcome) (fd_in : ℕ) (g : Gate)
    → IsShm out.0
    → sending os me line out fd_in ≡ some g
    → IsShm (gate_state g)
unfolding sending
sending-IsShm os me line (shm, es) fd_in g h e = elim (Bool-cases (sends_to_user line)) [
  | inr quiet ↦ gate (rw (sending, quiet) at e) h
  | inl loud ↦
      let (n, p, e1) = >>=-eq-some (pipe_number b'>' line) _ (rw (sending, loud) at e) in
      let (g', q, e2) = >>=-eq-some (offer os me n line fd_in shm) _ e1 in
      gate e2 (after-IsShm es g' (offer-IsShm os me n line fd_in shm g' h q))
]

receiving-IsShm :
    (me : ℕ) (line : Bytes) (shm : Shm) (g : Gate)
    → IsShm shm
    → receiving me line shm ≡ some g
    → IsShm (gate_state g)
unfolding receiving
receiving-IsShm me line shm g h e = elim (Option-cases (find b'<' line)) [
  | inl quiet ↦ gate (rw (receiving, quiet) at e) h
  | inr (k, loud) ↦
      let (n, p, e1) = >>=-eq-some (pipe_number b'<' line) _ (rw (receiving, loud) at e) in
      receive-IsShm me n line shm g h e1
]

pub gates-IsShm :
    (os : Os) (me : ℕ) (line : Bytes) (shm : Shm) (g : Gate)
    → IsShm shm
    → gates os me line shm ≡ some g
    → IsShm (gate_state g)
unfolding gates
gates-IsShm os me line shm g h e =
    let (i, p, e1) = >>=-eq-some (receiving me line shm) _ e in
    go i (receiving-IsShm me line shm i h p) e1
  where
    go :
        (i : Gate)
        → IsShm (gate_state i)
        → elim i [
          | refused out ↦ some (refused out)
          | passed out fd_in fd_out ↦ sending os me line out fd_in
        ]
          ≡ some g
        → IsShm (gate_state g)
    go (refused out) k f = gate f k
    go (passed out fd_in fd_out) k f = sending-IsShm os me line out fd_in g k f

pub finish-IsShm :
    (me s fd_in fd_out : ℕ) (shm : Shm) (out : Outcome)
    → IsShm shm
    → finish me s fd_in fd_out shm ≡ some out
    → IsShm out.0
unfolding finish
finish-IsShm me s fd_in fd_out shm out h e =
    let (c, p, e1) = >>=-eq-some (get_elem? shm me) _ e in
    let (f, q, e2) = >>=-eq-some (get_elem? c.fifo s) _ e1 in
    elim (Bool-cases (fd_in == 0 || f.fd == 0)) [
      | inl idle ↦ subst IsShm {x = shm} {y = out.0} (ground arith) h
      | inr used ↦
          let c' = record c { fifo = set c.fifo s no_fifo } in
          subst IsShm {x = set shm me c'} {y = out.0} (ground arith) (
            set-IsShm me shm c' h (
              rows-IsClient me c (set c.fifo s no_fifo) (length-set c.fifo s no_fifo)
                (client_at me shm c h p)))
    ]
