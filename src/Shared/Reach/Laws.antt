-- ===== src/Shared/Reach/Laws.antt =====
-- Every step keeps the invariant of the shared memory.
use network_programming_demo.Prelude.{
  ℕ, zero, suc, ◌≤◌, List, [], Option, none, some, >>=-eq-some, ◌==◌, length, get_elem?, set, take,
  drop, All, ◌≡◌, refl, subst, inl, inr, arith, Option-cases, Bool-cases, replicate,
}
use network_programming_demo.Prelude.Int.{ℤ, pos, negsuc}
use network_programming_demo.Text.Bytes.{Bytes, codes}
use network_programming_demo.Text.Decimal.{atoi}
use network_programming_demo.Shared.Mailbox.Refine.{free-IsPacked}
use network_programming_demo.Shared.State.{
  Client, Shm, Effect, Outcome, no_client, initial, sig_usr1, post, broadcast, cut, fit,
}
use network_programming_demo.Shared.Users.{
  free_place, entered, settle, add_client, is_taken, named, fit_name, execute_name, said, yelled,
  told, execute_yell, tell_to, execute_tell, left, rm_user, removed,
}
use network_programming_demo.Shared.Fifo.{Os, gates, finish, sig_usr2}
use network_programming_demo.Shared.Reach.{
  Event, arrive, nickname, yell, tell, check, done, handle1, handle2, leave, gate_state, state_of,
  step, Reach, start, next,
}
use network_programming_demo.Shared.Reach.Search.{adjust-set, free_place-some}
use network_programming_demo.Shared.Reach.Gates.{sig_usr2-IsClient, gates-IsShm, finish-IsShm}
use network_programming_demo.Shared.Reach.Invariant.{
  IsBox, IsClient, IsShm, AreClients, sig_usr1-IsClient, post-IsClient, broadcast-IsShm, set-IsShm,
  client_at,
}
use network_programming_demo.Shared.Reach.Texts.{
  cut-IsMsg, fit-IsMsg, entered-ne-nil, named-ne-nil, yelled-ne-nil, told-ne-nil, left-ne-nil,
}

pub All-replicate {ℓ κ} :
    {A : Type ℓ} (P : A → Type κ) (n : ℕ) (a : A) → P a → All P (replicate n a)
All-replicate P zero a p = tt
All-replicate P (suc n) a p = (p, All-replicate P n a p)

pub no_client-IsClient : (i : ℕ) → IsClient i no_client
no_client-IsClient i = record {
  numbered = inl refl;
  named = omega arith;
  boxes = All-replicate IsBox 30 (replicate 10 []) (record {
    sized = refl;
    packed = free-IsPacked (replicate 10 []) (All-replicate (λ s. s ≡ []) 10 [] refl);
    fits = All-replicate (λ (s : Bytes). length s ≤ 1024) 10 [] (omega arith);
  });
  senders = refl;
  pipes = refl;
}

pub initial-IsShm : IsShm initial
initial-IsShm = record { sized = refl; clients = go 30 0 }
  where
    go : (n i : ℕ) → AreClients i (replicate n no_client)
    go zero i = tt
    go (suc n) i = (no_client-IsClient i, go n (suc i))

pub settle-IsClient :
    (i pid : ℕ) (ip : Bytes) (port : ℕ) (c : Client)
    → IsClient i c
    → IsClient i (settle i pid ip port c)
settle-IsClient i pid ip port c p = record {
  numbered = inr refl;
  named = omega arith;
  boxes = p.boxes;
  senders = p.senders;
  pipes = p.pipes;
}

add_client-IsShm :
    (pid : ℕ) (ip : Bytes) (port : ℕ) (shm : Shm)
    → IsShm shm
    → IsShm (add_client pid ip port shm).0.0
unfolding add_client
add_client-IsShm pid ip port shm h = elim (Option-cases (free_place shm)) [
  | inl e ↦ rw (add_client, e) h
  | inr (i, e) ↦
      let (c, at, _) = free_place-some shm i e in
      let msg = entered (codes "(no name)") (take 16 ip) port in
      rw (add_client, e, adjust-set shm i (settle i pid ip port) c at)
        (broadcast-IsShm i (cut msg) (set shm i (settle i pid ip port c))
          (cut-IsMsg msg (entered-ne-nil _ _ _))
          (set-IsShm i shm (settle i pid ip port c) h
            (settle-IsClient i pid ip port c (client_at i shm c h at))))
]

renamed-IsClient :
    (i : ℕ) (name : Bytes) (c : Client)
    → length name ≤ 20
    → IsClient i c
    → IsClient i (record c { nickname = name })
renamed-IsClient i name c l p = record {
  numbered = p.numbered;
  named = l;
  boxes = p.boxes;
  senders = p.senders;
  pipes = p.pipes;
}

pub outcome : {out' out : Outcome} → some out' ≡ some out → IsShm out'.0 → IsShm out.0
outcome {out' = a} {out = b} e h = subst IsShm {x = a.0} {y = b.0} (cc) h

pub execute_name-IsShm :
    (me : ℕ) (ops : List Bytes) (shm : Shm) (out : Outcome)
    → IsShm shm
    → execute_name me ops shm ≡ some out
    → IsShm out.0
unfolding execute_name
execute_name-IsShm me ops shm out h e =
    let (name, p, f) = >>=-eq-some (get_elem? ops 1) _ e in
    elim (Bool-cases (is_taken name shm)) [
      | inl t ↦ outcome (rw t at f) h
      | inr t ↦
          let (c, q, g) = >>=-eq-some (get_elem? shm me) _ (rw t at f) in
          let (name', r, k) = >>=-eq-some (fit_name name) _ g in
          outcome k (
            broadcast-IsShm me (cut (named c.ip c.port name'))
              (set shm me (record c { nickname = name' }))
              (cut-IsMsg _ (named-ne-nil c.ip c.port name'))
              (set-IsShm me shm (record c { nickname = name' }) h
                (renamed-IsClient me name' c (ground arith) (client_at me shm c h q))))
    ]

pub execute_yell-IsShm :
    (me : ℕ) (ops : List Bytes) (shm : Shm) (out : Outcome)
    → IsShm shm
    → execute_yell me ops shm ≡ some out
    → IsShm out.0
unfolding execute_yell
execute_yell-IsShm me ops shm out h e =
    let (text, p, f) = >>=-eq-some (said (drop 1 ops)) _ e in
    let (c, q, g) = >>=-eq-some (get_elem? shm me) _ f in
    let (msg, r, k) = >>=-eq-some (fit (yelled c.nickname text)) _ g in
    let m = fit-IsMsg _ msg (yelled-ne-nil c.nickname text) r in
    outcome k (broadcast-IsShm me msg shm m h)

tell_to-IsShm :
    (me : ℕ) (n : ℤ) (text : Bytes) (shm : Shm) (out : Outcome)
    → IsShm shm
    → tell_to me n text shm ≡ some out
    → IsShm out.0
unfolding tell_to
tell_to-IsShm me (negsuc n) text shm out h e = outcome e h
tell_to-IsShm me (pos zero) text shm out h e = outcome e h
tell_to-IsShm me (pos (suc r)) text shm out h e =
    let (d, p, f) = >>=-eq-some (get_elem? shm r) _ e in
    elim (Bool-cases (d.id == 0)) [
      | inl z ↦ outcome (rw z at f) h
      | inr z ↦
          let (c, q, g) = >>=-eq-some (get_elem? shm me) _ (rw z at f) in
          let (msg, s, k) = >>=-eq-some (fit (told c.nickname text)) _ g in
          let m = fit-IsMsg _ msg (told-ne-nil c.nickname text) s in
          outcome k (
            set-IsShm r shm (post me r msg d).0 h
              (post-IsClient me r msg d m (client_at r shm d h p)))
    ]

pub execute_tell-IsShm :
    (me : ℕ) (ops : List Bytes) (shm : Shm) (out : Outcome)
    → IsShm shm
    → execute_tell me ops shm ≡ some out
    → IsShm out.0
unfolding execute_tell
execute_tell-IsShm me ops shm out h e =
    let (text, p, f) = >>=-eq-some (said (drop 2 ops)) _ e in
    let (number, q, g) = >>=-eq-some (get_elem? ops 1) _ f in
    tell_to-IsShm me (atoi number) text shm out h g

pub rm_user-IsShm :
    (me : ℕ) (shm : Shm) (out : Outcome) → IsShm shm → rm_user me shm ≡ some out → IsShm out.0
unfolding rm_user removed
rm_user-IsShm me shm out h e =
    let (c, p, f) = >>=-eq-some (get_elem? shm me) _ e in
    let b =
      broadcast-IsShm me (cut (left c.nickname)) shm (cut-IsMsg _ (left-ne-nil c.nickname)) h in
    outcome f (
      set-IsShm me (broadcast me (cut (left c.nickname)) shm).0 no_client b (no_client-IsClient me))

stated :
    (o : Option Outcome) (shm : Shm)
    → state_of o ≡ some shm
    → (es : List Effect) × (o ≡ some (shm, es))
stated none shm e = cc
stated (some (s, es)) shm e = (es, ground arith)

step-IsShm :
    (os : Os) (me : ℕ) (e : Event) (shm shm' : Shm)
    → IsShm shm
    → step os me e shm ≡ some shm'
    → IsShm shm'
unfolding step
step-IsShm os me (arrive pid ip port) shm shm' h e =
    subst IsShm {y = shm'} (cc) (add_client-IsShm pid ip port shm h)
step-IsShm os me (nickname ops) shm shm' h e =
    let (es, f) = stated (execute_name me ops shm) shm' e in
    execute_name-IsShm me ops shm (shm', es) h f
step-IsShm os me (yell ops) shm shm' h e =
    let (es, f) = stated (execute_yell me ops shm) shm' e in
    execute_yell-IsShm me ops shm (shm', es) h f
step-IsShm os me (tell ops) shm shm' h e =
    let (es, f) = stated (execute_tell me ops shm) shm' e in
    execute_tell-IsShm me ops shm (shm', es) h f
step-IsShm os me (check line) shm shm' h e =
    let (g, p, f) = >>=-eq-some (gates os me line shm) _ e in
    subst IsShm {x = gate_state g} {y = shm'} (cc) (gates-IsShm os me line shm g h p)
step-IsShm os me (done s fd_in fd_out) shm shm' h e =
    let (es, f) = stated (finish me s fd_in fd_out shm) shm' e in
    finish-IsShm me s fd_in fd_out shm (shm', es) h f
step-IsShm os me handle1 shm shm' h e =
    let (c, p, f) = >>=-eq-some (get_elem? shm me) _ e in
    subst IsShm {x = set shm me (sig_usr1 c).0} {y = shm'} (cc)
      (set-IsShm me shm (sig_usr1 c).0 h (sig_usr1-IsClient me c (client_at me shm c h p)))
step-IsShm os me handle2 shm shm' h e =
    let (c, p, f) = >>=-eq-some (get_elem? shm me) _ e in
    subst IsShm {x = set shm me (sig_usr2 os c).0} {y = shm'} (cc)
      (set-IsShm me shm (sig_usr2 os c).0 h (sig_usr2-IsClient os me c (client_at me shm c h p)))
step-IsShm os me leave shm shm' h e =
    let (es, f) = stated (rm_user me shm) shm' e in rm_user-IsShm me shm (shm', es) h f

-- Whatever the processes do, every place holds 0 or its own number, no name is longer than its array,
-- every box has ten places that are filled from the front, and no text in it is longer than its array.
pub Reach-IsShm : {os : Os} {shm : Shm} → Reach os shm → IsShm shm
Reach-IsShm start = initial-IsShm
Reach-IsShm (next me e r s) = step-IsShm _ me e _ _ (Reach-IsShm r) s
