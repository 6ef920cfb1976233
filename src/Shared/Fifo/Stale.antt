-- ===== src/Shared/Fifo/Stale.antt =====
-- What a user who leaves keeps in the others' entries.
use network_programming_demo.Prelude.{
  ℕ, suc, ◌<◌, [], ◌∷◌, some, >>=-eq-some, get_elem?, set, take, get_elem?-set_self,
  get_elem?-set_ne, ◌≡◌, sym, subst, ◌∙◌, ◌≢◌, arith, inl, inr, Option-cases,
}
use network_programming_demo.Prelude.Int.{pos}
use network_programming_demo.Text.Bytes.{Bytes, codes}
use network_programming_demo.Chat.UserPipe.{has_pipe}
use network_programming_demo.Shared.State.{Client, Shm, Outcome, printed, broadcast, cut, no_client}
use network_programming_demo.Shared.Users.{
  rm_user, removed, left, add_client, free_place, entered, settle,
}
use network_programming_demo.Shared.Fifo.{Os, refused, offer_to, offer}
use network_programming_demo.Shared.Fifo.RoundTrip.{HasFifo, broadcast-HasFifo, get_elem?-lt}
use network_programming_demo.Shared.Delivery.{broadcast-Kept}
use network_programming_demo.Shared.Reach.Search.{free_place-some, adjust-set}

set-HasFifo :
    (shm : Shm) (k : ℕ) (x d : Client) (r s fd : ℕ) (name : Bytes)
    → k ≢ r
    → HasFifo shm d r s fd name
    → HasFifo (set shm k x) d r s fd name
set-HasFifo shm k x d r s fd name n h = record {
  owner = h.owner;
  there = get_elem?-set_ne shm k r x n ∙ h.there;
  id = h.id;
  nickname = h.nickname;
  entry = h.entry;
}

rm_user-HasFifo :
    (me : ℕ) (shm : Shm) (out : Outcome) (d : Client) (r s fd : ℕ) (name : Bytes)
    → me ≢ r
    → rm_user me shm ≡ some out
    → HasFifo shm d r s fd name
    → HasFifo out.0 d r s fd name
unfolding rm_user removed
rm_user-HasFifo me shm out d r s fd name n e h =
    let (c, p, f) = >>=-eq-some (get_elem? shm me) _ e in
    let msg = cut (left c.nickname) in
    subst (λ (m : Shm). HasFifo m d r s fd name) {x = set (broadcast me msg shm).0 me no_client}
      {y = out.0} (ground arith)
      (set-HasFifo (broadcast me msg shm).0 me no_client d r s fd name n
        (broadcast-HasFifo me msg shm d r s fd name h))

add_client-HasFifo :
    (pid : ℕ) (ip : Bytes) (port : ℕ) (shm : Shm) (me : ℕ) (d : Client) (r s fd : ℕ) (name : Bytes)
    → (add_client pid ip port shm).1 ≡ some me
    → me ≢ r
    → HasFifo shm d r s fd name
    → HasFifo (add_client pid ip port shm).0.0 d r s fd name
unfolding add_client
add_client-HasFifo pid ip port shm me d r s fd name e n h = elim (Option-cases (free_place shm)) [
  | inl g ↦ absurd (ground arith)
  | inr (i, g) ↦
      let (c, q, _) = free_place-some shm i g in
      let same : i ≡ me = ground arith in
      let msg = cut (entered (codes "(no name)") (take 16 ip) port) in
      rw (add_client, g, adjust-set shm i (settle i pid ip port) c q)
        (broadcast-HasFifo i msg (set shm i (settle i pid ip port c)) d r s fd name
          (set-HasFifo shm i (settle i pid ip port c) d r s fd name (λ z. n (sym same ∙ z)) h))
]

-- The newcomer's own record.
add_client-own :
    (pid : ℕ) (ip : Bytes) (port : ℕ) (shm : Shm) (me : ℕ)
    → (add_client pid ip port shm).1 ≡ some me
    → (c : Client) × (get_elem? (add_client pid ip port shm).0.0 me ≡ some c) × (c.id ≡ suc me)
unfolding add_client
add_client-own pid ip port shm me e = elim (Option-cases (free_place shm)) [
  | inl g ↦ absurd (ground arith)
  | inr (i, g) ↦
      let (c, q, _) = free_place-some shm i g in
      let same : i ≡ me = ground arith in
      let msg = cut (entered (codes "(no name)") (take 16 ip) port) in
      let seated = settle i pid ip port c in
      let (c', p, k) =
        broadcast-Kept i i msg (set shm i seated) seated
          (get_elem?-set_self shm i seated (get_elem?-lt shm i c q)) in
      (
        c',
        rw (add_client, g, sym same, adjust-set shm i (settle i pid ip port) c q) p,
        k.id ∙ omega (arith, same),
      )
]

refused_again :
    (os : Os) (me r fd : ℕ) (name line : Bytes) (fd_in : ℕ) (shm : Shm) (c d : Client)
    → HasFifo shm d r me fd name
    → get_elem? shm me ≡ some c
    → fd ≢ 0
    → d.id ≢ 0
    → r < 30
    → offer os me (pos (suc r)) line fd_in shm
      ≡ some (refused (shm, printed (has_pipe c.id (suc r)) ∷ []))
unfolding offer offer_to
refused_again os me r fd name line fd_in shm c d h p n v l =
    ground (arith, h.there, h.entry, h.id, p)

-- A user who leaves takes only their own record away. Where another user had an open FIFO from them, the
-- next user who gets their place is told that the pipe exists when they offer one to that user, though
-- they never made any.
pub stale_fifo_refuses :
    (os : Os) (me r fd pid port fd_in : ℕ) (name ip line : Bytes) (shm : Shm) (d : Client)
    (out : Outcome)
    → HasFifo shm d r me fd name
    → fd ≢ 0
    → d.id ≢ 0
    → me ≢ r
    → r < 30
    → rm_user me shm ≡ some out
    → (add_client pid ip port out.0).1 ≡ some me
    → let shm' = (add_client pid ip port out.0).0.0 in
      offer os me (pos (suc r)) line fd_in shm'
      ≡ some (refused (shm', printed (has_pipe (suc me) (suc r)) ∷ []))
stale_fifo_refuses os me r fd pid port fd_in name ip line shm d out h n v o l e a =
    let h1 = rm_user-HasFifo me shm out d r me fd name o e h in
    let h2 = add_client-HasFifo pid ip port out.0 me d r me fd name a o h1 in
    let (c, p, q) = add_client-own pid ip port out.0 me a in
    rw⁻¹ q
      (refused_again os me r fd name line fd_in (add_client pid ip port out.0).0.0 c d h2 p n v l)
