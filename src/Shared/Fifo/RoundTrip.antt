-- ===== src/Shared/Fifo/RoundTrip.antt =====
-- A FIFO from the sender's `>n` to the receiver's `<n`.
use network_programming_demo.Prelude.{
  ℕ, zero, suc, ◌≤◌, ◌<◌, List, [], ◌∷◌, some, true, length, get_elem?, set, get_elem?-set_self,
  get_elem?-set_ne, ◌≡◌, refl, sym, subst, ◌∙◌, ◌≢◌, arith,
}
use network_programming_demo.Prelude.Int.{pos}
use network_programming_demo.Text.Bytes.{Bytes}
use network_programming_demo.Shared.State.{
  Fifo, Client, Shm, Effect, killed, usr2, unlinked, broadcast, cut, no_fifo,
}
use network_programming_demo.Shared.Fifo.{
  Os, passed, receive_from, offer_to, receive, offer, finish, sig_usr2, open_fifos, name_fifo,
  hand_over, fifo_name, received_text, piped_text,
}
use network_programming_demo.Shared.Delivery.{Kept, broadcast-Kept}

-- The user at place r, who has the number and the name of `d`, has a FIFO from the one at place s, open
-- on `fd` unless that is 0.
pub record HasFifo (shm : Shm) (d : Client) (r s fd : ℕ) (name : Bytes) : Type 0 where
  pub owner : Client
  pub there : get_elem? shm r ≡ some owner
  pub id : owner.id ≡ d.id
  pub nickname : owner.nickname ≡ d.nickname
  pub entry : get_elem? owner.fifo s ≡ some (record { fd = fd; filename = name })

pub broadcast-HasFifo :
    (me : ℕ) (msg : Bytes) (shm : Shm) (d : Client) (r s fd : ℕ) (name : Bytes)
    → HasFifo shm d r s fd name
    → HasFifo (broadcast me msg shm).0 d r s fd name
broadcast-HasFifo me msg shm d r s fd name h =
    let (c, p, k) = broadcast-Kept me r msg shm h.owner h.there in
    record {
      owner = c;
      there = p;
      id = k.id ∙ h.id;
      nickname = k.nickname ∙ h.nickname;
      entry = rw (k.fifo) h.entry;
    }

pub get_elem?-lt {ℓ} :
    {A : Type ℓ} (xs : List A) (i : ℕ) (a : A) → get_elem? xs i ≡ some a → i < length xs
get_elem?-lt [] i a e = cc
get_elem?-lt (x ∷ xs) zero a e = omega arith
get_elem?-lt (x ∷ xs) (suc i) a e = omega (arith, get_elem?-lt xs i a e)

open_fifos_at :
    (os : Os) (fs : List Fifo) (s : ℕ) (name : Bytes)
    → name ≢ []
    → get_elem? fs s ≡ some (record { fd = 0; filename = name })
    → get_elem? (open_fifos os fs).0 s ≡ some (record { fd = os.open_fd name; filename = name })
unfolding open_fifos
open_fifos_at os [] s name n e = cc
open_fifos_at os (f ∷ fs) zero [] n e = absurd (n refl)
open_fifos_at os (f ∷ fs) zero (b ∷ name) n e =
    let same : f ≡ record { fd = 0; filename = b ∷ name } = ground arith in rw same refl
open_fifos_at os (f ∷ fs) (suc s) name n e = ground (arith, open_fifos_at os fs s name n e)

fifo_name-ne-nil : (s r : ℕ) → fifo_name s r ≢ []
unfolding fifo_name
fifo_name-ne-nil s r e = cc

received_text-same :
    (d d' c c' : Client) (line : Bytes)
    → d'.id ≡ d.id
    → d'.nickname ≡ d.nickname
    → Kept c c'
    → received_text d' c' line ≡ received_text d c line
unfolding received_text
received_text-same d d' c c' line e f k = rw (e, f, k.id, k.nickname) refl

module _ (os : Os) (me r : ℕ) (c d : Client) (f : Fifo) (line : Bytes) (shm : Shm) (other : r ≢ me)
    (at : get_elem? shm me ≡ some c) (there : get_elem? shm r ≡ some d)
    (entry : get_elem? d.fifo me ≡ some f) where
  empty : Client
  empty = record d { fifo = set d.fifo me (record { fd = 0; filename = fifo_name c.id (suc r) }) }

  handed : name_fifo os me r (fifo_name c.id (suc r)) d ≡ (empty, killed d.pid usr2 ∷ [])
  unfolding name_fifo empty
  handed = ground arith

  hand_over-HasFifo : HasFifo (hand_over os me c r d line shm).0 d r me 0 (fifo_name c.id (suc r))
  unfolding hand_over empty
  hand_over-HasFifo =
      let name = fifo_name c.id (suc r) in
      rw handed (
        broadcast-HasFifo me (cut (piped_text c line d (suc r))) (set shm r empty) d r me 0 name
          (record {
            owner = empty;
            there = get_elem?-set_self shm r empty (get_elem?-lt shm r d there);
            id = refl;
            nickname = refl;
            entry = get_elem?-set_self d.fifo me _ (get_elem?-lt d.fifo me f entry);
          }))

  hand_over-sender :
      (c' : Client) × (get_elem? (hand_over os me c r d line shm).0 me ≡ some c') × Kept c c'
  unfolding hand_over
  hand_over-sender = rw handed (
      broadcast-Kept me me (cut (piped_text c line d (suc r))) (set shm r empty) c
        (get_elem?-set_ne shm r me empty other ∙ at))

  offered :
      (fd_in : ℕ)
      → r < 30
      → d.id ≢ 0
      → f.fd ≡ 0
      → os.mkfifo (fifo_name c.id (suc r)) ≡ true
      → offer os me (pos (suc r)) line fd_in shm
        ≡ some (passed (hand_over os me c r d line shm) fd_in (os.open_fd (fifo_name c.id (suc r))))
  unfolding offer offer_to
  offered fd_in near live free can = ground (arith, at, there, entry)

-- The receiver's handler opens the FIFO.
sig_usr2-HasFifo :
    (os : Os) (shm : Shm) (d : Client) (r s : ℕ) (name : Bytes) (h : HasFifo shm d r s 0 name)
    → name ≢ []
    → HasFifo (set shm r (sig_usr2 os h.owner).0) d r s (os.open_fd name) name
unfolding sig_usr2
sig_usr2-HasFifo os shm d r s name h n = record {
  owner = (sig_usr2 os h.owner).0;
  there = get_elem?-set_self shm r (sig_usr2 os h.owner).0 (get_elem?-lt shm r h.owner h.there);
  id = h.id;
  nickname = h.nickname;
  entry = open_fifos_at os h.owner.fifo s name n h.entry;
}

receive-passed :
    (r s fd : ℕ) (name line : Bytes) (shm : Shm) (c d : Client) (h : HasFifo shm d r s fd name)
    → fd ≢ 0
    → s < 30
    → get_elem? shm s ≡ some c
    → c.id ≢ 0
    → length (received_text h.owner c line) ≤ 1024
    → receive r (pos (suc s)) line shm
      ≡ some (passed (broadcast r (received_text h.owner c line) shm) fd 0)
unfolding receive receive_from
receive-passed r s fd name line shm c d h n l p v t = ground (arith, h.there, h.entry, p)

finish-cleared :
    (r s fd : ℕ) (name : Bytes) (shm : Shm) (d : Client) (h : HasFifo shm d r s fd name)
    → fd ≢ 0
    → finish r s fd 0 shm
      ≡ some
          (set shm r (record (h.owner) { fifo = set h.owner.fifo s no_fifo }), unlinked name ∷ [])
unfolding finish
finish-cleared r s fd name shm d h n = ground (arith, h.there, h.entry)

-- The user at place me offers a FIFO to the one at place r, who has none from them; r's handler opens it,
-- and r's command `<` with the sender's number reads from it.
module _ (os : Os) (me r : ℕ) (c d : Client) (f : Fifo) (line line' : Bytes) (shm : Shm)
    (other : r ≢ me) (at : get_elem? shm me ≡ some c) (there : get_elem? shm r ≡ some d)
    (entry : get_elem? d.fifo me ≡ some f) (near : r < 30) (near' : me < 30) (live : c.id ≢ 0)
    (live' : d.id ≢ 0) (free : f.fd ≡ 0) (can : os.mkfifo (fifo_name c.id (suc r)) ≡ true)
    (opens : os.open_fd (fifo_name c.id (suc r)) ≢ 0)
    (short : length (received_text d c line') ≤ 1024) where
  -- The offer passes, with the FIFO's descriptor for its output; once the receiver's handler of SIGUSR2
  -- has opened the FIFO, the receiver's `<` with the sender's number passes with the same FIFO for its
  -- input; and at the end of that command the FIFO is unlinked and the receiver's entry is free.
  pub fifo_round_trip :
      let name = fifo_name c.id (suc r) in
      (es es' : List Effect) × (shm1 shm3 shm4 : Shm) × (d1 d4 : Client) × (offer os me
          (pos (suc r))
          line
          0
          shm
        ≡ some (passed (shm1, es) 0 (os.open_fd name)))
      × (get_elem? shm1 r ≡ some d1)
      × (receive r (pos (suc me)) line' (set shm1 r (sig_usr2 os d1).0)
          ≡ some (passed (shm3, es') (os.open_fd name) 0))
      × (finish r me (os.open_fd name) 0 shm3 ≡ some (shm4, unlinked name ∷ []))
      × (get_elem? shm4 r ≡ some d4)
      × (get_elem? d4.fifo me ≡ some no_fifo)
  fifo_round_trip =
      let name = fifo_name c.id (suc r) in
      let fd = os.open_fd name in
      let out = hand_over os me c r d line shm in
      let h1 = hand_over-HasFifo os me r c d f line shm other at there entry in
      let (c', p, k) = hand_over-sender os me r c d f line shm other at there entry in
      let h2 = sig_usr2-HasFifo os out.0 d r me name h1 (fifo_name-ne-nil c.id (suc r)) in
      let shm2 = set out.0 r (sig_usr2 os h1.owner).0 in
      let q = get_elem?-set_ne out.0 r me (sig_usr2 os h1.owner).0 other ∙ p in
      let text = received_text h2.owner c' line' in
      let t = received_text-same d h2.owner c c' line' h2.id h2.nickname k in
      let out' = broadcast r text shm2 in
      let h3 = broadcast-HasFifo r text shm2 d r me fd name h2 in
      let d4 = record (h3.owner) { fifo = set h3.owner.fifo me no_fifo } in
      (
        out.1,
        out'.1,
        out.0,
        out'.0,
        set out'.0 r d4,
        h1.owner,
        d4,
        offered os me r c d f line shm other at there entry 0 near live' free can,
        h1.there,
        receive-passed r me fd name line' shm2 c' d h2 opens near' q (λ z. live (sym k.id ∙ z))
            (subst (λ (x : Bytes). length x ≤ 1024) (sym t) short),
        finish-cleared r me fd name out'.0 d h3 opens,
        get_elem?-set_self out'.0 r d4 (get_elem?-lt out'.0 r h3.owner h3.there),
        get_elem?-set_self h3.owner.fifo me no_fifo (get_elem?-lt h3.owner.fifo me _ h3.entry),
      )
