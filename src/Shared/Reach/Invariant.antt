-- ===== src/Shared/Reach/Invariant.antt =====
-- What every step keeps of the shared memory: its sizes, the texts in it, and the names.
use network_programming_demo.Prelude.{
  ℕ, zero, suc, ◌+◌, ◌≤◌, List, [], ◌∷◌, some, ◌==◌, ltb, length, length-set, get_elem?, set, All,
  ◌≡◌, refl, subst, ◌∙◌, ap, ◌≢◌, ◌⊎◌, inl, inr, arith, Option-cases, Bool-cases,
}
use network_programming_demo.Text.Bytes.{Bytes}
use network_programming_demo.Shared.Mailbox.{Slots, put, send, take_all, take_rows}
use network_programming_demo.Shared.Mailbox.Refine.{
  IsPacked, send-IsPacked, length-send, take_all-contents, free-IsPacked,
}
use network_programming_demo.Shared.State.{Client, Shm, sig_usr1, post, broadcast_from, broadcast}

-- A row of ten places, filled from the front with texts that fit.
pub record IsBox (slots : Slots) : Type 0 where
  pub sized : length slots ≡ 10
  pub packed : IsPacked slots
  pub fits : All (λ s. length s ≤ 1024) slots

-- What stands at place `i`.
pub record IsClient (i : ℕ) (c : Client) : Type 0 where
  pub numbered : (c.id ≡ 0) ⊎ (c.id ≡ i + 1)
  pub named : length c.nickname ≤ 20
  pub boxes : All IsBox c.msg
  pub senders : length c.msg ≡ 30
  pub pipes : length c.fifo ≡ 30

abbrev pub AreClients : ℕ → Shm → Type 0
AreClients i [] = Unit
AreClients i (c ∷ cs) = IsClient i c × AreClients (suc i) cs

pub record IsShm (shm : Shm) : Type 0 where
  pub sized : length shm ≡ 30
  pub clients : AreClients 0 shm

-- What can be posted.
pub record IsMsg (msg : Bytes) : Type 0 where
  pub nonempty : msg ≢ []
  pub short : length msg ≤ 1024

All-set {ℓ κ} :
    {A : Type ℓ} (P : A → Type κ) (xs : List A) (i : ℕ) (v : A)
    → All P xs
    → P v
    → All P (set xs i v)
All-set P [] i v h p = tt
All-set P (x ∷ xs) zero v h p = (p, h.1)
All-set P (x ∷ xs) (suc i) v h p = (h.0, All-set P xs i v h.1 p)

pub All-get {ℓ κ} :
    {A : Type ℓ} (P : A → Type κ) (xs : List A) (i : ℕ) (a : A)
    → All P xs
    → get_elem? xs i ≡ some a
    → P a
All-get P [] i a h e = cc
All-get P (x ∷ xs) zero a h e = subst P (ground arith) h.0
All-get P (x ∷ xs) (suc i) a h e = All-get P xs i a h.1 e

pub AreClients-set :
    (i k : ℕ) (shm : Shm) (c : Client)
    → AreClients i shm
    → IsClient (i + k) c
    → AreClients i (set shm k c)
AreClients-set i k [] c h p = tt
AreClients-set i zero (x ∷ shm) c h p = (subst (λ n. IsClient n c) (omega arith) p, h.1)
AreClients-set i (suc k) (x ∷ shm) c h p =
    (h.0, AreClients-set (suc i) k shm c h.1 (subst (λ n. IsClient n c) (omega arith) p))

send-All {κ} :
    (P : Bytes → Type κ) (msg : Bytes) (slots : Slots)
    → P msg
    → All P slots
    → All P (send msg slots)
unfolding send put
send-All P msg [] p h = tt
send-All P msg ([] ∷ slots) p h = (p, h.1)
send-All P msg ((c ∷ s) ∷ slots) p h = elim (Option-cases (put msg slots)) [
  | inl e ↦ rw (send, put, e) h
  | inr (slots', e) ↦ rw (send, put, e) (h.0, rw (send, e) at (send-All P msg slots p h.1))
]

send-IsBox : (msg : Bytes) (slots : Slots) → IsMsg msg → IsBox slots → IsBox (send msg slots)
send-IsBox msg slots m b = record {
  sized = length-send msg slots ∙ b.sized;
  packed = send-IsPacked msg slots m.nonempty b.packed;
  fits = send-All (λ s. length s ≤ 1024) msg slots m.short b.fits;
}

pub put-send :
    (msg : Bytes) (slots slots' : Slots) → put msg slots ≡ some slots' → send msg slots ≡ slots'
unfolding send
put-send msg slots slots' e = ground (arith, e)

free-All : (slots : Slots) → All (λ s. s ≡ []) slots → All (λ s. length s ≤ 1024) slots
free-All [] h = tt
free-All (s ∷ slots) h = (rw (h.0) (omega arith), free-All slots h.1)

take_all-IsBox : (slots : Slots) → IsBox slots → IsBox (take_all slots).1
take_all-IsBox slots b =
    let (_, f, l) = take_all-contents slots in
    record {
      sized = l ∙ b.sized;
      packed = free-IsPacked (take_all slots).1 f;
      fits = free-All (take_all slots).1 f;
    }

take_rows-All : (rows : List Slots) → All IsBox rows → All IsBox (take_rows rows).1
unfolding take_rows
take_rows-All [] h = tt
take_rows-All (slots ∷ rows) h = (take_all-IsBox slots h.0, take_rows-All rows h.1)

length-take_rows : (rows : List Slots) → length (take_rows rows).1 ≡ length rows
unfolding take_rows
length-take_rows [] = refl
length-take_rows (slots ∷ rows) = ap suc (length-take_rows rows)

pub sig_usr1-IsClient : (i : ℕ) (c : Client) → IsClient i c → IsClient i (sig_usr1 c).0
unfolding sig_usr1
sig_usr1-IsClient i c p = record {
  numbered = p.numbered;
  named = p.named;
  boxes = take_rows-All c.msg p.boxes;
  senders = length-take_rows c.msg ∙ p.senders;
  pipes = p.pipes;
}

pub posted-IsClient :
    (me i : ℕ) (c : Client) (slots : Slots)
    → IsClient i c
    → IsBox slots
    → IsClient i (record c { msg = set c.msg me slots })
posted-IsClient me i c slots p b = record {
  numbered = p.numbered;
  named = p.named;
  boxes = All-set IsBox c.msg me slots p.boxes b;
  senders = length-set c.msg me slots ∙ p.senders;
  pipes = p.pipes;
}

pub post-IsClient :
    (me i : ℕ) (msg : Bytes) (c : Client)
    → IsMsg msg
    → IsClient i c
    → IsClient i (post me i msg c).0
unfolding post
post-IsClient me i msg c m p = elim (Option-cases (get_elem? c.msg me)) [
  | inl e ↦ rw (post, e) p
  | inr (slots, e) ↦ elim (Option-cases (put msg slots)) [
    | inl f ↦ rw (post, e, f) p
    | inr (slots', f) ↦
        let q : IsClient i (record c { msg = set c.msg me slots' }) =
          posted-IsClient me i c slots' p (
            subst IsBox (put-send msg slots slots' f)
              (send-IsBox msg slots m (All-get IsBox c.msg me slots p.boxes e))) in
        elim (Bool-cases (i == me)) [
          | inl g ↦
              rw (post, e, f, g) (sig_usr1-IsClient i (record c { msg = set c.msg me slots' }) q)
          | inr g ↦ rw (post, e, f, g) q
        ]
  ]
]

broadcast_from-AreClients :
    (me i : ℕ) (msg : Bytes) (shm : Shm)
    → IsMsg msg
    → AreClients i shm
    → AreClients i (broadcast_from me i msg shm).0
unfolding broadcast_from
broadcast_from-AreClients me i msg [] m h = tt
broadcast_from-AreClients me i msg (c ∷ cs) m h =
    let rest = broadcast_from-AreClients me (suc i) msg cs m h.1 in
    elim (Bool-cases (ltb 0 c.id)) [
      | inl e ↦ rw (broadcast_from, e) (post-IsClient me i msg c m h.0, rest)
      | inr e ↦ rw (broadcast_from, e) (h.0, rest)
    ]

length-broadcast_from :
    (me i : ℕ) (msg : Bytes) (shm : Shm) → length (broadcast_from me i msg shm).0 ≡ length shm
unfolding broadcast_from
length-broadcast_from me i msg [] = refl
length-broadcast_from me i msg (c ∷ cs) = ground (arith, length-broadcast_from me (suc i) msg cs)

pub broadcast-IsShm :
    (me : ℕ) (msg : Bytes) (shm : Shm) → IsMsg msg → IsShm shm → IsShm (broadcast me msg shm).0
unfolding broadcast
broadcast-IsShm me msg shm m h = record {
  sized = length-broadcast_from me 0 msg shm ∙ h.sized;
  clients = broadcast_from-AreClients me 0 msg shm m h.clients;
}

pub set-IsShm : (k : ℕ) (shm : Shm) (c : Client) → IsShm shm → IsClient k c → IsShm (set shm k c)
set-IsShm k shm c h p = record {
  sized = length-set shm k c ∙ h.sized;
  clients = AreClients-set 0 k shm c h.clients (subst (λ n. IsClient n c) (omega arith) p);
}

AreClients-get :
    (i k : ℕ) (shm : Shm) (c : Client)
    → AreClients i shm
    → get_elem? shm k ≡ some c
    → IsClient (i + k) c
AreClients-get i k [] c h e = cc
AreClients-get i zero (x ∷ shm) c h e =
    subst (IsClient (i + 0)) (ground arith) (subst (λ n. IsClient n x) (omega arith) h.0)
AreClients-get i (suc k) (x ∷ shm) c h e =
    subst (λ n. IsClient n c) (omega arith) (AreClients-get (suc i) k shm c h.1 e)

pub client_at :
    (k : ℕ) (shm : Shm) (c : Client) → IsShm shm → get_elem? shm k ≡ some c → IsClient k c
client_at k shm c h e =
    subst (λ n. IsClient n c) (omega arith) (AreClients-get 0 k shm c h.clients e)
