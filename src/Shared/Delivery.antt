-- ===== src/Shared/Delivery.antt =====
-- project2/np_multi_proc.cpp: what `broadcast` does to each user, and what the user's handler of SIGUSR1
-- then writes.
use network_programming_demo.Prelude.{
  ℕ, zero, suc, ◌+◌, ◌≤◌, ◌<◌, List, [], ◌∷◌, ◌++◌, append_assoc, none, some, ◌==◌, ltb,
  if◌then◌else◌, length, get_elem?, set, ◌≡◌, refl, sym, ◌∙◌, ap, ◌≢◌, inl, inr, arith,
  Option-cases, Bool-cases,
}
use network_programming_demo.Text.Bytes.{Bytes}
use network_programming_demo.Shared.Mailbox.{Slots, put, send, take_all, take_rows}
use network_programming_demo.Shared.Mailbox.Refine.{
  IsPacked, contents, send-contents, take_all-contents,
}
use network_programming_demo.Shared.State.{
  Client, no_client, Shm, written, sig_usr1, post, broadcast_from, broadcast,
}
use network_programming_demo.Shared.Reach.Invariant.{IsBox, IsShm, IsMsg, All-get, client_at}

-- A message changes nothing but the boxes.
pub record Kept (c c' : Client) : Type 0 where
  pub id : c'.id ≡ c.id
  pub nickname : c'.nickname ≡ c.nickname
  pub fifo : c'.fifo ≡ c.fifo

pub Kept-refl : (c : Client) → Kept c c
Kept-refl c = record { id = refl; nickname = refl; fifo = refl }

post-Kept : (me i : ℕ) (msg : Bytes) (c : Client) → Kept c (post me i msg c).0
unfolding post sig_usr1
post-Kept me i msg c = elim (Option-cases (get_elem? c.msg me)) [
  | inl e ↦ rw (post, e) (Kept-refl c)
  | inr (slots, e) ↦ elim (Option-cases (put msg slots)) [
    | inl f ↦ rw (post, e, f) (Kept-refl c)
    | inr (slots', f) ↦ elim (Bool-cases (i == me)) [
      | inl g ↦ rw (post, e, f, g) (record { id = refl; nickname = refl; fifo = refl })
      | inr g ↦ rw (post, e, f, g) (record { id = refl; nickname = refl; fifo = refl })
    ]
  ]
]

broadcast_from_at :
    (me i k n : ℕ) (msg : Bytes) (shm : Shm) (c : Client)
    → n ≡ i + k
    → get_elem? shm k ≡ some c
    → get_elem? (broadcast_from me i msg shm).0 k
      ≡ some (if ltb 0 c.id then (post me n msg c).0 else c)
unfolding broadcast_from
broadcast_from_at me i k n msg [] c h e = cc
broadcast_from_at me i zero n msg (x ∷ shm) c h e =
    let same : n ≡ i = omega arith in
    elim (Bool-cases (ltb 0 x.id)) [
      | inl g ↦ ground (arith, same, e)
      | inr g ↦ ground (arith, same, e)
    ]
broadcast_from_at me i (suc k) n msg (x ∷ shm) c h e =
    let rest = broadcast_from_at me (suc i) k n msg shm c (omega arith) e in
    elim (Bool-cases (ltb 0 x.id)) [
      | inl g ↦ rw (broadcast_from, g) rest
      | inr g ↦ rw (broadcast_from, g) rest
    ]

-- A user for whom nothing is done counts as an empty place.
broadcast_from_skips :
    (me i k n : ℕ) (msg : Bytes) (shm : Shm) (d : Client)
    → n ≡ i + k
    → get_elem? shm k ≡ some d
    → post me n msg d ≡ (d, [])
    → let (others, effects) = broadcast_from me i msg (set shm k no_client) in
      broadcast_from me i msg shm ≡ (set others k d, effects)
unfolding broadcast_from
broadcast_from_skips me i k n msg [] d h e q = cc
broadcast_from_skips me i zero n msg (x ∷ shm) d h e q =
    let at : n ≡ i = omega arith in
    let same : x ≡ d = ground arith in
    let nothing : post me i msg x ≡ (x, []) = rw (at, sym same) at q in
    elim (Bool-cases (ltb 0 x.id)) [
      | inl g ↦ ground (arith, nothing, same)
      | inr g ↦ ground (arith, same)
    ]
broadcast_from_skips me i (suc k) n msg (x ∷ shm) d h e q =
    let rest = broadcast_from_skips me (suc i) k n msg shm d (omega arith) e q in
    elim (Bool-cases (ltb 0 x.id)) [
      | inl g ↦ rw (broadcast_from, g, rest) refl
      | inr g ↦ rw (broadcast_from, g, rest) refl
    ]

-- Every user gets it, by their place.
broadcast_at :
    (me k : ℕ) (msg : Bytes) (shm : Shm) (c : Client)
    → get_elem? shm k ≡ some c
    → get_elem? (broadcast me msg shm).0 k ≡ some (if ltb 0 c.id then (post me k msg c).0 else c)
unfolding broadcast
broadcast_at me k msg shm c e = broadcast_from_at me 0 k k msg shm c (omega arith) e

pub broadcast-Kept :
    (me k : ℕ) (msg : Bytes) (shm : Shm) (c : Client)
    → get_elem? shm k ≡ some c
    → (c' : Client) × (get_elem? (broadcast me msg shm).0 k ≡ some c') × Kept c c'
broadcast-Kept me k msg shm c e = elim (Bool-cases (ltb 0 c.id)) [
  | inl g ↦ ((post me k msg c).0, broadcast_at me k msg shm c e ∙ rw g, post-Kept me k msg c)
  | inr g ↦ (c, broadcast_at me k msg shm c e ∙ rw g, Kept-refl c)
]

take_rows-set :
    (rows : List Slots) (s : ℕ) (slots : Slots) (msg : Bytes)
    → get_elem? rows s ≡ some slots
    → msg ≢ []
    → IsPacked slots
    → length (contents slots) < length slots
    → (before after : List Bytes) × ((take_rows rows).0 ≡ before ++ after)
      × ((take_rows (set rows s (send msg slots))).0 ≡ before ++ msg ∷ after)
unfolding take_rows
take_rows-set [] s slots msg e n p l = cc
take_rows-set (x ∷ rows) zero slots msg e n p l =
    let x_slots : x ≡ slots = ground arith in
    let grown : contents (send msg slots) ≡ contents slots ++ msg ∷ [] =
      send-contents msg slots n p ∙ ground arith in
    (
      contents slots,
      (take_rows rows).0,
      rw (x_slots, (take_all-contents slots).0),
      rw (
        (take_all-contents (send msg slots)).0,
        grown,
        append_assoc (contents slots) (msg ∷ []) _,
      ),
    )
take_rows-set (x ∷ rows) (suc s) slots msg e n p l =
    let (before, after, f, g) = take_rows-set rows s slots msg e n p l in
    (
      (take_all x).0 ++ before,
      after,
      rw (f, append_assoc (take_all x).0 before after),
      rw (g, append_assoc (take_all x).0 before (msg ∷ after)),
    )

room-put :
    (msg : Bytes) (slots : Slots)
    → length (contents slots) < length slots
    → put msg slots ≡ some (send msg slots)
unfolding put send
room-put msg [] l = absurd (omega arith)
room-put msg ([] ∷ slots) l = refl
room-put msg ((c ∷ s) ∷ slots) l = ground (arith, room-put msg slots (omega (arith, l)))

length-contents : (slots : Slots) → length (contents slots) ≤ length slots
length-contents [] = omega arith
length-contents ([] ∷ slots) = omega (arith, length-contents slots)
length-contents ((c ∷ s) ∷ slots) = omega (arith, length-contents slots)

full-put :
    (msg : Bytes) (slots : Slots) → length (contents slots) ≡ length slots → put msg slots ≡ none
unfolding put
full-put msg [] l = refl
full-put msg ([] ∷ slots) l = absurd (omega (arith, l, length-contents slots))
full-put msg ((c ∷ s) ∷ slots) l = ground (arith, full-put msg slots (omega (arith, l)))

module _ (me j : ℕ) (msg : Bytes) (shm : Shm) (d : Client) (slots : Slots) (h : IsShm shm)
    (m : IsMsg msg) (there : get_elem? shm j ≡ some d) (live : d.id ≢ 0) (other : j ≢ me)
    (row : get_elem? d.msg me ≡ some slots) where
  -- Where another user's box for the sender has room, a broadcast text is among those that the user's
  -- next handler writes, once, and it writes what it would have written besides in the same order.
  pub broadcast_arrives :
      length (contents slots) < 10
      → (d' : Client) × (before after : List Bytes) × (get_elem? (broadcast me msg shm).0 j
          ≡ some d')
        × ((sig_usr1 d).1 ≡ written (before ++ after))
        × ((sig_usr1 d').1 ≡ written (before ++ msg ∷ after))
  unfolding post sig_usr1
  broadcast_arrives l =
      let b = All-get IsBox d.msg me slots (client_at j shm d h there).boxes row in
      let (before, after, f, g) =
        take_rows-set d.msg me slots msg row m.nonempty b.packed (omega (arith, l, b.sized)) in
      (
        record d { msg = set d.msg me (send msg slots) },
        before,
        after,
        broadcast_at me j msg shm d there
            ∙ ground (arith, room-put msg slots (omega (arith, l, b.sized))),
        ap written f,
        ap written g,
      )

  -- Where the box is full, the text is lost, and nobody learns it: every place of the shared memory and
  -- all that the sender's process does, its signals and its output, are as if the user were not there, and
  -- the user's place stays as it is.
  pub broadcast_lost :
      length (contents slots) ≡ 10
      → let (others, effects) = broadcast me msg (set shm j no_client) in
        broadcast me msg shm ≡ (set others j d, effects)
  unfolding post broadcast
  broadcast_lost l =
      let b = All-get IsBox d.msg me slots (client_at j shm d h there).boxes row in
      broadcast_from_skips me 0 j j msg shm d (omega arith) there
        (ground (arith, full-put msg slots (l ∙ sym b.sized)))
