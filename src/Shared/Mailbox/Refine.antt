-- ===== src/Shared/Mailbox/Refine.antt =====
-- A box is a bounded queue.
use network_programming_demo.Prelude.{
  ℕ, suc, List, [], ◌∷◌, ◌++◌, ltb, if◌then◌else◌, length, ◌≡◌, refl, ◌≢◌, arith, ap, ◌∙◌, All,
  Option-cases, inl, inr,
}
use network_programming_demo.Text.Bytes.{Bytes}
use network_programming_demo.Shared.Mailbox.{Slots, put, take_all, send}

-- The texts of a box that can be read.
abbrev pub contents : Slots → List Bytes
contents [] = []
contents ([] ∷ slots) = contents slots
contents ((c ∷ s) ∷ slots) = (c ∷ s) ∷ contents slots

-- No text stands behind a free place.
abbrev pub IsPacked : Slots → Type 0
IsPacked [] = Unit
IsPacked ([] ∷ slots) = All (λ s. s ≡ []) slots
IsPacked ((c ∷ s) ∷ slots) = IsPacked slots

contents_free : (slots : Slots) → All (λ s. s ≡ []) slots → contents slots ≡ []
contents_free [] h = refl
contents_free ([] ∷ slots) h = contents_free slots h.1
contents_free ((c ∷ s) ∷ slots) h = absurd (ground (arith, h.0))

-- A queue that takes at most `cap` texts, and gives up all at once.
abbrev push : ℕ → List Bytes → Bytes → List Bytes
push cap q msg = if ltb (length q) cap then q ++ msg ∷ [] else q

pub send-contents :
    (msg : Bytes) (slots : Slots)
    → msg ≢ []
    → IsPacked slots
    → contents (send msg slots) ≡ push (length slots) (contents slots) msg
unfolding send put
send-contents msg [] n p = ground arith
send-contents [] ([] ∷ slots) n p = absurd (n refl)
send-contents (c ∷ s) ([] ∷ slots) n p = ground (arith, contents_free slots p)
send-contents msg ((c ∷ s) ∷ slots) n p = elim (Option-cases (put msg slots)) [
  | inl e ↦ ground (arith, send-contents msg slots n p)
  | inr (slots', e) ↦ ground (arith, send-contents msg slots n p)
]

pub free-IsPacked : (slots : Slots) → All (λ t. t ≡ []) slots → IsPacked slots
free-IsPacked [] h = tt
free-IsPacked ([] ∷ slots) h = h.1
free-IsPacked ((d ∷ t) ∷ slots) h = absurd (ground (arith, h.0))

pub send-IsPacked :
    (msg : Bytes) (slots : Slots) → msg ≢ [] → IsPacked slots → IsPacked (send msg slots)
unfolding send put
send-IsPacked msg [] n p = tt
send-IsPacked [] ([] ∷ slots) n p = absurd (n refl)
send-IsPacked (c ∷ s) ([] ∷ slots) n p = free-IsPacked slots p
send-IsPacked msg ((c ∷ s) ∷ slots) n p = elim (Option-cases (put msg slots)) [
  | inl e ↦ ground arith
  | inr (slots', e) ↦ ground (arith, send-IsPacked msg slots n p)
]

pub length-send : (msg : Bytes) (slots : Slots) → length (send msg slots) ≡ length slots
unfolding send put
length-send msg [] = refl
length-send msg ([] ∷ slots) = refl
length-send msg ((c ∷ s) ∷ slots) = elim (Option-cases (put msg slots)) [
  | inl e ↦ ground arith
  | inr (slots', e) ↦ ground (arith, length-send msg slots)
]

pub take_all-contents :
    (slots : Slots)
    → ((take_all slots).0 ≡ contents slots)
      × All (λ s. s ≡ []) (take_all slots).1
      × (length (take_all slots).1 ≡ length slots)
unfolding take_all
take_all-contents [] = (refl, tt, refl)
take_all-contents ([] ∷ slots) = let (e, f, l) = take_all-contents slots in (e, (refl, f), ap suc l)
take_all-contents ((c ∷ s) ∷ slots) =
    let (e, f, l) = take_all-contents slots in (ap (◌∷◌ (c ∷ s)) e, (refl, f), ap suc l)

-- What senders and the receiver do to a box.
pub data Op : Type 0 where
  post : Bytes → Op
  read : Op

abbrev pub IsText : Op → Type 0
IsText (post msg) = msg ≢ []
IsText read = Unit

-- What is read, read by read.
abbrev pub run : Slots → List Op → List (List Bytes)
run slots [] = []
run slots (post msg ∷ ops) = run (send msg slots) ops
run slots (read ∷ ops) = (take_all slots).0 ∷ run (take_all slots).1 ops

abbrev pub run_queue : ℕ → List Bytes → List Op → List (List Bytes)
run_queue cap q [] = []
run_queue cap q (post msg ∷ ops) = run_queue cap (push cap q msg) ops
run_queue cap q (read ∷ ops) = q ∷ run_queue cap [] ops

-- No sequence of posts and reads tells a box from a queue of the texts that it holds, which takes as
-- many texts as the box has places, drops what is posted while it is full, and gives the texts in
-- the order in which they were posted.
pub run_refines :
    (ops : List Op) (slots : Slots)
    → IsPacked slots
    → All IsText ops
    → run slots ops ≡ run_queue (length slots) (contents slots) ops
run_refines [] slots p t = refl
run_refines (post msg ∷ ops) slots p t =
    run_refines ops (send msg slots) (send-IsPacked msg slots t.0 p) t.1
    ∙ rw (length-send msg slots, send-contents msg slots t.0 p)
run_refines (read ∷ ops) slots p t =
    let (e, f, l) = take_all-contents slots in
    let next = run_refines ops (take_all slots).1 (free-IsPacked (take_all slots).1 f) t.1 in
    rw (next, e, l, contents_free (take_all slots).1 f)
