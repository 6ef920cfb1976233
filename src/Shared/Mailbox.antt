-- ===== src/Shared/Mailbox.antt =====
-- project2/np_multi_proc.cpp: `msg[s]` of a client, the ten texts from one sender that are not read yet.
-- A text whose first byte is NUL is a free place.
pub mod Refine
use network_programming_demo.Prelude.{List, [], ◌∷◌, ◌++◌, Option, none, some}
use network_programming_demo.Text.Bytes.{Bytes}

abbrev pub Slots : Type 0
Slots = List Bytes

-- The loop of `broadcast` and `execute_tell` over j: the first free place takes the text.
unfoldable pub put : Bytes → Slots → Option Slots
put msg [] = none
put msg ([] ∷ slots) = some (msg ∷ slots)
put msg ((c ∷ s) ∷ slots) = elim (put msg slots) [
  | none ↦ none
  | some slots' ↦ some ((c ∷ s) ∷ slots')
]

-- The loop of `sig_handler` over j: what is written, and the places afterwards.
unfoldable pub take_all : Slots → List Bytes × Slots
take_all [] = ([], [])
take_all ([] ∷ slots) = let (texts, rest) = take_all slots in (texts, [] ∷ rest)
take_all ((c ∷ s) ∷ slots) = let (texts, rest) = take_all slots in ((c ∷ s) ∷ texts, [] ∷ rest)

-- With a full box nothing is written, and nobody is told.
unfoldable pub send : Bytes → Slots → Slots
unfolding put
send msg slots = elim (put msg slots) [ none ↦ slots | some slots' ↦ slots' ]

-- The loop of `sig_handler` over i, the senders.
unfoldable pub take_rows : List Slots → List Bytes × List Slots
unfolding take_all
take_rows [] = ([], [])
take_rows (slots ∷ rows) =
    let (texts, slots') = take_all slots in
    let (more, rows') = take_rows rows in (texts ++ more, slots' ∷ rows')
