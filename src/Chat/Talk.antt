-- ===== src/Chat/Talk.antt =====
-- project2/np_single_proc.cpp: the commands `who`, `tell`, `yell` and `name`. `ops` are the operands
-- that `split_space` leaves, the command's own word first; a missing one is a null pointer.
pub mod Names
pub mod Delivery
use network_programming_demo.Prelude.{
  ℕ, zero, suc, ◌+◌, ◌-◌, List, [], ◌∷◌, ◌++◌, Option, none, some, ◌>>=◌, Bool, false, not, ◌==◌,
  ◌&&◌, ◌||◌, ltb, if◌then◌else◌, length, get_elem?, drop,
}
use network_programming_demo.Prelude.Int.{ℤ, pos}
use network_programming_demo.Text.Bytes.{Bytes, codes, equal}
use network_programming_demo.Text.Decimal.{to_string, atoi}
use network_programming_demo.Text.Tokens.{tokens, join}
use network_programming_demo.Chat.State.{Client, Server, Out, client_index, sockets, to_all, update}

-- `operand[0]`, `operand[1]`, … up to the null pointer.
unfoldable pub split_space : Bytes → List Bytes
unfolding tokens
split_space str = tokens b' ' str

unfoldable pub who_row : ℕ → ℕ → Client → Bytes
unfolding to_string
who_row fd i c =
    to_string (i + 1)
    ++ codes "\t"
    ++ c.nickname
    ++ codes "\t"
    ++ c.ip
    ++ codes ":"
    ++ to_string c.port
    ++ (if c.fd == fd then codes "\t<-me\n" else codes "\n")

-- The loop over `i <= size`, over the rounds left.
unfoldable pub who_rows : ℕ → ℕ → ℕ → List Client → Option Bytes
who_rows fd i zero cs = some []
who_rows fd i (suc n) [] = none
who_rows fd i (suc n) (c ∷ cs) = elim (who_rows fd (i + 1) n cs) [
  | none ↦ none
  | some rows ↦ some (if c.fd == 0 then rows else who_row fd i c ++ rows)
]

unfoldable pub execute_who : ℕ → Server → Option Out
unfolding who_rows who_row
execute_who fd m = do
  rows ← who_rows fd 0 (suc m.size) m.clients
  some ((fd, codes "<ID>\t<nickname>\t<IP:port>\t<indicate me>\n" ++ rows) ∷ [])

-- Texts joined by blanks in an array of `limit` bytes.
abbrev joined : ℕ → List Bytes → Option Bytes
joined limit [] = none
joined limit (t ∷ ts) =
    if ltb (length (join b' ' (t ∷ ts))) limit then some (join b' ' (t ∷ ts)) else none

-- An index that may lie outside the table.
unfoldable pub index : ℤ → Option ℕ
index (pos (suc n)) = some n
index _ = none

unfoldable pub no_user : Bytes → Bytes
no_user number = codes "*** Error: user #" ++ number ++ codes " does not exist yet. ***\n"

unfoldable pub told : Bytes → Bytes → Bytes
told name text = codes "*** " ++ name ++ codes " told you ***: " ++ text ++ codes "\n"

unfoldable pub execute_tell : ℕ → List Bytes → Server → Option Out
unfolding index
execute_tell fd ops m = do
  number ← get_elem? ops 1
  r ← index (atoi number)
  receiver ← get_elem? m.clients r
  if receiver.fd == 0 then some ((fd, no_user (to_string (r + 1))) ∷ []) else (do
    i ← client_index fd m
    sender ← get_elem? m.clients i
    text ← joined 512 (drop 2 ops)
    some ((receiver.fd, told sender.nickname text) ∷ []))

unfoldable pub yelled : Bytes → Bytes → Bytes
yelled name text = codes "*** " ++ name ++ codes " yelled ***: " ++ text ++ codes "\n"

unfoldable pub execute_yell : ℕ → List Bytes → Server → Option Out
execute_yell fd ops m = do
  text ← joined 1023 (drop 1 ops)
  i ← client_index fd m
  sender ← get_elem? m.clients i
  some (to_all (sockets m) (yelled sender.nickname text))

-- Some other user among the first `n` has the name.
unfoldable pub is_taken : ℕ → Bytes → ℕ → List Client → Bool
unfolding equal
is_taken fd name zero cs = false
is_taken fd name (suc n) [] = false
is_taken fd name (suc n) (c ∷ cs) =
    not (c.fd == fd) && not (c.fd == 0) && equal name c.nickname || is_taken fd name n cs

-- `cid = i` with no break: the last place with the socket.
unfoldable pub last_place : ℕ → ℕ → List Client → Option ℕ
last_place fd zero cs = none
last_place fd (suc n) [] = none
last_place fd (suc n) (c ∷ cs) = elim (last_place fd n cs) [
  | some i ↦ some (suc i)
  | none ↦ if c.fd == fd then some 0 else none
]

unfoldable pub already_exists : Bytes → Bytes
already_exists name = codes "*** User '" ++ name ++ codes "' already exists. ***\n"

unfoldable pub named : Bytes → ℕ → Bytes → Bytes
unfolding to_string
named ip port name =
    codes "*** User from "
    ++ ip
    ++ codes ":"
    ++ to_string port
    ++ codes " is named '"
    ++ name
    ++ codes "'. ***\n"

abbrev short : Bytes → Option Bytes
short name = if ltb (length name) 100 then some name else none

unfoldable pub execute_name : ℕ → List Bytes → Server → Option (Out × Server)
execute_name fd ops m = do
  operand ← get_elem? ops 1
  name ← short operand
  if is_taken fd name m.size m.clients then some ((fd, already_exists name) ∷ [], m) else (do
    cid ← last_place fd m.size m.clients
    c ← get_elem? m.clients cid
    some (to_all (sockets m) (named c.ip c.port name), update m cid (record c { nickname = name })))
