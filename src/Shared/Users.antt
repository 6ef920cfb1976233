-- ===== src/Shared/Users.antt =====
-- project2/np_multi_proc.cpp: users come and go, and the commands `who`, `nickname`, `yell` and `tell`.
-- `me` is the place of the calling process, `ops` what stands in `operand`.
pub mod Bounds
use network_programming_demo.Prelude.{
  ℕ, zero, suc, ◌+◌, ◌-◌, List, [], ◌∷◌, ◌++◌, Option, none, some, ◌>>=◌, Bool, false, ◌==◌, ◌||◌,
  ◌&&◌, ltb, if◌then◌else◌, length, get_elem?, set, drop, take,
}
use network_programming_demo.Prelude.Int.{ℤ, pos}
use network_programming_demo.Text.Bytes.{Bytes, codes, equal}
use network_programming_demo.Text.Decimal.{to_string, atoi}
use network_programming_demo.Text.Tokens.{join}
use network_programming_demo.Chat.State.{int_text}
use network_programming_demo.Shared.State.{
  Fifo, Client, Shm, Effect, printed, wrote, closed, unlinked, Outcome, no_client, broadcast, post,
  cut, fit,
}

unfoldable pub free_place : Shm → Option ℕ
free_place [] = none
free_place (c ∷ cs) =
    if c.id == 0 then some 0 else (elim (free_place cs) [ none ↦ none | some i ↦ some (suc i) ])

abbrev pub banner : Bytes
banner =
    codes "****************************************\n"
    ++ codes "** Welcome to the information server. **\n"
    ++ codes "****************************************\n"

unfoldable pub entered : Bytes → Bytes → ℕ → Bytes
unfolding to_string
entered name ip port =
    codes "*** client '"
    ++ name
    ++ codes "' entered from "
    ++ ip
    ++ codes ":"
    ++ to_string port
    ++ codes ". ***\n"

abbrev pub full : Bytes
full = codes "The server is full.\nPlease try again later...\n"

-- The place keeps the rows of texts and FIFOs that it has.
abbrev pub settle : ℕ → ℕ → Bytes → ℕ → Client → Client
settle i pid ip port c = record c {
  id = i + 1;
  pid = pid;
  nickname = codes "(no name)";
  ip = take 16 ip;
  port = port;
}

-- `clients[i]` with i inside the array.
abbrev pub adjust : Shm → ℕ → (Client → Client) → Shm
adjust [] i f = []
adjust (c ∷ cs) zero f = f c ∷ cs
adjust (c ∷ cs) (suc i) f = c ∷ adjust cs i f

-- The place that is taken, `none` for -1.
unfoldable pub add_client : ℕ → Bytes → ℕ → Shm → Outcome × Option ℕ
unfolding free_place
add_client pid ip port shm = elim (free_place shm) [
  | none ↦ ((shm, printed banner ∷ wrote full ∷ []), none)
  | some i ↦
      let msg = cut (entered (codes "(no name)") (take 16 ip) port) in
      let (shm', es) = broadcast i msg (adjust shm i (settle i pid ip port)) in
      ((shm', printed banner ∷ es ++ wrote (codes "% ") ∷ []), some i)
]

unfoldable pub who_row : ℕ → ℕ → Client → Bytes
unfolding to_string
who_row me i c =
    to_string c.id
    ++ codes "\t"
    ++ c.nickname
    ++ codes "\t"
    ++ c.ip
    ++ codes ":"
    ++ to_string c.port
    ++ (if i == me then codes "\t<-me" else [])
    ++ codes "\n"

unfoldable pub who_rows : ℕ → ℕ → Shm → Bytes
who_rows me i [] = []
who_rows me i (c ∷ cs) =
    let rows = who_rows me (suc i) cs in if ltb 0 c.id then who_row me i c ++ rows else rows

unfoldable pub execute_who : ℕ → Shm → List Effect
unfolding who_rows
execute_who me shm =
    printed (codes "<ID>\t<nickname>\t<IP:port>\t<indicate me>\n" ++ who_rows me 0 shm) ∷ []

-- The caller's own name counts too.
unfoldable pub is_taken : Bytes → Shm → Bool
unfolding equal
is_taken name [] = false
is_taken name (c ∷ cs) = ltb 0 c.id && equal c.nickname name || is_taken name cs

unfoldable pub already_exists : Bytes → Bytes
already_exists name = codes "*** client '" ++ name ++ codes "' already exists. ***\n"

unfoldable pub named : Bytes → ℕ → Bytes → Bytes
unfolding to_string
named ip port name =
    codes "*** client from "
    ++ ip
    ++ codes ":"
    ++ to_string port
    ++ codes " is named '"
    ++ name
    ++ codes "'. ***\n"

-- `strcpy` into `char nickname[NAME_SIZE + 1]`.
abbrev pub fit_name : Bytes → Option Bytes
fit_name name = if ltb 20 (length name) then none else some name

unfoldable pub execute_name : ℕ → List Bytes → Shm → Option Outcome
unfolding is_taken
execute_name me ops shm = do
  name ← get_elem? ops 1
  if is_taken name shm then some (shm, printed (already_exists name) ∷ []) else (do
    c ← get_elem? shm me
    name' ← fit_name name
    some
        (broadcast me (cut (named c.ip c.port name')) (set shm me (record c { nickname = name' }))))

unfoldable pub yelled : Bytes → Bytes → Bytes
yelled name text = codes "*** " ++ name ++ codes " yelled ***: " ++ text ++ codes "\n"

-- The words joined by blanks; `string(NULL)` throws.
abbrev pub said : List Bytes → Option Bytes
said [] = none
said (w ∷ ws) = some (join b' ' (w ∷ ws))

unfoldable pub execute_yell : ℕ → List Bytes → Shm → Option Outcome
execute_yell me ops shm = do
  text ← said (drop 1 ops)
  c ← get_elem? shm me
  msg ← fit (yelled c.nickname text)
  some (broadcast me msg shm)

unfoldable pub told : Bytes → Bytes → Bytes
told name text = codes "*** " ++ name ++ codes " told you ***: " ++ text ++ codes "\n"

unfoldable pub no_client_text : ℤ → Bytes
unfolding int_text
no_client_text n = codes "*** Error: client #" ++ int_text n ++ codes " does not exist yet. ***\n"

unfoldable pub tell_to : ℕ → ℤ → Bytes → Shm → Option Outcome
unfolding post
tell_to me (pos (suc r)) text shm = do
  d ← get_elem? shm r
  if d.id == 0 then some (shm, printed (no_client_text (pos (suc r))) ∷ []) else (do
    c ← get_elem? shm me
    msg ← fit (told c.nickname text)
    some (set shm r (post me r msg d).0, (post me r msg d).1))
tell_to me n text shm = some (shm, printed (no_client_text n) ∷ [])

unfoldable pub execute_tell : ℕ → List Bytes → Shm → Option Outcome
unfolding atoi
execute_tell me ops shm = do
  text ← said (drop 2 ops)
  number ← get_elem? ops 1
  tell_to me (atoi number) text shm

unfoldable pub left : Bytes → Bytes
left name = codes "*** client '" ++ name ++ codes "' left. ***\n"

-- The user's own FIFOs, closed and unlinked.
unfoldable drop_fifos : List Fifo → List Effect
drop_fifos [] = []
drop_fifos (f ∷ fs) =
    let es = drop_fifos fs in if f.fd == 0 then es else closed f.fd ∷ unlinked f.filename ∷ es

unfoldable pub removed : ℕ → List Fifo → Outcome → Outcome
unfolding drop_fifos
removed me fifos (shm, es) =
    (set shm me no_client, es ++ closed 0 ∷ closed 1 ∷ closed 2 ∷ drop_fifos fifos)

unfoldable pub rm_user : ℕ → Shm → Option Outcome
unfolding removed
rm_user me shm = do
  c ← get_elem? shm me
  some (removed me c.fifo (broadcast me (cut (left c.nickname)) shm))
