-- ===== src/Chat/UserPipe.antt =====
-- project2/np_single_proc.cpp: pipes between users, `<n` and `>n` in a command. `do_exec` checks and
-- announces them; `parser` stores the read end of a pipe for its receiver.
pub mod Laws
pub mod RoundTrip
use network_programming_demo.Prelude.{
  ℕ, suc, ◌+◌, ◌-◌, [], ◌∷◌, ◌++◌, Option, none, some, ◌>>=◌, Bool, true, false, not, ◌==◌, ◌&&◌,
  ltb, leb, if◌then◌else◌, get_elem?,
}
use network_programming_demo.Prelude.Int.{ℤ, pos}
use network_programming_demo.Text.Bytes.{Bytes, codes}
use network_programming_demo.Text.Find.{find}
use network_programming_demo.Text.Decimal.{to_string, atoi}
use network_programming_demo.Text.Tokens.{tokens}
use network_programming_demo.Chat.State.{
  UserPipe, Server, Out, client_index, sockets, to_all, int_text,
}
use network_programming_demo.Chat.Talk.{no_user}

-- The number behind the mark: `atoi` of the first word of the second token at the mark.
unfoldable pub pipe_number : ℕ → Bytes → Option ℤ
unfolding tokens atoi
pipe_number mark line = do
  behind ← get_elem? (tokens mark line) 1
  word ← get_elem? (tokens b' ' behind) 0
  some (atoi word)

-- A number from 1 to 30 of a user who is there, `none` for any other.
unfoldable pub partner : ℤ → Server → Option ℕ
partner (pos (suc n)) m =
    if ltb n 30
    then (elim (get_elem? m.clients n) [
      | none ↦ none
      | some c ↦ if c.fd == 0 then none else some (n + 1)
    ])
    else none
partner _ m = none

-- `user_pipe[s][r]`, an array of 31 by 31.
abbrev pub pipe_at : ℕ → ℕ → Server → Option UserPipe
pipe_at s r m = if leb s 30 && leb r 30 then some (m.user_pipe s r) else none

abbrev pub set_pipe : ℕ → ℕ → UserPipe → Server → Server
set_pipe s r p m = record m { user_pipe = λ i j. if i == s && j == r then p else m.user_pipe i j }

abbrev nickname : ℕ → Server → Option Bytes
nickname number m = elim (get_elem? m.clients (number - 1)) [
  | none ↦ none
  | some c ↦ some c.nickname
]

-- A command that is refused ends there; one that is let through goes on with a descriptor for its
-- input. Both come with the writes and the state.
pub data Gate : Type 0 where
  refused : Out → Server → Gate
  passed : Out → Server → ℕ → Gate

-- The state that the rest of the command starts from.
abbrev pub gate_state : Gate → Server
gate_state (refused out m) = m
gate_state (passed out m fd) = m

unfoldable pub arrow : ℕ → ℕ → Bytes
unfolding to_string
arrow s r = codes "#" ++ to_string s ++ codes "->#" ++ to_string r

unfoldable pub no_pipe : ℕ → ℕ → Bytes
unfolding arrow
no_pipe s r = codes "*** Error: the pipe " ++ arrow s r ++ codes " does not exist yet. ***\n"

unfoldable pub has_pipe : ℕ → ℕ → Bytes
unfolding arrow
has_pipe s r = codes "*** Error: the pipe " ++ arrow s r ++ codes " already exists. ***\n"

unfoldable pub received_text : Bytes → ℕ → Bytes → ℕ → Bytes → Bytes
unfolding to_string
received_text receiver r sender s line =
    codes "*** "
    ++ receiver
    ++ codes " (#"
    ++ to_string r
    ++ codes ") just received from "
    ++ sender
    ++ codes " (#"
    ++ to_string s
    ++ codes ") by '"
    ++ line
    ++ codes "' ***\n"

unfoldable pub piped_text : Bytes → ℕ → Bytes → Bytes → ℕ → Bytes
unfolding to_string
piped_text sender s line receiver r =
    codes "*** "
    ++ sender
    ++ codes " (#"
    ++ to_string s
    ++ codes ") just piped '"
    ++ line
    ++ codes "' to "
    ++ receiver
    ++ codes " (#"
    ++ to_string r
    ++ codes ") ***\n"

-- `if ((s = strchr(old_cmd, '<')))` with the number read.
unfoldable pub receive : ℕ → ℤ → Bytes → Server → Option Gate
receive fd number line m = do
  i ← client_index fd m
  elim (partner number m) [
    | none ↦ some (refused ((fd, no_user (int_text number)) ∷ []) m)
    | some s ↦ (do
      p ← pipe_at s (i + 1) m
      if p.flag == 0 then some (refused ((fd, no_pipe s (i + 1)) ∷ []) m) else (do
        me ← nickname (i + 1) m
        sender ← nickname s m
        some (
            passed (to_all (sockets m) (received_text me (i + 1) sender s line))
              (set_pipe s (i + 1) (record p { flag = 0 }) m) p.pipe_fd)))
  ]

-- `if ((s = strchr(old_cmd, '>')))` with the number read: the check and the announcement.
unfoldable pub offer : ℕ → ℤ → Bytes → Server → Option Gate
offer fd number line m = do
  i ← client_index fd m
  elim (partner number m) [
    | none ↦ some (refused ((fd, no_user (int_text number)) ∷ []) m)
    | some r ↦ (do
      p ← pipe_at (i + 1) r m
      if p.flag == 1 then some (refused ((fd, has_pipe (i + 1) r) ∷ []) m) else (do
        me ← nickname (i + 1) m
        receiver ← nickname r m
        some (passed (to_all (sockets m) (piped_text me (i + 1) line receiver r)) m 0)))
  ]

-- The parent's side of `parser` for a stage with `>n`: the read end is kept for the receiver.
unfoldable pub keep_pipe : ℕ → ℤ → ℕ → Server → Option Server
keep_pipe fd number read_end m = do
  i ← client_index fd m
  elim (partner number m) [
    | none ↦ some m
    | some r ↦ (do
      p ← pipe_at (i + 1) r m
      some (
          if p.flag == 0
          then set_pipe (i + 1) r (record { pipe_fd = read_end; flag = 1 }) m
          else m))
  ]

-- Its side for a stage with `<n`: a pipe that is still there is given up.
unfoldable pub drop_pipe : ℕ → ℤ → Server → Option Server
drop_pipe fd number m = do
  i ← client_index fd m
  elim (partner number m) [
    | none ↦ some m
    | some s ↦ (do
      p ← pipe_at s (i + 1) m
      some (if p.flag == 1 then set_pipe s (i + 1) (record p { flag = 0 }) m else m))
  ]

-- `(s = strchr(line, '>'))` and `s[1] != ' '`.
unfoldable pub sends_to_user : Bytes → Bool
unfolding find
sends_to_user line = elim (find b'>' line) [
  | none ↦ false
  | some k ↦ (elim (get_elem? line (k + 1)) [ none ↦ true | some c ↦ not (c == b' ') ])
]

-- The second check, after the writes and with the input of the first one.
unfoldable pub sending : ℕ → Bytes → Out → ℕ → Server → Option Gate
sending fd line out fd_in m =
    if sends_to_user line
    then (do
      number ← pipe_number b'>' line
      gate ← offer fd number line m
      some (elim gate [
        | refused more m' ↦ refused (out ++ more) m'
        | passed more m' _ ↦ passed (out ++ more) m' fd_in
      ]))
    else some (passed out m fd_in)

-- The first one: a line without "<" has no input from a user.
unfoldable pub receiving : ℕ → Bytes → Server → Option Gate
unfolding find
receiving fd line m = elim (find b'<' line) [
  | none ↦ some (passed [] m 0)
  | some _ ↦ (do number ← pipe_number b'<' line; receive fd number line m)
]

-- Both checks of `do_exec` on a line, the input first.
unfoldable pub gates : ℕ → Bytes → Server → Option Gate
unfolding sending receiving
gates fd line m = do
  input ← receiving fd line m
  elim input [
    | refused out m' ↦ some (refused out m')
    | passed out m' fd_in ↦ sending fd line out fd_in m'
  ]
