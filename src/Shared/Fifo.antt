-- ===== src/Shared/Fifo.antt =====
-- project2/np_multi_proc.cpp: pipes between users, `<n` and `>n` in a command. A FIFO is made by the
-- sender, opened for reading by the receiver's handler of SIGUSR2, and unlinked by the receiver after
-- the command that reads it.
pub mod RoundTrip
pub mod Stale
use network_programming_demo.Prelude.{
  ℕ, zero, suc, ◌+◌, List, [], ◌∷◌, ◌++◌, Option, none, some, ◌>>=◌, Bool, ◌==◌, ltb, if◌then◌else◌,
  get_elem?, set, take, ◌||◌,
}
use network_programming_demo.Prelude.Int.{ℤ, pos, negsuc}
use network_programming_demo.Text.Bytes.{Bytes, codes}
use network_programming_demo.Text.Find.{find}
use network_programming_demo.Text.Decimal.{to_string}
use network_programming_demo.Chat.UserPipe.{pipe_number, sends_to_user, no_pipe, has_pipe}
use network_programming_demo.Shared.State.{
  Fifo, Client, Shm, Effect, printed, wrote, killed, made, opened, unlinked, closed, usr2, Outcome,
  no_fifo, broadcast, cut, fit,
}
use network_programming_demo.Shared.Users.{no_client_text}

-- Whether mkfifo makes a FIFO of a name, and the descriptor that open gives; an open that fails is
-- left out.
pub record Os : Type 0 where
  pub mkfifo : Bytes → Bool
  pub open_fd : Bytes → ℕ

-- A command that is refused ends there; one that is let through goes on with the descriptors of the
-- FIFOs for its input and its output, 0 for none.
pub data Gate : Type 0 where
  refused : Outcome → Gate
  passed : Outcome → ℕ → ℕ → Gate

-- The conversions are "%str": a text, and the letters "tr".
abbrev pub str : Bytes → Bytes
str s = s ++ codes "tr"

unfoldable pub received_text : Client → Client → Bytes → Bytes
unfolding to_string
received_text receiver sender line =
    codes "*** "
    ++ str receiver.nickname
    ++ codes " (#"
    ++ to_string receiver.id
    ++ codes ") just received from "
    ++ str sender.nickname
    ++ codes " (#"
    ++ to_string sender.id
    ++ codes ") by '"
    ++ str line
    ++ codes "' ***\n"

unfoldable pub piped_text : Client → Bytes → Client → ℕ → Bytes
unfolding to_string
piped_text sender line receiver recvid =
    codes "*** "
    ++ str sender.nickname
    ++ codes " (#"
    ++ to_string sender.id
    ++ codes ") just piped '"
    ++ str line
    ++ codes "' to "
    ++ str receiver.nickname
    ++ codes " (#"
    ++ to_string recvid
    ++ codes ") ***\n"

-- The sender `d` at place s, the caller `c`, and its entry for the sender.
unfoldable pub receive_from : ℕ → ℕ → Client → Client → Fifo → Bytes → Shm → Option Gate
receive_from me s d c f line shm =
    if d.id == 0
    then some (refused (shm, printed (no_client_text (pos (suc s))) ∷ []))
    else if f.fd == 0
    then some (refused (shm, printed (no_pipe (suc s) c.id) ∷ []))
    else (do msg ← fit (received_text c d line); some (passed (broadcast me msg shm) f.fd 0))

-- The checks behind `strchr(old_cmd, '<')`, with the number read; number 0 reads `clients[-1]`.
unfoldable pub receive : ℕ → ℤ → Bytes → Shm → Option Gate
receive me (negsuc n) line shm = some (refused (shm, printed (no_client_text (negsuc n)) ∷ []))
receive me (pos zero) line shm = none
receive me (pos (suc s)) line shm =
    if ltb 29 s then some (refused (shm, printed (no_client_text (pos (suc s))) ∷ [])) else (do
      d ← get_elem? shm s
      c ← get_elem? shm me
      f ← get_elem? c.fifo s
      receive_from me s d c f line shm)

-- The name of the FIFO, in an array of 65 bytes.
unfoldable pub fifo_name : ℕ → ℕ → Bytes
unfolding to_string
fifo_name s r =
    take 64 (codes "/net/gcs/110/310555007/user_fifo/" ++ to_string s ++ codes "->" ++ to_string r)

-- `sig_handler` on SIGUSR2: FIFOs that have a name and no descriptor are opened.
unfoldable pub open_fifos : Os → List Fifo → List Fifo × List Effect
open_fifos os [] = ([], [])
open_fifos os (f ∷ fs) =
    let (fs', es) = open_fifos os fs in
    elim f.fd [
      | suc k ↦ (f ∷ fs', es)
      | zero ↦ (elim f.filename [
        | [] ↦ (f ∷ fs', es)
        | c ∷ s ↦ (record f { fd = os.open_fd f.filename } ∷ fs', opened f.filename ∷ es)
      ])
    ]

unfoldable pub sig_usr2 : Os → Client → Client × List Effect
unfolding open_fifos
sig_usr2 os c = let (fs, es) = open_fifos os c.fifo in (record c { fifo = fs }, es)

-- The receiver's entry for the sender gets the name, and the receiver the signal; one's own signal is
-- handled before `kill` returns.
unfoldable pub name_fifo : Os → ℕ → ℕ → Bytes → Client → Client × List Effect
unfolding sig_usr2
name_fifo os me r name d =
    let f : Fifo = record { fd = 0; filename = name } in
    let d' = record d { fifo = set d.fifo me f } in
    let (own, es) = sig_usr2 os d' in
    if r == me then (own, killed d.pid usr2 ∷ es) else (d', killed d.pid usr2 ∷ [])

-- The FIFO is made, named, and opened by the sender; then all users are told.
unfoldable pub hand_over : Os → ℕ → Client → ℕ → Client → Bytes → Shm → Outcome
unfolding name_fifo fifo_name
hand_over os me c r d line shm =
    let name = fifo_name c.id (suc r) in
    let (d', es) = name_fifo os me r name d in
    let (shm', more) = broadcast me (cut (piped_text c line d (suc r))) (set shm r d') in
    (shm', made name ∷ es ++ opened name ∷ more)

-- The receiver `d` at place r, the caller `c`, and the receiver's entry for it; `fd_in` is the input
-- so far.
unfoldable pub offer_to : Os → ℕ → ℕ → Client → Client → Fifo → Bytes → ℕ → Shm → Option Gate
unfolding hand_over
offer_to os me r d c f line fd_in shm =
    if d.id == 0
    then some (refused (shm, printed (no_client_text (pos (suc r))) ∷ []))
    else if f.fd == 0
    then (if os.mkfifo (fifo_name c.id (suc r))
        then some
            (passed (hand_over os me c r d line shm) fd_in (os.open_fd (fifo_name c.id (suc r))))
        else some (refused (shm, wrote (codes "error: failed to create FIFO\n") ∷ [])))
    else some (refused (shm, printed (has_pipe c.id (suc r)) ∷ []))

-- The checks behind `strchr(old_cmd, '>')`, with the number read.
unfoldable pub offer : Os → ℕ → ℤ → Bytes → ℕ → Shm → Option Gate
unfolding offer_to
offer os me (pos (suc r)) line fd_in shm =
    if ltb 29 r then some (refused (shm, printed (no_client_text (pos (suc r))) ∷ [])) else (do
      d ← get_elem? shm r
      c ← get_elem? shm me
      f ← get_elem? d.fifo me
      offer_to os me r d c f line fd_in shm)
offer os me number line fd_in shm = some (refused (shm, printed (no_client_text number) ∷ []))

-- The second check goes on with the effects and the input of the first one.
abbrev pub after : List Effect → Gate → Gate
after es (refused (shm, more)) = refused (shm, es ++ more)
after es (passed (shm, more) fd_in fd_out) = passed (shm, es ++ more) fd_in fd_out

unfoldable pub sending : Os → ℕ → Bytes → Outcome → ℕ → Option Gate
unfolding sends_to_user
sending os me line (shm, es) fd_in =
    if sends_to_user line
    then (do
      number ← pipe_number b'>' line
      gate ← offer os me number line fd_in shm
      some (after es gate))
    else some (passed (shm, es) fd_in 0)

unfoldable pub receiving : ℕ → Bytes → Shm → Option Gate
unfolding find
receiving me line shm = elim (find b'<' line) [
  | none ↦ some (passed (shm, []) 0 0)
  | some _ ↦ (do number ← pipe_number b'<' line; receive me number line shm)
]

-- Both checks of `do_exec` on a line, the input first.
unfoldable pub gates : Os → ℕ → Bytes → Shm → Option Gate
unfolding sending receiving
gates os me line shm = do
  input ← receiving me line shm
  elim input [
    | refused out ↦ some (refused out)
    | passed out fd_in fd_out ↦ sending os me line out fd_in
  ]

abbrev close_output : ℕ → List Effect
close_output fd = if fd == 0 then [] else closed fd ∷ []

-- The end of `do_exec`: the input from the user at place s, if there is one, is given up.
unfoldable pub finish : ℕ → ℕ → ℕ → ℕ → Shm → Option Outcome
finish me s fd_in fd_out shm = do
  c ← get_elem? shm me
  f ← get_elem? c.fifo s
  some (
      if fd_in == 0 || f.fd == 0 then (shm, close_output fd_out) else (
        set shm me (record c { fifo = set c.fifo s no_fifo }),
        close_output fd_out ++ unlinked f.filename ∷ [],
      ))
