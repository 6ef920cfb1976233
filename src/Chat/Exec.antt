-- ===== src/Chat/Exec.antt =====
-- project2/np_single_proc.cpp: `do_exec` as a whole: the reading of a line, the checks, the built-in
-- commands, and the loop that starts programs, with `parser`. `none` is a null or uninitialised pointer
-- that is used. What the server prints on its own terminal, and the pause after 200 commands, are left
-- out. The last three tests of the child, its new pipe and the result of `parser` are as in
-- project2/np_simple.cpp.
pub mod Wiring
pub mod Ends
pub mod Isolation
use network_programming_demo.Prelude.{
  ℕ, ◌+◌, List, [], ◌∷◌, ◌++◌, Option, none, some, ◌>>=◌, Bool, true, false, not, ◌&&◌, ◌==◌,
  if◌then◌else◌,
}
use network_programming_demo.Text.Bytes.{Bytes, codes}
use network_programming_demo.Simple.Line.{Line, split_env}
use network_programming_demo.Simple.Child.{
  Fds, Args, dup_input, dup_output, dup_error, inherited, wire_error, wire_input, wire_output,
  last_of, Child, sources_of,
}
use network_programming_demo.Simple.Exec.{Os, pipedata, last_get_input}
use network_programming_demo.Chat.State.{Server, Out, client_index}
use network_programming_demo.Chat.Env.{do_printenv}
use network_programming_demo.Chat.Talk.{split_space}
use network_programming_demo.Chat.UserPipe.{
  Gate, refused, passed, gates, keep_pipe, drop_pipe, sends_to_user, pipe_number, partner, pipe_at,
}
use network_programming_demo.Chat.Jobs.{Jobs, Source, count_down, store, reserved}
use network_programming_demo.Chat.Command.{builtin, run_builtin, read_line, has, child_operands}

-- The branches of the child: `f` is what it has so far.
unfoldable pub wire_pipe : ℕ → Args → ℕ → Fds → Fds
wire_pipe fd a w f =
    if a.first && not a.last && a.input == 0
    then dup_error fd (dup_output w f)
    else if not a.first && not a.last && not (a.input == 0)
    then dup_error fd (dup_output w (dup_input a.input f))
    else if a.first && a.last && a.get_input == 4 && a.input == 0
    then dup_error fd (dup_output w f)
    else if a.first && a.last && a.get_input == 4 && not (a.input == 0)
    then dup_error fd (dup_output w (dup_input a.input f))
    else if a.first && not a.last && not (a.input == 0)
    then dup_error fd (dup_output w (dup_input a.input f))
    else dup_error a.output (dup_output a.output (dup_input a.input f))

unfoldable pub wire : ℕ → Args → ℕ → Fds
unfolding wire_pipe wire_error wire_input wire_output
wire fd a w =
    wire_output a w (wire_input a (wire_error a w (wire_pipe fd a w (dup_output fd inherited))))

-- `parser` returns a null pointer, which is used, where there is no such user or the pipe is in use.
unfoldable may_send : ℕ → Bytes → Server → Option ℕ
unfolding client_index pipe_number partner
may_send fd cmd m = do
  number ← pipe_number b'>' cmd
  i ← client_index fd m
  r ← partner number m
  p ← pipe_at (i + 1) r m
  if p.flag == 1 then none else some r

-- A child that does not fault; a pipe to a user takes its standard output.
unfoldable pub child : ℕ → Bytes → Args → ℕ → Bytes → Server → Option Child
unfolding wire child_operands sends_to_user last_of split_space split_env may_send
child fd path a w cmd m = do
  ops ← child_operands cmd
  _ ← if sends_to_user cmd then may_send fd cmd m else some 0
  some (record {
    fds = if sends_to_user cmd then dup_output w (wire fd a w) else wire fd a w;
    file = if has b'>' cmd && not (sends_to_user cmd) then last_of (split_space cmd) else none;
    operand = ops;
    sources = sources_of (split_env path) ops;
  })

-- Texts for sockets; a child, none if it faults, with whether it is waited for; a descriptor that is
-- closed.
pub data Effect : Type 0 where
  wrote : Out → Effect
  started : Option Child → Bool → Effect
  closed : ℕ → Effect

-- The parent's side of `parser`: the pipe to a user is kept, and the one from a user given up.
unfoldable pub keep_and_drop : ℕ → ℕ → Bytes → Server → Option Server
unfolding sends_to_user keep_pipe
keep_and_drop fd read_end cmd m = do
  m' ←
      (if sends_to_user cmd
        then (do number ← pipe_number b'>' cmd; keep_pipe fd number read_end m)
        else some m)
  if has b'<' cmd then (do number ← pipe_number b'<' cmd; drop_pipe fd number m') else some m'

-- The state of the server with its table, and the number of pipes made.
pub record World : Type 0 where
  pub server : Server
  pub jobs : Jobs
  pub made : ℕ

-- What does not change from command to command of a line.
pub record Job : Type 0 where
  pub fd : ℕ
  pub output : ℕ
  pub wait : Bool
  pub n_pipe_err : Bool
  pub get_input : ℕ

abbrev pub args : Job → Bool → Bool → Source → Args
args j first last s = record {
  input = s.input;
  first = first;
  last = last;
  enter = s.enter;
  n_pipe_err = j.n_pipe_err;
  output = j.output;
  get_input = last_get_input last j.get_input;
}

abbrev pub take_source : Bool → ℕ → ℕ → Jobs → Source × Jobs
take_source first fd input t =
    let s : Source = record { input = input; output = 0; enter = false } in
    let (found, es) = count_down 1000 fd s t.client_pipe in
    if first then (found, record t { client_pipe = es }) else (s, t)

-- The parent after a command: a pipe that is not the last one's, or the last one's without a number, has
-- its write end closed; that of a new number is kept.
unfoldable pub finish : Bool → ℕ → ℕ × ℕ → Jobs → List Effect × Jobs
unfolding store
finish last get_input ends t =
    if not last
    then (closed ends.1 ∷ [], t)
    else if get_input == 0
    then (closed ends.1 ∷ [], t)
    else if get_input == 4
    then ([], store ends.0 ends.1 t)
    else ([], t)

-- One round of the loop, and the input of the next.
unfoldable pub stage : Os → Job → Bool → Bool → ℕ → Bytes → World → Option (List Effect × ℕ × World)
unfolding do_printenv count_down child keep_and_drop pipedata finish
stage os j first last input cmd v = do
  path ← do_printenv j.fd (codes "PATH") v.server
  let (s, t) = take_source first j.fd input v.jobs in
      let (ended, t') = finish last (last_get_input last j.get_input) (pipedata os v.made) t in
      (do
        m ← keep_and_drop j.fd (os.pipe_end v.made).0 cmd v.server
        some (
          (if s.enter then closed s.output ∷ [] else [])
              ++ started (child j.fd path (args j first last s) (os.pipe_end v.made).1 cmd v.server)
                  (j.wait && last)
                ∷ ((if s.input == 0 then [] else closed s.input ∷ []) ++ ended),
          (pipedata os v.made).0,
          record { server = m; jobs = t'; made = v.made + 1 },
        ))

-- The commands from one on, the last of which ends the loop.
unfoldable pub stages :
    Os → Job → Bool → ℕ → Bytes → List Bytes → World → Option (List Effect × World)
unfolding stage
stages os j first input cmd [] v = do (es, _, v') ← stage os j first true input cmd v; some (es, v')
stages os j first input cmd (next ∷ cmds) v = do
  (es, input', v') ← stage os j first false input cmd v
  (more, v'') ← stages os j false input' next cmds v'
  some (es ++ more, v'')

-- What do_exec returns, what was done, and the new state.
abbrev pub Result : Type 0
Result = Bool × List Effect × World

unfoldable pub run_one : Os → Job → ℕ → Bytes → World → Option Result
unfolding builtin run_builtin stages
run_one os j input cmd v = elim (builtin cmd) [
  | none ↦ (do (es, v') ← stages os j true input cmd [] v; some (false, es, v'))
  | some b ↦ (do
    (ended, out, m) ← run_builtin j.fd b cmd v.server
    some (ended, wrote out ∷ [], record v { server = m }))
]

unfoldable pub run_commands : Os → Job → ℕ → List Bytes → World → Option Result
unfolding run_one stages
run_commands os j input [] v = some (false, [], v)
run_commands os j input (cmd ∷ []) v = run_one os j input cmd v
run_commands os j input (cmd ∷ next ∷ cmds) v = do
  (es, v') ← stages os j true input cmd (next ∷ cmds) v
  some (false, es, v')

-- `wait`, `output_fd` and `get_input`, by the number of a line and the entry that waits for the same.
abbrev pub job : ℕ → Line → Option ℕ → Job
job fd line target = record {
  fd = fd;
  output = elim target [ none ↦ fd | some o ↦ o ];
  wait = elim line.pipe_number [ none ↦ true | some n ↦ false ];
  n_pipe_err = line.n_pipe_err;
  get_input = elim line.pipe_number [ none ↦ 0 | some n ↦ (elim target [ none ↦ 2 | some o ↦ 1 ]) ];
}

-- A line that is refused ends there; one that is let through has its commands run.
unfoldable pub after_gate : Os → ℕ → Line → Gate → World → Option ℕ → Jobs → Option Result
unfolding run_commands
after_gate os fd line (refused out m) v target t =
    some (false, wrote out ∷ [], record v { server = m; jobs = t })
after_gate os fd line (passed out m fd_in) v target t = do
  (ended, es, v') ←
      run_commands os (job fd line target) fd_in line.commands (record v { server = m; jobs = t })
  some (ended, wrote out ∷ es, v')

-- A line that is not empty: the table, the checks on the whole line, and the commands.
unfoldable pub run_line : Os → ℕ → Bytes → Line → World → Option Result
unfolding gates after_gate
run_line os fd cmd line v = do
  gate ← gates fd cmd v.server
  after_gate os fd line gate v (reserved fd line.pipe_number v.jobs).0
      (reserved fd line.pipe_number v.jobs).1

-- `handle_new_connection(int)` on a line without its newline: 1 ends the session, else there is a prompt.
unfoldable pub serve : Os → ℕ → Bytes → World → Option Result
unfolding read_line run_line
serve os fd cmd v = elim (read_line cmd) [
  | none ↦ some (false, wrote ((fd, codes "% ") ∷ []) ∷ [], v)
  | some line ↦ (do
    (ended, es, v') ← run_line os fd cmd line v
    some (if ended then (true, es, v') else (false, es ++ wrote ((fd, codes "% ") ∷ []) ∷ [], v')))
]
