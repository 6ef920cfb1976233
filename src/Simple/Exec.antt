-- ===== src/Simple/Exec.antt =====
-- project2/np_simple.cpp: `do_exec` over the lines of one client. What the process does is a list of
-- effects. The pause after 200 commands is left out.
pub mod Numbered
pub mod Bounds
pub mod Store
use network_programming_demo.Prelude.{
  ℕ, ◌+◌, ◌*◌, ◌%◌, ◌^◌, List, [], ◌∷◌, ◌++◌, Option, none, some, Bool, true, false, ◌&&◌, ◌==◌,
  if◌then◌else◌,
}
use network_programming_demo.Prelude.Int.{succ}
use network_programming_demo.Text.Bytes.{Bytes, codes}
use network_programming_demo.Text.Find.{contains}
use network_programming_demo.Simple.Line.{Line, read_line, split_space, starts_blank}
use network_programming_demo.Simple.Table.{
  Entry, Table, Source, find_output, reserve, count_down, store,
}
use network_programming_demo.Simple.Child.{Args, Child, child}

-- The ends of the k-th pipe, and what the k-th block of memory of two ints holds when malloc gives it:
-- the upper half of the first int, and the second int.
pub record Os : Type 0 where
  pub pipe_end : ℕ → ℕ × ℕ
  pub malloc : ℕ → ℕ × ℕ

-- A child, with whether it is waited for; a descriptor that the parent closes; the built-in commands,
-- with their operands; the end of the process.
pub data Effect : Type 0 where
  started : Child → Bool → Effect
  closed : ℕ → Effect
  printenv setenv : List Bytes → Effect
  exited : Effect

-- The table, and the number of pipes made.
pub record Shell : Type 0 where
  pub table : Table
  pub made : ℕ

-- `memcpy(pipedata, pipefd, 2)` copies two bytes.
unfoldable pub pipedata : Os → ℕ → ℕ × ℕ
pipedata os k = ((os.pipe_end k).0 % 2 ^ 16 + 2 ^ 16 * (os.malloc k).0, (os.malloc k).1)

-- What does not change from command to command: `output` is where the last one writes.
pub record Job : Type 0 where
  pub path : Bytes
  pub output : ℕ
  pub wait : Bool
  pub n_pipe_err : Bool
  pub get_input : ℕ

abbrev pub last_get_input : Bool → ℕ → ℕ
last_get_input last g = if last then (if g == 1 then 3 else if g == 2 then 4 else g) else g

-- The numbered pipe that a line's first command takes.
unfoldable pub find_source : Bool → ℕ → List Entry → Source × List Entry
unfolding count_down
find_source first input entries =
    let s : Source = record { input = input; output = 0; enter = false } in
    if first then count_down 1000 s entries else (s, entries)

abbrev pub args : Job → Bool → Bool → Source → Args
args j first last s = record {
  input = s.input;
  first = first;
  last = last;
  enter = s.enter;
  n_pipe_err = j.n_pipe_err;
  output = j.output;
  get_input = last_get_input last j.get_input;
}

-- What the parent does at once: it closes the write end of a numbered pipe, starts the child, and
-- closes the input.
unfoldable pub launch : Os → Job → Bool → Bool → Source → Bytes → ℕ → List Effect
unfolding child
launch os j first last s cmd k =
    (if s.enter then closed s.output ∷ [] else [])
    ++ started (child j.path (args j first last s) (os.pipe_end k).1 cmd) (j.wait && last)
      ∷ (if s.input == 0 then [] else closed s.input ∷ [])

-- The parent after the last command: the pipe is closed, kept for a later line, or left open.
unfoldable pub finish : ℕ → ℕ × ℕ → Table → List Effect × Table
unfolding store
finish get_input (input, output) t =
    if get_input == 0
    then (closed output ∷ [], t)
    else if get_input == 4
    then ([], store input output t)
    else ([], t)

-- One round of the loop, and the input of the next.
unfoldable pub stage : Os → Job → Bool → Bool → ℕ → Bytes → Shell → List Effect × ℕ × Shell
unfolding find_source launch finish pipedata
stage os j first last input cmd sh =
    let (s, entries) = find_source first input sh.table.entries in
    let table = record (sh.table) { entries = entries } in
    let data' = pipedata os sh.made in
    let begun = launch os j first last s cmd sh.made in
    let (ended, table') = finish (last_get_input last j.get_input) data' table in
    if last
    then (begun ++ ended, data'.0, record { table = table'; made = sh.made + 1 })
    else (begun ++ closed data'.1 ∷ [], data'.0, record { table = table; made = sh.made + 1 })

unfoldable pub stages : Os → Job → Bool → ℕ → List Bytes → Shell → List Effect × Shell
unfolding stage
stages os j first input [] sh = ([], sh)
stages os j first input (cmd ∷ []) sh =
    let (es, _, sh') = stage os j first true input cmd sh in (es, sh')
stages os j first input (cmd ∷ next ∷ cmds) sh =
    let (es, input', sh') = stage os j first false input cmd sh in
    let (more, sh'') = stages os j false input' (next ∷ cmds) sh' in (es ++ more, sh'')

-- A line of one command that holds one of the words.
unfoldable pub builtin : Bytes → Option Effect
unfolding contains split_space
builtin cmd =
    if contains (codes "printenv") cmd
    then some (printenv (split_space cmd))
    else if contains (codes "setenv") cmd
    then some (setenv (split_space cmd))
    else if contains (codes "exit") cmd
    then some exited
    else none

unfoldable pub run_commands : Os → Job → List Bytes → Shell → List Effect × Shell
unfolding builtin stages starts_blank
run_commands os j [] sh = ([], sh)
run_commands os j (cmd ∷ []) sh =
    if starts_blank cmd
    then ([], sh)
    else (elim (builtin cmd) [ some e ↦ (e ∷ [], sh) | none ↦ stages os j true 0 (cmd ∷ []) sh ])
run_commands os j (cmd ∷ next ∷ cmds) sh =
    if starts_blank cmd then ([], sh) else stages os j true 0 (cmd ∷ next ∷ cmds) sh

-- The job of a line, and the table in which its number has a place.
unfoldable pub prepare : Bytes → ℕ → Line → Table → Job × Table
unfolding find_output reserve
prepare path sockfd line t = elim line.pipe_number [
  | none ↦ (
    record {
      path = path;
      output = sockfd;
      wait = true;
      n_pipe_err = line.n_pipe_err;
      get_input = 0;
    },
    t,
  )
  | some n ↦ (elim (find_output 1000 (succ n) t.entries) [
    | some o ↦ (
      record { path = path; output = o; wait = false; n_pipe_err = line.n_pipe_err; get_input = 1 },
      t,
    )
    | none ↦ (
      record {
        path = path;
        output = sockfd;
        wait = false;
        n_pipe_err = line.n_pipe_err;
        get_input = 2;
      },
      reserve (succ n) t,
    )
  ])
]

unfoldable pub do_exec : Os → Bytes → ℕ → Bytes → Shell → List Effect × Shell
unfolding read_line prepare run_commands
do_exec os path sockfd cmd sh =
    let line = read_line cmd in
    let (j, t) = prepare path sockfd line sh.table in
    run_commands os j line.commands (record sh { table = t })

abbrev pub ends : List Effect → Bool
ends (exited ∷ []) = true
ends _ = false

-- The lines of a client, one by one, until the process ends.
unfoldable pub run : Os → Bytes → ℕ → List Bytes → Shell → List Effect × Shell
unfolding do_exec
run os path sockfd [] sh = ([], sh)
run os path sockfd (cmd ∷ cmds) sh =
    let (es, sh') = do_exec os path sockfd cmd sh in
    let (more, sh'') = run os path sockfd cmds sh' in
    if ends es then (es, sh') else (es ++ more, sh'')
