-- ===== src/Shell/Stack.antt =====
-- project1/npshell.cpp: `getPipe`, `makeNewPipe`, `cleanPipes`, and what `executeCMD` starts for a
-- command that has been read.
pub mod Schedule
pub mod Lines
pub mod Closes
pub mod Open
use network_programming_demo.Prelude.{
  ℕ, zero, suc, ◌+◌, ◌-◌, List, [], ◌∷◌, ◌++◌, Option, none, some, Bool, true, false, ◌==◌, ltb,
  if◌then◌else◌, length, set, replicate,
}
use network_programming_demo.Prelude.Int.{pos, negsuc}
use network_programming_demo.Text.Bytes.{Bytes, codes, equal}
use network_programming_demo.Text.Tokens.{tokens}
use network_programming_demo.Text.Decimal.{skip_space}
use network_programming_demo.Shell.Scan.{Scanned, head_or_0, span}

-- The two descriptors that `pipe` puts into an array.
pub record Pipe : Type 0 where
  pub read : ℕ
  pub write : ℕ

-- The descriptors of the k-th pipe that the system gives.
abbrev pub Os : Type 0
Os = ℕ → Pipe

-- `pipeStack`, `recycle`, and how many pipes have been made.
pub record Shell : Type 0 where
  pub pipe_stack : List (Option Pipe)
  pub recycle : List Pipe
  pub made : ℕ

-- Where a command's output goes.
pub data Sink : Type 0 where
  terminal : Sink
  into : ℕ → Sink
  file : Bytes → Sink

pub data Action : Type 0 where
  -- setenv with name and value, getenv, exit
  set_variable : Bytes → Bytes → Action
  print_variable : Bytes → Action
  leave : Action
  -- a process with the descriptor of its input (`none` is the terminal), its output, whether its errors go there too,
  -- and its instruction
  spawn : Option ℕ → Sink → Bool → Bytes → Action
  -- "input Error~"
  input_error : Action
  -- the shell closes a descriptor of its own
  closed : ℕ → Action

-- `cleanPipes`: while there are more than ten, both ends of the oldest one are closed. `getPipe` has
-- closed the write end before, so that its number may stand for something else by now.
unfoldable pub clean_pipes : List Pipe → List Action × List Pipe
clean_pipes [] = ([], [])
clean_pipes (p ∷ ps) =
    let (actions, rest) = clean_pipes ps in
    if ltb 10 (length (p ∷ ps))
    then (closed p.read ∷ closed p.write ∷ actions, rest)
    else ([], p ∷ ps)

abbrev pub recycled : Option Pipe → List Pipe → List Pipe
recycled none ps = ps
recycled (some p) ps = ps ++ p ∷ []

abbrev pub closing : Option Pipe → List Action
closing none = []
closing (some p) = closed p.write ∷ []

-- `getPipe`: the write end of the pipe on top is closed; the pipe, and the shell without it.
unfoldable pub get_pipe : Shell → List Action × Option Pipe × Shell
get_pipe sh = elim sh.pipe_stack [
  | [] ↦ ([], none, sh)
  | p ∷ ps ↦ (closing p, p, record sh { pipe_stack = ps; recycle = recycled p sh.recycle })
]

-- `dup2(prevPipe[PIPE_READ], STDIN_FILENO)`, unless the pointer is null.
abbrev pub read_end : Option Pipe → Option ℕ
read_end none = none
read_end (some p) = some p.read

-- `makeNewPipe`, once the system has given a pipe.
abbrev make_new_pipe : Os → Shell → Pipe × Shell
make_new_pipe os sh = (os sh.made, record sh { made = sh.made + 1 })

-- `while (numPipe > pipeStack.size()) pipeStack.push_back(nullptr);`
abbrev pub pad : ℕ → List (Option Pipe) → List (Option Pipe)
pad n ps = ps ++ replicate (n - length ps) none

-- The pipe at a place of the stack, `none` for a null pointer and beyond the end.
abbrev pub pipe_at : List (Option Pipe) → ℕ → Option Pipe
pipe_at [] k = none
pipe_at (p ∷ ps) zero = p
pipe_at (p ∷ ps) (suc k) = pipe_at ps k

-- The pipe for `|n`, at place `n - 1`: the one that is there or a new one.
unfoldable pub numbered_pipe : Os → ℕ → Shell → Pipe × Shell
numbered_pipe os n sh =
    let padded = pad n sh.pipe_stack in
    elim (pipe_at padded (n - 1)) [
      | some p ↦ (p, record sh { pipe_stack = padded })
      | none ↦
          let (p, made) = make_new_pipe os sh in
          (p, record made { pipe_stack = set padded (n - 1) (some p) })
    ]

-- The pipe for `|`: the one on top, or a new one that is put on top.
unfoldable pub ordinary_pipe : Os → Shell → Pipe × Shell
ordinary_pipe os sh = elim (pipe_at sh.pipe_stack 0) [
  | some p ↦ (p, sh)
  | none ↦
      (let (p, made) = make_new_pipe os sh in
        (p, record made { pipe_stack = some p ∷ sh.pipe_stack }))
]

-- `OP`: the first word of the instruction.
unfoldable pub op : Bytes → Bytes
unfolding tokens
op instruction = elim (tokens b' ' instruction) [ [] ↦ [] | t ∷ _ ↦ t ]

-- `arg`: what follows it, its blanks included.
unfoldable arg : Bytes → Bytes
unfolding span skip_space
arg instruction =
    skip_space (span (λ c. if c == b' ' then false else true) (skip_space instruction)).1

-- The first two words of `arg`.
unfoldable setenv_action : List Bytes → Action
setenv_action [] = set_variable [] []
setenv_action (var ∷ []) = set_variable var []
setenv_action (var ∷ value ∷ _) = set_variable var value

-- The case `n == 1`.
unfoldable pub execute_single : Scanned → Shell → List Action × Action × Shell
unfolding equal tokens op arg setenv_action get_pipe
execute_single s sh =
    let (closes, prev, sh') = get_pipe sh in
    if equal (op s.instruction) (codes "setenv")
    then ([], setenv_action (tokens b' ' (arg s.instruction)), sh)
    else if equal (op s.instruction) (codes "printenv")
    then ([], print_variable (arg s.instruction), sh)
    else if equal (op s.instruction) (codes "exit")
    then ([], leave, sh)
    else (closes, spawn (read_end prev) terminal false s.instruction, sh')

-- The case `n == 3`. A negative number makes the loop that fills the stack run until memory ends.
unfoldable pub execute_piped : Os → Scanned → Shell → Option (List Action × Action × Shell)
unfolding get_pipe numbered_pipe ordinary_pipe
execute_piped os s sh =
    let (closes, prev, sh1) = get_pipe sh in
    let symbol = head_or_0 s.symbol_meth in
    elim s.num_pipe [
      | negsuc _ ↦ none
      | pos (suc n) ↦
          let (p, sh2) = numbered_pipe os (suc n) sh1 in
          some (closes, spawn (read_end prev) (into p.write) (symbol == b'!') s.instruction, sh2)
      | pos zero ↦
          let (p, sh2) = ordinary_pipe os sh1 in
          some (
            if symbol == b'|'
            then (closes, spawn (read_end prev) (into p.write) false s.instruction, sh2)
            else if symbol == b'>'
            then (closes, spawn (read_end prev) (file s.buf) false s.instruction, sh1)
            else (closes, input_error, sh1))
    ]

-- `executeCMD` with the command read: what `getPipe` closes, and what is done then.
unfoldable pub execute_cmd : Os → Scanned → Shell → Option (List Action × Action × Shell)
unfolding execute_single execute_piped
execute_cmd os s sh =
    if s.n == 1
    then some (execute_single s sh)
    else if s.n == 3
    then execute_piped os s sh
    else some ([], input_error, sh)

-- The commands of a line one after the other, `cleanPipes` after each; `exit` ends the shell.
unfoldable pub execute_all : Os → List Scanned → Shell → Option (List Action × Shell)
unfolding execute_cmd clean_pipes
execute_all os [] sh = some ([], sh)
execute_all os (s ∷ ss) sh = elim (execute_cmd os s sh) [
  | none ↦ none
  | some (closes, leave, sh') ↦ some (closes ++ (leave ∷ []), sh')
  | some (closes, a, sh') ↦
      (elim (execute_all os ss (record sh' { recycle = (clean_pipes sh'.recycle).1 })) [
        | none ↦ none
        | some (actions, sh'') ↦
            some (closes ++ (a ∷ ((clean_pipes sh'.recycle).0 ++ actions)), sh'')
      ])
]
