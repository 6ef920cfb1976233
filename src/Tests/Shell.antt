-- ===== src/Tests/Shell.antt =====
-- project1/npshell.cpp on concrete lines.
use network_programming_demo.Prelude.{
  All, zero, suc, arith, ℕ, ◌+◌, ◌*◌, ◌<◌, ◌++◌, Option, replicate, List, [], ◌∷◌, none, some,
  false, ◌==◌, ◌≡◌, refl,
}
use network_programming_demo.Prelude.Int.{pos}
use network_programming_demo.Text.Bytes.{codes, equal}
use network_programming_demo.Shell.Scan.{Scanned, commands, commands_fuel}
use network_programming_demo.Shell.Scan.Laws.{commands-ends}
use network_programming_demo.Shell.Stack.{
  Shell, Pipe, Os, terminal, into, Action, spawn, closed, execute_cmd, execute_all, op,
}
use network_programming_demo.Shell.Stack.Schedule.{due, IsLast, alone}
use network_programming_demo.Shell.Stack.Closes.{Avoids, IsApart}
use network_programming_demo.Shell.Stack.Open.{execute_all-Avoids}
use network_programming_demo.Shell.Stack.Lines.{
  plain, chain, spawned, numbered_pipe_arrives, pipeline_counts_once, pipeline_takes_due,
}

abbrev list_2 : Scanned
list_2 = record {
  n = 3;
  instruction = codes "ls ";
  symbol_meth = codes "|";
  num_pipe = pos 2;
  buf = [];
}

abbrev cat_piped : Scanned
cat_piped = record {
  n = 3;
  instruction = codes "cat a ";
  symbol_meth = codes "|";
  num_pipe = pos 0;
  buf = codes "number";
}

abbrev number : Scanned
number = record {
  n = 1;
  instruction = codes "number";
  symbol_meth = [];
  num_pipe = pos 0;
  buf = [];
}

scans :
    (commands (codes "ls |2") ≡ some (list_2 ∷ []))
    × (commands (codes "cat a | number") ≡ some (cat_piped ∷ number ∷ []))
unfolding commands
scans = (refl, refl)

number-IsLast : IsLast number terminal
unfolding op equal
number-IsLast = alone refl refl refl refl

-- Each pipe has two new numbers; a system gives them again once they are closed.
abbrev os : Os
os = λ k. record { read = 3 + 2 * k; write = 4 + 2 * k }

abbrev fresh : Shell
fresh = record { pipe_stack = []; recycle = []; made = 0 }

abbrev second : Pipe
second = record { read = 20; write = 21 }

-- A pipe is due for the line after the next one.
abbrev waiting : Shell
waiting = record { pipe_stack = none ∷ some second ∷ []; recycle = []; made = 3 }

-- Ten pipes have been read, and one more is due.
abbrev busy : Shell
busy = record { pipe_stack = some second ∷ []; recycle = os 0 ∷ replicate 9 (os 1); made = 3 }

-- The descriptors that the shell closes: the write end of the pipe that is read, and both ends of the
-- oldest one that was read, whose write end was closed when it was.
busy_closes :
    execute_all os (number ∷ []) busy
    ≡ some (
      closed 21 ∷ spawn (some 20) terminal false (codes "number") ∷ closed 3 ∷ closed 4 ∷ [],
      record { pipe_stack = []; recycle = replicate 9 (os 1) ++ second ∷ []; made = 3 },
    )
unfolding execute_all op equal
busy_closes = refl

commands-ends_example :
    (read : Option (List Scanned)) × ((f : ℕ) → 5 < f → commands_fuel f (codes "ls |2") ≡ some read)
commands-ends_example = commands-ends (codes "ls |2")

numbered_pipe_arrives_example :
    (p : Pipe) × (sh1 : Shell) × (actions : List Action) × (sh2 : Shell) × (sh3 : Shell)
    × (execute_cmd os list_2 fresh
        ≡ some ([], spawn none (into p.write) (b'|' == b'!') (codes "ls "), sh1))
    × (execute_all os (number ∷ []) sh1 ≡ some (actions, sh2))
    × (execute_cmd os number sh2
        ≡ some (closed p.write ∷ [], spawn (some p.read) terminal false (codes "number"), sh3))
numbered_pipe_arrives_example =
    numbered_pipe_arrives os list_2 number (number ∷ []) fresh terminal refl refl
      (plain terminal number-IsLast, tt) number-IsLast

pipeline_counts_once_example :
    (actions : List Action) × (sh' : Shell) × (execute_all os (cat_piped ∷ number ∷ []) fresh
      ≡ some (actions, sh'))
    × (spawned actions ≡ chain os none 0 (cat_piped ∷ []) number terminal)
    × ((k : ℕ) → due sh' k ≡ due fresh (k + 1))
pipeline_counts_once_example =
    pipeline_counts_once os (cat_piped ∷ []) number fresh terminal
      (record { three = refl; unnumbered = refl; bar = refl }, tt) number-IsLast refl

pipeline_takes_due_example :
    (actions : List Action) × (sh' : Shell) × (execute_all os (cat_piped ∷ number ∷ []) waiting
      ≡ some (actions, sh'))
    × (spawned actions
        ≡ spawn none (into 21) false (codes "cat a ")
          ∷ spawn (some 20) terminal false (codes "number")
          ∷ [])
    × ((k : ℕ) → due sh' k ≡ due waiting (k + 2))
pipeline_takes_due_example =
    pipeline_takes_due os cat_piped number waiting terminal second
      (record { three = refl; unnumbered = refl; bar = refl }) number-IsLast refl

-- The first pipe that was made is due.
abbrev piped : Shell
piped = record { pipe_stack = some (os 0) ∷ []; recycle = []; made = 1 }

piped-IsApart : IsApart 3 piped
piped-IsApart zero p e = let same : p ≡ os 0 = ground arith in rw same (omega arith)
piped-IsApart (suc k) p e = absurd (ground arith)

piped_reads :
    execute_all os (number ∷ []) piped
    ≡ some (
      closed 4 ∷ spawn (some 3) terminal false (codes "number") ∷ [],
      record { pipe_stack = []; recycle = os 0 ∷ []; made = 1 },
    )
unfolding execute_all op equal
piped_reads = refl

execute_all-Avoids_example :
    All (Avoids 3) (closed 4 ∷ spawn (some 3) terminal false (codes "number") ∷ [])
execute_all-Avoids_example =
    execute_all-Avoids os 3 (λ j e. absurd (omega arith)) (number ∷ []) piped
      (record { pipe_stack = []; recycle = os 0 ∷ []; made = 1 })
      (closed 4 ∷ spawn (some 3) terminal false (codes "number") ∷ []) piped-IsApart (omega arith)
      piped_reads
