-- ===== src/Chat/Command.antt =====
-- project2/np_single_proc.cpp: how `do_exec` reads a line, its built-in commands, and the operands that
-- a child of `parser` runs its program with. `none` is a null pointer that is used.
pub mod Laws
use network_programming_demo.Prelude.{
  ℕ, ◌+◌, List, [], ◌∷◌, ◌++◌, Option, none, some, ◌>>=◌, Bool, true, false, not, ◌&&◌, ◌==◌, ltb,
  if◌then◌else◌, length, get_elem?,
}
use network_programming_demo.Text.Bytes.{Bytes, codes}
use network_programming_demo.Text.Find.{find, contains}
use network_programming_demo.Simple.Line.{Line, split_pipe, starts_blank, numbered, ended}
use network_programming_demo.Chat.State.{Server, Out}
use network_programming_demo.Chat.Env.{load_env, do_printenv}
use network_programming_demo.Chat.Talk.{
  split_space, execute_who, execute_tell, execute_yell, execute_name,
}
use network_programming_demo.Chat.UserPipe.{sends_to_user}

-- `_str && strlen(_str) >= 2 && _str[1] != ' '`
unfoldable has_error_pipe : Bytes → Bool
unfolding find
has_error_pipe name = elim (find b'!' name) [
  | none ↦ false
  | some k ↦ (elim (get_elem? name (k + 1)) [ none ↦ false | some c ↦ not (c == b' ') ])
]

unfoldable pub read_end : List Bytes → Bytes → Line
unfolding has_error_pipe ended numbered
read_end fs end = if has_error_pipe end then ended fs end else numbered fs end false

unfoldable pub read_names : List Bytes → Bytes → List Bytes → Line
unfolding read_end
read_names fs f [] = read_end fs f
read_names fs f (g ∷ gs) = read_names (fs ++ f ∷ []) g gs

-- `none` for `return 0`.
unfoldable pub read_line : Bytes → Option Line
unfolding split_pipe starts_blank read_names
read_line cmd = elim (split_pipe cmd) [
  | [] ↦ none
  | f ∷ fs ↦ if starts_blank f then none else some (read_names [] f fs)
]

pub data Builtin : Type 0 where
  printenv setenv exit who tell yell name : Builtin

-- The chain of strstr over a line of one command.
unfoldable pub builtin : Bytes → Option Builtin
unfolding contains
builtin cmd =
    if contains (codes "printenv") cmd
    then some printenv
    else if contains (codes "setenv") cmd
    then some setenv
    else if contains (codes "exit") cmd
    then some exit
    else if contains (codes "who") cmd
    then some who
    else if contains (codes "tell") cmd
    then some tell
    else if contains (codes "yell") cmd
    then some yell
    else if contains (codes "name") cmd
    then some name
    else none

-- Whether the session ends, what is written, and the state.
abbrev pub Result : Type 0
Result = Bool × Out × Server

-- `char env[512]` with both operands.
abbrev pub assignment : List Bytes → Option Bytes
assignment ops = do
  key ← get_elem? ops 1
  val ← get_elem? ops 2
  if ltb (length key + 1 + length val) 512 then some (key ++ codes "=" ++ val) else none

unfoldable pub run_builtin : ℕ → Builtin → Bytes → Server → Option Result
unfolding split_space
run_builtin fd printenv cmd m = do
  key ← get_elem? (split_space cmd) 1
  val ← do_printenv fd key m
  some (false, (fd, val ++ codes "\n") ∷ [], m)
run_builtin fd setenv cmd m = do
  text ← assignment (split_space cmd)
  m' ← load_env fd text m
  some (false, [], m')
run_builtin fd exit cmd m = some (true, [], m)
run_builtin fd who cmd m = do out ← execute_who fd m; some (false, out, m)
run_builtin fd tell cmd m = do out ← execute_tell fd (split_space cmd) m; some (false, out, m)
run_builtin fd yell cmd m = do out ← execute_yell fd (split_space cmd) m; some (false, out, m)
run_builtin fd name cmd m = do
  (out, m') ← execute_name fd (split_space cmd) m
  some (false, out, m')

-- `for (i = 0; i <= args_num; i++) if (strchr(operand[i], mark)) { operand[i] = NULL; break; }`: a null
-- pointer is given to strchr where no operand in front of it has the mark.
unfoldable pub cut_operands : ℕ → List Bytes → Option (List Bytes)
unfolding find
cut_operands mark [] = none
cut_operands mark (t ∷ ts) = elim (find mark t) [
  | some _ ↦ some []
  | none ↦ (elim (cut_operands mark ts) [ none ↦ none | some rest ↦ some (t ∷ rest) ])
]

abbrev pub has : ℕ → Bytes → Bool
has mark cmd = elim (find mark cmd) [ none ↦ false | some _ ↦ true ]

-- `order`: 1 where `<` stands in front of a `>` with a number.
unfoldable pub order : Bytes → ℕ
unfolding find sends_to_user
order cmd =
    if sends_to_user cmd
    then (elim (find b'<' cmd) [
      | none ↦ 0
      | some i ↦ (elim (find b'>' cmd) [ none ↦ 0 | some o ↦ if ltb o i then 0 else 1 ])
    ])
    else 0

-- The block for `<`, which the child has twice with the same test.
unfoldable pub cut_input : Bytes → List Bytes → Option (List Bytes)
unfolding order cut_operands
cut_input cmd ops = if has b'<' cmd && (order cmd == 0) then cut_operands b'<' ops else some ops

unfoldable pub cut_output : Bytes → List Bytes → Option (List Bytes)
unfolding cut_operands
cut_output cmd ops = if has b'>' cmd then cut_operands b'>' ops else some ops

-- The operands that the child's program gets.
unfoldable pub child_operands : Bytes → Option (List Bytes)
unfolding cut_input cut_output split_space
child_operands cmd = do
  ops ← cut_input cmd (split_space cmd)
  ops' ← cut_output cmd ops
  cut_input cmd ops'
