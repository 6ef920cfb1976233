-- ===== src/Shared/Child.antt =====
-- project2/np_multi_proc.cpp: `parser`, the child process of one command. Its descriptors and operands
-- are as in project2/np_simple.cpp. The path of a program is taken to fit its array of 20 bytes.
pub mod Laws
use network_programming_demo.Prelude.{
  ℕ, ◌+◌, List, Option, none, some, ◌>>=◌, not, ◌&&◌, ◌==◌, ◌||◌, if◌then◌else◌, length,
}
use network_programming_demo.Text.Bytes.{Bytes}
use network_programming_demo.Simple.Line.{split_space, split_env}
use network_programming_demo.Simple.Child.{
  Fds, Args, Child, dup_input, dup_output, dup_error, inherited, wire_error, wire_input,
  wire_output, last_of, sources_of,
}
use network_programming_demo.Chat.UserPipe.{sends_to_user}
use network_programming_demo.Chat.Command.{cut_operands, has, order}

-- The branches of the child.
unfoldable pub wire_pipe : Args → ℕ → Fds → Fds
wire_pipe a w f =
    if a.first && not a.last && a.input == 0
    then dup_output w f
    else if a.first && not a.last && not (a.input == 0)
    then dup_output w (dup_input a.input f)
    else if not a.first && not a.last && not (a.input == 0)
    then dup_output w (dup_input a.input f)
    else if a.first && a.last && a.get_input == 4 && a.input == 0
    then dup_output w f
    else if a.first && a.last && a.get_input == 4 && not (a.input == 0)
    then dup_input a.input (dup_output w f)
    else dup_input a.input f

-- `if (output != 0)`
unfoldable pub wire_target : Args → Fds → Fds
wire_target a f = if a.output == 0 then f else dup_error a.output (dup_output a.output f)

unfoldable pub wire : Args → ℕ → Fds
unfolding wire_pipe wire_error wire_target wire_input wire_output
wire a w = wire_output a w (wire_input a (wire_target a (wire_error a w (wire_pipe a w inherited))))

-- The block for `<` runs in front of the one for `>` or behind it, by `order`.
unfoldable pub cut_input : ℕ → Bytes → List Bytes → Option (List Bytes)
unfolding order cut_operands
cut_input turn cmd ops =
    if has b'<' cmd && (order cmd == turn) then cut_operands b'<' ops else some ops

unfoldable pub cut_output : Bytes → List Bytes → Option (List Bytes)
unfolding cut_operands
cut_output cmd ops = if has b'>' cmd then cut_operands b'>' ops else some ops

-- `operand[op - 1]` for `creat`, which a cut at `<` may have made a null pointer.
unfoldable file_of : Bytes → List Bytes → Option Bytes
unfolding sends_to_user last_of split_space
file_of cmd ops =
    if not (has b'>' cmd) || sends_to_user cmd
    then none
    else if has b'<' cmd && (length ops + 1 == length (split_space cmd))
    then none
    else last_of (split_space cmd)

-- A child that does not fault.
unfoldable pub child : Bytes → Args → ℕ → Bytes → Option Child
unfolding wire cut_input cut_output file_of split_space split_env
child path a w cmd = do
  ops ← cut_input 0 cmd (split_space cmd)
  ops' ← cut_output cmd ops
  ops'' ← cut_input 1 cmd ops'
  some (record {
    fds = wire a w;
    file = file_of cmd ops;
    operand = ops'';
    sources = sources_of (split_env path) ops'';
  })
