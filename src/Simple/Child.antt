-- ===== src/Simple/Child.antt =====
-- project2/np_simple.cpp: what the child of `parser` does before it runs a program.
use network_programming_demo.Prelude.{
  ℕ, List, [], ◌∷◌, ◌++◌, Option, none, some, Bool, true, false, not, ◌&&◌, ◌==◌, if◌then◌else◌,
  map,
}
use network_programming_demo.Text.Bytes.{Bytes, codes}
use network_programming_demo.Text.Find.{find}
use network_programming_demo.Simple.Line.{split_space, split_env}

-- What stands behind standard input, output and error: a descriptor of the parent each.
pub record Fds : Type 0 where
  pub input : ℕ
  pub output : ℕ
  pub error : ℕ

abbrev pub behind : Fds → ℕ → ℕ
behind f n = if n == 0 then f.input else if n == 1 then f.output else if n == 2 then f.error else n

-- `dup2` onto one of the three.
abbrev pub dup_input : ℕ → Fds → Fds
dup_input fd f = record f { input = behind f fd }

abbrev pub dup_output : ℕ → Fds → Fds
dup_output fd f = record f { output = behind f fd }

abbrev pub dup_error : ℕ → Fds → Fds
dup_error fd f = record f { error = behind f fd }

abbrev pub inherited : Fds
inherited = record { input = 0; output = 1; error = 2 }

-- The arguments of `parser` that the descriptors depend on.
pub record Args : Type 0 where
  pub input : ℕ
  pub first : Bool
  pub last : Bool
  pub enter : Bool
  pub n_pipe_err : Bool
  pub output : ℕ
  pub get_input : ℕ

-- The first `if` of the child: `w` is the write end of the new pipe.
unfoldable pub wire_pipe : Args → ℕ → Fds → Fds
wire_pipe a w f =
    if a.first && not a.last && a.input == 0
    then dup_output w f
    else if not a.first && not a.last && not (a.input == 0)
    then dup_output w (dup_input a.input f)
    else if a.first && a.last && a.get_input == 4
    then dup_output w f
    else dup_error a.output (dup_output a.output (dup_input a.input f))

unfoldable pub wire_error : Args → ℕ → Fds → Fds
wire_error a w f =
    if a.n_pipe_err then dup_error (if a.get_input == 3 then a.output else w) f else f

unfoldable pub wire_input : Args → Fds → Fds
wire_input a f = if a.enter then dup_input a.input f else f

unfoldable pub wire_output : Args → ℕ → Fds → Fds
wire_output a w f =
    if a.last && a.get_input == 4
    then dup_output w f
    else if a.last && a.get_input == 3
    then dup_output a.output f
    else f

unfoldable pub wire : Args → ℕ → Fds
unfolding wire_pipe wire_error wire_input wire_output
wire a w = wire_output a w (wire_input a (wire_error a w (wire_pipe a w inherited)))

unfoldable pub has_mark : Bytes → Bool
unfolding find
has_mark s = elim (find b'>' s) [ none ↦ false | some _ ↦ true ]

-- `operand` is cut at the first one with the mark.
unfoldable before_mark : List Bytes → List Bytes
unfolding has_mark
before_mark [] = []
before_mark (t ∷ ts) = let rest = before_mark ts in if has_mark t then [] else t ∷ rest

unfoldable pub last_of : List Bytes → Option Bytes
last_of [] = none
last_of (t ∷ []) = some t
last_of (t ∷ u ∷ us) = last_of (u ∷ us)

-- The file that `creat` makes for standard output, the operands, and the programs that `execvp` tries
-- in turn; without an operand the child ends by a null pointer.
pub record Child : Type 0 where
  pub fds : Fds
  pub file : Option Bytes
  pub operand : List Bytes
  pub sources : List Bytes

abbrev pub sources_of : List Bytes → List Bytes → List Bytes
sources_of dirs [] = []
sources_of dirs (name ∷ _) = map (λ dir. dir ++ codes "/" ++ name) dirs

-- The child for a command, with the value of PATH.
unfoldable pub child : Bytes → Args → ℕ → Bytes → Child
unfolding split_space split_env before_mark last_of wire has_mark
child path a w cmd =
    if has_mark cmd
    then record {
      fds = wire a w;
      file = last_of (split_space cmd);
      operand = before_mark (split_space cmd);
      sources = sources_of (split_env path) (before_mark (split_space cmd));
    }
    else record {
      fds = wire a w;
      file = none;
      operand = split_space cmd;
      sources = sources_of (split_env path) (split_space cmd);
    }
