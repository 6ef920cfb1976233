-- ===== src/Simple/Line.antt =====
-- project2/np_simple.cpp: `split_pipe`, `split_pipe_error`, `split_space` and `split_env`, and how
-- `do_exec` reads a line: the commands, and the number of a pipe to a later line.
pub mod Laws
use network_programming_demo.Prelude.{
  ℕ, ◌+◌, List, [], ◌∷◌, ◌++◌, Option, none, some, Bool, true, false, ◌==◌, ◌-◌, ◌%◌, ◌^◌, ltb,
  if◌then◌else◌,
}
use network_programming_demo.Prelude.Int.{ℤ, pos, negsuc}
use network_programming_demo.Text.Bytes.{Bytes}
use network_programming_demo.Text.Decimal.{atoi}
use network_programming_demo.Text.Tokens.{tokens}

-- `filename[0]`, `filename[1]`, … up to the null pointer.
unfoldable pub split_pipe : Bytes → List Bytes
unfolding tokens
split_pipe str = tokens b'|' str

-- `operand`, up to the null pointer.
unfoldable pub split_space : Bytes → List Bytes
unfolding tokens
split_space str = tokens b' ' str

-- `argv_list`, up to the null pointer.
unfoldable pub split_env : Bytes → List Bytes
unfolding tokens
split_env str = tokens b':' str

unfoldable pub up_to : ℕ → Bytes → Bytes
up_to d [] = []
up_to d (c ∷ s) = let rest = up_to d s in if c == d then [] else c ∷ rest

-- What strtok leaves in its argument: the marks in front, and the first token.
unfoldable pub cut_at : ℕ → Bytes → Bytes
unfolding up_to
cut_at d [] = []
cut_at d (c ∷ s) = let rest = cut_at d s in if c == d then c ∷ rest else up_to d (c ∷ s)

-- The last command, cut at its marks `!`, and what stands behind it when there are two parts:
-- `new_n - 1 == n`.
unfoldable pub split_pipe_error : Bytes → Bytes × Option Bytes
unfolding tokens cut_at
split_pipe_error str =
    (cut_at b'!' str, elim (tokens b'!' str) [ front ∷ behind ∷ [] ↦ some behind | _ ↦ none ])

-- The commands of a line with the mark of a numbered pipe, if it has one.
pub record Line : Type 0 where
  pub commands : List Bytes
  pub n_pipe_err : Bool
  pub pipe_number : Option ℤ

unfoldable pub starts_blank : Bytes → Bool
starts_blank [] = false
starts_blank (c ∷ s) = c == b' '

-- What is left of a long by `int pipe_number = strtol(…)`: strtol stops at the ends of 64 bits, and the
-- low 32 bits are an int.
abbrev pub strtol_end : ℕ
strtol_end = 2 ^ 63 - 1

unfoldable pub to_int : ℤ → ℤ
to_int (pos n) =
    let low = (if ltb strtol_end n then strtol_end else n) % 2 ^ 32 in
    if ltb low (2 ^ 31) then pos low else negsuc (2 ^ 32 - 1 - low)
to_int (negsuc n) =
    let low = (if ltb strtol_end n then strtol_end else n) % 2 ^ 32 in
    if ltb low (2 ^ 31) then negsuc low else pos (2 ^ 32 - 1 - low)

-- `n != 1 && filename[n - 1][0] != ' '`, for the names of a line, the last one apart.
unfoldable pub numbered : List Bytes → Bytes → Bool → Line
unfolding starts_blank atoi to_int
numbered [] end err = record { commands = end ∷ []; n_pipe_err = err; pipe_number = none }
numbered (f ∷ fs) end err =
    if starts_blank end
    then record { commands = (f ∷ fs) ++ end ∷ []; n_pipe_err = err; pipe_number = none }
    else record { commands = f ∷ fs; n_pipe_err = err; pipe_number = some (to_int (atoi end)) }

-- With the commands so far and the last name.
unfoldable pub ended : List Bytes → Bytes → Line
unfolding numbered split_pipe_error
ended fs end =
    let (front, behind) = split_pipe_error end in
    elim behind [
      | none ↦ numbered fs front false
      | some mark ↦ numbered (fs ++ front ∷ []) mark true
    ]

-- A line of bars alone has no names.
unfoldable pub read_names : List Bytes → List Bytes → Line
unfolding ended
read_names fs [] = record { commands = []; n_pipe_err = false; pipe_number = none }
read_names fs (f ∷ []) = ended fs f
read_names fs (f ∷ g ∷ gs) = read_names (fs ++ f ∷ []) (g ∷ gs)

unfoldable pub read_line : Bytes → Line
unfolding split_pipe read_names
read_line cmd = read_names [] (split_pipe cmd)
