-- ===== src/Shell/Scan.antt =====
-- project1/npshell.cpp: the two sscanf calls of `executeCMD`, and the loop of `main` over the rest that
-- they leave in `_buf`. The array bounds on a line of 10000 bytes are left to the caller.
pub mod Laws
use network_programming_demo.Prelude.{
  ℕ, zero, suc, ◌+◌, ◌-◌, List, [], ◌∷◌, Option, none, some, ◌>>=◌, Bool, not, ◌==◌, ◌||◌, ltb,
  if◌then◌else◌, length,
}
use network_programming_demo.Prelude.Int.{ℤ, pos}
use network_programming_demo.Text.Bytes.{Bytes, is_alnum, is_digit}
use network_programming_demo.Text.Decimal.{skip_space, digits_value, negate}

-- `[a-zA-Z0-9-\"\'.: ]`
abbrev pub is_instruction : ℕ → Bool
is_instruction c =
    is_alnum c || c == b'-' || c == b'"' || c == b'\'' || c == b'.' || c == b':' || c == b' '

abbrev pub is_mark : ℕ → Bool
is_mark c = c == b'|' || c == b'!'

abbrev pub is_mark_or_file : ℕ → Bool
is_mark_or_file c = is_mark c || c == b'>'

abbrev pub is_not_newline : ℕ → Bool
is_not_newline c = not (c == b'\n')

-- The longest text in front whose bytes are in the set, and what follows.
unfoldable pub span : (ℕ → Bool) → Bytes → Bytes × Bytes
span test [] = ([], [])
span test (c ∷ s) = let (t, r) = span test s in if test c then (c ∷ t, r) else ([], c ∷ s)

abbrev pub some_text : Bytes × Bytes → Option (Bytes × Bytes)
some_text ([], r) = none
some_text (c ∷ t, r) = some (c ∷ t, r)

-- `%[…]`, which wants at least one byte.
unfoldable pub scan_set : (ℕ → Bool) → Bytes → Option (Bytes × Bytes)
unfolding span
scan_set test s = some_text (span test s)

abbrev digits : Bytes → Option ℕ
digits [] = none
digits (c ∷ s) = if is_digit c then some (digits_value 0 (c ∷ s)) else none

abbrev signed : Bytes → Option ℤ
signed [] = none
signed (c ∷ s) =
    if c == b'-'
    then (elim (digits s) [ none ↦ none | some n ↦ some (negate n) ])
    else if c == b'+'
    then (elim (digits s) [ none ↦ none | some n ↦ some (pos n) ])
    else (elim (digits (c ∷ s)) [ none ↦ none | some n ↦ some (pos n) ])

-- `%d`.
unfoldable pub scan_int : Bytes → Option ℤ
unfolding skip_space digits_value
scan_int s = signed (skip_space s)

-- What the calls leave: the count `n`, `instruction`, `symbolMeth`, `numPipe` and `_buf`.
pub record Scanned : Type 0 where
  pub n : ℕ
  pub instruction : Bytes
  pub symbol_meth : Bytes
  pub num_pipe : ℤ
  pub buf : Bytes

unfoldable pub scan_number : Bytes → Option Scanned
unfolding scan_set scan_int
scan_number line = do
  (instruction, r) ← scan_set is_instruction line
  (symbol, r') ← scan_set is_mark r
  number ← scan_int r'
  some (record {
    n = 3;
    instruction = instruction;
    symbol_meth = symbol;
    num_pipe = number;
    buf = [];
  })

unfoldable pub scan_pipe : Bytes → Scanned
unfolding scan_set skip_space
scan_pipe line = elim (scan_set is_instruction line) [
  | none ↦ record { n = 0; instruction = []; symbol_meth = []; num_pipe = pos 0; buf = [] }
  | some (instruction, r) ↦ (elim (scan_set is_mark_or_file r) [
    | none ↦ record {
      n = 1;
      instruction = instruction;
      symbol_meth = [];
      num_pipe = pos 0;
      buf = [];
    }
    | some (symbol, r') ↦ (elim (scan_set is_not_newline (skip_space r')) [
      | none ↦ record {
        n = 2;
        instruction = instruction;
        symbol_meth = symbol;
        num_pipe = pos 0;
        buf = [];
      }
      | some (buf, _) ↦ record {
        n = 3;
        instruction = instruction;
        symbol_meth = symbol;
        num_pipe = pos 0;
        buf = buf;
      }
    ])
  ])
]

-- A numbered pipe if there is one, else what the second call reads. `symbolMeth` has room for one
-- byte.
abbrev in_bounds : Scanned → Option Scanned
in_bounds s = if ltb (length s.symbol_meth) 2 then some s else none

unfoldable pub scan : Bytes → Option Scanned
unfolding scan_number scan_pipe
scan line = elim (scan_number line) [
  | some numbered ↦ in_bounds numbered
  | none ↦ in_bounds (scan_pipe line)
]

abbrev pub head_or_0 : Bytes → ℕ
head_or_0 [] = 0
head_or_0 (c ∷ _) = c

-- What `main` goes on with: a redirection to a file takes the rest as the file's name.
unfoldable pub rest : Scanned → Bytes
rest s = if head_or_0 s.symbol_meth == b'>' then [] else s.buf

-- The commands of a line, by the loop of `main` on fuel. `none` is fuel that runs out; `some none` is a
-- command that faults.
unfoldable pub commands_fuel : ℕ → Bytes → Option (Option (List Scanned))
unfolding scan rest
commands_fuel zero line = none
commands_fuel (suc f) [] = some (some [])
commands_fuel (suc f) (c ∷ line) = elim (scan (c ∷ line)) [
  | none ↦ some none
  | some s ↦ (do read ← commands_fuel f (rest s); some (do cs ← read; some (s ∷ cs)))
]

-- A round for each byte and one more; `none` is a fault.
unfoldable pub commands : Bytes → Option (List Scanned)
unfolding commands_fuel
commands line = do read ← commands_fuel (suc (length line)) line; read
