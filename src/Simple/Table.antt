-- ===== src/Simple/Table.antt =====
-- project2/np_simple.cpp: `input_count`, `input_num`, `output_num` and `pos`, the table of numbered pipes.
-- The three arrays of 1024 are one list of entries.
pub mod Laws
use network_programming_demo.Prelude.{
  ℕ, zero, suc, ◌+◌, List, [], ◌∷◌, Option, none, some, Bool, true, ◌==◌, ltb, if◌then◌else◌,
  replicate, get_elem?, set,
}
use network_programming_demo.Prelude.Int.{ℤ, pos, pred, ◌==ℤ◌}

pub record Entry : Type 0 where
  pub input_count : ℤ
  pub input_num : ℕ
  pub output_num : ℕ

pub record Table : Type 0 where
  pub entries : List Entry
  pub pos : ℕ

abbrev pub no_entry : Entry
no_entry = record { input_count = pos 0; input_num = 0; output_num = 0 }

-- The zeroed globals.
abbrev pub initial : Table
initial = record { entries = replicate 1024 no_entry; pos = 0 }

-- `for (i = 0; i < 1000; i++) if (input_count[i] == pipe_number + 1)`: the output of the first such
-- entry.
unfoldable pub find_output : ℕ → ℤ → List Entry → Option ℕ
find_output zero count es = none
find_output (suc n) count [] = none
find_output (suc n) count (e ∷ es) =
    let rest = find_output n count es in if e.input_count ==ℤ count then some e.output_num else rest

-- `input_count[pos] = pipe_number + 1`
unfoldable pub reserve : ℤ → Table → Table
reserve count t = elim (get_elem? t.entries t.pos) [
  | none ↦ t
  | some e ↦ record t { entries = set t.entries t.pos (record e { input_count = count }) }
]

-- The input that a line takes, its output, and whether it takes one (`enter`).
pub record Source : Type 0 where
  pub input : ℕ
  pub output : ℕ
  pub enter : Bool

-- `for (j = 0; j < 1000; j++)`: the last entry that counts 1 is taken, and all count down.
unfoldable pub count_down : ℕ → Source → List Entry → Source × List Entry
count_down zero s es = (s, es)
count_down (suc n) s [] = (s, [])
count_down (suc n) s (e ∷ es) =
    let taken : Source = record { input = e.input_num; output = e.output_num; enter = true } in
    let s' = if e.input_count ==ℤ pos 1 then taken else s in
    let (found, rest) = count_down n s' es in
    (found, record e { input_count = pred e.input_count } ∷ rest)

-- `input_num[pos] = input; output_num[pos] = output; pos++; if (pos > 1000) pos = 0;`
unfoldable pub store : ℕ → ℕ → Table → Table
store input output t = record {
  entries = elim (get_elem? t.entries t.pos) [
    | none ↦ t.entries
    | some e ↦ set t.entries t.pos (record e { input_num = input; output_num = output })
  ];
  pos = if ltb 1000 (t.pos + 1) then 0 else t.pos + 1;
}
