-- ===== src/Tests/Simple.antt =====
-- A client of project2/np_simple.cpp sends lines with numbered pipes.
use network_programming_demo.Prelude.{
  ℕ, zero, suc, ◌+◌, ◌*◌, List, [], ◌∷◌, some, Bool, get_elem?, set, replicate, ◌≡◌, refl, arith,
}
use network_programming_demo.Prelude.Int.{pos}
use network_programming_demo.Text.Bytes.{codes}
use network_programming_demo.Simple.Line.{read_line, starts_blank}
use network_programming_demo.Simple.Table.{Entry, initial, no_entry, find_output}
use network_programming_demo.Simple.Table.Laws.{IsTable, initial-IsTable, IsAlone}
use network_programming_demo.Simple.Child.{Child}
use network_programming_demo.Simple.Exec.{Os, Shell, Effect, closed, started, do_exec, run, builtin}
use network_programming_demo.Simple.Exec.Numbered.{IsPlain, numbered_pipe_read}
use network_programming_demo.Simple.Exec.Bounds.{run-IsTable}
use network_programming_demo.Simple.Exec.Store.{IsNumbered, numbered_line_stores}

abbrev os : Os
os = record { pipe_end = λ k. (10 + 2 * k, 11 + 2 * k); malloc = λ k. (0, 0) }

abbrev fresh : Shell
fresh = record { table = initial; made = 0 }

run-IsTable_example :
    IsTable (run os (codes "bin") 4 (codes "ls |1" ∷ codes "cat" ∷ []) fresh).1.table
run-IsTable_example =
    run-IsTable os (codes "bin") 4 (codes "ls |1" ∷ codes "cat" ∷ []) fresh initial-IsTable

ls-IsNumbered : IsNumbered (codes "ls |1") (pos 1) (codes "ls ") []
ls-IsNumbered = record {
  commands = unfold read_line in refl;
  number = unfold read_line in refl;
  written = unfold starts_blank in refl;
  program = λ e. unfold builtin in refl;
}

numbered_line_stores_example :
    (get_elem? (do_exec os (codes "bin") 4 (codes "ls |1") fresh).1.table.entries 0
      ≡ some (record { input_count = pos 1; input_num = 10; output_num = 0 }))
    × ((do_exec os (codes "bin") 4 (codes "ls |1") fresh).1.table.pos ≡ 1)
numbered_line_stores_example =
    numbered_line_stores os (codes "bin") 4 (codes "ls |1") (pos 1) (codes "ls ") [] fresh
      ls-IsNumbered initial-IsTable (omega arith) (unfold find_output in refl)

cat-IsPlain : IsPlain (codes "cat | number")
cat-IsPlain = record {
  front = codes "cat ";
  others = codes " number" ∷ [];
  commands = unfold read_line in refl;
  unnumbered = unfold read_line in refl;
  written = unfold starts_blank in refl;
  program = λ e. cc;
}

noop-IsPlain : IsPlain (codes "noop")
noop-IsPlain = record {
  front = codes "noop";
  others = [];
  commands = unfold read_line in refl;
  unnumbered = unfold read_line in refl;
  written = unfold starts_blank in refl;
  program = λ e. unfold builtin in refl;
}

abbrev due : Entry
due = record { input_count = pos 2; input_num = 10; output_num = 0 }

abbrev waiting : Shell
waiting = record { table = record { entries = set initial.entries 0 due; pos = 1 }; made = 1 }

replicate_at : (n q : ℕ) (d : Entry) → get_elem? (replicate n no_entry) q ≡ some d → d ≡ no_entry
replicate_at zero q d e = cc
replicate_at (suc n) zero d e = ground arith
replicate_at (suc n) (suc q) d e = replicate_at n q d e

waiting-IsAlone : IsAlone 1000 0 (pos 2) waiting.table.entries
waiting-IsAlone zero d e l o c = absurd (o refl)
waiting-IsAlone (suc q) d e l o c = ground (arith, replicate_at 1023 q d e)

numbered_pipe_read_example :
    (k : Child) × (waits : Bool) × (rest : List Effect) × ((do_exec os
        (codes "bin")
        4
        (codes "cat | number")
        (run os (codes "bin") 4 (codes "noop" ∷ []) waiting).1).0
      ≡ closed 0 ∷ started k waits ∷ rest)
    × (k.fds ≡ record { input = 10; output = 4; error = 4 })
numbered_pipe_read_example =
    numbered_pipe_read os (codes "bin") 4 (codes "cat | number") cat-IsPlain
      (unfold read_line in refl) (omega arith) (codes "noop" ∷ []) waiting 0 due (noop-IsPlain, tt)
      refl (omega arith) refl waiting-IsAlone (omega arith)

-- A number of 33 bits loses its highest one.
cut_number : (read_line (codes "ls |4294967297")).pipe_number ≡ some (pos 1)
unfolding read_line
cut_number = refl
