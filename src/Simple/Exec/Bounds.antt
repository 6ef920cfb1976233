-- ===== src/Simple/Exec/Bounds.antt =====
-- No line writes outside the table of numbered pipes.
use network_programming_demo.Prelude.{
  ℕ, List, [], ◌∷◌, Bool, true, false, ◌==◌, length, ◌≡◌, refl, ◌∙◌, Bool-cases, Option-cases, inl,
  inr,
}
use network_programming_demo.Prelude.Int.{succ}
use network_programming_demo.Text.Bytes.{Bytes}
use network_programming_demo.Simple.Line.{Line, read_line, starts_blank}
use network_programming_demo.Simple.Table.{Entry, Table, find_output}
use network_programming_demo.Simple.Table.Laws.{
  IsTable, reserve-IsTable, store-IsTable, length-count_down,
}
use network_programming_demo.Simple.Exec.{
  Os, Shell, Job, stage, stages, find_source, finish, builtin, run_commands, prepare, do_exec,
  pipedata, last_get_input, run, ends,
}

finish-IsTable : (g : ℕ) (o : ℕ × ℕ) (t : Table) → IsTable t → IsTable (finish g o t).1
unfolding finish
finish-IsTable g o t h = elim (Bool-cases (g == 0)) [
  | inl e ↦ rw (finish, e) h
  | inr e ↦ elim (Bool-cases (g == 4)) [
    | inl f ↦ rw (finish, e, f) (store-IsTable o.0 o.1 t h)
    | inr f ↦ rw (finish, e, f) h
  ]
]

length-find_source :
    (first : Bool) (input : ℕ) (es : List Entry) → length (find_source first input es).1 ≡ length es
unfolding find_source
length-find_source true input es = length-count_down 1000 _ es
length-find_source false input es = refl

source-IsTable :
    (first : Bool) (input : ℕ) (t : Table)
    → IsTable t
    → IsTable (record t { entries = (find_source first input t.entries).1 })
source-IsTable first input t h = record {
  sized = length-find_source first input t.entries ∙ h.sized;
  bounded = h.bounded;
}

stage-IsTable :
    (os : Os) (j : Job) (first last : Bool) (input : ℕ) (c : Bytes) (sh : Shell)
    → IsTable sh.table
    → IsTable (stage os j first last input c sh).2.table
unfolding stage
stage-IsTable os j first false input c sh h = source-IsTable first input sh.table h
stage-IsTable os j first true input c sh h =
    finish-IsTable (last_get_input true j.get_input) (pipedata os sh.made) _
      (source-IsTable first input sh.table h)

stages-IsTable :
    (os : Os) (j : Job) (cs : List Bytes) (first : Bool) (input : ℕ) (sh : Shell)
    → IsTable sh.table
    → IsTable (stages os j first input cs sh).1.table
unfolding stages
stages-IsTable os j [] first input sh h = h
stages-IsTable os j (c ∷ []) first input sh h = stage-IsTable os j first true input c sh h
stages-IsTable os j (c ∷ d ∷ cs) first input sh h =
    stages-IsTable os j (d ∷ cs) false (stage os j first false input c sh).1
      (stage os j first false input c sh).2 (stage-IsTable os j first false input c sh h)

run_commands-IsTable :
    (os : Os) (j : Job) (cs : List Bytes) (sh : Shell)
    → IsTable sh.table
    → IsTable (run_commands os j cs sh).1.table
unfolding run_commands
run_commands-IsTable os j [] sh h = h
run_commands-IsTable os j (c ∷ []) sh h = elim (Bool-cases (starts_blank c)) [
  | inl e ↦ rw (run_commands, e) h
  | inr e ↦ elim (Option-cases (builtin c)) [
    | inl f ↦ rw (run_commands, e, f) (stages-IsTable os j (c ∷ []) true 0 sh h)
    | inr (b, f) ↦ rw (run_commands, e, f) h
  ]
]
run_commands-IsTable os j (c ∷ d ∷ cs) sh h = elim (Bool-cases (starts_blank c)) [
  | inl e ↦ rw (run_commands, e) h
  | inr e ↦ rw (run_commands, e) (stages-IsTable os j (c ∷ d ∷ cs) true 0 sh h)
]

prepare-IsTable :
    (path : Bytes) (sockfd : ℕ) (line : Line) (t : Table)
    → IsTable t
    → IsTable (prepare path sockfd line t).1
unfolding prepare
prepare-IsTable path sockfd line t h = elim (Option-cases line.pipe_number) [
  | inl e ↦ rw (prepare, e) h
  | inr (n, e) ↦ elim (Option-cases (find_output 1000 (succ n) t.entries)) [
    | inl f ↦ rw (prepare, e, f) (reserve-IsTable (succ n) t h)
    | inr (o, f) ↦ rw (prepare, e, f) h
  ]
]

do_exec-IsTable :
    (os : Os) (path : Bytes) (sockfd : ℕ) (cmd : Bytes) (sh : Shell)
    → IsTable sh.table
    → IsTable (do_exec os path sockfd cmd sh).1.table
unfolding do_exec
do_exec-IsTable os path sockfd cmd sh h =
    let (j, t) = prepare path sockfd (read_line cmd) sh.table in
    run_commands-IsTable os j (read_line cmd).commands (record sh { table = t })
      (prepare-IsTable path sockfd (read_line cmd) sh.table h)

-- Whatever lines a client sends, the table keeps its 1024 places and `pos` stays at most 1000, so that no
-- write at `pos` is outside it.
pub run-IsTable :
    (os : Os) (path : Bytes) (sockfd : ℕ) (lines : List Bytes) (sh : Shell)
    → IsTable sh.table
    → IsTable (run os path sockfd lines sh).1.table
unfolding run
run-IsTable os path sockfd [] sh h = h
run-IsTable os path sockfd (cmd ∷ cmds) sh h =
    let next = do_exec-IsTable os path sockfd cmd sh h in
    elim (Bool-cases (ends (do_exec os path sockfd cmd sh).0)) [
      | inl e ↦ rw (run, e) next
      | inr e ↦ rw (run, e) (run-IsTable os path sockfd cmds (do_exec os path sockfd cmd sh).1 next)
    ]
