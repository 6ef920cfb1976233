-- ===== src/Shared/Exec/Laws.antt =====
-- Whole lines of `do_exec`, and the shared memory.
use network_programming_demo.Prelude.{
  ℕ, List, [], ◌∷◌, Option, none, some, ◌>>=◌, >>=-eq-some, Bool, true, false, get_elem?, ◌≡◌, refl,
  sym, subst, Option-cases, inl, inr,
}
use network_programming_demo.Text.Bytes.{Bytes}
use network_programming_demo.Simple.Line.{Line, split_space}
use network_programming_demo.Simple.Exec.{Os}
use network_programming_demo.Shared.State.{Shm, Outcome}
use network_programming_demo.Shared.Users.{rm_user}
use network_programming_demo.Shared.Fifo.{Gate, refused, passed, gates}
use network_programming_demo.Shared.Reach.{gate_state}
use network_programming_demo.Shared.Reach.Invariant.{IsShm}
use network_programming_demo.Shared.Reach.Gates.{gates-IsShm, finish-IsShm}
use network_programming_demo.Shared.Reach.Laws.{
  outcome, execute_name-IsShm, execute_yell-IsShm, execute_tell-IsShm, rm_user-IsShm,
}
use network_programming_demo.Shared.Exec.{
  assignment, Process, Act, Job, Builtin, printenv, setenv, exit, who, nickname, yell, tell, stage,
  stages, builtin, run_builtin, run_commands, number_target, job, ended, sender, after_gate,
  read_line, do_exec,
}

-- Programs do not touch the shared memory.
stages-shm :
    (os : Os) (j : Job) (cmds : List Bytes) (first : Bool) (input : ℕ) (cmd : Bytes) (v : Process)
    → (stages os j first input cmd cmds v).1.shm ≡ v.shm
unfolding stages stage
stages-shm os j [] first input cmd v = refl
stages-shm os j (next ∷ cmds) first input cmd v =
    stages-shm os j cmds false (stage os j first false input cmd v).1 next
      (stage os j first false input cmd v).2

run_builtin-IsShm :
    (me : ℕ) (old : List Bytes) (b : Builtin) (cmd : Bytes) (shm : Shm) (out : Outcome)
    → IsShm shm
    → run_builtin me old b cmd shm ≡ some out
    → IsShm out.0
unfolding run_builtin
run_builtin-IsShm me old printenv cmd shm out h e =
    let (_, _, f) = >>=-eq-some (get_elem? (split_space cmd) 1) _ e in outcome f h
run_builtin-IsShm me old setenv cmd shm out h e =
    let (_, _, f) = >>=-eq-some (assignment (split_space cmd)) _ e in outcome f h
run_builtin-IsShm me old exit cmd shm out h e =
    let (x, f, g) = >>=-eq-some (rm_user me shm) _ e in outcome g (rm_user-IsShm me shm x h f)
run_builtin-IsShm me old who cmd shm out h e = outcome e h
run_builtin-IsShm me old nickname cmd shm out h e = execute_name-IsShm me old shm out h e
run_builtin-IsShm me old yell cmd shm out h e = execute_yell-IsShm me (split_space cmd) shm out h e
run_builtin-IsShm me old tell cmd shm out h e = execute_tell-IsShm me (split_space cmd) shm out h e

ran : {a b : Bool × List Act × Process} → some a ≡ some b → IsShm a.2.shm → IsShm b.2.shm
ran {a = a} {b = b} e h = subst IsShm {x = a.2.shm} {y = b.2.shm} (cc) h

run_commands-IsShm :
    (os : Os) (me : ℕ) (old : List Bytes) (j : Job) (input : ℕ) (cmds : List Bytes) (v : Process)
    (r : Bool × List Act × Process)
    → IsShm v.shm
    → run_commands os me old j input cmds v ≡ some r
    → IsShm r.2.shm
unfolding run_commands
run_commands-IsShm os me old j input [] v r h e = ran e h
run_commands-IsShm os me old j input (cmd ∷ []) v r h e = elim (Option-cases (builtin cmd)) [
  | inl b ↦
      ran (rw (run_commands, b) at e) (subst IsShm (sym (stages-shm os j [] true input cmd v)) h)
  | inr (c, b) ↦
      let (out, f, g) =
        >>=-eq-some (run_builtin me old c cmd v.shm) _ (rw (run_commands, b) at e) in
      ran g (run_builtin-IsShm me old c cmd v.shm out h f)
]
run_commands-IsShm os me old j input (cmd ∷ next ∷ cmds) v r h e =
    ran e (subst IsShm (sym (stages-shm os j (next ∷ cmds) true input cmd v)) h)

did_all : {a b : List Act × Process} → some a ≡ some b → IsShm a.1.shm → IsShm b.1.shm
did_all {a = a} {b = b} e h = subst IsShm {x = a.1.shm} {y = b.1.shm} (cc) h

ended-IsShm :
    (me : ℕ) (cmd : Bytes) (fd_in fd_out : ℕ) (x : Bool × List Act × Process)
    (r : List Act × Process)
    → IsShm x.2.shm
    → ended me cmd fd_in fd_out x ≡ some r
    → IsShm r.1.shm
ended-IsShm me cmd fd_in fd_out (true, acts, v) r h e = did_all e h
ended-IsShm me cmd fd_in fd_out (false, acts, v) r h e =
    let (out, f, g) =
      >>=-eq-some (network_programming_demo.Shared.Fifo.finish me (sender cmd) fd_in fd_out v.shm) _
        e in
    did_all g (finish-IsShm me (sender cmd) fd_in fd_out v.shm out h f)

after_gate-IsShm :
    (os : Os) (me : ℕ) (old : List Bytes) (path cmd : Bytes) (line : Line) (g : Gate) (v : Process)
    (r : List Act × Process)
    → IsShm (gate_state g)
    → after_gate os me old path cmd line g v ≡ some r
    → IsShm r.1.shm
unfolding after_gate
after_gate-IsShm os me old path cmd line (refused (shm, es)) v r h e = did_all e h
after_gate-IsShm os me old path cmd line (passed (shm, es) fd_in fd_out) v r h e =
    let (x, f, g) =
      >>=-eq-some
        (run_commands os me old (job path line (number_target line v.table).0 fd_in fd_out) fd_in
          line.commands (record v { shm = shm; table = (number_target line v.table).1 }))
        _ e in
    let (y, f', g') = >>=-eq-some (ended me cmd fd_in fd_out x) _ g in
    did_all g' (
      ended-IsShm me cmd fd_in fd_out x y
        (run_commands-IsShm os me old (job path line (number_target line v.table).0 fd_in fd_out)
          fd_in line.commands (record v { shm = shm; table = (number_target line v.table).1 }) x h
          f)
        f')

-- A whole line of any process keeps the invariant of the shared memory.
pub do_exec-IsShm :
    (os : Os) (fs : network_programming_demo.Shared.Fifo.Os) (me : ℕ) (old : List Bytes)
    (path cmd : Bytes) (v : Process) (r : List Act × Process)
    → IsShm v.shm
    → do_exec os fs me old path cmd v ≡ some r
    → IsShm r.1.shm
unfolding do_exec
do_exec-IsShm os fs me old path cmd v r h e =
    let (read, f, g) = >>=-eq-some (read_line cmd) _ e in go read g
  where
    go :
        (read : Option Line)
        → elim read [
          | none ↦ some ([], v)
          | some line ↦ (do gate ← gates fs me cmd v.shm; after_gate os me old path cmd line gate v)
        ]
          ≡ some r
        → IsShm r.1.shm
    go none g = did_all g h
    go (some line) g =
        let (gate, f, k) = >>=-eq-some (gates fs me cmd v.shm) _ g in
        after_gate-IsShm os me old path cmd line gate v r (gates-IsShm fs me cmd v.shm gate h f) k
