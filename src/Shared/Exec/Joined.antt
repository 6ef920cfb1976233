-- ===== src/Shared/Exec/Joined.antt =====
-- A line of `do_exec` that joins a numbered pipe which waits already.
use network_programming_demo.Prelude.{
  ℕ, ◌<◌, List, [], ◌∷◌, ◌++◌, Option, none, some, Bool, true, false, ◌≡◌, refl, sym, subst, arith,
  All, All-append, ◌&&◌, ◌==◌, not, ◌∙◌,
}
use network_programming_demo.Prelude.Int.{ℤ, succ}
use network_programming_demo.Text.Bytes.{Bytes}
use network_programming_demo.Simple.Line.{Line}
use network_programming_demo.Simple.Table.{find_output, Table}
use network_programming_demo.Simple.Child.{Child}
use network_programming_demo.Simple.Exec.{Os, pipedata, last_get_input}
use network_programming_demo.Shared.Child.{child}
use network_programming_demo.Shared.Child.Laws.{child-output}
use network_programming_demo.Shared.Exec.{
  Act, started, Process, Job, args, take_source, finish, close_if, stage, stages, number_target,
  job,
}

-- Standard output of a process that is started and does not fault.
abbrev pub WritesTo : ℕ → Act → Type 0
WritesTo o (started (some k) waits) = k.fds.output ≡ o
WritesTo o _ = Unit

close_if-WritesTo : (o : ℕ) (b : Bool) (fd : ℕ) → All (WritesTo o) (close_if b fd)
close_if-WritesTo o true fd = (tt, tt)
close_if-WritesTo o false fd = tt

finish-WritesTo :
    (o : ℕ) (last : Bool) (get_input : ℕ) (ends : ℕ × ℕ) (t : Table)
    → All (WritesTo o) (finish last get_input ends t).0
unfolding finish
finish-WritesTo o false get_input ends t = (tt, tt)
finish-WritesTo o true get_input ends t = ground arith

started-WritesTo :
    (o : ℕ) (k : Option Child) (waits : Bool)
    → ((c : Child) → k ≡ some c → c.fds.output ≡ o)
    → WritesTo o (started k waits)
started-WritesTo o none waits h = tt
started-WritesTo o (some c) waits h = h c refl

around :
    (P : Act → Type 0) (xs ys zs us : List Act) (a : Act)
    → All P xs
    → P a
    → All P ys
    → All P zs
    → All P us
    → All P (xs ++ (a ∷ ((ys ++ zs) ++ us)))
around P xs ys zs us a hx h hy hz hu =
    All-append P xs (a ∷ ((ys ++ zs) ++ us)) hx
      (h, All-append P (ys ++ zs) us (All-append P ys zs hy hz) hu)

module _ (os : Os) (j : Job) (one : j.get_input ≡ 1) (alone : j.user_pipe_out ≡ 0)
    (above : 2 < j.output) where
  stage-WritesTo :
      (first last : Bool) (input : ℕ) (cmd : Bytes) (v : Process)
      → All (WritesTo j.output) (stage os j first last input cmd v).0
  unfolding stage
  stage-WritesTo first last input cmd v =
      let (s, t) = take_source first input v.table in
      let w = (os.pipe_end v.made).1 in
      let P = WritesTo j.output in
      let same : (args j first last s).output ≡ j.output = ground (arith, alone) in
      let kid =
        started-WritesTo j.output (child j.path (args j first last s) w cmd) (j.wait && last)
          (λ k e.
            child-output j.path (args j first last s) w cmd k (λ l. ground (arith, one, l))
              (omega (arith, same, above)) e
            ∙ same) in
      around P (close_if s.enter s.output) (close_if (not (s.input == 0)) s.input)
        (close_if (first && not (j.user_pipe_in == 0)) j.user_pipe_in)
        (finish last (last_get_input last j.get_input) (pipedata os v.made) t).0
        (started (child j.path (args j first last s) w cmd) (j.wait && last))
        (close_if-WritesTo j.output s.enter s.output) kid
        (close_if-WritesTo j.output (not (s.input == 0)) s.input)
        (close_if-WritesTo j.output (first && not (j.user_pipe_in == 0)) j.user_pipe_in)
        (finish-WritesTo j.output last (last_get_input last j.get_input) (pipedata os v.made) t)

  stages-WritesTo :
      (first : Bool) (input : ℕ) (cmd : Bytes) (cmds : List Bytes) (v : Process)
      → All (WritesTo j.output) (stages os j first input cmd cmds v).0
  unfolding stages
  stages-WritesTo first input cmd [] v = stage-WritesTo first true input cmd v
  stages-WritesTo first input cmd (next ∷ cmds) v =
      All-append (WritesTo j.output) _ _ (stage-WritesTo first false input cmd v)
        (stages-WritesTo false _ next cmds _)

-- In a line whose number another entry waits for, with a descriptor `o` above 2 for its write end, and
-- that has no FIFO for its output, every command that is started, whatever its place, has `o` for its
-- standard output if its child does not fault, those in front of another command included. A redirection
-- to a file comes after that.
pub joined_line :
    (os : Os) (path : Bytes) (line : Line) (n : ℤ) (o fd_in : ℕ) (cmd : Bytes) (cmds : List Bytes)
    (v : Process)
    → line.pipe_number ≡ some n
    → find_output 1000 (succ n) v.table.entries ≡ some o
    → 2 < o
    → let (target, t) = number_target line v.table in
      All
        (WritesTo o)
        (stages os (job path line target fd_in 0) true fd_in cmd cmds (record v { table = t })).0
unfolding number_target
joined_line os path line n o fd_in cmd cmds v e f above =
    let j = job path line (some o) fd_in 0 in
    let target : number_target line v.table ≡ (some o, v.table) = rw (number_target, e, f) refl in
    subst
      (λ (x : Option ℕ × Table).
        All (WritesTo o)
          (stages os (job path line x.0 fd_in 0) true fd_in cmd cmds (record v { table = x.1 })).0)
      (sym target) (stages-WritesTo os j (ground (arith, e)) refl above true fd_in cmd cmds v)
