-- ===== src/Simple/Exec/Numbered.antt =====
-- What a numbered pipe brings to a later line.
use network_programming_demo.Prelude.{
  ℕ, suc, ◌+◌, ◌<◌, List, [], ◌∷◌, ◌++◌, append_assoc, none, some, Bool, true, false, ◌&&◌, ◌==◌,
  if◌then◌else◌, length, get_elem?, ◌≡◌, refl, ◌∙◌, ap, arith, All, Bool-cases, inl, inr,
}
use network_programming_demo.Prelude.Int.{pos, pred}
use network_programming_demo.Text.Bytes.{Bytes}
use network_programming_demo.Simple.Line.{read_line, starts_blank}
use network_programming_demo.Simple.Table.{Entry, Table, Source, count_down}
use network_programming_demo.Simple.Table.Laws.{
  IsAlone, count_down_at, count_down_takes, count_down-IsAlone,
}
use network_programming_demo.Simple.Child.{
  Args, Child, has_mark, child, wire, wire_pipe, wire_error, wire_input, wire_output,
}
use network_programming_demo.Simple.Exec.{
  Os, Effect, started, closed, Shell, Job, stage, stages, find_source, launch, finish, builtin,
  run_commands, prepare, do_exec, run, ends, pipedata, args,
}

-- A line with no number that starts programs.
pub record IsPlain (cmd : Bytes) : Type 0 where
  pub front : Bytes
  pub others : List Bytes
  pub commands : (read_line cmd).commands ≡ front ∷ others
  pub unnumbered : (read_line cmd).pipe_number ≡ none
  pub written : starts_blank front ≡ false
  pub program : others ≡ [] → builtin front ≡ none

plain_job : Bytes → ℕ → Bytes → Job
plain_job path sockfd cmd = record {
  path = path;
  output = sockfd;
  wait = true;
  n_pipe_err = (read_line cmd).n_pipe_err;
  get_input = 0;
}

pub run_commands_plain :
    (os : Os) (j : Job) (front : Bytes) (cs : List Bytes) (sh : Shell)
    → starts_blank front ≡ false
    → (cs ≡ [] → builtin front ≡ none)
    → run_commands os j (front ∷ cs) sh ≡ stages os j true 0 (front ∷ cs) sh
unfolding run_commands
run_commands_plain os j front [] sh b p = rw (run_commands, b, p refl) refl
run_commands_plain os j front (c ∷ cs) sh b p = rw (run_commands, b) refl

do_exec_plain :
    (os : Os) (path : Bytes) (sockfd : ℕ) (cmd : Bytes) (sh : Shell) (h : IsPlain cmd)
    → do_exec os path sockfd cmd sh
      ≡ stages os (plain_job path sockfd cmd) true 0 (h.front ∷ h.others) sh
unfolding do_exec prepare plain_job
do_exec_plain os path sockfd cmd sh h =
    rw (do_exec, prepare, h.unnumbered, h.commands)
      (run_commands_plain os (plain_job path sockfd cmd) h.front h.others sh h.written h.program)

finish_table : (o : ℕ × ℕ) (t : Table) → (finish 0 o t).1 ≡ t
unfolding finish
finish_table o t = refl

-- Later commands of a line leave the table as it is.
stages-table_later :
    (os : Os) (j : Job) (cs : List Bytes) (input : ℕ) (sh : Shell)
    → j.get_input ≡ 0
    → (stages os j false input cs sh).1.table ≡ sh.table
unfolding stages stage find_source finish
stages-table_later os j [] input sh g = refl
stages-table_later os j (c ∷ []) input sh g = rw g refl
stages-table_later os j (c ∷ d ∷ cs) input sh g =
    stages-table_later os j (d ∷ cs) _ (record { table = sh.table; made = sh.made + 1 }) g

abbrev pub no_source : Source
no_source = record { input = 0; output = 0; enter = false }

-- The first one counts the table down.
stages-table :
    (os : Os) (j : Job) (c : Bytes) (cs : List Bytes) (sh : Shell)
    → j.get_input ≡ 0
    → (stages os j true 0 (c ∷ cs) sh).1.table
      ≡ record (sh.table) { entries = (count_down 1000 no_source sh.table.entries).1 }
unfolding stages stage find_source finish
stages-table os j c [] sh g = rw g refl
stages-table os j c (d ∷ cs) sh g =
    stages-table_later os j (d ∷ cs) _
      (record {
        table = record (sh.table) { entries = (count_down 1000 no_source sh.table.entries).1 };
        made = sh.made + 1;
      })
      g

do_exec-table :
    (os : Os) (path : Bytes) (sockfd : ℕ) (cmd : Bytes) (sh : Shell)
    → IsPlain cmd
    → (do_exec os path sockfd cmd sh).1.table
      ≡ record (sh.table) { entries = (count_down 1000 no_source sh.table.entries).1 }
unfolding plain_job
do_exec-table os path sockfd cmd sh h =
    ap (λ (r : List Effect × Shell). r.1.table) (do_exec_plain os path sockfd cmd sh h)
    ∙ stages-table os (plain_job path sockfd cmd) h.front h.others sh refl

-- The first child of a line that takes a numbered pipe.
abbrev first_args : Job → Bool → Entry → Args
first_args j last e =
    args j true last (record { input = e.input_num; output = e.output_num; enter = true })

abbrev taken : Entry → Source
taken e = record { input = e.input_num; output = e.output_num; enter = true }

launch-taken :
    (os : Os) (j : Job) (last : Bool) (e : Entry) (c : Bytes) (k : ℕ)
    → launch os j true last (taken e) c k
      ≡ closed e.output_num
        ∷ started (child j.path (first_args j last e) (os.pipe_end k).1 c) (j.wait && last)
        ∷ (if e.input_num == 0 then [] else closed e.input_num ∷ [])
unfolding launch
launch-taken os j last e c k = refl

stages-launch :
    (os : Os) (j : Job) (c : Bytes) (cs : List Bytes) (sh : Shell)
    → (last : Bool) × (rest : List Effect) × ((stages os j true 0 (c ∷ cs) sh).0
        ≡ launch os j true last (count_down 1000 no_source sh.table.entries).0 c sh.made ++ rest)
unfolding stages stage find_source
stages-launch os j c [] sh = (true, _, refl)
stages-launch os j c (d ∷ cs) sh =
    let s = (count_down 1000 no_source sh.table.entries).0 in
    let rest =
      stages os j false (pipedata os sh.made).0 (d ∷ cs) (stage os j true false 0 c sh).2 in
    (
      false,
      (closed (pipedata os sh.made).1 ∷ []) ++ rest.0,
      append_assoc (launch os j true false s c sh.made) (closed (pipedata os sh.made).1 ∷ [])
          rest.0,
    )

-- The descriptors of such a child do not depend on whether more commands follow.
wire_taken :
    (j : Job) (last : Bool) (e : Entry) (w : ℕ)
    → j.get_input ≡ 0
    → j.n_pipe_err ≡ false
    → 2 < e.input_num
    → 2 < j.output
    → wire (first_args j last e) w
      ≡ record { input = e.input_num; output = j.output; error = j.output }
unfolding wire wire_pipe wire_error wire_input wire_output
wire_taken j true e w g p n o = ground arith
wire_taken j false e w g p n o = ground arith

child-fds : (path : Bytes) (a : Args) (w : ℕ) (cmd : Bytes) → (child path a w cmd).fds ≡ wire a w
unfolding child
child-fds path a w cmd = elim (Bool-cases (has_mark cmd)) [
  | inl e ↦ rw (child, e) refl
  | inr e ↦ rw (child, e) refl
]

launch-ends :
    (os : Os) (j : Job) (last : Bool) (s : Source) (c : Bytes) (k : ℕ) (rest : List Effect)
    → ends (launch os j true last s c k ++ rest) ≡ false
unfolding launch
launch-ends os j last s c k rest = elim (Bool-cases s.enter) [
  | inl e ↦ rw (launch, e) refl
  | inr e ↦ rw (launch, e) refl
]

plain-ends :
    (os : Os) (path : Bytes) (sockfd : ℕ) (cmd : Bytes) (sh : Shell)
    → IsPlain cmd
    → ends (do_exec os path sockfd cmd sh).0 ≡ false
plain-ends os path sockfd cmd sh h =
    let j = plain_job path sockfd cmd in
    let (last, rest, e) = stages-launch os j h.front h.others sh in
    rw (do_exec_plain os path sockfd cmd sh h, e)
      (launch-ends os j last (count_down 1000 no_source sh.table.entries).0 h.front sh.made rest)

run_next :
    (os : Os) (path : Bytes) (sockfd : ℕ) (cmd : Bytes) (lines : List Bytes) (sh : Shell)
    → IsPlain cmd
    → (run os path sockfd (cmd ∷ lines) sh).1
      ≡ (run os path sockfd lines (do_exec os path sockfd cmd sh).1).1
unfolding run
run_next os path sockfd cmd lines sh h = rw (run, plain-ends os path sockfd cmd sh h) refl

module _ (os : Os) (path : Bytes) (sockfd : ℕ) (cmd : Bytes) (plain : IsPlain cmd)
    (clean : (read_line cmd).n_pipe_err ≡ false) (above : 2 < sockfd) where
  arrives_now :
      (sh : Shell) (p : ℕ) (e : Entry)
      → get_elem? sh.table.entries p ≡ some e
      → p < 1000
      → e.input_count ≡ pos 1
      → IsAlone 1000 p (pos 1) sh.table.entries
      → 2 < e.input_num
      → (k : Child) × (waits : Bool) × (rest : List Effect) × ((do_exec os path sockfd cmd sh).0
          ≡ closed e.output_num ∷ started k waits ∷ rest)
        × (k.fds ≡ record { input = e.input_num; output = sockfd; error = sockfd })
  unfolding plain_job
  arrives_now sh p e at l c a n =
      let j = plain_job path sockfd cmd in
      let (last, rest, f) = stages-launch os j plain.front plain.others sh in
      let w = (os.pipe_end sh.made).1 in
      let k = child path (first_args j last e) w plain.front in
      let took = count_down_takes 1000 no_source sh.table.entries p e at c a l in
      (
        k,
        j.wait && last,
        (if e.input_num == 0 then [] else closed e.input_num ∷ []) ++ rest,
        ap (λ (r : List Effect × Shell). r.0) (do_exec_plain os path sockfd cmd sh plain)
            ∙ f
            ∙ ap (λ s. launch os j true last s plain.front sh.made ++ rest) took
            ∙ ap (λ es. es ++ rest) (launch-taken os j last e plain.front sh.made),
        child-fds path (first_args j last e) w plain.front
            ∙ wire_taken j last e w refl clean n above,
      )

  -- An entry of the table that is to be read after some more lines is the input of the first command of the
  -- line that follows these, if each of these lines and that one starts programs and has no number of its
  -- own, and that one no mark "!". The parent first closes the descriptor that the entry keeps for a write
  -- end, and the child reads the entry's read end and writes to the client, unless it redirects its output
  -- to a file after that. It does so even if more commands follow in that line, which then never get its
  -- output.
  pub numbered_pipe_read :
      (lines : List Bytes) (sh : Shell) (p : ℕ) (e : Entry)
      → All IsPlain lines
      → get_elem? sh.table.entries p ≡ some e
      → p < 1000
      → e.input_count ≡ pos (suc (length lines))
      → IsAlone 1000 p (pos (suc (length lines))) sh.table.entries
      → 2 < e.input_num
      → (k : Child) × (waits : Bool) × (rest : List Effect) × ((do_exec os path sockfd cmd
            (run os path sockfd lines sh).1).0
          ≡ closed e.output_num ∷ started k waits ∷ rest)
        × (k.fds ≡ record { input = e.input_num; output = sockfd; error = sockfd })
  unfolding run
  numbered_pipe_read [] sh p e h at l c a n = arrives_now sh p e at l c a n
  numbered_pipe_read (line ∷ lines) sh p e h at l c a n =
      let sh' = (do_exec os path sockfd line sh).1 in
      let t = do_exec-table os path sockfd line sh h.0 in
      let e' : Entry = record e { input_count = pred e.input_count } in
      let entries = ap (λ (x : Table). x.entries) t in
      rw (run_next os path sockfd line lines sh h.0) (
        numbered_pipe_read lines sh' p e' h.1
          (rw entries (count_down_at 1000 no_source sh.table.entries p e at l)) l (rw c refl)
          (rw entries (count_down-IsAlone 1000 no_source sh.table.entries p (length lines) a)) n)
