-- ===== src/Simple/Exec/Store.antt =====
-- What a line with a new number leaves in the table for a later line.
use network_programming_demo.Prelude.{
  ℕ, zero, suc, ◌+◌, ◌*◌, ◌%◌, ◌<◌, List, [], ◌∷◌, none, some, true, false, length, get_elem?,
  get_elem?-set_self, set, ◌≡◌, refl, subst, ◌∙◌, ap, arith,
}
use network_programming_demo.Prelude.Int.{ℤ, pos, negsuc, pred, succ}
use network_programming_demo.Text.Bytes.{Bytes}
use network_programming_demo.Simple.Line.{read_line, starts_blank}
use network_programming_demo.Simple.Table.{Entry, Table, count_down, store, find_output, reserve}
use network_programming_demo.Simple.Table.Laws.{
  IsTable, reserve-IsTable, count_down_at, length-count_down,
}
use network_programming_demo.Simple.Exec.{
  Os, Effect, Shell, Job, stage, stages, find_source, finish, builtin, prepare, do_exec, pipedata,
}
use network_programming_demo.Simple.Exec.Numbered.{no_source, run_commands_plain}

finish-store : (i o : ℕ) (t : Table) → (finish 4 (i, o) t).1 ≡ store i o t
unfolding finish
finish-store i o t = refl

stages-store_later :
    (os : Os) (j : Job) (c : Bytes) (cs : List Bytes) (input : ℕ) (sh : Shell)
    → j.get_input ≡ 2
    → (stages os j false input (c ∷ cs) sh).1.table
      ≡ store (pipedata os (sh.made + length cs)).0 (pipedata os (sh.made + length cs)).1 sh.table
unfolding stages stage find_source finish
stages-store_later os j c [] input sh g =
    rw (g, finish) (ap (λ k. store (pipedata os k).0 (pipedata os k).1 sh.table) (omega arith))
stages-store_later os j c (d ∷ cs) input sh g =
    stages-store_later os j d cs (stage os j false false input c sh).1
      (stage os j false false input c sh).2 g
    ∙ ap (λ k. store (pipedata os k).0 (pipedata os k).1 sh.table) (omega arith)

stages-store :
    (os : Os) (j : Job) (c : Bytes) (cs : List Bytes) (sh : Shell)
    → j.get_input ≡ 2
    → (stages os j true 0 (c ∷ cs) sh).1.table
      ≡ store
          (pipedata os (sh.made + length cs)).0
          (pipedata os (sh.made + length cs)).1
          (record (sh.table) { entries = (count_down 1000 no_source sh.table.entries).1 })
unfolding stages stage find_source finish
stages-store os j c [] sh g =
    rw (g, finish)
      (ap
        (λ k.
          store (pipedata os k).0 (pipedata os k).1
            (record (sh.table) { entries = (count_down 1000 no_source sh.table.entries).1 }))
        (omega arith))
stages-store os j c (d ∷ cs) sh g =
    stages-store_later os j d cs (stage os j true false 0 c sh).1 (stage os j true false 0 c sh).2 g
    ∙ ap
        (λ k.
          store (pipedata os k).0 (pipedata os k).1
            (record (sh.table) { entries = (count_down 1000 no_source sh.table.entries).1 }))
        (omega arith)

-- A line with a number that starts programs.
pub record IsNumbered (cmd : Bytes) (n : ℤ) (front : Bytes) (others : List Bytes) : Type 0 where
  pub commands : (read_line cmd).commands ≡ front ∷ others
  pub number : (read_line cmd).pipe_number ≡ some n
  pub written : starts_blank front ≡ false
  pub program : others ≡ [] → builtin front ≡ none

abbrev new_job : Bytes → ℕ → Bytes → Job
new_job path sockfd cmd = record {
  path = path;
  output = sockfd;
  wait = false;
  n_pipe_err = (read_line cmd).n_pipe_err;
  get_input = 2;
}

do_exec_new :
    (os : Os) (path : Bytes) (sockfd : ℕ) (cmd : Bytes) (n : ℤ) (front : Bytes)
    (others : List Bytes) (sh : Shell) (h : IsNumbered cmd n front others)
    → find_output 1000 (succ n) sh.table.entries ≡ none
    → do_exec os path sockfd cmd sh
      ≡ stages os
          (new_job path sockfd cmd)
          true
          0
          (front ∷ others)
          (record sh { table = reserve (succ n) sh.table })
unfolding do_exec prepare
do_exec_new os path sockfd cmd n front others sh h f =
    rw (do_exec, prepare, h.number, f, h.commands)
      (run_commands_plain os (new_job path sockfd cmd) front others
        (record sh { table = reserve (succ n) sh.table }) h.written h.program)

pred-succ : (n : ℤ) → pred (succ n) ≡ n
pred-succ (pos n) = refl
pred-succ (negsuc zero) = refl
pred-succ (negsuc (suc n)) = refl

some_entry : (es : List Entry) (p : ℕ) → p < length es → (e : Entry) × (get_elem? es p ≡ some e)
some_entry [] p l = elim l [ ]
some_entry (x ∷ es) zero l = (x, refl)
some_entry (x ∷ es) (suc p) l = some_entry es p (omega (arith, l))

reserve-count_down :
    (n : ℤ) (t : Table)
    → IsTable t
    → t.pos < 1000
    → (e : Entry) × (get_elem? (count_down 1000 no_source (reserve (succ n) t).entries).1 t.pos
        ≡ some (record e { input_count = n }))
      × ((reserve (succ n) t).pos ≡ t.pos)
unfolding reserve
reserve-count_down n t h l =
    let (e, g) = some_entry t.entries t.pos (omega (arith, h.sized, l)) in
    let e' : Entry = record e { input_count = succ n } in
    let there = get_elem?-set_self t.entries t.pos e' (omega (arith, h.sized, l)) in
    (
      e,
      rw (reserve, g)
          (count_down_at 1000 no_source (set t.entries t.pos e') t.pos e' there l
            ∙ ap (λ m. some (record e { input_count = m })) (pred-succ n)),
      rw (reserve, g) refl,
    )

store_at :
    (i o : ℕ) (t : Table) (e : Entry)
    → get_elem? t.entries t.pos ≡ some e
    → t.pos < length t.entries
    → get_elem? (store i o t).entries t.pos
      ≡ some (record { input_count = e.input_count; input_num = i; output_num = o })
unfolding store
store_at i o t e h l = rw (store, h) (get_elem?-set_self t.entries t.pos _ l)

store-pos : (i o : ℕ) (t : Table) → t.pos < 1000 → (store i o t).pos ≡ t.pos + 1
unfolding store
store-pos i o t l = ground arith

reserve-IsTable_counted :
    (n : ℤ) (t : Table)
    → IsTable t
    → length (count_down 1000 no_source (reserve (succ n) t).entries).1 ≡ 1024
reserve-IsTable_counted n t h =
    length-count_down 1000 no_source (reserve (succ n) t).entries
    ∙ (reserve-IsTable (succ n) t h).sized

module _ (os : Os) (path : Bytes) (sockfd : ℕ) (cmd : Bytes) (n : ℤ) (front : Bytes)
    (others : List Bytes) (sh : Shell) (line : IsNumbered cmd n front others) (h : IsTable sh.table)
    (room : sh.table.pos < 1000) (unused : find_output 1000 (succ n) sh.table.entries ≡ none) where
  -- A line whose number no entry waits for puts the pipe of its last command at `pos`, as long as that is
  -- below 1000, to be read after n more lines, and moves `pos` on; n is the int that is left of the number.
  -- Of the pipe only the read end is kept, with its low 16 bits: what is kept as its write end is what the
  -- memory held that malloc gave.
  pub numbered_line_stores :
      let k = sh.made + length others in
      (get_elem? (do_exec os path sockfd cmd sh).1.table.entries sh.table.pos
        ≡ some (record {
          input_count = n;
          input_num = (os.pipe_end k).0 % 65536 + 65536 * (os.malloc k).0;
          output_num = (os.malloc k).1;
        }))
      × ((do_exec os path sockfd cmd sh).1.table.pos ≡ sh.table.pos + 1)
  unfolding pipedata
  numbered_line_stores =
      let k = sh.made + length others in
      let t = reserve (succ n) sh.table in
      let counted = record t { entries = (count_down 1000 no_source t.entries).1 } in
      let stored = store (pipedata os k).0 (pipedata os k).1 counted in
      let table =
        ap (λ (r : List Effect × Shell). r.1.table)
          (do_exec_new os path sockfd cmd n front others sh line unused)
        ∙ stages-store os (new_job path sockfd cmd) front others (record sh { table = t }) refl in
      let (e, g, p) = reserve-count_down n sh.table h room in
      let here : get_elem? counted.entries t.pos ≡ some (record e { input_count = n }) = rw p g in
      let inside : t.pos < length counted.entries =
        omega (arith, room, p, reserve-IsTable_counted n sh.table h) in
      (
        rw table (
            subst
              (λ q.
                get_elem? stored.entries q
                ≡ some (record {
                  input_count = n;
                  input_num = (pipedata os k).0;
                  output_num = (pipedata os k).1;
                }))
              p (store_at (pipedata os k).0 (pipedata os k).1 counted _ here inside)),
        rw table (
            store-pos (pipedata os k).0 (pipedata os k).1 counted (omega (arith, room, p))
            ∙ ap (λ q. q + 1) p),
      )
