-- ===== src/Chat/Exec/Isolation.antt =====
-- The lines of one user and the numbered pipes of the others.
use network_programming_demo.Prelude.{
  ℕ, List, [], ◌∷◌, Option, some, >>=-eq-some, Bool, true, false, ◌==◌, get_elem?, ◌≡◌, refl, sym,
  subst, ◌∙◌, ◌≢◌, arith, Bool-cases, Option-cases, inl, inr,
}
use network_programming_demo.Text.Bytes.{Bytes, codes}
use network_programming_demo.Simple.Line.{Line}
use network_programming_demo.Simple.Exec.{Os, pipedata, last_get_input}
use network_programming_demo.Chat.Env.{do_printenv}
use network_programming_demo.Chat.UserPipe.{Gate, refused, passed, gates}
use network_programming_demo.Chat.Jobs.{PipeInfo, Jobs, reserved}
use network_programming_demo.Chat.Jobs.Laws.{count_down-others, store-others, reserved-others}
use network_programming_demo.Chat.Command.{builtin, run_builtin, read_line}
use network_programming_demo.Chat.Exec.{
  World, Job, Effect, Result, take_source, finish, stage, stages, keep_and_drop, run_one,
  run_commands, job, after_gate, run_line, serve,
}

-- The table has the entry, and its `pos` is not there.
pub record Holds (q : ℕ) (e : PipeInfo) (t : Jobs) : Type 0 where
  pub there : get_elem? t.client_pipe q ≡ some e
  pub apart : q ≢ t.pos

take_source-Holds :
    (first : Bool) (fd input q : ℕ) (e : PipeInfo) (t : Jobs)
    → e.fd ≢ fd
    → Holds q e t
    → Holds q e (take_source first fd input t).1
take_source-Holds true fd input q e t o h = record {
  there = count_down-others 1000 fd _ t.client_pipe q e h.there o;
  apart = h.apart;
}
take_source-Holds false fd input q e t o h = h

finish-Holds :
    (get_input q : ℕ) (ends : ℕ × ℕ) (e : PipeInfo) (t : Jobs)
    → Holds q e t
    → get_elem? (finish true get_input ends t).1.client_pipe q ≡ some e
unfolding finish
finish-Holds g q ends e t h = elim (Bool-cases (g == 0)) [
  | inl f ↦ rw (finish, f) h.there
  | inr f ↦ elim (Bool-cases (g == 4)) [
    | inl k ↦ rw (finish, f, k) (store-others ends.0 ends.1 t q h.apart ∙ h.there)
    | inr k ↦ rw (finish, f, k) h.there
  ]
]

-- The table after a stage.
stage-jobs :
    (os : Os) (j : Job) (first last : Bool) (input : ℕ) (cmd : Bytes) (v : World)
    (r : List Effect × ℕ × World)
    → stage os j first last input cmd v ≡ some r
    → r.2.jobs
      ≡ (finish last
          (last_get_input last j.get_input)
          (pipedata os v.made)
          (take_source first j.fd input v.jobs).1).1
unfolding stage
stage-jobs os j first last input cmd v r e =
    let (path, p, f) = >>=-eq-some (do_printenv j.fd (codes "PATH") v.server) _ e in
    let (m, q, g) = >>=-eq-some (keep_and_drop j.fd (os.pipe_end v.made).0 cmd v.server) _ f in
    ground (arith, g)

finish_between : (get_input : ℕ) (ends : ℕ × ℕ) (t : Jobs) → (finish false get_input ends t).1 ≡ t
unfolding finish
finish_between g ends t = refl

-- The entry after a part of a line.
abbrev Keeps : ℕ → PipeInfo → World → Type 0
Keeps q e w = get_elem? w.jobs.client_pipe q ≡ some e

by_pair :
    (q : ℕ) (e : PipeInfo) {a b : List Effect × World}
    → some a ≡ some b
    → Keeps q e a.1
    → Keeps q e b.1
by_pair q e {a = a} {b = b} f h = subst (Keeps q e) {x = a.1} {y = b.1} (cc) h

by_result : (q : ℕ) (e : PipeInfo) {a b : Result} → some a ≡ some b → Keeps q e a.2 → Keeps q e b.2
by_result q e {a = a} {b = b} f h = subst (Keeps q e) {x = a.2} {y = b.2} (cc) h

stages-others :
    (os : Os) (j : Job) (q : ℕ) (e : PipeInfo) (o : e.fd ≢ j.fd) (cmds : List Bytes) (first : Bool)
    (input : ℕ) (cmd : Bytes) (v : World) (r : List Effect × World)
    → Holds q e v.jobs
    → stages os j first input cmd cmds v ≡ some r
    → get_elem? r.1.jobs.client_pipe q ≡ some e
unfolding stages
stages-others os j q e o [] first input cmd v r h k =
    let ((es, n, v'), f, g) = >>=-eq-some (stage os j first true input cmd v) _ k in
    let table = stage-jobs os j first true input cmd v (es, n, v') f in
    let last =
      finish-Holds (last_get_input true j.get_input) q (pipedata os v.made) e _
        (take_source-Holds first j.fd input q e v.jobs o h) in
    by_pair q e g (rw table last)
stages-others os j q e o (next ∷ cmds) first input cmd v r h k =
    let ((es, input', v'), f, g) = >>=-eq-some (stage os j first false input cmd v) _ k in
    let ((more, w), f', g') = >>=-eq-some (stages os j false input' next cmds v') _ g in
    let table =
      stage-jobs os j first false input cmd v (es, input', v') f
      ∙ finish_between (last_get_input false j.get_input) (pipedata os v.made)
          (take_source first j.fd input v.jobs).1 in
    let here : Holds q e v'.jobs =
      subst (Holds q e) (sym table) (take_source-Holds first j.fd input q e v.jobs o h) in
    by_pair q e g' (stages-others os j q e o cmds false input' next v' (more, w) here f')

run_one-others :
    (os : Os) (j : Job) (q : ℕ) (e : PipeInfo) (input : ℕ) (cmd : Bytes) (v : World) (r : Result)
    → e.fd ≢ j.fd
    → Holds q e v.jobs
    → run_one os j input cmd v ≡ some r
    → Keeps q e r.2
unfolding run_one
run_one-others os j q e input cmd v r o h k = elim (Option-cases (builtin cmd)) [
  | inl b ↦
      let (x, f, g) = >>=-eq-some (stages os j true input cmd [] v) _ (rw (run_one, b) at k) in
      by_result q e g (stages-others os j q e o [] true input cmd v x h f)
  | inr (c, b) ↦
      let (x, f, g) = >>=-eq-some (run_builtin j.fd c cmd v.server) _ (rw (run_one, b) at k) in
      by_result q e g h.there
]

run_commands-others :
    (os : Os) (j : Job) (q : ℕ) (e : PipeInfo) (input : ℕ) (cmds : List Bytes) (v : World)
    (r : Result)
    → e.fd ≢ j.fd
    → Holds q e v.jobs
    → run_commands os j input cmds v ≡ some r
    → Keeps q e r.2
unfolding run_commands
run_commands-others os j q e input [] v r o h k = by_result q e k h.there
run_commands-others os j q e input (cmd ∷ []) v r o h k =
    run_one-others os j q e input cmd v r o h k
run_commands-others os j q e input (cmd ∷ next ∷ cmds) v r o h k =
    let (x, f, g) = >>=-eq-some (stages os j true input cmd (next ∷ cmds) v) _ k in
    by_result q e g (stages-others os j q e o (next ∷ cmds) true input cmd v x h f)

gated-others :
    (os : Os) (fd q : ℕ) (e : PipeInfo) (line : Line) (gate : Gate) (v : World) (r : Result)
    (target : Option ℕ) (t : Jobs)
    → e.fd ≢ fd
    → Holds q e t
    → after_gate os fd line gate v target t ≡ some r
    → Keeps q e r.2
unfolding after_gate
gated-others os fd q e line (refused out m) v r target t o held g = by_result q e g held.there
gated-others os fd q e line (passed out m fd_in) v r target t o held g =
    let w = record v { server = m; jobs = t } in
    let (x, f, g') = >>=-eq-some (run_commands os (job fd line target) fd_in line.commands w) _ g in
    by_result q e g'
      (run_commands-others os (job fd line target) q e fd_in line.commands w x o held f)

run_line-others :
    (os : Os) (fd q : ℕ) (e : PipeInfo) (cmd : Bytes) (line : Line) (v : World) (r : Result)
    → e.fd ≢ fd
    → Holds q e v.jobs
    → run_line os fd cmd line v ≡ some r
    → Keeps q e r.2
unfolding run_line
run_line-others os fd q e cmd line v r o h k =
    let (same, apart) = reserved-others fd line.pipe_number v.jobs q h.apart in
    let (target, t) = reserved fd line.pipe_number v.jobs in
    let held : Holds q e t = record { there = same ∙ h.there; apart = λ z. h.apart (z ∙ apart) } in
    let (gate, f, g) = >>=-eq-some (gates fd cmd v.server) _ k in
    gated-others os fd q e line gate v r target t o held g

-- A line of one user leaves every numbered pipe of another user as it is: its count, its ends and its
-- owner; the one entry at `pos`, which is the next to be used, is excepted.
pub serve-others :
    (os : Os) (fd q : ℕ) (e : PipeInfo) (cmd : Bytes) (v : World) (r : Result)
    → get_elem? v.jobs.client_pipe q ≡ some e
    → e.fd ≢ fd
    → q ≢ v.jobs.pos
    → serve os fd cmd v ≡ some r
    → get_elem? r.2.jobs.client_pipe q ≡ some e
unfolding serve
serve-others os fd q e cmd v r h o n k = elim (Option-cases (read_line cmd)) [
  | inl f ↦ by_result q e (rw (serve, f) at k) h
  | inr (line, f) ↦
      let ((ended, es, w), g, g') =
        >>=-eq-some (run_line os fd cmd line v) _ (rw (serve, f) at k) in
      let kept =
        run_line-others os fd q e cmd line v (ended, es, w) o (record { there = h; apart = n }) g in
      elim (Bool-cases ended) [
        | inl b ↦ by_result q e (rw b at g') kept
        | inr b ↦ by_result q e (rw b at g') kept
      ]
]
