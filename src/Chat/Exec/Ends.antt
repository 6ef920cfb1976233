-- ===== src/Chat/Exec/Ends.antt =====
-- Which lines end a session.
use network_programming_demo.Prelude.{
  ℕ, List, [], ◌∷◌, Option, some, >>=-eq-some, Bool, true, false, ◌≡◌, refl, sym, ◌∙◌, ap, ◌↔◌,
  arith, Bool-cases, Option-cases, inl, inr, get_elem?, if◌then◌else◌,
}
use network_programming_demo.Text.Bytes.{Bytes, codes}
use network_programming_demo.Text.Find.{contains}
use network_programming_demo.Simple.Line.{Line, split_space}
use network_programming_demo.Simple.Exec.{Os}
use network_programming_demo.Chat.State.{Server, Out}
use network_programming_demo.Chat.UserPipe.{Gate, refused, passed, gates}
use network_programming_demo.Chat.Talk.{execute_who, execute_tell, execute_yell, execute_name}
use network_programming_demo.Chat.Jobs.{Jobs, reserved}
use network_programming_demo.Chat.Env.{do_printenv, load_env}
use network_programming_demo.Chat.Command.{
  Builtin, printenv, setenv, exit, who, tell, yell, name, builtin, run_builtin, read_line,
  assignment,
}
use network_programming_demo.Chat.Exec.{
  World, Effect, Result, wrote, Job, job, stages, run_one, run_commands, after_gate, run_line,
  serve,
}

-- The letters of a built-in command that ends the session.
abbrev pub IsExit : Bytes → Type 0
IsExit c =
    (contains (codes "exit") c ≡ true)
    × (contains (codes "printenv") c ≡ false)
    × (contains (codes "setenv") c ≡ false)

builtin-IsExit : (c : Bytes) → builtin c ≡ some exit → IsExit c
unfolding builtin
builtin-IsExit c e = elim (Bool-cases (contains (codes "printenv") c)) [
  | inl p ↦ absurd (ground arith)
  | inr p ↦ elim (Bool-cases (contains (codes "setenv") c)) [
    | inl s ↦ absurd (ground arith)
    | inr s ↦ elim (Bool-cases (contains (codes "exit") c)) [
      | inl x ↦ (x, p, s)
      | inr x ↦ absurd (ground arith)
    ]
  ]
]

run_builtin-ends :
    (fd : ℕ) (b : Builtin) (c : Bytes) (m m' : Server) (ended : Bool) (out : Out)
    → run_builtin fd b c m ≡ some (ended, out, m')
    → ended ≡ true
    → (b ≡ exit) × (out ≡ []) × (m' ≡ m)
unfolding run_builtin split_space
run_builtin-ends fd exit c m m' ended out e t = (refl, cc, cc)
run_builtin-ends fd printenv c m m' ended out e t =
    let (key, _, f) = >>=-eq-some (get_elem? (split_space c) 1) _ e in
    let (val, _, g) = >>=-eq-some (do_printenv fd key m) _ f in absurd (ground arith)
run_builtin-ends fd setenv c m m' ended out e t =
    let (text, _, f) = >>=-eq-some (assignment (split_space c)) _ e in
    let (m2, _, g) = >>=-eq-some (load_env fd text m) _ f in absurd (ground arith)
run_builtin-ends fd who c m m' ended out e t =
    let (o, _, f) = >>=-eq-some (execute_who fd m) _ e in absurd (ground arith)
run_builtin-ends fd tell c m m' ended out e t =
    let (o, _, f) = >>=-eq-some (execute_tell fd (split_space c) m) _ e in absurd (ground arith)
run_builtin-ends fd yell c m m' ended out e t =
    let (o, _, f) = >>=-eq-some (execute_yell fd (split_space c) m) _ e in absurd (ground arith)
run_builtin-ends fd name c m m' ended out e t =
    let (o, _, f) = >>=-eq-some (execute_name fd (split_space c) m) _ e in absurd (ground arith)

same_result : (a b : Result) → some a ≡ some b → (b.0 ≡ a.0) × (b.1 ≡ a.1) × (b.2 ≡ a.2)
same_result a b e = (cc, cc, cc)

run_one-ends :
    (os : Os) (j : Job) (input : ℕ) (c : Bytes) (v v' : World) (es : List Effect)
    → run_one os j input c v ≡ some (true, es, v')
    → IsExit c × (es ≡ wrote [] ∷ []) × (v' ≡ v)
unfolding run_one
run_one-ends os j input c v v' es e = elim (Option-cases (builtin c)) [
  | inl b ↦
      let (x, _, f) = >>=-eq-some (stages os j true input c [] v) _ (rw (run_one, b) at e) in
      absurd (ground arith)
  | inr (b, k) ↦
      let ((ended, out, m), f, g) =
        >>=-eq-some (run_builtin j.fd b c v.server) _ (rw (run_one, k) at e) in
      let t : ended ≡ true = ground arith in
      let (is, quiet, same) = run_builtin-ends j.fd b c v.server m ended out f t in
      let (_, effects, world) =
        same_result (ended, wrote out ∷ [], record v { server = m }) (true, es, v') g in
      (
        builtin-IsExit c (k ∙ ap some is),
        effects ∙ ap (λ o. wrote o ∷ []) quiet,
        world ∙ ap (λ (m : Server). record v { server = m }) same,
      )
]

run_commands-ends :
    (os : Os) (j : Job) (input : ℕ) (cmds : List Bytes) (v v' : World) (es : List Effect)
    → run_commands os j input cmds v ≡ some (true, es, v')
    → (c : Bytes) × (cmds ≡ c ∷ []) × IsExit c × (es ≡ wrote [] ∷ []) × (v' ≡ v)
unfolding run_commands
run_commands-ends os j input [] v v' es e = absurd (ground arith)
run_commands-ends os j input (c ∷ []) v v' es e =
    let (is, quiet, same) = run_one-ends os j input c v v' es e in (c, refl, is, quiet, same)
run_commands-ends os j input (c ∷ next ∷ cmds) v v' es e =
    let (x, _, f) = >>=-eq-some (stages os j true input c (next ∷ cmds) v) _ e in
    absurd (ground arith)

after_gate-ends :
    (os : Os) (fd : ℕ) (line : Line) (g : Gate) (v v' : World) (target : Option ℕ) (t : Jobs)
    (es : List Effect)
    → after_gate os fd line g v target t ≡ some (true, es, v')
    → (c : Bytes) × (out : Out) × (m : Server) × (fd_in : ℕ) × (g ≡ passed out m fd_in)
      × (line.commands ≡ c ∷ [])
      × IsExit c
      × (es ≡ wrote out ∷ wrote [] ∷ [])
      × (v' ≡ record v { server = m; jobs = t })
unfolding after_gate
after_gate-ends os fd line (refused out m) v v' target t es e = absurd (ground arith)
after_gate-ends os fd line (passed out m fd_in) v v' target t es e =
    let w : World = record v { server = m; jobs = t } in
    let ((ended, more, v2), f, g) =
      >>=-eq-some (run_commands os (job fd line target) fd_in line.commands w) _ e in
    let (true_too, effects, world) = same_result (ended, wrote out ∷ more, v2) (true, es, v') g in
    let (c, one, is, quiet, same) =
      run_commands-ends os (job fd line target) fd_in line.commands w v2 more
        (f ∙ ap (λ (b : Bool). some (b, more, v2)) (sym true_too)) in
    (c, out, m, fd_in, refl, one, is, effects ∙ ap (λ es. wrote out ∷ es) quiet, world ∙ same)

-- How a session ends: by a line of one command that holds the letters of `exit`, and is let through.
abbrev pub EndsBy : ℕ → Bytes → World → List Effect → World → Line → Type 0
EndsBy fd cmd v es v' line =
    (c : Bytes) × (out : Out) × (m : Server) × (fd_in : ℕ) × (gates fd cmd v.server
      ≡ some (passed out m fd_in))
    × (line.commands ≡ c ∷ [])
    × IsExit c
    × (es ≡ wrote out ∷ wrote [] ∷ [])
    × (v' ≡ record v { server = m; jobs = (reserved fd line.pipe_number v.jobs).1 })

run_line-EndsBy :
    (os : Os) (fd : ℕ) (cmd : Bytes) (line : Line) (v v' : World) (es : List Effect)
    → run_line os fd cmd line v ≡ some (true, es, v')
    → EndsBy fd cmd v es v' line
unfolding run_line
run_line-EndsBy os fd cmd line v v' es e =
    let (gate, f, g) = >>=-eq-some (gates fd cmd v.server) _ e in
    let (c, out, m, fd_in, through, one, is, effects, world) =
      after_gate-ends os fd line gate v v' (reserved fd line.pipe_number v.jobs).0
        (reserved fd line.pipe_number v.jobs).1 es g in
    (c, out, m, fd_in, f ∙ ap some through, one, is, effects, world)

exits : (c : Bytes) → IsExit c → builtin c ≡ some exit
unfolding builtin
exits c h = ground (arith, h.0, h.1, h.2)

run_line-exit :
    (os : Os) (fd : ℕ) (cmd : Bytes) (line : Line) (v v' : World) (es : List Effect)
    → EndsBy fd cmd v es v' line
    → run_line os fd cmd line v ≡ some (true, es, v')
unfolding run_line after_gate run_commands run_one run_builtin
run_line-exit os fd cmd line v v' es (c, out, m, fd_in, through, one, is, effects, world) =
    rw (run_line, through, after_gate, one, run_commands, run_one, exits c is, effects, world) refl

prompted :
    (ended : Bool) (es' more : List Effect) (w : World) (r : Result)
    → r.0 ≡ true
    → ◌≡◌ {A = Option Result} (some (if ended then (true, es', w) else (false, more, w))) (some r)
    → ◌≡◌ {A = Option Result} (some (ended, es', w)) (some r)
prompted true es' more w r t e = e
prompted false es' more w r t e =
    let (f, _, _) = same_result (false, more, w) r e in absurd (ground arith)

-- A line ends the session exactly when it has one command, which holds the letters "exit" anywhere and
-- neither "printenv" nor "setenv", and the checks on "<" and ">" let it through. Nothing is written then
-- but what these checks write, and besides what they do only the table of numbered pipes is changed.
pub serve-ends :
    (os : Os) (fd : ℕ) (cmd : Bytes) (v v' : World) (es : List Effect)
    → (serve os fd cmd v ≡ some (true, es, v'))
      ↔ ((line : Line) × (read_line cmd ≡ some line) × EndsBy fd cmd v es v' line)
unfolding serve
serve-ends os fd cmd v v' es = (to, from)
  where
    to :
        serve os fd cmd v ≡ some (true, es, v')
        → (line : Line) × (read_line cmd ≡ some line) × EndsBy fd cmd v es v' line
    to e = elim (Option-cases (read_line cmd)) [
      | inl r ↦ let f = rw (serve, r) at e in absurd (ground arith)
      | inr (line, r) ↦
          let ((ended, es', w), f, g) =
            >>=-eq-some (run_line os fd cmd line v) _ (rw (serve, r) at e) in
          (
            line,
            r,
            run_line-EndsBy os fd cmd line v v' es
                (f ∙ prompted ended es' _ w (true, es, v') refl g),
          )
    ]

    from :
        (line : Line) × (read_line cmd ≡ some line) × EndsBy fd cmd v es v' line
        → serve os fd cmd v ≡ some (true, es, v')
    from (line, r, h) = rw (serve, r, run_line-exit os fd cmd line v v' es h) refl
