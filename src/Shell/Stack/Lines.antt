-- ===== src/Shell/Stack/Lines.antt =====
-- Where the output of a command goes: to the command that a numbered pipe names, and along the pipes
-- of one line.
use network_programming_demo.Prelude.{
  ℕ, suc, ◌+◌, List, [], ◌∷◌, ◌++◌, Option, none, some, Bool, false, ◌==◌, length, ◌≡◌, refl, arith,
  ap, ◌∙◌, All,
}
use network_programming_demo.Prelude.Int.{pos}
use network_programming_demo.Text.Bytes.{Bytes}
use network_programming_demo.Shell.Scan.{Scanned, head_or_0}
use network_programming_demo.Shell.Stack.{
  Shell, Pipe, Os, Sink, into, Action, spawn, closed, closing, read_end, clean_pipes, execute_cmd,
  execute_all,
}
use network_programming_demo.Shell.Stack.Schedule.{
  due, due_or_new, IsLast, execute_cmd-numbered, execute_cmd-ordinary, execute_cmd-IsLast,
}

-- A command that is a line of its own: it ends with `|n` or `!n`, or it is the last one.
pub data IsLine (s : Scanned) : Type 0 where
  numbered : (n : ℕ) → s.n ≡ 3 → s.num_pipe ≡ pos (suc n) → IsLine s
  plain : (sink : Sink) → IsLast s sink → IsLine s

-- The state that the next command starts in.
abbrev cleaned : Shell → Shell
cleaned sh = record sh { recycle = (clean_pipes sh.recycle).1 }

execute_all-spawn :
    (os : Os) (s : Scanned) (ss : List Scanned) (sh sh' sh'' : Shell) (closes : List Action)
    (i : Option ℕ) (o : Sink) (e : Bool) (t : Bytes) (actions : List Action)
    → execute_cmd os s sh ≡ some (closes, spawn i o e t, sh')
    → execute_all os ss (cleaned sh') ≡ some (actions, sh'')
    → execute_all os (s ∷ ss) sh
      ≡ some (closes ++ (spawn i o e t ∷ ((clean_pipes sh'.recycle).0 ++ actions)), sh'')
unfolding execute_all
execute_all-spawn os s ss sh sh' sh'' closes i o e t actions h k = rw (execute_all, h, k)

-- A line moves what is due by one.
line-due :
    (os : Os) (s : Scanned) (sh : Shell) (k : ℕ) (p : Pipe)
    → IsLine s
    → due sh (k + 1) ≡ some p
    → (o : Sink) × (e : Bool) × (sh' : Shell) × (execute_cmd os s sh
        ≡ some (closing (due sh 0), spawn (read_end (due sh 0)) o e s.instruction, sh'))
      × (due sh' k ≡ some p)
line-due os s sh k p (plain sink l) d =
    let (sh', h, moved) = execute_cmd-IsLast os s sh sink l in (sink, false, sh', h, moved k ∙ d)
line-due os s sh k p (numbered n three e) d =
    let (sh', h, moved) = execute_cmd-numbered os s sh n three e in
    (
      into (due_or_new os sh (n + 1)).write,
      head_or_0 s.symbol_meth == b'!',
      sh',
      h,
      moved k ∙ ground (arith, d, (λ (z : k ≡ n). ap (λ x. due sh (x + 1)) z)),
    )

lines-due :
    (os : Os) (ss : List Scanned) (sh : Shell) (p : Pipe)
    → All IsLine ss
    → due sh (length ss) ≡ some p
    → (actions : List Action) × (sh' : Shell) × (execute_all os ss sh ≡ some (actions, sh'))
      × (due sh' 0 ≡ some p)
lines-due os [] sh p l d = ([], sh, unfold execute_all in refl, d)
lines-due os (s ∷ ss) sh p l d =
    let (o, e, sh', h, d') = line-due os s sh (length ss) p l.0 (ap (due sh) (omega arith) ∙ d) in
    let (actions, sh'', k, d'') = lines-due os ss (cleaned sh') p l.1 d' in
    (_, sh'', execute_all-spawn os s ss sh sh' sh'' _ _ o e s.instruction actions h k, d'')

-- A command with `|n` or `!n` gets the number of a pipe's write end for its output. The n-th command after
-- it gets the number of the same pipe's read end for its input, whatever the n - 1 lines between are, as
-- long as each is one command that is no built-in one: numbered pipes, redirections or commands by
-- themselves. That the numbers still stand for the pipe's ends by then is not stated.
pub numbered_pipe_arrives :
    (os : Os) (s last : Scanned) (ss : List Scanned) (sh : Shell) (sink : Sink)
    → s.n ≡ 3
    → s.num_pipe ≡ pos (suc (length ss))
    → All IsLine ss
    → IsLast last sink
    → (p : Pipe) × (sh1 : Shell) × (actions : List Action) × (sh2 : Shell) × (sh3 : Shell)
      × (execute_cmd os s sh
          ≡ some (
            closing (due sh 0),
            spawn
                (read_end (due sh 0))
                (into p.write)
                (head_or_0 s.symbol_meth == b'!')
                s.instruction,
            sh1,
          ))
      × (execute_all os ss sh1 ≡ some (actions, sh2))
      × (execute_cmd os last sh2
          ≡ some (closed p.write ∷ [], spawn (some p.read) sink false last.instruction, sh3))
numbered_pipe_arrives os s last ss sh sink three e l f =
    let n = length ss in
    let p = due_or_new os sh (n + 1) in
    let (sh1, h, moved) = execute_cmd-numbered os s sh n three e in
    let (actions, sh2, k, d) = lines-due os ss sh1 p l (moved n ∙ ground arith) in
    let (sh3, g, _) = execute_cmd-IsLast os last sh2 sink f in
    (p, sh1, actions, sh2, sh3, h, k, g ∙ rw d)

-- The processes among the actions.
abbrev pub spawned : List Action → List Action
spawned [] = []
spawned (spawn i o e t ∷ actions) = spawn i o e t ∷ spawned actions
spawned (_ ∷ actions) = spawned actions

spawned-closing :
    (p : Option Pipe) (actions : List Action) → spawned (closing p ++ actions) ≡ spawned actions
spawned-closing none actions = refl
spawned-closing (some p) actions = refl

spawned-clean_pipes :
    (ps : List Pipe) (actions : List Action)
    → spawned ((clean_pipes ps).0 ++ actions) ≡ spawned actions
unfolding clean_pipes
spawned-clean_pipes [] actions = refl
spawned-clean_pipes (p ∷ ps) actions = ground (arith, spawned-clean_pipes ps actions)

-- The first command of a line among its processes.
execute_all-spawned :
    (os : Os) (s : Scanned) (ss : List Scanned) (sh sh' sh'' : Shell) (d : Option Pipe)
    (i : Option ℕ) (o : Sink) (e : Bool) (t : Bytes) (actions : List Action)
    → execute_cmd os s sh ≡ some (closing d, spawn i o e t, sh')
    → execute_all os ss (cleaned sh') ≡ some (actions, sh'')
    → (all : List Action) × (execute_all os (s ∷ ss) sh ≡ some (all, sh''))
      × (spawned all ≡ spawn i o e t ∷ spawned actions)
execute_all-spawned os s ss sh sh' sh'' d i o e t actions h k = (
  _,
  execute_all-spawn os s ss sh sh' sh'' (closing d) i o e t actions h k,
  spawned-closing d (spawn i o e t ∷ ((clean_pipes sh'.recycle).0 ++ actions))
      ∙ ap (λ a. spawn i o e t ∷ a) (spawned-clean_pipes sh'.recycle actions),
)

-- `|` behind a command.
pub record IsPiped (s : Scanned) : Type 0 where
  pub three : s.n ≡ 3
  pub unnumbered : s.num_pipe ≡ pos 0
  pub bar : head_or_0 s.symbol_meth ≡ b'|'

-- Each command of a line writes a new pipe that the next one reads.
abbrev pub chain : Os → Option ℕ → ℕ → List Scanned → Scanned → Sink → List Action
chain os input k [] last sink = spawn input sink false last.instruction ∷ []
chain os input k (s ∷ ss) last sink =
    spawn input (into (os k).write) false s.instruction
    ∷ chain os (some (os k).read) (k + 1) ss last sink

-- A line of commands with `|` between them, where no pipe is due for the line after it: the first one gets
-- the read end of the pipe that is due for the line, each other one that of a new pipe whose write end the
-- one before it gets, as numbers, and to numbered pipes the whole line counts as one. That the numbers
-- stand for the pipes' ends when the commands start is not stated.
pub pipeline_counts_once :
    (os : Os) (ss : List Scanned) (last : Scanned) (sh : Shell) (sink : Sink)
    → All IsPiped ss
    → IsLast last sink
    → due sh 1 ≡ none
    → (actions : List Action) × (sh' : Shell) × (execute_all os (ss ++ last ∷ []) sh
        ≡ some (actions, sh'))
      × (spawned actions ≡ chain os (read_end (due sh 0)) sh.made ss last sink)
      × ((k : ℕ) → due sh' k ≡ due sh (k + 1))
pipeline_counts_once os [] last sh sink l f z =
    let (sh', h, moved) = execute_cmd-IsLast os last sh sink f in
    let (all, k, same) =
      execute_all-spawned os last [] sh sh' (cleaned sh') (due sh 0) (read_end (due sh 0)) sink
        false last.instruction [] h (unfold execute_all in refl) in
    (all, cleaned sh', k, same, moved)
pipeline_counts_once os (s ∷ ss) last sh sink l f z =
    let (sh1, h, moved, new) = execute_cmd-ordinary os s sh l.0.three l.0.unnumbered l.0.bar in
    let first : due sh1 0 ≡ some (os sh.made) = moved 0 ∙ rw z in
    let later : (j : ℕ) → due sh1 (j + 1) ≡ due sh (j + 1) =
      λ j. moved (j + 1) ∙ ground (arith, z) in
    let (actions, sh2, k, chained, rest) =
      pipeline_counts_once os ss last (cleaned sh1) sink l.1 f (later 0 ∙ z) in
    let (all, k', same) =
      execute_all-spawned os s (ss ++ last ∷ []) sh sh1 sh2 (due sh 0) (read_end (due sh 0))
        (into (os sh.made).write) false s.instruction actions (h ∙ rw (due_or_new, z)) k in
    (
      all,
      sh2,
      k',
      same
          ∙ ap (λ a. spawn (read_end (due sh 0)) (into (os sh.made).write) false s.instruction ∷ a)
              (chained ∙ ground (arith, first, new z)),
      λ j. rest j ∙ later j,
    )

-- The flaw: where a numbered pipe is due for the line after it, a line of two commands takes that pipe for
-- its own. The first command gets the number of its write end, and the second one that of its read end, in
-- place of the line it was meant for, and to numbered pipes the line counts as two.
pub pipeline_takes_due :
    (os : Os) (s last : Scanned) (sh : Shell) (sink : Sink) (p : Pipe)
    → IsPiped s
    → IsLast last sink
    → due sh 1 ≡ some p
    → (actions : List Action) × (sh' : Shell) × (execute_all os (s ∷ last ∷ []) sh
        ≡ some (actions, sh'))
      × (spawned actions
          ≡ spawn (read_end (due sh 0)) (into p.write) false s.instruction
            ∷ spawn (some p.read) sink false last.instruction
            ∷ [])
      × ((k : ℕ) → due sh' k ≡ due sh (k + 2))
pipeline_takes_due os s last sh sink p l f z =
    let (sh1, h, moved, _) = execute_cmd-ordinary os s sh l.three l.unnumbered l.bar in
    let along : (j : ℕ) → due sh1 j ≡ due sh (j + 1) = λ j. moved j ∙ rw z in
    let (sh2, g, on) = execute_cmd-IsLast os last (cleaned sh1) sink f in
    let (later, k, same) =
      execute_all-spawned os last [] (cleaned sh1) sh2 (cleaned sh2) (due sh1 0) (some p.read) sink
        false last.instruction [] (g ∙ rw (along 0 ∙ z)) (unfold execute_all in refl) in
    let (all, k', same') =
      execute_all-spawned os s (last ∷ []) sh sh1 (cleaned sh2) (due sh 0) (read_end (due sh 0))
        (into p.write) false s.instruction later (h ∙ rw (due_or_new, z)) k in
    (
      all,
      cleaned sh2,
      k',
      same' ∙ ap (λ a. spawn (read_end (due sh 0)) (into p.write) false s.instruction ∷ a) same,
      λ j. on j ∙ along (j + 1) ∙ ap (due sh) (omega arith),
    )
