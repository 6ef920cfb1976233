-- ===== src/Shell/Stack/Schedule.antt =====
-- The stack of pipes as a schedule: which pipe is due how many commands from now.
use network_programming_demo.Prelude.{
  ℕ, zero, suc, ◌+◌, ◌-◌, ◌≤◌, ◌<◌, List, [], ◌∷◌, ◌++◌, Option, none, some, false, ◌==◌,
  if◌then◌else◌, length, set, replicate, ◌≡◌, refl, inl, inr, arith, ap, ◌∙◌, Option-cases,
}
use network_programming_demo.Prelude.Int.{pos}
use network_programming_demo.Text.Bytes.{codes, equal}
use network_programming_demo.Shell.Scan.{Scanned, head_or_0}
use network_programming_demo.Shell.Stack.{
  Shell, Pipe, Os, Sink, closing, read_end, terminal, into, file, spawn, get_pipe, pad, pipe_at,
  numbered_pipe, ordinary_pipe, op, execute_single, execute_piped, execute_cmd,
}

-- The pipe that the command `k` commands from now reads.
abbrev pub due : Shell → ℕ → Option Pipe
due sh k = pipe_at sh.pipe_stack k

pub get_pipe-due :
    (sh : Shell)
    → ((get_pipe sh).1 ≡ due sh 0)
      × ((k : ℕ) → due (get_pipe sh).2 k ≡ due sh (k + 1))
      × ((get_pipe sh).2.made ≡ sh.made)
      × ((get_pipe sh).0 ≡ closing (due sh 0))
unfolding get_pipe
get_pipe-due sh = go sh.pipe_stack refl
  where
    go :
        (ps : List (Option Pipe))
        → sh.pipe_stack ≡ ps
        → ((get_pipe sh).1 ≡ due sh 0)
          × ((k : ℕ) → due (get_pipe sh).2 k ≡ due sh (k + 1))
          × ((get_pipe sh).2.made ≡ sh.made)
          × ((get_pipe sh).0 ≡ closing (due sh 0))
    go [] e = ground arith
    go (p ∷ ps) e = ground arith

pipe_at-none : (n k : ℕ) → pipe_at (replicate n none) k ≡ none
pipe_at-none zero k = refl
pipe_at-none (suc n) zero = refl
pipe_at-none (suc n) (suc k) = pipe_at-none n k

pipe_at-append :
    (ps : List (Option Pipe)) (n k : ℕ) → pipe_at (ps ++ replicate n none) k ≡ pipe_at ps k
pipe_at-append [] n k = pipe_at-none n k
pipe_at-append (p ∷ ps) n zero = refl
pipe_at-append (p ∷ ps) n (suc k) = pipe_at-append ps n k

pub pipe_at-pad : (n : ℕ) (ps : List (Option Pipe)) (k : ℕ) → pipe_at (pad n ps) k ≡ pipe_at ps k
pipe_at-pad n ps k = pipe_at-append ps (n - length ps) k

length-replicate {ℓ} : {A : Type ℓ} (n : ℕ) (a : A) → length (replicate n a) ≡ n
length-replicate zero a = refl
length-replicate (suc n) a = ap suc (length-replicate n a)

length-append_none :
    (ps : List (Option Pipe)) (n : ℕ) → length (ps ++ replicate n none) ≡ length ps + n
length-append_none [] n = omega (arith, length-replicate {A = Option Pipe} n none)
length-append_none (p ∷ ps) n = omega (arith, length-append_none ps n)

length-pad : (n : ℕ) (ps : List (Option Pipe)) → n ≤ length (pad n ps)
length-pad n ps = omega (arith, length-append_none ps (n - length ps))

pipe_at-set :
    (ps : List (Option Pipe)) (i : ℕ) (p : Option Pipe) (k : ℕ)
    → i < length ps
    → pipe_at (set ps i p) k ≡ (if k == i then p else pipe_at ps k)
pipe_at-set [] i p k h = absurd (omega arith)
pipe_at-set (q ∷ ps) zero p zero h = refl
pipe_at-set (q ∷ ps) zero p (suc k) h = ground arith
pipe_at-set (q ∷ ps) (suc i) p zero h = ground arith
pipe_at-set (q ∷ ps) (suc i) p (suc k) h = ground (arith, pipe_at-set ps i p k (omega arith))

-- The pipe that is due at a place, or a new one.
abbrev pub due_or_new : Os → Shell → ℕ → Pipe
due_or_new os sh k = elim (due sh k) [ none ↦ os sh.made | some p ↦ p ]

pub numbered_pipe-due :
    (os : Os) (n : ℕ) (sh : Shell)
    → ((numbered_pipe os (suc n) sh).0 ≡ due_or_new os sh n)
      × ((k : ℕ)
          → due (numbered_pipe os (suc n) sh).1 k
            ≡ (if k == n then some (due_or_new os sh n) else due sh k))
unfolding numbered_pipe
numbered_pipe-due os n sh = elim (Option-cases (due sh n)) [
  | inl e ↦ (
    ground (arith, pipe_at-pad (suc n) sh.pipe_stack n),
    λ k. ground (
      arith,
      pipe_at-pad (suc n) sh.pipe_stack n,
      pipe_at-pad (suc n) sh.pipe_stack k,
      pipe_at-set (pad (suc n) sh.pipe_stack) n (some (os sh.made)) k
          (omega (arith, length-pad (suc n) sh.pipe_stack)),
    ),
  )
  | inr (p, e) ↦ (
    ground (arith, pipe_at-pad (suc n) sh.pipe_stack n),
    λ k. ground (
      arith,
      pipe_at-pad (suc n) sh.pipe_stack n,
      pipe_at-pad (suc n) sh.pipe_stack k,
      (λ (z : k ≡ n). ap (pipe_at sh.pipe_stack) z),
    ),
  )
]

pub ordinary_pipe-due :
    (os : Os) (sh : Shell)
    → ((ordinary_pipe os sh).0 ≡ due_or_new os sh 0)
      × (due sh 0 ≡ none → (ordinary_pipe os sh).1.made ≡ sh.made + 1)
      × ((k : ℕ)
          → due (ordinary_pipe os sh).1 k ≡ elim (due sh 0) [
            | none ↦ elim k [ zero ↦ some (os sh.made) | suc j ↦ due sh j ]
            | some p ↦ due sh k
          ])
unfolding ordinary_pipe
ordinary_pipe-due os sh = elim (Option-cases (due sh 0)) [
  | inl e ↦ (ground arith, (λ _. ground arith), λ k. go e k)
  | inr (p, e) ↦ (ground arith, (λ z. cc), λ k. ground arith)
]
  where
    go :
        due sh 0 ≡ none
        → (k : ℕ)
        → due (ordinary_pipe os sh).1 k ≡ elim (due sh 0) [
          | none ↦ elim k [ zero ↦ some (os sh.made) | suc j ↦ due sh j ]
          | some p ↦ due sh k
        ]
    go e zero = ground arith
    go e (suc j) = ground arith

-- `|n` and `!n`: the command reads the pipe that is due and writes the one that is due n commands
-- later, which is made where there is none; everything else moves up by one.
pub execute_cmd-numbered :
    (os : Os) (s : Scanned) (sh : Shell) (n : ℕ)
    → s.n ≡ 3
    → s.num_pipe ≡ pos (suc n)
    → (sh' : Shell) × (execute_cmd os s sh
        ≡ some (
          closing (due sh 0),
          spawn
              (read_end (due sh 0))
              (into (due_or_new os sh (n + 1)).write)
              (head_or_0 s.symbol_meth == b'!')
              s.instruction,
          sh',
        ))
      × ((k : ℕ) → due sh' k ≡ (if k == n then some (due_or_new os sh (n + 1)) else due sh (k + 1)))
unfolding execute_cmd execute_piped
execute_cmd-numbered os s sh n three e =
    let (top, moved, same, closes) = get_pipe-due sh in
    let (p, at) = numbered_pipe-due os n (get_pipe sh).2 in
    (
      (numbered_pipe os (suc n) (get_pipe sh).2).1,
      rw (three, e) (ground (arith, top, p, moved n, same, closes)),
      λ k. at k ∙ ground (arith, moved n, moved k, same),
    )

-- `|`: the command reads the pipe that is due and writes a new one, which is due next while all else
-- stays where it is. But where a numbered pipe is due for the line after this one, the command
-- writes that pipe, and all moves up by one.
pub execute_cmd-ordinary :
    (os : Os) (s : Scanned) (sh : Shell)
    → s.n ≡ 3
    → s.num_pipe ≡ pos 0
    → head_or_0 s.symbol_meth ≡ b'|'
    → (sh' : Shell) × (execute_cmd os s sh
        ≡ some (
          closing (due sh 0),
          spawn (read_end (due sh 0)) (into (due_or_new os sh 1).write) false s.instruction,
          sh',
        ))
      × ((k : ℕ)
          → due sh' k ≡ elim (due sh 1) [
            | none ↦ elim k [ zero ↦ some (os sh.made) | suc j ↦ due sh (suc j) ]
            | some p ↦ due sh (k + 1)
          ])
      × (due sh 1 ≡ none → sh'.made ≡ sh.made + 1)
unfolding execute_cmd execute_piped
execute_cmd-ordinary os s sh three e bar =
    let (top, moved, same, closes) = get_pipe-due sh in
    let (p, new, at) = ordinary_pipe-due os (get_pipe sh).2 in
    (
      (ordinary_pipe os (get_pipe sh).2).1,
      rw (three, e, bar) (ground (arith, top, p, moved 0, same, closes)),
      (λ k. at k ∙ go k),
      λ z. new (moved 0 ∙ z) ∙ ap (λ n. n + 1) same,
    )
  where
    go :
        (k : ℕ)
        → (elim (due (get_pipe sh).2 0) [
          | none ↦ elim k [ zero ↦ some (os (get_pipe sh).2.made) | suc j ↦ due (get_pipe sh).2 j ]
          | some p ↦ due (get_pipe sh).2 k
        ])
          ≡ elim (due sh 1) [
            | none ↦ elim k [ zero ↦ some (os sh.made) | suc j ↦ due sh (suc j) ]
            | some p ↦ due sh (k + 1)
          ]
    go zero = let (_, moved, same, _) = get_pipe-due sh in ground (arith, moved 0, same)
    go (suc j) =
        let (_, moved, same, _) = get_pipe-due sh in ground (arith, moved 0, moved j, moved (suc j))

-- A command that is no built-in one: it stands alone, or has its output in a file.
pub data IsLast (s : Scanned) : Sink → Type 0 where
  alone :
      s.n ≡ 1
      → equal (op s.instruction) (codes "setenv") ≡ false
      → equal (op s.instruction) (codes "printenv") ≡ false
      → equal (op s.instruction) (codes "exit") ≡ false
      → IsLast s terminal
  redirected : s.n ≡ 3 → s.num_pipe ≡ pos 0 → head_or_0 s.symbol_meth ≡ b'>' → IsLast s (file s.buf)

-- The last command of a line reads the pipe that is due, and everything moves up by one.
pub execute_cmd-IsLast :
    (os : Os) (s : Scanned) (sh : Shell) (sink : Sink)
    → IsLast s sink
    → (sh' : Shell) × (execute_cmd os s sh
        ≡ some (closing (due sh 0), spawn (read_end (due sh 0)) sink false s.instruction, sh'))
      × ((k : ℕ) → due sh' k ≡ due sh (k + 1))
unfolding execute_cmd execute_piped execute_single
execute_cmd-IsLast os s sh sink (alone one a b c) =
    let (top, moved, _, closes) = get_pipe-due sh in
    ((get_pipe sh).2, rw (one, a, b, c) (ground (arith, top, closes)), moved)
execute_cmd-IsLast os s sh sink (redirected three e f) =
    let (top, moved, _, closes) = get_pipe-due sh in
    ((get_pipe sh).2, rw (three, e, f) (ground (arith, top, closes)), moved)
