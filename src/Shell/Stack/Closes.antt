-- ===== src/Shell/Stack/Closes.antt =====
-- Which descriptors a command makes the shell close.
use network_programming_demo.Prelude.{
  ℕ, zero, suc, ◌+◌, ◌≤◌, List, [], ◌∷◌, Option, none, some, false, ◌==◌, length, ◌≡◌, refl, sym,
  subst, ◌≢◌, ◌∙◌, arith, All, Bool-cases, Option-cases, inl, inr, length-append,
}
use network_programming_demo.Prelude.Int.{ℤ, pos, negsuc}
use network_programming_demo.Text.Bytes.{Bytes, codes, equal}
use network_programming_demo.Text.Tokens.{tokens}
use network_programming_demo.Shell.Scan.{Scanned, head_or_0}
use network_programming_demo.Shell.Stack.{
  Shell, Pipe, Os, Action, spawn, closed, closing, recycled, clean_pipes, get_pipe, numbered_pipe,
  ordinary_pipe, setenv_action, op, arg, read_end, into, file, input_error, execute_single,
  execute_piped, execute_cmd,
}
use network_programming_demo.Shell.Stack.Schedule.{
  due, due_or_new, get_pipe-due, numbered_pipe-due, ordinary_pipe-due,
}

-- The action does not close `r`.
abbrev pub Avoids : ℕ → Action → Type 0
Avoids r (closed fd) = fd ≢ r
Avoids r _ = Unit

-- No pipe that waits has `r` for its write end.
abbrev pub IsApart : ℕ → Shell → Type 0
IsApart r sh = (k : ℕ) (p : Pipe) → due sh k ≡ some p → p.write ≢ r

closing-Avoids :
    (r : ℕ) (x : Option Pipe) → ((p : Pipe) → x ≡ some p → p.write ≢ r) → All (Avoids r) (closing x)
closing-Avoids r none h = tt
closing-Avoids r (some p) h = (h p refl, tt)

-- Ten pipes or less are left alone.
pub clean_pipes-few : (ps : List Pipe) → length ps ≤ 10 → clean_pipes ps ≡ ([], ps)
unfolding clean_pipes
clean_pipes-few [] h = refl
clean_pipes-few (p ∷ ps) h = ground arith

recycled-length : (x : Option Pipe) (ps : List Pipe) → length (recycled x ps) ≤ suc (length ps)
recycled-length none ps = omega arith
recycled-length (some p) ps = omega (arith, length-append ps (p ∷ []))

get_pipe-recycle : (sh : Shell) → length (get_pipe sh).2.recycle ≤ suc (length sh.recycle)
unfolding get_pipe
get_pipe-recycle sh = go sh.pipe_stack refl
  where
    go :
        (ps : List (Option Pipe))
        → sh.pipe_stack ≡ ps
        → length (get_pipe sh).2.recycle ≤ suc (length sh.recycle)
    go [] e = ground arith
    go (p ∷ ps) e = ground (arith, recycled-length p sh.recycle)

numbered_pipe-recycle :
    (os : Os) (n : ℕ) (sh : Shell) → (numbered_pipe os (suc n) sh).1.recycle ≡ sh.recycle
unfolding numbered_pipe
numbered_pipe-recycle os n sh = ground arith

ordinary_pipe-recycle : (os : Os) (sh : Shell) → (ordinary_pipe os sh).1.recycle ≡ sh.recycle
unfolding ordinary_pipe
ordinary_pipe-recycle os sh = ground arith

setenv_action-Avoids : (r : ℕ) (ts : List Bytes) → Avoids r (setenv_action ts)
unfolding setenv_action
setenv_action-Avoids r [] = tt
setenv_action-Avoids r (v ∷ []) = tt
setenv_action-Avoids r (v ∷ w ∷ ts) = tt

-- What one command may do.
pub record IsSafe (r : ℕ) (sh : Shell) (x : List Action × Action × Shell) : Type 0 where
  pub closes : All (Avoids r) x.0
  pub action : Avoids r x.1
  pub apart : IsApart r x.2
  pub few : length x.2.recycle ≤ suc (length sh.recycle)

module _ (os : Os) (r : ℕ) (new : (j : ℕ) → (os j).write ≢ r) where
  due_or_new-apart : (sh : Shell) (k : ℕ) → IsApart r sh → (due_or_new os sh k).write ≢ r
  due_or_new-apart sh k h = elim (Option-cases (due sh k)) [
    | inl e ↦ rw (due_or_new, e) (new sh.made)
    | inr (p, e) ↦ rw (due_or_new, e) (h k p e)
  ]

  get_pipe-IsApart : (sh : Shell) → IsApart r sh → IsApart r (get_pipe sh).2
  get_pipe-IsApart sh h =
      let (_, moved, _, _) = get_pipe-due sh in λ k p e. h (k + 1) p (sym (moved k) ∙ e)

  get_pipe-closes : (sh : Shell) → IsApart r sh → All (Avoids r) (get_pipe sh).0
  get_pipe-closes sh h =
      let (_, _, _, same) = get_pipe-due sh in rw same (closing-Avoids r (due sh 0) (h 0))

  numbered_pipe-IsApart :
      (n : ℕ) (sh : Shell) → IsApart r sh → IsApart r (numbered_pipe os (suc n) sh).1
  numbered_pipe-IsApart n sh h k p e =
      let (_, at) = numbered_pipe-due os n sh in
      elim (Bool-cases (k == n)) [
        | inl z ↦
            let same : p ≡ due_or_new os sh n = ground (arith, at k, e, z) in
            rw same (due_or_new-apart sh n h)
        | inr z ↦ h k p (ground (arith, at k, e, z))
      ]

  ordinary_pipe-IsApart : (sh : Shell) → IsApart r sh → IsApart r (ordinary_pipe os sh).1
  ordinary_pipe-IsApart sh h k p e =
      let (_, _, at) = ordinary_pipe-due os sh in
      elim (Option-cases (due sh 0)) [
        | inl z ↦ added k (sym (at k ∙ rw z refl) ∙ e)
        | inr (q, z) ↦ h k p (sym (at k ∙ rw z refl) ∙ e)
      ]
    where
      added :
          (k : ℕ) → elim k [ zero ↦ some (os sh.made) | suc j ↦ due sh j ] ≡ some p → p.write ≢ r
      added zero e = let same : p ≡ os sh.made = ground (arith, e) in rw same (new sh.made)
      added (suc j) e = h j p e

  still : (a : Action) (sh : Shell) → Avoids r a → IsApart r sh → IsSafe r sh ([], a, sh)
  still a sh c h = record { closes = tt; action = c; apart = h; few = omega arith }

  taken :
      (a : Action) (sh : Shell)
      → Avoids r a
      → IsApart r sh
      → IsSafe r sh ((get_pipe sh).0, a, (get_pipe sh).2)
  taken a sh c h = record {
    closes = get_pipe-closes sh h;
    action = c;
    apart = get_pipe-IsApart sh h;
    few = get_pipe-recycle sh;
  }

  -- A command that goes on with what `getPipe` leaves.
  then_ :
      (sh sh2 : Shell) (a : Action)
      → Avoids r a
      → IsApart r sh
      → IsApart r sh2
      → sh2.recycle ≡ (get_pipe sh).2.recycle
      → IsSafe r sh ((get_pipe sh).0, a, sh2)
  then_ sh sh2 a c h k e = record {
    closes = get_pipe-closes sh h;
    action = c;
    apart = k;
    few = rw e (get_pipe-recycle sh);
  }

  landed :
      (sh : Shell) (x y : List Action × Action × Shell)
      → some y ≡ some x
      → IsSafe r sh y
      → IsSafe r sh x
  landed sh x y e h = let same : y ≡ x = cc (e) in subst (IsSafe r sh) same h

  execute_single-IsSafe :
      (s : Scanned) (sh : Shell) → IsApart r sh → IsSafe r sh (execute_single s sh)
  unfolding execute_single
  execute_single-IsSafe s sh h = elim (Bool-cases (equal (op s.instruction) (codes "setenv"))) [
    | inl a ↦
        rw (execute_single, a)
          (still (setenv_action (tokens b' ' (arg s.instruction))) sh
            (setenv_action-Avoids r (tokens b' ' (arg s.instruction))) h)
    | inr a ↦ elim (Bool-cases (equal (op s.instruction) (codes "printenv"))) [
      | inl b ↦ rw (execute_single, a, b) (still _ sh tt h)
      | inr b ↦ elim (Bool-cases (equal (op s.instruction) (codes "exit"))) [
        | inl c ↦ rw (execute_single, a, b, c) (still _ sh tt h)
        | inr c ↦ rw (execute_single, a, b, c) (taken _ sh tt h)
      ]
    ]
  ]

  execute_piped-IsSafe :
      (s : Scanned) (sh : Shell) (x : List Action × Action × Shell)
      → IsApart r sh
      → execute_piped os s sh ≡ some x
      → IsSafe r sh x
  unfolding execute_piped
  execute_piped-IsSafe s sh x h e = go s.num_pipe refl
    where
      go : (z : ℤ) → s.num_pipe ≡ z → IsSafe r sh x
      go (negsuc n) z = absurd (ground (arith, e, z))
      go (pos (suc n)) z =
          let sh1 = (get_pipe sh).2 in
          let (p, sh2) = numbered_pipe os (suc n) sh1 in
          landed sh x
            (
              (get_pipe sh).0,
              spawn (read_end (get_pipe sh).1) (into p.write) (head_or_0 s.symbol_meth == b'!')
                  s.instruction,
              sh2,
            )
            (rw (execute_piped, z) at e)
            (then_ sh sh2 _ tt h (numbered_pipe-IsApart n sh1 (get_pipe-IsApart sh h))
              (numbered_pipe-recycle os n sh1))
      go (pos zero) z =
          let sh1 = (get_pipe sh).2 in
          let (p, sh2) = ordinary_pipe os sh1 in
          let i = read_end (get_pipe sh).1 in
          elim (Bool-cases (head_or_0 s.symbol_meth == b'|')) [
            | inl a ↦
                landed sh x ((get_pipe sh).0, spawn i (into p.write) false s.instruction, sh2)
                  (rw (execute_piped, z, a) at e)
                  (then_ sh sh2 _ tt h (ordinary_pipe-IsApart sh1 (get_pipe-IsApart sh h))
                    (ordinary_pipe-recycle os sh1))
            | inr a ↦ elim (Bool-cases (head_or_0 s.symbol_meth == b'>')) [
              | inl b ↦
                  landed sh x ((get_pipe sh).0, spawn i (file s.buf) false s.instruction, sh1)
                    (rw (execute_piped, z, a, b) at e) (taken _ sh tt h)
              | inr b ↦
                  landed sh x ((get_pipe sh).0, input_error, sh1) (rw (execute_piped, z, a, b) at e)
                    (taken _ sh tt h)
            ]
          ]

  pub execute_cmd-IsSafe :
      (s : Scanned) (sh : Shell) (x : List Action × Action × Shell)
      → IsApart r sh
      → execute_cmd os s sh ≡ some x
      → IsSafe r sh x
  unfolding execute_cmd
  execute_cmd-IsSafe s sh x h e = elim (Bool-cases (s.n == 1)) [
    | inl a ↦
        landed sh x (execute_single s sh) (rw (execute_cmd, a) at e) (execute_single-IsSafe s sh h)
    | inr a ↦ elim (Bool-cases (s.n == 3)) [
      | inl b ↦ execute_piped-IsSafe s sh x h (rw (execute_cmd, a, b) at e)
      | inr b ↦
          landed sh x ([], input_error, sh) (rw (execute_cmd, a, b) at e)
            (still input_error sh tt h)
    ]
  ]
