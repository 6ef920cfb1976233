-- ===== src/Shell/Stack/Open.antt =====
-- Which descriptors the shell closes while `cleanPipes` has nothing to do.
use network_programming_demo.Prelude.{
  ℕ, suc, ◌+◌, ◌≤◌, List, [], ◌∷◌, ◌++◌, Option, none, some, length, ◌≡◌, sym, ◌≢◌, ap, arith, All,
  All-append, Option-cases, inl, inr, ◌⊎◌,
}
use network_programming_demo.Shell.Scan.{Scanned}
use network_programming_demo.Shell.Stack.{
  Shell, Os, Action, leave, set_variable, print_variable, spawn, closed, clean_pipes, input_error,
  execute_cmd, execute_all,
}
use network_programming_demo.Shell.Stack.Closes.{
  Avoids, IsApart, IsSafe, clean_pipes-few, execute_cmd-IsSafe,
}

went_on :
    (y : Option (List Action × Shell)) (front : List Action → List Action) (actions : List Action)
    (sh : Shell)
    → ◌≡◌ {A = Option (List Action × Shell)}
        (elim y [ none ↦ none | some (more, sh') ↦ some (front more, sh') ])
        (some (actions, sh))
    → (more : List Action) × (y ≡ some (more, sh)) × (actions ≡ front more)
went_on none front actions sh e = absurd (ground arith)
went_on (some (more, sh')) front actions sh e =
    let same : (front more, sh') ≡ (actions, sh) = cc (e) in
    (
      more,
      ap (λ (x : List Action × Shell). some (more, x.1)) same,
      sym (ap (λ (x : List Action × Shell). x.0) same),
    )

-- What a line does is what its first command does, and, unless that ends the shell, what `cleanPipes` and
-- the rest of the line do.
Continues : Os → List Scanned → List Action → Action → Shell → List Action → Shell → Type 0
Continues os ss closes a sh1 actions sh' =
    (actions ≡ closes ++ (a ∷ []))
    ⊎ ((more : List Action) × (execute_all os ss
            (record sh1 { recycle = (clean_pipes sh1.recycle).1 })
          ≡ some (more, sh'))
        × (actions ≡ closes ++ (a ∷ ((clean_pipes sh1.recycle).0 ++ more))))

execute_all-Continues :
    (os : Os) (s : Scanned) (ss : List Scanned) (sh sh1 sh' : Shell) (closes actions : List Action)
    (a : Action)
    → execute_cmd os s sh ≡ some (closes, a, sh1)
    → execute_all os (s ∷ ss) sh ≡ some (actions, sh')
    → Continues os ss closes a sh1 actions sh'
unfolding execute_all Continues
execute_all-Continues os s ss sh sh1 sh' closes actions leave f e =
    let g = rw (execute_all, f) at e in inl cc
execute_all-Continues os s ss sh sh1 sh' closes actions (set_variable v w) f e =
    inr (went_on _ _ actions sh' (rw (execute_all, f) at e))
execute_all-Continues os s ss sh sh1 sh' closes actions (print_variable v) f e =
    inr (went_on _ _ actions sh' (rw (execute_all, f) at e))
execute_all-Continues os s ss sh sh1 sh' closes actions (spawn i o q t) f e =
    inr (went_on _ _ actions sh' (rw (execute_all, f) at e))
execute_all-Continues os s ss sh sh1 sh' closes actions input_error f e =
    inr (went_on _ _ actions sh' (rw (execute_all, f) at e))
execute_all-Continues os s ss sh sh1 sh' closes actions (closed fd) f e =
    inr (went_on _ _ actions sh' (rw (execute_all, f) at e))

module _ (os : Os) (r : ℕ) (new : (j : ℕ) → (os j).write ≢ r) where
  continue-Avoids :
      (ss : List Scanned) (sh : Shell) (x : List Action × Action × Shell) (actions : List Action)
      (sh' : Shell)
      → IsSafe r sh x
      → length sh.recycle + suc (length ss) ≤ 10
      → ((sh1 : Shell) (more : List Action)
          → IsApart r sh1
          → length sh1.recycle + length ss ≤ 10
          → execute_all os ss sh1 ≡ some (more, sh')
          → All (Avoids r) more)
      → Continues os ss x.0 x.1 x.2 actions sh'
      → All (Avoids r) actions
  unfolding Continues
  continue-Avoids ss sh (closes, a, sh1) actions sh' v l next (inl e) =
      rw e (All-append (Avoids r) closes (a ∷ []) v.closes (v.action, tt))
  continue-Avoids ss sh (closes, a, sh1) actions sh' v l next (inr (more, k, e)) =
      let few : length sh1.recycle ≤ 10 = omega (arith, v.few, l) in
      let clean = clean_pipes-few sh1.recycle few in
      let left : execute_all os ss sh1 ≡ some (more, sh') = rw clean at k in
      let rest = next sh1 more v.apart (omega (arith, v.few, l)) left in
      rw (e, clean) (All-append (Avoids r) closes (a ∷ more) v.closes (v.action, rest))

  -- As long as no more than ten pipes have been read, with one counted for each of the commands, these
  -- make the shell close no descriptor `r` that is not the write end of a pipe that waits or is made,
  -- whatever the commands are.
  pub execute_all-Avoids :
      (ss : List Scanned) (sh sh' : Shell) (actions : List Action)
      → IsApart r sh
      → length sh.recycle + length ss ≤ 10
      → execute_all os ss sh ≡ some (actions, sh')
      → All (Avoids r) actions
  unfolding execute_all
  execute_all-Avoids [] sh sh' actions h l e = let none_done : actions ≡ [] = cc in rw none_done tt
  execute_all-Avoids (s ∷ ss) sh sh' actions h l e = elim (Option-cases (execute_cmd os s sh)) [
    | inl f ↦ let g = rw (execute_all, f) at e in absurd (ground arith)
    | inr (x, f) ↦
        continue-Avoids ss sh x actions sh' (execute_cmd-IsSafe os r new s sh x h f) l
          (λ sh1 more a k g. execute_all-Avoids ss sh1 sh' more a k g)
          (execute_all-Continues os s ss sh x.2 sh' x.0 actions x.1 f e)
  ]
