-- ===== src/Chat/Jobs/Laws.antt =====
-- The lines of one user and the numbered pipes of the others.
use network_programming_demo.Prelude.{
  ℕ, zero, suc, List, [], ◌∷◌, Option, none, some, true, ◌==◌, ◌&&◌, if◌then◌else◌, get_elem?,
  get_elem?-set_ne, ◌≡◌, refl, sym, ◌≢◌, arith, Bool-cases, Option-cases, inl, inr,
}
use network_programming_demo.Prelude.Int.{ℤ, pos, succ, ◌==ℤ◌}
use network_programming_demo.Chat.Jobs.{
  PipeInfo, Jobs, Source, find_output, reserve, number_target, count_down, store, reserved,
}

pub count_down-others :
    (n fd : ℕ) (s : Source) (es : List PipeInfo) (q : ℕ) (e : PipeInfo)
    → get_elem? es q ≡ some e
    → e.fd ≢ fd
    → get_elem? (count_down n fd s es).1 q ≡ some e
unfolding count_down
count_down-others zero fd s es q e h o = h
count_down-others (suc n) fd s [] q e h o = cc
count_down-others (suc n) fd s (x ∷ es) zero e h o = ground (arith, h)
count_down-others (suc n) fd s (x ∷ es) (suc q) e h o =
    let rest =
      count_down-others n fd
        (if (x.input_count ==ℤ pos 1) && x.fd == fd
          then record { input = x.input_num; output = x.output_num; enter = true }
          else s)
        es q e h o in
    elim (Bool-cases (x.fd == fd)) [ inl g ↦ ground (arith, rest) | inr g ↦ ground (arith, rest) ]

reserve-others :
    (fd : ℕ) (n : ℤ) (t : Jobs) (q : ℕ)
    → q ≢ t.pos
    → (get_elem? (reserve fd n t).client_pipe q ≡ get_elem? t.client_pipe q)
      × ((reserve fd n t).pos ≡ t.pos)
unfolding reserve
reserve-others fd n t q o = elim (Option-cases (get_elem? t.client_pipe t.pos)) [
  | inl e ↦ rw (reserve, e) (refl, refl)
  | inr (x, e) ↦
      rw (reserve, e)
        (
          get_elem?-set_ne t.client_pipe t.pos q (record x { input_count = n; fd = fd })
              (λ z. o (sym z)),
          refl,
        )
]

number_target-others :
    (fd : ℕ) (n : ℤ) (t : Jobs) (q : ℕ)
    → q ≢ t.pos
    → (get_elem? (number_target fd n t).1.client_pipe q ≡ get_elem? t.client_pipe q)
      × ((number_target fd n t).1.pos ≡ t.pos)
unfolding number_target
number_target-others fd n t q o = elim (Option-cases (find_output 2047 fd (succ n) t.client_pipe)) [
  | inl e ↦ rw (number_target, e) (reserve-others fd (succ n) t q o)
  | inr (x, e) ↦ rw (number_target, e) (refl, refl)
]

pub store-others :
    (i o : ℕ) (t : Jobs) (q : ℕ)
    → q ≢ t.pos
    → get_elem? (store i o t).client_pipe q ≡ get_elem? t.client_pipe q
unfolding store
store-others i o t q n = elim (Option-cases (get_elem? t.client_pipe t.pos)) [
  | inl e ↦ rw (store, e) refl
  | inr (x, e) ↦
      rw (store, e)
        (get_elem?-set_ne t.client_pipe t.pos q (record x { input_num = i; output_num = o })
          (λ z. n (sym z)))
]

pub reserved-others :
    (fd : ℕ) (number : Option ℤ) (t : Jobs) (q : ℕ)
    → q ≢ t.pos
    → (get_elem? (reserved fd number t).1.client_pipe q ≡ get_elem? t.client_pipe q)
      × ((reserved fd number t).1.pos ≡ t.pos)
reserved-others fd none t q n = (refl, refl)
reserved-others fd (some c) t q n = number_target-others fd c t q n
