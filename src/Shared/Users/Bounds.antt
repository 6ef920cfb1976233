-- ===== src/Shared/Users/Bounds.antt =====
-- Which operands make a command write over an array or read outside one.
use network_programming_demo.Prelude.{
  ℕ, suc, ◌<◌, List, ◌∷◌, none, some, false, length, get_elem?, ◌≡◌, ◌≢◌, ◌↔◌, ◌⊎◌, arith,
  Bool-cases, Option-cases, inl, inr, ◌==◌,
}
use network_programming_demo.Prelude.Int.{pos}
use network_programming_demo.Text.Bytes.{Bytes}
use network_programming_demo.Text.Decimal.{atoi}
use network_programming_demo.Text.Tokens.{join}
use network_programming_demo.Shared.State.{Client, Shm}
use network_programming_demo.Shared.Users.{
  yelled, told, execute_yell, execute_tell, tell_to, execute_name, is_taken,
}

module _ (me : ℕ) (shm : Shm) (c : Client) (at : get_elem? shm me ≡ some c) where
  -- `yell` writes over its array exactly when the message, with the caller's name, is longer than 1024
  -- bytes.
  pub execute_yell_overflow :
      (op w : Bytes) (ws : List Bytes)
      → (execute_yell me (op ∷ w ∷ ws) shm ≡ none)
        ↔ (1024 < length (yelled c.nickname (join b' ' (w ∷ ws))))
  unfolding execute_yell
  execute_yell_overflow op w ws = ground (arith, at)

  -- `nickname` writes over its array exactly when nobody has the name and it is longer than 20 bytes.
  pub execute_name_overflow :
      (op name : Bytes) (ws : List Bytes)
      → (execute_name me (op ∷ name ∷ ws) shm ≡ none)
        ↔ ((is_taken name shm ≡ false) × (20 < length name))
  unfolding execute_name
  execute_name_overflow op name ws = elim (Bool-cases (is_taken name shm)) [
    | inl t ↦ ground (arith, at)
    | inr t ↦ ground (arith, at)
  ]

  tell_none :
      (r : ℕ) (text : Bytes)
      → tell_to me (pos (suc r)) text shm ≡ none
      → (get_elem? shm r ≡ none)
        ⊎ ((d : Client) × (get_elem? shm r ≡ some d)
            × (d.id ≢ 0)
            × (1024 < length (told c.nickname text)))
  unfolding tell_to
  tell_none r text e = elim (Option-cases (get_elem? shm r)) [
    | inl q ↦ inl q
    | inr (d, q) ↦ elim (Bool-cases (d.id == 0)) [
      | inl z ↦ absurd (ground (arith, q, e))
      | inr z ↦ inr (d, q, ground (arith), ground (arith, q, e, at))
    ]
  ]

  -- `tell` with a positive number goes wrong exactly when there is no such place, or a user is there and
  -- the message is longer than 1024 bytes.
  pub execute_tell_overflow :
      (op number w : Bytes) (ws : List Bytes) (r : ℕ)
      → atoi number ≡ pos (suc r)
      → (execute_tell me (op ∷ number ∷ w ∷ ws) shm ≡ none) ↔ (
          (get_elem? shm r ≡ none)
          ⊎ ((d : Client) × (get_elem? shm r ≡ some d)
              × (d.id ≢ 0)
              × (1024 < length (told c.nickname (join b' ' (w ∷ ws))))))
  unfolding execute_tell tell_to
  execute_tell_overflow op number w ws r e = (
    (λ f. tell_none r (join b' ' (w ∷ ws)) (rw (execute_tell, e) at f)),
    λ g. elim g [ inl q ↦ ground (arith, e, q) | inr (d, q, v, l) ↦ ground (arith, e, q, at) ],
  )
