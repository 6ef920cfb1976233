-- ===== src/Chat/Talk/Delivery.antt =====
-- Who gets what from `yell` and `tell`.
use network_programming_demo.Prelude.{
  ℕ, zero, suc, ◌+◌, ◌≤◌, ◌<◌, List, [], ◌∷◌, none, some, if◌then◌else◌, length, get_elem?, ◌==◌,
  ◌≡◌, refl, Option-cases, inl, inr, ◌≢◌, arith, ◌∙◌,
}
use network_programming_demo.Prelude.Int.{ℤ, pos, negsuc}
use network_programming_demo.Text.Bytes.{Bytes}
use network_programming_demo.Text.Decimal.{atoi, to_string}
use network_programming_demo.Text.Tokens.{join}
use network_programming_demo.Chat.State.{Client, Server, Out, sockets, to_all}
use network_programming_demo.Chat.State.Table.{Absent, IsTable, client_index_of}
use network_programming_demo.Chat.State.Search.{get_elem?_ge}
use network_programming_demo.Chat.State.Inbox.{
  inbox, inbox-to_all, count-sockets, count-sockets_absent,
}
use network_programming_demo.Chat.Talk.{execute_yell, execute_tell, yelled, told, no_user, index}

index-eq-some : (n : ℤ) (r : ℕ) → index n ≡ some r → n ≡ pos (suc r)
unfolding index
index-eq-some (pos (suc k)) r h = ground arith
index-eq-some (pos zero) r h = cc
index-eq-some (negsuc k) r h = cc

outside :
    (m : Server) (fd : ℕ) (op number : Bytes) (words : List Bytes) (r : ℕ)
    → index (atoi number) ≡ some r
    → get_elem? m.clients r ≡ none
    → execute_tell fd (op ∷ number ∷ words) m ≡ none
unfolding execute_tell
outside m fd op number words r e g = ground arith

module _ (m : Server) (i : ℕ) (c : Client) (t : IsTable m) (here : get_elem? m.clients i ≡ some c)
    (live : c.fd ≢ 0) where
  -- `yell` reaches every user, the caller too, exactly once and with the same text, and nobody else.
  pub execute_yell-inbox :
      (op word : Bytes) (words : List Bytes) (j : ℕ) (d : Client) (stranger : ℕ)
      → get_elem? m.clients j ≡ some d
      → d.fd ≢ 0
      → Absent stranger m
      → let text = yelled c.nickname (join b' ' (word ∷ words)) in
        length (join b' ' (word ∷ words)) < 1023
        → (out : Out) × (execute_yell c.fd (op ∷ word ∷ words) m ≡ some out)
          × (inbox d.fd out ≡ text ∷ [])
          × (inbox stranger out ≡ [])
  unfolding execute_yell
  execute_yell-inbox op word words j d stranger p v k h =
      let text = yelled c.nickname (join b' ' (word ∷ words)) in
      (
        to_all (sockets m) text,
        ground (arith, client_index_of m i c.fd c t here refl live),
        inbox-to_all d.fd (sockets m) text ∙ rw (count-sockets m j d t p v),
        inbox-to_all stranger (sockets m) text ∙ rw (count-sockets_absent m stranger k),
      )

  -- `tell n` reaches the user in place n - 1 alone, with the words joined by single blanks; where the
  -- place is free the caller alone learns that there is no such user.
  pub execute_tell_cases :
      (op number word : Bytes) (words : List Bytes) (r : ℕ) (d : Client)
      → atoi number ≡ pos (suc r)
      → get_elem? m.clients r ≡ some d
      → length (join b' ' (word ∷ words)) < 512
      → execute_tell c.fd (op ∷ number ∷ word ∷ words) m
        ≡ some (
            (if d.fd == 0
              then (c.fd, no_user (to_string (r + 1)))
              else (d.fd, told c.nickname (join b' ' (word ∷ words))))
            ∷ [])
  unfolding execute_tell
  execute_tell_cases op number word words r d e p h =
      ground (arith, client_index_of m i c.fd c t here refl live)

  -- A number that is not positive, or over 60, makes `tell` read outside the table of sockets.
  pub execute_tell_outside :
      (op number : Bytes) (words : List Bytes)
      → ((r : ℕ) → atoi number ≡ pos (suc r) → 60 ≤ r)
      → execute_tell c.fd (op ∷ number ∷ words) m ≡ none
  execute_tell_outside op number words h = elim (Option-cases (index (atoi number))) [
    | inl e ↦ unfold execute_tell in rw (e, execute_tell)
    | inr (r, e) ↦
        let far : 60 ≤ r = h r (index-eq-some (atoi number) r e) in
        let gone : get_elem? m.clients r ≡ none =
          get_elem?_ge m.clients r (omega (arith, t.sized)) in
        outside m c.fd op number words r e gone
  ]
