-- ===== src/Chat/State/Table.antt =====
-- The invariant of the table of users, and the writes that keep it.
use network_programming_demo.Prelude.{
  ℕ, zero, suc, ◌≤◌, ◌<◌, List, [], ◌∷◌, some, false, length, get_elem?, set, ◌≡◌, refl, sym, ◌≢◌,
  ◌⊎◌, arith, ap, ◌∙◌, Bool-cases, inl, inr, length-set, ==_iff,
}
use network_programming_demo.Chat.State.{Client, Server, has_fd, client_index, update, max_user_num}
use network_programming_demo.Chat.State.Search.{first_where_of}

-- The arrays have their size, users sit below `size`, and no socket is in two places.
pub record IsTable (m : Server) : Type 0 where
  pub sized : length m.clients ≡ max_user_num
  pub bounded : m.size ≤ max_user_num
  pub live_below : (i : ℕ) (c : Client) → get_elem? m.clients i ≡ some c → c.fd ≢ 0 → i < m.size
  pub distinct :
      (i j : ℕ) (c d : Client)
      → get_elem? m.clients i ≡ some c
      → get_elem? m.clients j ≡ some d
      → c.fd ≡ d.fd
      → c.fd ≢ 0
      → i ≡ j

-- No user has the socket.
abbrev pub Absent : ℕ → Server → Type 0
Absent fd m = (k : ℕ) (d : Client) → get_elem? m.clients k ≡ some d → d.fd ≢ fd

pub get_elem?-set_cases {ℓ} :
    {A : Type ℓ} (xs : List A) (i j : ℕ) (v c : A)
    → get_elem? (set xs i v) j ≡ some c
    → ((j ≡ i) × (c ≡ v)) ⊎ ((j ≢ i) × (get_elem? xs j ≡ some c))
get_elem?-set_cases [] i j v c h = cc
get_elem?-set_cases (x ∷ xs) zero zero v c h = inl (refl, ground arith)
get_elem?-set_cases (x ∷ xs) zero (suc j) v c h = inr (omega arith, h)
get_elem?-set_cases (x ∷ xs) (suc i) zero v c h = inr (omega arith, h)
get_elem?-set_cases (x ∷ xs) (suc i) (suc j) v c h = elim (get_elem?-set_cases xs i j v c h) [
  | inl (e, f) ↦ inl (ap suc e, f)
  | inr (e, f) ↦ inr (omega arith, f)
]

-- The search for a user's socket finds the user.
pub client_index_of :
    (m : Server) (i fd : ℕ) (c : Client)
    → IsTable m
    → get_elem? m.clients i ≡ some c
    → c.fd ≡ fd
    → fd ≢ 0
    → client_index fd m ≡ some i
unfolding client_index
client_index_of m i fd c t e f n =
    first_where_of (has_fd fd) m.size m.clients i c e (ground arith)
      (t.live_below i c e (omega arith)) λ k d l p. miss k d l p
  where
    miss : (k : ℕ) (d : Client) → k < i → get_elem? m.clients k ≡ some d → has_fd fd d ≡ false
    miss k d l p = elim (Bool-cases (has_fd fd d)) [
      | inr e' ↦ e'
      | inl e' ↦
          let g : d.fd ≡ c.fd = (==_iff d.fd fd).0 e' ∙ sym f in
          absurd (omega (arith, t.distinct k i d c p e g (omega arith)))
    ]

-- A user keeps the socket, or the place is freed.
pub update-IsTable :
    (m : Server) (i : ℕ) (c c' : Client)
    → IsTable m
    → get_elem? m.clients i ≡ some c
    → (c'.fd ≡ c.fd) ⊎ (c'.fd ≡ 0)
    → IsTable (update m i c')
update-IsTable m i c c' t e k = record {
  sized = length-set m.clients i c' ∙ t.sized;
  bounded = t.bounded;
  live_below = λ j d p n. below j d n (get_elem?-set_cases m.clients i j c' d p);
  distinct = λ j j' d d' p p' f n.
      same j j' d d' f n (get_elem?-set_cases m.clients i j c' d p)
        (get_elem?-set_cases m.clients i j' c' d' p');
}
  where
    kept : (d : Client) → d ≡ c' → d.fd ≢ 0 → d.fd ≡ c.fd
    kept d g n = elim k [
      | inl h ↦ ap (λ (x : Client). x.fd) g ∙ h
      | inr h ↦ absurd (n (ap (λ (x : Client). x.fd) g ∙ h))
    ]

    below :
        (j : ℕ) (d : Client)
        → d.fd ≢ 0
        → ((j ≡ i) × (d ≡ c')) ⊎ ((j ≢ i) × (get_elem? m.clients j ≡ some d))
        → j < m.size
    below j d n (inl (g, h)) =
        let q = t.live_below i c e in let f = kept d h n in omega (arith, q (omega arith))
    below j d n (inr (g, p)) = t.live_below j d p n

    same :
        (j j' : ℕ) (d d' : Client)
        → d.fd ≡ d'.fd
        → d.fd ≢ 0
        → ((j ≡ i) × (d ≡ c')) ⊎ ((j ≢ i) × (get_elem? m.clients j ≡ some d))
        → ((j' ≡ i) × (d' ≡ c')) ⊎ ((j' ≢ i) × (get_elem? m.clients j' ≡ some d'))
        → j ≡ j'
    same j j' d d' f n (inl (g, _)) (inl (g', _)) = g ∙ sym g'
    same j j' d d' f n (inl (g, h)) (inr (_, p')) =
        g ∙ t.distinct i j' c d' e p' (sym (kept d h n) ∙ f) (omega (arith, kept d h n))
    same j j' d d' f n (inr (_, p)) (inl (g', h')) =
        t.distinct j i d c p e (f ∙ kept d' h' (omega arith)) n ∙ sym g'
    same j j' d d' f n (inr (_, p)) (inr (_, p')) = t.distinct j j' d d' p p' f n
