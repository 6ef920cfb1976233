-- ===== src/Chat/Talk/Names.antt =====
-- `name`: who may take a name, and that no two users come to share one.
use network_programming_demo.Prelude.{
  ℕ, zero, suc, ◌<◌, List, [], ◌∷◌, some, Bool, true, false, not, ◌&&◌, length, get_elem?, ◌==◌,
  ◌≡◌, refl, sym, subst, ◌≢◌, ◌⊎◌, arith, ap, ◌∙◌, Bool-cases, Option-cases, inl, inr,
}
use network_programming_demo.Text.Bytes.{Bytes, codes, equal, equal_iff}
use network_programming_demo.Chat.State.{Client, Server, Out, sockets, to_all, update}
use network_programming_demo.Chat.State.Table.{IsTable, update-IsTable, get_elem?-set_cases}
use network_programming_demo.Chat.Talk.{is_taken, last_place, already_exists, named, execute_name}

-- Another user has the name.
pub record Taken (fd : ℕ) (name : Bytes) (n : ℕ) (cs : List Client) : Type 0 where
  pub index : ℕ
  pub client : Client
  pub there : get_elem? cs index ≡ some client
  pub within : index < n
  pub other : client.fd ≢ fd
  pub live : client.fd ≢ 0
  pub same : client.nickname ≡ name

Taken-suc :
    (fd : ℕ) (name : Bytes) (n : ℕ) (c : Client) (cs : List Client)
    → Taken fd name n cs
    → Taken fd name (suc n) (c ∷ cs)
Taken-suc fd name n c cs t = record {
  index = suc t.index;
  client = t.client;
  there = t.there;
  within = omega (arith, t.within);
  other = t.other;
  live = t.live;
  same = t.same;
}

abbrev head_taken : ℕ → Bytes → Client → Bool
head_taken fd name c = not (c.fd == fd) && not (c.fd == 0) && equal name c.nickname

is_taken-Taken :
    (fd : ℕ) (name : Bytes) (n : ℕ) (cs : List Client)
    → is_taken fd name n cs ≡ true
    → Taken fd name n cs
unfolding is_taken
is_taken-Taken fd name zero cs h = cc
is_taken-Taken fd name (suc n) [] h = cc
is_taken-Taken fd name (suc n) (c ∷ cs) h = elim (Bool-cases (head_taken fd name c)) [
  | inl e ↦ record {
    index = 0;
    client = c;
    there = refl;
    within = omega arith;
    other = ground arith;
    live = ground arith;
    same = ground (arith, equal_iff name c.nickname);
  }
  | inr e ↦ Taken-suc fd name n c cs (is_taken-Taken fd name n cs (rw e at h))
]

not-Taken :
    (fd : ℕ) (name : Bytes) (n : ℕ) (cs : List Client)
    → is_taken fd name n cs ≡ false
    → (k : ℕ) (d : Client) → get_elem? cs k ≡ some d
    → k < n
    → d.fd ≢ fd
    → d.fd ≢ 0
    → d.nickname ≢ name
unfolding is_taken
not-Taken fd name zero cs h k d p l o v = absurd (omega arith)
not-Taken fd name (suc n) [] h k d p l o v = cc
not-Taken fd name (suc n) (c ∷ cs) h zero d p l o v = ground (arith, equal_iff name c.nickname)
not-Taken fd name (suc n) (c ∷ cs) h (suc k) d p l o v =
    not-Taken fd name n cs (ground arith) k d p (omega arith) o v

pub last_place-some :
    (fd n : ℕ) (cs : List Client) (i : ℕ)
    → last_place fd n cs ≡ some i
    → (c : Client) × (get_elem? cs i ≡ some c) × (c.fd ≡ fd) × (i < n)
unfolding last_place
last_place-some fd zero cs i h = cc
last_place-some fd (suc n) [] i h = cc
last_place-some fd (suc n) (c ∷ cs) zero h = (c, refl, ground arith, omega arith)
last_place-some fd (suc n) (c ∷ cs) (suc i) h =
    let (d, p, e, l) = last_place-some fd n cs i (ground arith) in (d, p, e, omega (arith, l))

last_place_of :
    (fd n : ℕ) (cs : List Client) (i : ℕ) (c : Client)
    → get_elem? cs i ≡ some c
    → c.fd ≡ fd
    → i < n
    → (j : ℕ) × (last_place fd n cs ≡ some j)
unfolding last_place
last_place_of fd zero cs i c p e l = absurd (omega arith)
last_place_of fd (suc n) [] i c p e l = cc
last_place_of fd (suc n) (x ∷ cs) (suc i) c p e l =
    let (j, q) = last_place_of fd n cs i c p e (omega arith) in (suc j, rw (q, last_place))
last_place_of fd (suc n) (x ∷ cs) zero c p e l = elim (Option-cases (last_place fd n cs)) [
  | inr (j, q) ↦ (suc j, rw (q, last_place))
  | inl q ↦ (0, ground arith)
]

-- Users with one name are still to choose theirs.
pub record HasUniqueNames (m : Server) : Type 0 where
  pub unique :
      (i j : ℕ) (c d : Client)
      → get_elem? m.clients i ≡ some c
      → get_elem? m.clients j ≡ some d
      → c.fd ≢ 0
      → d.fd ≢ 0
      → i ≢ j
      → c.nickname ≡ d.nickname
      → c.nickname ≡ codes "(no name)"

module _ (m : Server) (i fd : ℕ) (c : Client) (t : IsTable m) (at : get_elem? m.clients i ≡ some c)
    (own : c.fd ≡ fd) (live : fd ≢ 0) where
  last_place_self : last_place fd m.size m.clients ≡ some i
  last_place_self =
      let (j, q) =
        last_place_of fd m.size m.clients i c at own (t.live_below i c at (omega arith)) in
      let (d, p, e, _) = last_place-some fd m.size m.clients j q in
      q ∙ ap some (t.distinct j i d c p at (e ∙ sym own) (omega arith))

  -- The outcome of `name` is one of two: another user has the name, and the caller alone is told so
  -- and nothing changes; or no other user has it, every user is told, and the caller's name is all
  -- that changes.
  pub execute_name_cases :
      (ops : List Bytes) (name : Bytes)
      → get_elem? ops 1 ≡ some name
      → length name < 100
      → (Taken fd name m.size m.clients
          × (execute_name fd ops m ≡ some ((fd, already_exists name) ∷ [], m)))
        ⊎ (((k : ℕ) (d : Client)
              → get_elem? m.clients k ≡ some d
              → d.fd ≢ fd
              → d.fd ≢ 0
              → d.nickname ≢ name)
            × (execute_name fd ops m
                ≡ some (
                  to_all (sockets m) (named c.ip c.port name),
                  update m i (record c { nickname = name }),
                )))
  unfolding execute_name
  execute_name_cases ops name o h = elim (Bool-cases (is_taken fd name m.size m.clients)) [
    | inl e ↦ inl (is_taken-Taken fd name m.size m.clients e, ground arith)
    | inr e ↦ inr (
      (λ k d p f g. not-Taken fd name m.size m.clients e k d p (t.live_below k d p g) f g),
      ground (arith, last_place_self),
    )
  ]

  renamed-HasUniqueNames :
      (name : Bytes)
      → ((k : ℕ) (d : Client)
          → get_elem? m.clients k ≡ some d
          → d.fd ≢ fd
          → d.fd ≢ 0
          → d.nickname ≢ name)
      → HasUniqueNames m
      → HasUniqueNames (update m i (record c { nickname = name }))
  renamed-HasUniqueNames name free u = record {
    unique = λ j k d e p q v w n s.
        go j k d e v w n s (get_elem?-set_cases m.clients i j (record c { nickname = name }) d p)
          (get_elem?-set_cases m.clients i k (record c { nickname = name }) e q);
  }
    where
      stranger :
          (k : ℕ) (d : Client)
          → k ≢ i
          → get_elem? m.clients k ≡ some d
          → d.fd ≢ 0
          → d.nickname ≢ name
      stranger k d n p v = free k d p (λ e. n (t.distinct k i d c p at (e ∙ sym own) v)) v

      go :
          (j k : ℕ) (d e : Client)
          → d.fd ≢ 0
          → e.fd ≢ 0
          → j ≢ k
          → d.nickname ≡ e.nickname
          → ((j ≡ i) × (d ≡ record c { nickname = name }))
            ⊎ ((j ≢ i) × (get_elem? m.clients j ≡ some d))
          → ((k ≡ i) × (e ≡ record c { nickname = name }))
            ⊎ ((k ≢ i) × (get_elem? m.clients k ≡ some e))
          → d.nickname ≡ codes "(no name)"
      go j k d e v w n s (inl (a, _)) (inl (b, _)) = absurd (n (a ∙ sym b))
      go j k d e v w n s (inl (_, a)) (inr (b, p)) =
          absurd (stranger k e b p w (sym s ∙ ap (λ (x : Client). x.nickname) a))
      go j k d e v w n s (inr (b, p)) (inl (_, a)) =
          absurd (stranger j d b p v (s ∙ ap (λ (x : Client). x.nickname) a))
      go j k d e v w n s (inr (_, p)) (inr (_, q)) = u.unique j k d e p q v w n s

  -- `name` keeps the table well-formed and the chosen names of users different.
  pub execute_name-HasUniqueNames :
      (ops : List Bytes) (name : Bytes) (out : Out) (m' : Server)
      → get_elem? ops 1 ≡ some name
      → length name < 100
      → HasUniqueNames m
      → execute_name fd ops m ≡ some (out, m')
      → IsTable m' × HasUniqueNames m'
  execute_name-HasUniqueNames ops name out m' o h u r = elim (execute_name_cases ops name o h) [
    | inl (_, e) ↦ let same : m ≡ m' = cc in (subst IsTable same t, subst HasUniqueNames same u)
    | inr (free, e) ↦
        let same : update m i (record c { nickname = name }) ≡ m' = cc in
        (
          subst IsTable same (update-IsTable m i c (record c { nickname = name }) t at (inl refl)),
          subst HasUniqueNames same (renamed-HasUniqueNames name free u),
        )
  ]
