-- ===== src/Chat/Login/Laws.antt =====
-- A user comes: the table keeps its invariants, and who is told.
use network_programming_demo.Prelude.{
  ℕ, suc, ◌≤◌, ◌<◌, some, get_elem?, set, ◌≡◌, sym, ◌≢◌, ◌⊎◌, arith, ap, ◌∙◌, inl, inr, length-set,
  get_elem?-set_ne,
}
use network_programming_demo.Text.Bytes.{Bytes, codes}
use network_programming_demo.Chat.State.{Client, Server, has_fd, max_user_num}
use network_programming_demo.Chat.State.Search.{BreaksAt, first_where-BreaksAt, lt_of_get_elem?}
use network_programming_demo.Chat.State.Table.{Absent, IsTable, get_elem?-set_cases}
use network_programming_demo.Chat.State.Pipes.{IsUser, HasLivePipes}
use network_programming_demo.Chat.Talk.Names.{HasUniqueNames}
use network_programming_demo.Chat.Login.{free_index, seat}

pub free_index-BreaksAt :
    (m : Server) (i : ℕ) → free_index m ≡ some i → BreaksAt (has_fd 0) (suc m.size) m.clients i
unfolding free_index
free_index-BreaksAt m i h = first_where-BreaksAt (has_fd 0) (suc m.size) m.clients i h

module _ (m : Server) (fd : ℕ) (ip : Bytes) (port i : ℕ) (old : Client) where
  abbrev pub newcomer : Client
  newcomer = record { fd = fd; nickname = codes "(no name)"; env = old.env; ip = ip; port = port }

  abbrev Cell : ℕ → Client → Type 0
  Cell j d = ((j ≡ i) × (d ≡ newcomer)) ⊎ ((j ≢ i) × (get_elem? m.clients j ≡ some d))

  cell : (j : ℕ) (d : Client) → get_elem? (set m.clients i newcomer) j ≡ some d → Cell j d
  cell j d p = get_elem?-set_cases m.clients i j newcomer d p

  seat_bounds :
      i ≤ m.size
      → (m.size ≤ (seat fd ip port i old m).size)
        × (i < (seat fd ip port i old m).size)
        × ((i < max_user_num
            → m.size ≤ max_user_num
            → (seat fd ip port i old m).size ≤ max_user_num))
  unfolding seat
  seat_bounds h = ground arith

  pub seat-IsTable :
      IsTable m
      → free_index m ≡ some i
      → get_elem? m.clients i ≡ some old
      → Absent fd m
      → IsTable (seat fd ip port i old m)
  unfolding seat
  seat-IsTable t f p a =
      let b = free_index-BreaksAt m i f in
      let z = seat_bounds (omega (arith, b.within)) in
      record {
        sized = length-set m.clients i newcomer ∙ t.sized;
        bounded =
            unfold seat in
            z.2 (omega (arith, lt_of_get_elem? m.clients i old p, t.sized)) t.bounded;
        live_below = λ j d q n. below z j d n (cell j d q);
        distinct = λ j k d e q r s n. same j k d e s n (cell j d q) (cell k e r);
      }
    where
      below :
          (m.size ≤ (seat fd ip port i old m).size)
            × (i < (seat fd ip port i old m).size)
            × ((i < max_user_num
                → m.size ≤ max_user_num
                → (seat fd ip port i old m).size ≤ max_user_num))
          → (j : ℕ) (d : Client) → d.fd ≢ 0
          → Cell j d
          → j < (seat fd ip port i old m).size
      below z j d n (inl (e, _)) = omega (arith, z.1)
      below z j d n (inr (_, q)) = omega (arith, z.0, t.live_below j d q n)

      same : (j k : ℕ) (d e : Client) → d.fd ≡ e.fd → d.fd ≢ 0 → Cell j d → Cell k e → j ≡ k
      same j k d e s n (inl (g, _)) (inl (h, _)) = g ∙ sym h
      same j k d e s n (inl (_, g)) (inr (_, q)) =
          absurd (a k e q (sym s ∙ ap (λ (x : Client). x.fd) g))
      same j k d e s n (inr (_, q)) (inl (_, g)) =
          absurd (a j d q (s ∙ ap (λ (x : Client). x.fd) g))
      same j k d e s n (inr (_, q)) (inr (_, r)) = t.distinct j k d e q r s n

  pub seat-HasUniqueNames : HasUniqueNames m → HasUniqueNames (seat fd ip port i old m)
  unfolding seat
  seat-HasUniqueNames u = record {
    unique = λ j k d e p q v w n s. go j k d e v w n s (cell j d p) (cell k e q);
  }
    where
      go :
          (j k : ℕ) (d e : Client)
          → d.fd ≢ 0
          → e.fd ≢ 0
          → j ≢ k
          → d.nickname ≡ e.nickname
          → Cell j d
          → Cell k e
          → d.nickname ≡ codes "(no name)"
      go j k d e v w n s (inl (_, g)) _ = ap (λ (x : Client). x.nickname) g
      go j k d e v w n s (inr _) (inl (_, g)) = s ∙ ap (λ (x : Client). x.nickname) g
      go j k d e v w n s (inr (_, p)) (inr (_, q)) = u.unique j k d e p q v w n s

  pub seat-HasLivePipes :
      free_index m ≡ some i
      → get_elem? m.clients i ≡ some old
      → HasLivePipes m
      → HasLivePipes (seat fd ip port i old m)
  unfolding seat
  seat-HasLivePipes f p l = record {
    sender = λ s r n. user s (l.sender s r n);
    receiver = λ s r n. user r (l.receiver s r n);
  }
    where
      b : BreaksAt (has_fd 0) (suc m.size) m.clients i
      b = free_index-BreaksAt m i f

      user : (s : ℕ) → IsUser m s → IsUser (seat fd ip port i old m) s
      user s h = record {
        place = h.place;
        client = h.client;
        numbered = h.numbered;
        within = h.within;
        here =
            get_elem?-set_ne m.clients i h.place newcomer
              (λ (e : i ≡ h.place). h.live (ground (arith, b.here, b.passes, h.here)))
            ∙ h.here;
        live = h.live;
      }
