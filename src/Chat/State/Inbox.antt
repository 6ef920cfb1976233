-- ===== src/Chat/State/Inbox.antt =====
-- What arrives where: the texts of a list of writes that go to one socket, and the loop over all
-- users, which reaches each of them once.
use network_programming_demo.Prelude.{
  ℕ, zero, suc, ◌<◌, List, [], ◌∷◌, some, if◌then◌else◌, get_elem?, ◌==◌, ◌≡◌, refl, sym, ◌≢◌,
  arith, replicate,
}
use network_programming_demo.Text.Bytes.{Bytes}
use network_programming_demo.Chat.State.{Client, Server, Out, sockets, sockets_from, to_all}
use network_programming_demo.Chat.State.Table.{IsTable}

abbrev pub inbox : ℕ → Out → List Bytes
inbox fd [] = []
inbox fd ((g, text) ∷ out) = let rest = inbox fd out in if g == fd then text ∷ rest else rest

abbrev pub count : ℕ → List ℕ → ℕ
count fd [] = 0
count fd (g ∷ gs) = let rest = count fd gs in if g == fd then suc rest else rest

pub inbox-to_all :
    (fd : ℕ) (gs : List ℕ) (text : Bytes) → inbox fd (to_all gs text) ≡ replicate (count fd gs) text
inbox-to_all fd [] text = refl
inbox-to_all fd (g ∷ gs) text = ground (arith, inbox-to_all fd gs text)

count_absent :
    (fd n : ℕ) (cs : List Client)
    → ((k : ℕ) (d : Client) → get_elem? cs k ≡ some d → d.fd ≢ fd)
    → count fd (sockets_from n cs) ≡ 0
unfolding sockets_from
count_absent fd zero cs h = refl
count_absent fd (suc n) [] h = refl
count_absent fd (suc n) (c ∷ cs) h =
    ground (arith, h 0 c refl, count_absent fd n cs (λ k d p. h (suc k) d p))

count_present :
    (fd n : ℕ) (cs : List Client) (j : ℕ) (c : Client)
    → fd ≢ 0
    → get_elem? cs j ≡ some c
    → c.fd ≡ fd
    → j < n
    → ((k : ℕ) (d : Client) → get_elem? cs k ≡ some d → d.fd ≡ fd → k ≡ j)
    → count fd (sockets_from n cs) ≡ 1
unfolding sockets_from
count_present fd zero cs j c v p e l u = absurd (omega arith)
count_present fd (suc n) [] j c v p e l u = cc
count_present fd (suc n) (x ∷ cs) zero c v p e l u =
    ground (arith, count_absent fd n cs (λ k d q f. absurd (omega (arith, u (suc k) d q f))))
count_present fd (suc n) (x ∷ cs) (suc j) c v p e l u = ground (
  arith,
  (λ (f : x.fd ≡ fd). u 0 x refl f),
  count_present fd n cs j c v p e (omega arith) (λ k d q f. omega (arith, u (suc k) d q f)),
)

-- A user's socket occurs once in the loop over all.
pub count-sockets :
    (m : Server) (j : ℕ) (c : Client)
    → IsTable m
    → get_elem? m.clients j ≡ some c
    → c.fd ≢ 0
    → count c.fd (sockets m) ≡ 1
unfolding sockets
count-sockets m j c t p v =
    count_present c.fd m.size m.clients j c v p refl (t.live_below j c p v)
      (λ k d q e. sym (t.distinct j k c d p q (sym e) v))

-- A socket of no user does not.
pub count-sockets_absent :
    (m : Server) (fd : ℕ)
    → ((k : ℕ) (d : Client) → get_elem? m.clients k ≡ some d → d.fd ≢ fd)
    → count fd (sockets m) ≡ 0
unfolding sockets
count-sockets_absent m fd h = count_absent fd m.size m.clients h
