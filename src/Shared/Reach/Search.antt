-- ===== src/Shared/Reach/Search.antt =====
-- Places of the shared memory: the first free one, and writing at one.
use network_programming_demo.Prelude.{
  ℕ, zero, suc, [], ◌∷◌, some, get_elem?, set, ◌≡◌, refl, ap, arith,
}
use network_programming_demo.Shared.State.{Client, Shm}
use network_programming_demo.Shared.Users.{free_place, adjust}

pub adjust-set :
    (shm : Shm) (i : ℕ) (f : Client → Client) (c : Client)
    → get_elem? shm i ≡ some c
    → adjust shm i f ≡ set shm i (f c)
adjust-set [] i f c h = refl
adjust-set (x ∷ shm) zero f c h = ground arith
adjust-set (x ∷ shm) (suc i) f c h = ap (◌∷◌ x) (adjust-set shm i f c h)

pub free_place-some :
    (shm : Shm) (i : ℕ)
    → free_place shm ≡ some i
    → (c : Client) × (get_elem? shm i ≡ some c) × (c.id ≡ 0)
unfolding free_place
free_place-some [] i h = cc
free_place-some (c ∷ cs) zero h = (c, refl, ground arith)
free_place-some (c ∷ cs) (suc i) h = free_place-some cs i (ground arith)
