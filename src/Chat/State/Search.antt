-- ===== src/Chat/State/Search.antt =====
-- The search loops over the table of users, and the table after a write.
use network_programming_demo.Prelude.{
  ℕ, zero, suc, ◌≤◌, ◌<◌, List, [], ◌∷◌, none, some, Bool, true, false, length, get_elem?, ◌≡◌,
  refl, arith,
}
use network_programming_demo.Chat.State.{Client, first_where}

-- The loop breaks at `j`: the place passes the test, and none before it does.
pub record BreaksAt (test : Client → Bool) (n : ℕ) (cs : List Client) (j : ℕ) : Type 0 where
  pub client : Client
  pub here : get_elem? cs j ≡ some client
  pub passes : test client ≡ true
  pub within : j < n
  pub before : (k : ℕ) (d : Client) → k < j → get_elem? cs k ≡ some d → test d ≡ false

module _ (test : Client → Bool) where
  first_where_zero :
      (n : ℕ) (c : Client) (cs : List Client) → test c ≡ true → BreaksAt test (suc n) (c ∷ cs) 0
  first_where_zero n c cs e = record {
    client = c;
    here = refl;
    passes = e;
    within = omega arith;
    before = λ k d h. absurd (omega arith);
  }

  first_where_suc :
      (n : ℕ) (c : Client) (cs : List Client) (j : ℕ)
      → test c ≡ false
      → BreaksAt test n cs j
      → BreaksAt test (suc n) (c ∷ cs) (suc j)
  first_where_suc n c cs j e b = record {
    client = b.client;
    here = b.here;
    passes = b.passes;
    within = omega (arith, b.within);
    before = go;
  }
    where
      go : (k : ℕ) (d : Client) → k < suc j → get_elem? (c ∷ cs) k ≡ some d → test d ≡ false
      go zero d h p = ground arith
      go (suc k) d h p = b.before k d (omega arith) p

  pub first_where-BreaksAt :
      (n : ℕ) (cs : List Client) (j : ℕ) → first_where test n cs ≡ some j → BreaksAt test n cs j
  unfolding first_where
  first_where-BreaksAt zero cs j h = cc
  first_where-BreaksAt (suc n) [] j h = cc
  first_where-BreaksAt (suc n) (c ∷ cs) zero h = first_where_zero n c cs (ground arith)
  first_where-BreaksAt (suc n) (c ∷ cs) (suc j) h =
      first_where_suc n c cs j (ground arith) (first_where-BreaksAt n cs j (ground arith))

  pub first_where_of :
      (n : ℕ) (cs : List Client) (j : ℕ) (c : Client)
      → get_elem? cs j ≡ some c
      → test c ≡ true
      → j < n
      → ((k : ℕ) (d : Client) → k < j → get_elem? cs k ≡ some d → test d ≡ false)
      → first_where test n cs ≡ some j
  unfolding first_where
  first_where_of zero cs j c e p h b = absurd (omega arith)
  first_where_of (suc n) [] j c e p h b = cc
  first_where_of (suc n) (x ∷ cs) zero c e p h b = ground arith
  first_where_of (suc n) (x ∷ cs) (suc j) c e p h b = ground (
    arith,
    b 0 x (omega arith) refl,
    first_where_of n cs j c e p (omega arith) (λ k d l q. b (suc k) d (omega arith) q),
  )

pub lt_of_get_elem? {ℓ} :
    {A : Type ℓ} (xs : List A) (i : ℕ) (x : A) → get_elem? xs i ≡ some x → i < length xs
lt_of_get_elem? [] i x h = cc
lt_of_get_elem? (y ∷ xs) zero x h = omega arith
lt_of_get_elem? (y ∷ xs) (suc i) x h = omega (arith, lt_of_get_elem? xs i x h)

pub get_elem?_of_lt {ℓ} :
    {A : Type ℓ} (xs : List A) (i : ℕ) → i < length xs → (x : A) × (get_elem? xs i ≡ some x)
get_elem?_of_lt [] i h = elim h [ ]
get_elem?_of_lt (y ∷ xs) zero h = (y, refl)
get_elem?_of_lt (y ∷ xs) (suc i) h = get_elem?_of_lt xs i (omega arith)

pub get_elem?_ge {ℓ} : {A : Type ℓ} (xs : List A) (i : ℕ) → length xs ≤ i → get_elem? xs i ≡ none
get_elem?_ge [] i h = refl
get_elem?_ge (y ∷ xs) zero h = absurd (omega arith)
get_elem?_ge (y ∷ xs) (suc i) h = get_elem?_ge xs i (omega arith)
