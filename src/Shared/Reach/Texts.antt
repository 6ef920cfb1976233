-- ===== src/Shared/Reach/Texts.antt =====
-- The texts that are posted fit their array and are not empty.
use network_programming_demo.Prelude.{
  ℕ, zero, suc, ◌≤◌, [], ◌∷◌, some, ◌≡◌, refl, subst, ◌≢◌, length, take, Bool-cases, inl, inr, ltb,
  arith,
}
use network_programming_demo.Text.Bytes.{Bytes}
use network_programming_demo.Shared.Users.{entered, named, yelled, told, left}
use network_programming_demo.Shared.Fifo.{received_text, piped_text}
use network_programming_demo.Shared.State.{Client, cut, fit}
use network_programming_demo.Shared.Reach.Invariant.{IsMsg}

length-take_le : (n : ℕ) (s : Bytes) → length (take n s) ≤ n
length-take_le zero s = omega arith
length-take_le (suc n) [] = omega arith
length-take_le (suc n) (c ∷ s) = omega (arith, length-take_le n s)

cons_nonempty : (c : ℕ) (s : Bytes) → c ∷ s ≢ []
cons_nonempty c s e = cc

-- Every text that is posted begins with an asterisk.
pub cut-IsMsg : (s : Bytes) → s ≢ [] → IsMsg (cut s)
cut-IsMsg [] n = absurd (n refl)
cut-IsMsg (c ∷ s) n = record {
  nonempty = cons_nonempty c (take 1023 s);
  short = length-take_le 1024 (c ∷ s);
}

pub fit-IsMsg : (s msg : Bytes) → s ≢ [] → fit s ≡ some msg → IsMsg msg
fit-IsMsg s msg n e = elim (Bool-cases (ltb 1024 (length s))) [
  | inl g ↦ absurd (ground arith)
  | inr g ↦ subst IsMsg {y = msg} (ground arith) (record { nonempty = n; short = ground arith })
]

pub entered-ne-nil : (name ip : Bytes) (port : ℕ) → entered name ip port ≢ []
unfolding entered
entered-ne-nil name ip port = cons_nonempty _ _

pub named-ne-nil : (ip : Bytes) (port : ℕ) (name : Bytes) → named ip port name ≢ []
unfolding named
named-ne-nil ip port name = cons_nonempty _ _

pub yelled-ne-nil : (name text : Bytes) → yelled name text ≢ []
unfolding yelled
yelled-ne-nil name text = cons_nonempty _ _

pub told-ne-nil : (name text : Bytes) → told name text ≢ []
unfolding told
told-ne-nil name text = cons_nonempty _ _

pub left-ne-nil : (name : Bytes) → left name ≢ []
unfolding left
left-ne-nil name = cons_nonempty _ _

pub received_text-ne-nil : (c d : Client) (line : Bytes) → received_text c d line ≢ []
unfolding received_text
received_text-ne-nil c d line = cons_nonempty _ _

pub piped_text-ne-nil :
    (c : Client) (line : Bytes) (d : Client) (r : ℕ) → piped_text c line d r ≢ []
unfolding piped_text
piped_text-ne-nil c line d r = cons_nonempty _ _
