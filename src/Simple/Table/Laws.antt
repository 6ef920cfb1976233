-- ===== src/Simple/Table/Laws.antt =====
-- The table of numbered pipes: its bounds, and what the countdown does to an entry.
use network_programming_demo.Prelude.{
  ℕ, zero, suc, ◌≤◌, ◌<◌, List, [], ◌∷◌, some, true, false, length, length-set, get_elem?, ◌≡◌,
  refl, sym, ◌∙◌, ap, ◌≢◌, arith, Option-cases, inl, inr,
}
use network_programming_demo.Prelude.Int.{ℤ, pos, pred, ◌==ℤ◌, ==ℤ_iff, pred_pos}
use network_programming_demo.Simple.Table.{
  Entry, Table, Source, initial, reserve, count_down, store,
}

-- The arrays keep their size, and `pos` stays inside them.
pub record IsTable (t : Table) : Type 0 where
  pub sized : length t.entries ≡ 1024
  pub bounded : t.pos ≤ 1000

pub initial-IsTable : IsTable initial
initial-IsTable = record { sized = refl; bounded = omega arith }

pub reserve-IsTable : (n : ℤ) (t : Table) → IsTable t → IsTable (reserve n t)
unfolding reserve
reserve-IsTable n t h = elim (Option-cases (get_elem? t.entries t.pos)) [
  | inl e ↦ rw (reserve, e) h
  | inr (x, e) ↦
      rw (reserve, e)
        (record {
          sized = length-set t.entries t.pos (record x { input_count = n }) ∙ h.sized;
          bounded = h.bounded;
        })
]

pub store-IsTable : (i o : ℕ) (t : Table) → IsTable t → IsTable (store i o t)
unfolding store
store-IsTable i o t h = elim (Option-cases (get_elem? t.entries t.pos)) [
  | inl e ↦ rw (store, e) (record { sized = h.sized; bounded = ground arith })
  | inr (x, e) ↦
      rw (store, e)
        (record { sized = length-set t.entries t.pos _ ∙ h.sized; bounded = ground arith })
]

pub length-count_down :
    (n : ℕ) (s : Source) (es : List Entry) → length (count_down n s es).1 ≡ length es
unfolding count_down
length-count_down zero s es = refl
length-count_down (suc n) s [] = refl
length-count_down (suc n) s (e ∷ es) = ap suc (length-count_down n _ es)

-- An entry within the rounds counts down, and keeps its descriptors.
pub count_down_at :
    (n : ℕ) (s : Source) (es : List Entry) (p : ℕ) (e : Entry)
    → get_elem? es p ≡ some e
    → p < n
    → get_elem? (count_down n s es).1 p ≡ some (record e { input_count = pred e.input_count })
unfolding count_down
count_down_at zero s es p e h l = absurd (omega arith)
count_down_at (suc n) s [] p e h l = cc
count_down_at (suc n) s (x ∷ es) zero e h l = ground arith
count_down_at (suc n) s (x ∷ es) (suc p) e h l = count_down_at n _ es p e h (omega arith)

-- No entry in the rounds counts 1.
count_down_none :
    (n : ℕ) (s : Source) (es : List Entry)
    → ((q : ℕ) (d : Entry) → get_elem? es q ≡ some d → q < n → d.input_count ≢ pos 1)
    → (count_down n s es).0 ≡ s
unfolding count_down
count_down_none zero s es h = refl
count_down_none (suc n) s [] h = refl
count_down_none (suc n) s (x ∷ es) h =
    let no_one : (x.input_count ==ℤ pos 1) ≡ false =
      ground (arith, ==ℤ_iff x.input_count (pos 1), h 0 x refl (omega arith)) in
    rw (count_down, no_one) (count_down_none n s es (λ q d e l. h (suc q) d e (omega (arith, l))))

-- No other entry within the rounds has the count.
abbrev pub IsAlone : ℕ → ℕ → ℤ → List Entry → Type 0
IsAlone n p c es = (q : ℕ) (d : Entry) → get_elem? es q ≡ some d → q < n → q ≢ p → d.input_count ≢ c

-- The one entry that counts 1 is taken.
pub count_down_takes :
    (n : ℕ) (s : Source) (es : List Entry) (p : ℕ) (e : Entry)
    → get_elem? es p ≡ some e
    → e.input_count ≡ pos 1
    → IsAlone n p (pos 1) es
    → p < n
    → (count_down n s es).0 ≡ record { input = e.input_num; output = e.output_num; enter = true }
unfolding count_down
count_down_takes zero s es p e h c a l = absurd (omega arith)
count_down_takes (suc n) s [] p e h c a l = cc
count_down_takes (suc n) s (x ∷ es) zero e h c a l =
    let same : x ≡ e = ground arith in
    let one : (e.input_count ==ℤ pos 1) ≡ true = (==ℤ_iff e.input_count (pos 1)).1 c in
    rw (count_down, same, one)
      (count_down_none n (record { input = e.input_num; output = e.output_num; enter = true }) es
        (λ q d g b. a (suc q) d g (omega (arith, b)) (omega arith)))
count_down_takes (suc n) s (x ∷ es) (suc p) e h c a l =
    let no_one : (x.input_count ==ℤ pos 1) ≡ false =
      ground (arith, ==ℤ_iff x.input_count (pos 1), a 0 x refl (omega arith) (omega arith)) in
    rw (count_down, no_one)
      (count_down_takes n s es p e h c
        (λ q d g b o. a (suc q) d g (omega (arith, b)) (omega (arith, o))) (omega arith))

-- Entries that the rounds reach come from entries.
count_down_from :
    (n : ℕ) (s : Source) (es : List Entry) (q : ℕ) (d : Entry)
    → get_elem? (count_down n s es).1 q ≡ some d
    → (e : Entry) × (get_elem? es q ≡ some e)
unfolding count_down
count_down_from zero s es q d h = (d, h)
count_down_from (suc n) s [] q d h = cc
count_down_from (suc n) s (x ∷ es) zero d h = (x, refl)
count_down_from (suc n) s (x ∷ es) (suc q) d h = count_down_from n _ es q d h

pub count_down-IsAlone :
    (n : ℕ) (s : Source) (es : List Entry) (p k : ℕ)
    → IsAlone n p (pos (suc (suc k))) es
    → IsAlone n p (pos (suc k)) (count_down n s es).1
count_down-IsAlone n s es p k a q d h l o c =
    let (e, g) = count_down_from n s es q d h in
    let same : d ≡ record e { input_count = pred e.input_count } =
      ground (arith, count_down_at n s es q e g l, h) in
    a q e g l o (pred_pos e.input_count k (sym (ap (λ (x : Entry). x.input_count) same) ∙ c))
