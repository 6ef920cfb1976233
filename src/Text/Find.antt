-- ===== src/Text/Find.antt =====
-- Searching a text for a byte and cutting it there.
use network_programming_demo.Prelude.{
  ℕ, suc, ◌+◌, List, [], ◌∷◌, ◌++◌, Option, none, some, ◌==◌, if◌then◌else◌, ◌≡◌, refl, arith,
  length, drop, All, ◌≢◌, Bool, true, false, ◌&&◌, ◌||◌,
}

-- std::string::find with a one-byte needle; `none` stands for npos.
unfoldable pub find : ℕ → List ℕ → Option ℕ
find d [] = none
find d (c ∷ s) =
    if c == d then some 0 else (elim (find d s) [ none ↦ none | some i ↦ some (suc i) ])

-- The byte does not occur.
abbrev pub Lacks : ℕ → List ℕ → Type 0
Lacks d = All (λ c. c ≢ d)

pub find-Lacks : (d : ℕ) (s : List ℕ) → Lacks d s → find d s ≡ none
unfolding find
find-Lacks d [] h = refl
find-Lacks d (c ∷ s) h = ground (arith, find-Lacks d s h.1)

pub find-append : (d : ℕ) (s t : List ℕ) → Lacks d s → find d (s ++ d ∷ t) ≡ some (length s)
unfolding find
find-append d [] t h = ground arith
find-append d (c ∷ s) t h = ground (arith, find-append d s t h.1)

pub drop_past : (d : ℕ) (s t : List ℕ) → drop (length s + 1) (s ++ d ∷ t) ≡ t
drop_past d [] t = ground arith
drop_past d (c ∷ s) t = ground (arith, drop_past d s t)

is_prefix : List ℕ → List ℕ → Bool
is_prefix [] s = true
is_prefix (d ∷ ds) [] = false
is_prefix (d ∷ ds) (c ∷ s) = c == d && is_prefix ds s

-- `strstr(s, word) != NULL`.
unfoldable pub contains : List ℕ → List ℕ → Bool
unfolding is_prefix
contains word [] = is_prefix word []
contains word (c ∷ s) = is_prefix word (c ∷ s) || contains word s
