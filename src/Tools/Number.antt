-- ===== src/Tools/Number.antt =====
-- project1/bin/number.cpp: the lines of standard input, numbered.
use network_programming_demo.Prelude.{
  ℕ, zero, suc, ◌+◌, ◌-◌, List, [], ◌∷◌, ◌++◌, ◌≡◌, refl, ◌≢◌, arith, All, All-append, length,
  replicate,
}
use network_programming_demo.Text.Bytes.{Bytes}
use network_programming_demo.Text.Find.{Lacks}
use network_programming_demo.Text.Decimal.{to_string, to_string-IsDigits, IsDigits}
use network_programming_demo.Text.Lines.{lines, unlines, lines-unlines, lines-Lacks}

-- `setw(4) << setfill(' ')`.
abbrev setw : ℕ → Bytes → Bytes
setw w s = replicate (w - length s) b' ' ++ s

abbrev pub numbered_line : ℕ → Bytes → Bytes
numbered_line n line = setw 4 (to_string n) ++ b' ' ∷ line

-- The loop with `lineno` before its increment.
number_from : ℕ → List Bytes → Bytes
number_from lineno [] = []
number_from lineno (line ∷ rest) =
    numbered_line (lineno + 1) line ++ b'\n' ∷ number_from (lineno + 1) rest

unfoldable pub number : Bytes → Bytes
unfolding number_from lines to_string
number input = number_from 0 (lines input)

abbrev pub numbered : ℕ → List Bytes → List Bytes
numbered n [] = []
numbered n (line ∷ rest) = numbered_line n line ∷ numbered (n + 1) rest

number_from-unlines : (n : ℕ) (ls : List Bytes) → number_from n ls ≡ unlines (numbered (n + 1) ls)
unfolding number_from
number_from-unlines n [] = refl
number_from-unlines n (l ∷ ls) = rw (number_from-unlines (n + 1) ls)

digits-Lacks : (s : Bytes) → IsDigits s → Lacks b'\n' s
digits-Lacks [] h = tt
digits-Lacks (c ∷ s) h = (ground arith, digits-Lacks s h.1)

spaces-Lacks : (n : ℕ) → Lacks b'\n' (replicate n b' ')
spaces-Lacks zero = tt
spaces-Lacks (suc n) = (omega arith, spaces-Lacks n)

numbered_line-Lacks : (n : ℕ) (l : Bytes) → Lacks b'\n' l → Lacks b'\n' (numbered_line n l)
numbered_line-Lacks n l h =
    All-append (λ c. c ≢ b'\n') (setw 4 (to_string n)) (b' ' ∷ l)
      (All-append (λ c. c ≢ b'\n') (replicate (4 - length (to_string n)) b' ') (to_string n)
        (spaces-Lacks (4 - length (to_string n)))
        (digits-Lacks (to_string n) (to_string-IsDigits n)))
      (omega arith, h)

numbered-Lacks :
    (n : ℕ) (ls : List Bytes) → All (Lacks b'\n') ls → All (Lacks b'\n') (numbered n ls)
numbered-Lacks n [] h = tt
numbered-Lacks n (l ∷ ls) h = (numbered_line-Lacks n l h.0, numbered-Lacks (n + 1) ls h.1)

number_lem : (input : Bytes) → number input ≡ number_from 0 (lines input)
unfolding number
number_lem input = refl

-- Line for line the output is the input, each line behind its number from 1 on.
lines-number : (input : Bytes) → lines (number input) ≡ numbered 1 (lines input)
lines-number input =
    rw (number_lem input, number_from-unlines 0 (lines input))
      (lines-unlines _ (numbered-Lacks 1 (lines input) (lines-Lacks input)))
