-- ===== src/Text/Lines.antt =====
-- std::getline over a whole stream: the loop `while (getline(in, line))`.
use network_programming_demo.Prelude.{
  true, false, List, [], ◌∷◌, ◌++◌, ◌==◌, ◌≡◌, refl, ◌≢◌, arith, All, append_assoc, ◌∙◌, ap,
  append-nil, All-append, Bool-cases, inl, inr,
}
use network_programming_demo.Text.Bytes.{Bytes}
use network_programming_demo.Text.Find.{Lacks}

-- At the end of the stream a line with no byte is no line.
last_line : Bytes → List Bytes
last_line [] = []
last_line (c ∷ s) = (c ∷ s) ∷ []

lines_from : Bytes → Bytes → List Bytes
lines_from cur [] = last_line cur
lines_from cur (c ∷ s) = elim (c == b'\n') [
  | true ↦ cur ∷ lines_from [] s
  | false ↦ lines_from (cur ++ c ∷ []) s
]

unfoldable pub lines : Bytes → List Bytes
unfolding lines_from last_line
lines s = lines_from [] s

-- Each text with a newline behind it.
abbrev pub unlines : List Bytes → Bytes
unlines [] = []
unlines (l ∷ ls) = l ++ b'\n' ∷ unlines ls

lines_from-append :
    (cur l rest : Bytes)
    → Lacks b'\n' l
    → lines_from cur (l ++ b'\n' ∷ rest) ≡ (cur ++ l) ∷ lines_from [] rest
unfolding lines_from
lines_from-append cur [] rest h = rw append-nil
lines_from-append cur (c ∷ l) rest h =
    ground (arith, append_assoc cur (c ∷ []) l, lines_from-append (cur ++ c ∷ []) l rest h.1)

pub lines-unlines : (ls : List Bytes) → All (Lacks b'\n') ls → lines (unlines ls) ≡ ls
unfolding lines
lines-unlines [] h = refl
lines-unlines (l ∷ ls) h =
    lines_from-append [] l (unlines ls) h.0 ∙ ap (◌∷◌ l) (lines-unlines ls h.1)

last_line-Lacks : (cur : Bytes) → Lacks b'\n' cur → All (Lacks b'\n') (last_line cur)
unfolding last_line
last_line-Lacks [] h = tt
last_line-Lacks (c ∷ s) h = (h, tt)

lines_from-Lacks : (cur s : Bytes) → Lacks b'\n' cur → All (Lacks b'\n') (lines_from cur s)
unfolding lines_from
lines_from-Lacks cur [] h = last_line-Lacks cur h
lines_from-Lacks cur (c ∷ s) h = elim (Bool-cases (c == b'\n')) [
  | inl e ↦ rw (e, lines_from) (h, lines_from-Lacks [] s tt)
  | inr e ↦
      rw (e, lines_from)
        (lines_from-Lacks (cur ++ c ∷ []) s
          (All-append (λ c. c ≢ b'\n') cur (c ∷ []) h (ground arith, tt)))
]

pub lines-Lacks : (s : Bytes) → All (Lacks b'\n') (lines s)
unfolding lines
lines-Lacks s = lines_from-Lacks [] s tt
