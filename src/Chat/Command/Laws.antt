-- ===== src/Chat/Command/Laws.antt =====
-- What becomes of a command that reads from a user.
use network_programming_demo.Prelude.{
  ℕ, List, [], ◌∷◌, none, some, true, ◌≡◌, refl, sym, subst, ◌∙◌, arith, All, Bool-cases,
  Option-cases, inl, inr,
}
use network_programming_demo.Text.Bytes.{Bytes}
use network_programming_demo.Text.Find.{find}
use network_programming_demo.Chat.Talk.{split_space}
use network_programming_demo.Chat.Command.{
  cut_operands, has, order, cut_input, cut_output, child_operands,
}

-- What is left in front of a cut lacks the mark.
abbrev AllLack : ℕ → List Bytes → Type 0
AllLack mark = All (λ t. find mark t ≡ none)

cut_operands-AllLack :
    (mark : ℕ) (ops rest : List Bytes) → cut_operands mark ops ≡ some rest → AllLack mark rest
unfolding cut_operands
cut_operands-AllLack mark [] rest e = cc
cut_operands-AllLack mark (t ∷ ts) rest e = elim (Option-cases (find mark t)) [
  | inr (k, f) ↦ subst (AllLack mark) {x = []} {y = rest} (ground arith) tt
  | inl f ↦ elim (Option-cases (cut_operands mark ts)) [
    | inl g ↦ absurd (ground arith)
    | inr (front, g) ↦
        subst (AllLack mark) {x = t ∷ front} {y = rest} (ground arith)
          (f, cut_operands-AllLack mark ts front g)
  ]
]

AllLack-cut_operands :
    (mark other : ℕ) (ops rest : List Bytes)
    → AllLack mark ops
    → cut_operands other ops ≡ some rest
    → AllLack mark rest
unfolding cut_operands
AllLack-cut_operands mark other [] rest h e = cc
AllLack-cut_operands mark other (t ∷ ts) rest h e = elim (Option-cases (find other t)) [
  | inr (k, f) ↦ subst (AllLack mark) {x = []} {y = rest} (ground arith) tt
  | inl f ↦ elim (Option-cases (cut_operands other ts)) [
    | inl g ↦ absurd (ground arith)
    | inr (front, g) ↦
        subst (AllLack mark) {x = t ∷ front} {y = rest} (ground arith)
          (h.0, AllLack-cut_operands mark other ts front h.1 g)
  ]
]

AllLack-none : (mark : ℕ) (ops : List Bytes) → AllLack mark ops → cut_operands mark ops ≡ none
unfolding cut_operands
AllLack-none mark [] h = refl
AllLack-none mark (t ∷ ts) h = ground (arith, AllLack-none mark ts h.1, h.0)

cut_input_faults :
    (cmd : Bytes) (ops : List Bytes)
    → has b'<' cmd ≡ true
    → order cmd ≡ 0
    → AllLack b'<' ops
    → cut_input cmd ops ≡ none
unfolding cut_input
cut_input_faults cmd ops h o a = ground (arith, AllLack-none b'<' ops a)

cut_input-cut :
    (cmd : Bytes) (ops : List Bytes)
    → has b'<' cmd ≡ true
    → order cmd ≡ 0
    → cut_input cmd ops ≡ cut_operands b'<' ops
unfolding cut_input
cut_input-cut cmd ops h o = ground arith

cut_output-AllLack :
    (mark : ℕ) (cmd : Bytes) (ops rest : List Bytes)
    → AllLack mark ops
    → cut_output cmd ops ≡ some rest
    → AllLack mark rest
unfolding cut_output
cut_output-AllLack mark cmd ops rest a e = elim (Bool-cases (has b'>' cmd)) [
  | inl h ↦ AllLack-cut_operands mark b'>' ops rest a (rw (cut_output, h) at e)
  | inr h ↦ subst (AllLack mark) {x = ops} {y = rest} (ground arith) a
]

-- The child of a command with "<" never comes to run its program, unless a ">" with a number stands
-- behind: it looks for the operand with "<" a second time when it has already cut the operands there, and
-- gives strchr the null pointer.
pub child_operands_faults :
    (cmd : Bytes) → has b'<' cmd ≡ true → order cmd ≡ 0 → child_operands cmd ≡ none
unfolding child_operands
child_operands_faults cmd h o = elim (Option-cases (cut_input cmd (split_space cmd))) [
  | inl e ↦ ground (arith, e)
  | inr (ops, e) ↦ elim (Option-cases (cut_output cmd ops)) [
    | inl f ↦ ground (arith, e, f)
    | inr (ops', f) ↦
        let a =
          cut_operands-AllLack b'<' (split_space cmd) ops
            (sym (cut_input-cut cmd (split_space cmd) h o) ∙ e) in
        ground
          (arith, e, f, cut_input_faults cmd ops' h o (cut_output-AllLack b'<' cmd ops ops' a f))
  ]
]
