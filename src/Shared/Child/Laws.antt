-- ===== src/Shared/Child/Laws.antt =====
-- Where the child of a command writes to.
use network_programming_demo.Prelude.{
  ℕ, ◌<◌, some, >>=-eq-some, true, ◌≡◌, arith, Bool-cases, inl, inr,
}
use network_programming_demo.Text.Bytes.{Bytes}
use network_programming_demo.Simple.Line.{split_space}
use network_programming_demo.Simple.Child.{Args, Child, wire_error, wire_input, wire_output}
use network_programming_demo.Shared.Child.{
  wire, wire_pipe, wire_target, cut_input, cut_output, child,
}

wire-output :
    (a : Args) (w : ℕ)
    → (a.last ≡ true → a.get_input ≡ 3)
    → 2 < a.output
    → (wire a w).output ≡ a.output
unfolding wire wire_pipe wire_error wire_target wire_input wire_output
wire-output a w l o = elim (Bool-cases a.last) [
  | inl e ↦ ground (arith, e, l e)
  | inr e ↦ ground (arith, e)
]

-- A child that is not the last of its line, or whose line joins a pipe, writes to `output_fd`.
pub child-output :
    (path : Bytes) (a : Args) (w : ℕ) (cmd : Bytes) (k : Child)
    → (a.last ≡ true → a.get_input ≡ 3)
    → 2 < a.output
    → child path a w cmd ≡ some k
    → k.fds.output ≡ a.output
unfolding child
child-output path a w cmd k l o e =
    let (ops, _, f) = >>=-eq-some (cut_input 0 cmd (split_space cmd)) _ e in
    let (ops', _, g) = >>=-eq-some (cut_output cmd ops) _ f in
    let (ops'', _, i) = >>=-eq-some (cut_input 1 cmd ops') _ g in
    ground (arith, i, wire-output a w l o)
