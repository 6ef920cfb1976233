-- ===== src/Chat/Exec/Wiring.antt =====
-- What a child reads and writes.
use network_programming_demo.Prelude.{ℕ, ◌<◌, false, ◌≡◌, arith, Bool-cases, inl, inr}
use network_programming_demo.Simple.Child.{Args, wire_error, wire_input, wire_output}
use network_programming_demo.Chat.Exec.{wire, wire_pipe}

-- A command that is not the last of its line and has an input, be it from the command in front or, for
-- the first one, from a numbered pipe or a user, reads that input, writes into its pipe, and reports
-- errors to the client.
pub wire_between :
    (fd : ℕ) (a : Args) (w : ℕ)
    → a.last ≡ false
    → a.n_pipe_err ≡ false
    → 2 < a.input
    → 2 < w
    → 2 < fd
    → wire fd a w ≡ record { input = a.input; output = w; error = fd }
unfolding wire wire_pipe wire_error wire_input wire_output
wire_between fd a w l p i o f = elim (Bool-cases a.first) [
  | inl g ↦ ground arith
  | inr g ↦ ground arith
]
