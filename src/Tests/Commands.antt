-- ===== src/Tests/Commands.antt =====
-- Lines that the users of project2/np_single_proc.cpp send, and a console of project4.
use network_programming_demo.Prelude.{
  ◌↔◌, ◌∷◌, ◌+◌, ◌*◌, [], ◌++◌, none, some, true, false, get_elem?, set, replicate, ◌≡◌, refl,
  arith,
}
use network_programming_demo.Prelude.Int.{pos}
use network_programming_demo.Text.Bytes.{codes}
use network_programming_demo.Text.Find.{find}
use network_programming_demo.Simple.Exec.{Os}
use network_programming_demo.Simple.Child.{Args}
use network_programming_demo.Chat.Jobs.{PipeInfo, initial}
use network_programming_demo.Chat.Command.{read_line, child_operands, order}
use network_programming_demo.Chat.Command.Laws.{child_operands_faults}
use network_programming_demo.Chat.Exec.{World, Result, wrote, wire, serve}
use network_programming_demo.Simple.Line.{Line}
use network_programming_demo.Chat.Exec.Ends.{EndsBy, serve-ends}
use network_programming_demo.Chat.Exec.Wiring.{wire_between}
use network_programming_demo.Chat.Exec.Isolation.{serve-others}
use network_programming_demo.Web.Console.{Session}
use network_programming_demo.Web.Screen.{step, block, answered, block_shows_tail}
use network_programming_demo.Tests.Hall.{hall}

abbrev os : Os
os = record { pipe_end = λ k. (10 + 2 * k, 11 + 2 * k); malloc = λ k. (0, 0) }

-- Bob's pipe waits for his next line but one.
abbrev waiting : PipeInfo
waiting = record { input_num = 8; input_count = pos 2; output_num = 9; fd = 5 }

abbrev world : World
world = record {
  server = hall;
  jobs = record { client_pipe = set initial.client_pipe 0 waiting; pos = 1 };
  made = 0;
}

served : Result
unfolding serve
served = elim (serve os 4 (codes "cat |1") world) [ none ↦ (true, [], world) | some r ↦ r ]

served_lem : serve os 4 (codes "cat |1") world ≡ some served
unfolding serve served network_programming_demo.Chat.State.first_where
served_lem = refl

serve-others_example : get_elem? served.2.jobs.client_pipe 0 ≡ some waiting
serve-others_example =
    serve-others os 4 0 waiting (codes "cat |1") world served refl (omega arith) (omega arith)
      served_lem

abbrev middle : Args
middle = record {
  input = 8;
  first = true;
  last = false;
  enter = true;
  n_pipe_err = false;
  output = 4;
  get_input = 0;
}

between : wire 4 middle 11 ≡ record { input = 8; output = 11; error = 4 }
between = wire_between 4 middle 11 refl refl (omega arith) (omega arith) (omega arith)

child_operands_faults_example : child_operands (codes "cat <2") ≡ none
child_operands_faults_example =
    child_operands_faults (codes "cat <2") (unfold find in refl) (unfold order in refl)

abbrev console : Session
console = record { session_id = codes "s0"; cmd_str = []; reading = true; out = []; sent = [] }

block_shows_tail_example :
    step (block (codes "% ")) (record { data_ = codes "hello" ++ replicate 3 0; session = console })
    ≡ some (record {
      data_ = (codes "% " ++ codes "llo") ++ replicate 3 0;
      session = record (answered (codes "% " ++ codes "llo") console) { reading = true };
    })
block_shows_tail_example =
    block_shows_tail (codes "% ") (codes "hello") 2 console (omega arith, (omega arith, tt))
      (omega arith, (omega arith, (omega arith, (omega arith, (omega arith, tt))))) (omega arith)

serve-ends_example :
    (serve os 4 (codes "tell 2 exit") world ≡ some (true, wrote [] ∷ wrote [] ∷ [], world)) ↔ (
      (line : Line) × (read_line (codes "tell 2 exit") ≡ some line)
      × EndsBy 4 (codes "tell 2 exit") world (wrote [] ∷ wrote [] ∷ []) world line)
serve-ends_example = serve-ends os 4 (codes "tell 2 exit") world world (wrote [] ∷ wrote [] ∷ [])
